-- ===== src/Tests/Radius.antt =====
-- healthcheck/radius.go: a checker that wants an Access-Accept, and a server that sends one.
use seesaw.Base.{ℕ, ◌≢◌, ◌≤◌, ◌+◌, false, List, [], ◌∷◌, ◌++◌, replicate, length, refl, arith}
use seesaw.Healthcheck.Radius.Packet.{RadiusPacket, Decoded, decode, encode}
use seesaw.Healthcheck.Radius.Decode.{total, decode-ends, decode-total}
use seesaw.Healthcheck.Radius.Checker.{
  RadiusChecker, accept, attribute, wants, access_request, check_response,
}

program : Unit {0}
unfolding decode encode wants access_request check_response
program = tt

-- A digest of sixteen bytes.
abbrev digest : List ℕ → List ℕ
digest bytes = length bytes ∷ replicate 15 7

abbrev checker : RadiusChecker
checker = record {
  username = 117 ∷ [];
  password = 112 ∷ 119 ∷ [];
  secret = 115 ∷ [];
  response = accept;
  skip_response_auth = false;
}

abbrev request : List ℕ
request = replicate 16 5

abbrev response : RadiusPacket
response = record {
  header = record { code = 2; identifier = 9; length = 0; authenticator = replicate 16 0 };
  attributes = attribute 18 (79 ∷ 75 ∷ []) ∷ [];
}

abbrev datagram : List ℕ
datagram = 2 ∷ 9 ∷ 0 ∷ 24 ∷ (replicate 16 0 ++ (18 ∷ 4 ∷ 79 ∷ 75 ∷ []))

decode-ends_example : decode datagram ≢ Decoded.out_of_fuel
decode-ends_example = decode-ends datagram

abbrev packet : RadiusPacket
packet = record {
  header = record { code = 2; identifier = 9; length = 24; authenticator = replicate 16 0 };
  attributes = record { ra_type = 18; length = 4; value = 79 ∷ 75 ∷ [] } ∷ [];
}

decode-total_example :
    (20 ≤ packet.header.length)
    × (packet.header.length ≤ 4096)
    × (total packet.attributes + 20 ≤ packet.header.length)
    × (packet.header.length ≤ total packet.attributes + 21)
unfolding program
decode-total_example = decode-total datagram packet (omega arith) refl
