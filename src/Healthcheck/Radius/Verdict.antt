-- ===== src/Healthcheck/Radius/Verdict.antt =====
-- healthcheck/radius.go: the request that `Check` sends, and what it makes of a server's response.
use seesaw.Base.{
  ℕ, zero, suc, ◌+◌, ◌*◌, ◌/◌, ◌≤◌, ◌≡◌, refl, Option, none, some, List, [], ◌∷◌, ◌++◌, arith, ltb,
  if◌then◌else◌, length, length-append,
}
use seesaw.Healthcheck.Radius.Packet.{RadiusPacket, Decoded, decode, encode}
use seesaw.Healthcheck.Radius.RoundTrip.{decode-encode}
use seesaw.Healthcheck.Radius.Checker.{
  RadiusChecker, padded, drop, xor_all, password_blocks, radius_password, response_authenticator,
  access_request,
}

length-padded : (n : ℕ) (bytes : List ℕ) → length (padded n bytes) ≡ n
length-padded zero bytes = refl
length-padded (suc n) [] = omega (arith, length-padded n [])
length-padded (suc n) (b ∷ bytes) = omega (arith, length-padded n bytes)

length-xor_all : (block hash : List ℕ) → length (xor_all block hash) ≡ length block
length-xor_all [] hash = refl
length-xor_all (b ∷ block) [] = refl
length-xor_all (b ∷ block) (h ∷ hash) = omega (arith, length-xor_all block hash)

abbrev pub IsNasIp : Option (List ℕ) → Type 0
IsNasIp none = Unit
IsNasIp (some ip) = length ip ≡ 4

module _ (md5 : List ℕ → List ℕ) where
  length-password_blocks :
      (secret : List ℕ) (n : ℕ) (last left : List ℕ)
      → length (password_blocks md5 secret n last left) ≡ 16 * n
  unfolding password_blocks
  length-password_blocks secret zero last left = refl
  length-password_blocks secret (suc n) last left =
      let block = xor_all (padded 16 left) (md5 (secret ++ last)) in
      omega (
        arith,
        length-append block (password_blocks md5 secret n block (drop 16 left)),
        length-xor_all (padded 16 left) (md5 (secret ++ last)),
        length-padded 16 left,
        length-password_blocks secret n block (drop 16 left),
      )

  length-radius_password :
      (passwd secret authenticator : List ℕ)
      → length (radius_password md5 passwd secret authenticator) ≤ 128
  unfolding radius_password
  length-radius_password passwd secret authenticator =
      let blocks = (length passwd + 15) / 16 in
      let n = (if ltb 8 blocks then 8 else blocks) in
      let most : n ≤ 8 = ground arith in
      omega (arith, length-password_blocks secret n authenticator passwd)

  -- The server's response: its authenticator is what the secret and the request make of the rest.
  abbrev pub signed : RadiusPacket → List ℕ → List ℕ → RadiusPacket
  signed p request secret = record p {
    header = record (p.header) {
      authenticator = response_authenticator md5 (encode p).0 request secret;
    };
  }

  -- The request that is sent decodes to itself, whatever the password, if the names of the host and of
  -- the user have 253 bytes at most and the local address, if one is sent, has four.
  pub decode-access_request :
      (hc : RadiusChecker) (identifier : ℕ) (request hostname : List ℕ) (nas_ip : Option (List ℕ))
      → length request ≡ 16
      → length hostname ≤ 253
      → length hc.username ≤ 253
      → IsNasIp nas_ip
      → decode (encode (access_request md5 hc identifier request hostname nas_ip)).1
        ≡ Decoded.decoded (encode (access_request md5 hc identifier request hostname nas_ip)).0
  unfolding access_request
  decode-access_request hc identifier request hostname none is16 host user no_ip =
      let password = length-radius_password hc.password hc.secret request in
      decode-encode (access_request md5 hc identifier request hostname none) is16
        (host, (user, (omega arith, (omega arith, (omega arith, tt))))) (omega arith)
  decode-access_request hc identifier request hostname (some ip) is16 host user is4 =
      let password = length-radius_password hc.password hc.secret request in
      decode-encode (access_request md5 hc identifier request hostname (some ip)) is16
        (host, (user, (omega arith, (omega arith, (omega arith, (omega arith, tt)))))) (omega arith)
