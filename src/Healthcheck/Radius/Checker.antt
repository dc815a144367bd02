-- ===== src/Healthcheck/Radius/Checker.antt =====
-- healthcheck/radius.go: what `RADIUSChecker` sends and what it makes of a response. `md5` is crypto/md5.
use seesaw.Base.{
  ℕ, zero, suc, ◌+◌, ◌/◌, ◌%◌, Bool, true, false, ◌&&◌, ◌||◌, Option, none, some, List, [], ◌∷◌,
  ◌++◌, ◌==◌, ltb, if◌then◌else◌, length,
}
use Prim.Native.Nat.{bit_xor}
use seesaw.Healthcheck.Radius.Packet.{
  RadiusAttribute, RadiusPacket, encode_attributes, Decoded, decode,
}

abbrev pub rc_access_request : ℕ
rc_access_request = 1

abbrev pub rc_access_accept : ℕ
rc_access_accept = 2

abbrev pub rc_access_reject : ℕ
rc_access_reject = 3

abbrev pub rc_access_challenge : ℕ
rc_access_challenge = 11

-- `Response`; `other_response` is any other text.
pub data Response : Type 0 where
  any accept challenge reject other_response : Response

pub record RadiusChecker : Type 0 where
  pub username : List ℕ
  pub password : List ℕ
  pub secret : List ℕ
  pub response : Response
  pub skip_response_auth : Bool

-- The last `switch` but one.
unfoldable pub wants : Response → ℕ → Bool
wants any code = true
wants accept code = code == rc_access_accept
wants challenge code = code == rc_access_challenge
wants reject code = code == rc_access_reject
wants other_response code = false

-- `bytes.Equal`
abbrev pub same_bytes : List ℕ → List ℕ → Bool
same_bytes [] [] = true
same_bytes (a ∷ rest_a) (b ∷ rest_b) = a == b && same_bytes rest_a rest_b
same_bytes _ _ = false

-- The items of a list, filled up with zeroes or cut to a length, as `copy` to a new slice does.
abbrev pub padded : ℕ → List ℕ → List ℕ
padded zero bytes = []
padded (suc n) [] = 0 ∷ padded n []
padded (suc n) (b ∷ bytes) = b ∷ padded n bytes

abbrev pub drop : ℕ → List ℕ → List ℕ
drop zero bytes = bytes
drop (suc n) [] = []
drop (suc n) (b ∷ bytes) = drop n bytes

abbrev pub xor_all : List ℕ → List ℕ → List ℕ
xor_all [] hash = []
xor_all (b ∷ block) [] = b ∷ block
xor_all (b ∷ block) (h ∷ hash) = bit_xor b h ∷ xor_all block hash

abbrev pub attribute : ℕ → List ℕ → RadiusAttribute
attribute ra_type value = record { ra_type = ra_type; length = 0; value = value }

module _ (md5 : List ℕ → List ℕ) where
  -- The loop of `radiusPassword` over so many blocks, the last one that was encoded before them, and what
  -- is left of the password.
  unfoldable pub password_blocks : List ℕ → ℕ → List ℕ → List ℕ → List ℕ
  password_blocks secret zero last left = []
  password_blocks secret (suc n) last left =
      let block = xor_all (padded 16 left) (md5 (secret ++ last)) in
      block ++ password_blocks secret n block (drop 16 left)

  -- `radiusPassword`: a password of more than 128 bytes is cut.
  unfoldable pub radius_password : List ℕ → List ℕ → List ℕ → List ℕ
  unfolding password_blocks
  radius_password passwd secret authenticator =
      let blocks = (length passwd + 15) / 16 in
      password_blocks secret (if ltb 8 blocks then 8 else blocks) authenticator passwd

  -- `responseAuthenticator`
  unfoldable pub response_authenticator : RadiusPacket → List ℕ → List ℕ → List ℕ
  unfolding encode_attributes
  response_authenticator rp request secret = md5 (
      rp.header.code
      ∷ rp.header.identifier
      ∷ (rp.header.length / 256)
      ∷ (rp.header.length % 256)
      ∷ (request ++ (encode_attributes rp.attributes ++ secret)))

  -- The packet that `Check` sends; `nas_ip` is the local address if it is an IPv4 address.
  unfoldable pub access_request :
      RadiusChecker → ℕ → List ℕ → List ℕ → Option (List ℕ) → RadiusPacket
  unfolding radius_password
  access_request hc identifier authenticator hostname nas_ip = record {
    header = record {
      code = rc_access_request;
      identifier = identifier;
      length = 0;
      authenticator = authenticator;
    };
    attributes =
        attribute 32 hostname
        ∷ attribute 1 hc.username
        ∷ attribute 2 (radius_password hc.password hc.secret authenticator)
        ∷ (elim nas_ip [ none ↦ [] | some ip ↦ attribute 4 ip ∷ [] ]
            ++ (attribute 61 (0 ∷ 0 ∷ 0 ∷ 5 ∷ []) ∷ attribute 6 (0 ∷ 0 ∷ 0 ∷ 1 ∷ []) ∷ []));
  }

  -- What `Check` makes of the datagram that answers its request.
  unfoldable pub check_response : RadiusChecker → ℕ → List ℕ → List ℕ → Bool
  unfolding response_authenticator wants decode
  check_response hc identifier authenticator reply = elim (decode reply) [
    | Decoded.out_of_fuel ↦ false
    | Decoded.failed ↦ false
    | Decoded.decoded rp ↦
        rp.header.identifier == identifier
        && (hc.skip_response_auth
            || same_bytes rp.header.authenticator
                (response_authenticator rp authenticator hc.secret))
        && wants hc.response rp.header.code
  ]
