-- ===== src/Healthcheck/Radius/RoundTrip.antt =====
-- healthcheck/radius.go: decoding what was encoded.
use seesaw.Base.{
  ℕ, zero, suc, ◌+◌, ◌-◌, ◌*◌, ◌/◌, ◌%◌, ◌≤◌, ◌<◌, ◌≡◌, refl, false, some, List, [], ◌∷◌, ◌++◌,
  arith, ltb, All, length, length-append, u16,
}
use seesaw.Healthcheck.Radius.Packet.{
  RadiusHeader, RadiusAttribute, RadiusPacket, read, decode_header, encode_header, decode_attribute,
  sized, encode_attribute, Attributes, decode_attributes, with_header, Decoded, decode,
  encode_attributes, size_from, sized_all, encode,
}
use seesaw.Healthcheck.Radius.Decode.{total}

-- The value fits into an attribute, whose length is a `uint8`.
abbrev pub Fits : RadiusAttribute → Type 0
Fits ra = length ra.value ≤ 253

read-append : (value rest : List ℕ) → read (length value) (value ++ rest) ≡ some (value, rest)
unfolding read
read-append [] rest = refl
read-append (b ∷ value) rest = ground (arith, read-append value rest)

decode_attribute-encode :
    (ra : RadiusAttribute) (rest : List ℕ)
    → Fits ra
    → decode_attribute (encode_attribute ra ++ rest) ≡ some (sized ra, rest)
unfolding decode_attribute encode_attribute
decode_attribute-encode ra rest fits =
    let size : (2 + length ra.value) % 256 ≡ 2 + length ra.value = omega arith in
    let value : (2 + length ra.value) - 2 ≡ length ra.value = omega arith in
    ground (arith, read-append ra.value rest)

length-encode_attributes :
    (ras : List RadiusAttribute)
    → All Fits ras
    → length (encode_attributes ras) ≡ total (sized_all ras)
unfolding encode_attributes encode_attribute
length-encode_attributes [] fit = refl
length-encode_attributes (ra ∷ ras) fit =
    ground
      (arith, length-append ra.value (encode_attributes ras), length-encode_attributes ras fit.1)

length_attribute :
    (ra : RadiusAttribute) (rest : List ℕ)
    → length (encode_attribute ra ++ rest) ≡ 2 + length ra.value + length rest
unfolding encode_attribute
length_attribute ra rest = omega (arith, length-append ra.value rest)

decode_attributes-encode :
    (fuel : ℕ) (ras : List RadiusAttribute)
    → All Fits ras
    → length (encode_attributes ras) < fuel
    → total (sized_all ras) < 65536
    → decode_attributes fuel (total (sized_all ras)) (encode_attributes ras)
      ≡ Attributes.decoded (sized_all ras)
unfolding decode_attributes encode_attributes
decode_attributes-encode zero ras fit enough short = absurd (omega arith)
decode_attributes-encode (suc fuel) [] fit enough short = refl
decode_attributes-encode (suc fuel) (ra ∷ ras) fit enough short =
    let rest = encode_attributes ras in
    let size : (sized ra).length ≡ 2 + length ra.value = omega (arith, fit.0) in
    let bytes : length (encode_attribute ra ++ rest) ≡ 2 + length ra.value + length rest =
      length_attribute ra rest in
    let back : u16 (total (sized_all (ra ∷ ras)) + 65536 - (sized ra).length)
        ≡ total (sized_all ras) =
      omega arith in
    let more : ltb (total (sized_all (ra ∷ ras))) 2 ≡ false = ground (arith, size) in
    ground (
      arith,
      decode_attribute-encode ra rest fit.0,
      back,
      decode_attributes-encode fuel ras fit.1 (omega arith) (omega arith),
    )

size_from-total :
    (n : ℕ) (ras : List RadiusAttribute)
    → n + total (sized_all ras) < 65536
    → size_from n ras ≡ n + total (sized_all ras)
unfolding size_from
size_from-total n [] short = omega arith
size_from-total n (ra ∷ ras) short =
    ground (arith, size_from-total ((n + (sized ra).length) % 65536) ras)

-- The authenticator is an array of sixteen bytes.
abbrev pub IsHeader : RadiusHeader → Type 0
IsHeader h = length h.authenticator ≡ 16

decode_header-encode :
    (h : RadiusHeader) (rest : List ℕ)
    → IsHeader h
    → decode_header (encode_header h ++ rest) ≡ some (h, rest)
unfolding decode_header encode_header
decode_header-encode h rest is16 =
    let value : read 16 (h.authenticator ++ rest) ≡ some (h.authenticator, rest) =
      rw (← is16) (read-append h.authenticator rest) in
    let number : h.length / 256 * 256 + h.length % 256 ≡ h.length = omega arith in
    ground (arith, value, number)

decode_rest :
    (bytes : List ℕ) (h : RadiusHeader) (rest : List ℕ)
    → decode_header bytes ≡ some (h, rest)
    → 20 ≤ h.length
    → h.length ≤ 4096
    → decode bytes ≡ with_header h (decode_attributes (suc (length rest)) (h.length - 20) rest)
unfolding decode
decode_rest bytes h rest e least most = ground arith

-- A packet that is encoded decodes to itself, with the lengths that the encoding sets, if each value has
-- 253 bytes at most, the packet 4096 bytes at most and the authenticator sixteen.
pub decode-encode :
    (p : RadiusPacket)
    → IsHeader p.header
    → All Fits p.attributes
    → 20 + total (sized_all p.attributes) ≤ 4096
    → decode (encode p).1 ≡ Decoded.decoded (encode p).0
unfolding encode
decode-encode p header fit small =
    let size = size_from-total 20 p.attributes (omega arith) in
    let h = record (p.header) { length = size_from 20 p.attributes } in
    let rest = encode_attributes p.attributes in
    let left : h.length - 20 ≡ total (sized_all p.attributes) = omega arith in
    let whole =
      decode_rest (encode_header h ++ rest) h rest (decode_header-encode h rest header)
        (omega arith) (omega arith) in
    let parts =
      decode_attributes-encode (suc (length rest)) p.attributes fit (omega arith) (omega arith) in
    ground (arith, whole, left, parts)
