-- ===== src/Healthcheck/Radius/Decode.antt =====
-- healthcheck/radius.go: what `radiusPacket.decode` accepts, and that it ends.
use seesaw.Base.{
  ℕ, zero, suc, ◌+◌, ◌-◌, ◌≤◌, ◌<◌, ◌≡◌, ◌≢◌, refl, ap, false, ◌||◌, some, List, [], ◌∷◌, arith,
  ltb, Bool-cases, Option-cases, inl, inr, length, u16,
}
use seesaw.Healthcheck.Radius.Packet.{
  RadiusHeader, RadiusAttribute, RadiusPacket, read, decode_header, decode_attribute, Attributes,
  prepend, decode_attributes, with_header, Decoded, decode,
}

read_length :
    (n : ℕ) (bytes value rest : List ℕ)
    → read n bytes ≡ some (value, rest)
    → (length value ≡ n) × (length bytes ≡ n + length rest)
unfolding read
read_length zero bytes value rest h = ground arith
read_length (suc n) [] value rest h = absurd (ground arith)
read_length (suc n) (b ∷ bytes) value rest h = elim (Option-cases (read n bytes)) [
  | inl e ↦ absurd (ground arith)
  | inr ((v, r), e) ↦ ground (arith, read_length n bytes v r e)
]

-- The bytes that an attribute takes are as many as it says.
decode_attribute_length :
    (bytes : List ℕ) (ra : RadiusAttribute) (rest : List ℕ)
    → decode_attribute bytes ≡ some (ra, rest)
    → (2 ≤ ra.length) × (length bytes ≡ ra.length + length rest)
unfolding decode_attribute
decode_attribute_length [] ra rest h = absurd (ground arith)
decode_attribute_length (t ∷ []) ra rest h = absurd (ground arith)
decode_attribute_length (t ∷ n ∷ bytes) ra rest h = elim (Option-cases (read (n - 2) bytes)) [
  | inl e ↦ absurd (ground arith)
  | inr ((v, r), e) ↦ ground (arith, read_length (n - 2) bytes v r e)
]

abbrev pub total : List RadiusAttribute → ℕ
total [] = 0
total (ra ∷ ras) = ra.length + total ras

decode_attributes_fuel :
    (fuel left : ℕ) (bytes : List ℕ)
    → length bytes < fuel
    → decode_attributes fuel left bytes ≢ Attributes.out_of_fuel
unfolding decode_attributes
decode_attributes_fuel zero left bytes enough = absurd (omega arith)
decode_attributes_fuel (suc fuel) left bytes enough = elim (Option-cases (decode_attribute bytes)) [
  | inl e ↦ ground arith
  | inr ((ra, rest), e) ↦ ground (
    arith,
    decode_attribute_length bytes ra rest e,
    decode_attributes_fuel fuel (u16 (left + 65536 - ra.length)) rest,
  )
]

prepend-decoded :
    (ra : RadiusAttribute) (r : Attributes) (ras : List RadiusAttribute)
    → prepend ra r ≡ Attributes.decoded ras
    → (ras' : List RadiusAttribute) × (r ≡ Attributes.decoded ras') × (ras ≡ ra ∷ ras')
prepend-decoded ra Attributes.out_of_fuel ras h = absurd (ground arith)
prepend-decoded ra Attributes.failed ras h = absurd (ground arith)
prepend-decoded ra (Attributes.decoded ras') ras h = (ras', refl, ground arith)

-- What is left of the length, up to the wrap of `uint16`.
decode_attributes-total :
    (fuel left : ℕ) (bytes : List ℕ) (ras : List RadiusAttribute)
    → left < 65536
    → length bytes < 65536
    → decode_attributes fuel left bytes ≡ Attributes.decoded ras
    → (total ras ≤ length bytes) × (u16 (left + 65536 - total ras) < 2)
unfolding decode_attributes
decode_attributes-total zero left bytes ras h short d = absurd (ground arith)
decode_attributes-total (suc fuel) left bytes ras h short d = elim (Bool-cases (ltb left 2)) [
  | inl over ↦ ground arith
  | inr more ↦ elim (Option-cases (decode_attribute bytes)) [
    | inl e ↦ absurd (ground arith)
    | inr ((ra, rest), e) ↦
        let taken = decode_attribute_length bytes ra rest e in
        let left' = u16 (left + 65536 - ra.length) in
        let (ras', r, same) =
          prepend-decoded ra (decode_attributes fuel left' rest) ras (ground arith) in
        let below = decode_attributes-total fuel left' rest ras' (omega arith) (omega arith) r in
        let sum : total ras ≡ ra.length + total ras' = ap total same in omega arith
  ]
]

decode_header_length :
    (bytes : List ℕ) (h : RadiusHeader) (rest : List ℕ)
    → decode_header bytes ≡ some (h, rest)
    → length bytes ≡ 20 + length rest
unfolding decode_header
decode_header_length [] h rest e = absurd (ground arith)
decode_header_length (a ∷ []) h rest e = absurd (ground arith)
decode_header_length (a ∷ b ∷ []) h rest e = absurd (ground arith)
decode_header_length (a ∷ b ∷ c ∷ []) h rest e = absurd (ground arith)
decode_header_length (a ∷ b ∷ c ∷ d ∷ bytes) h rest e = elim (Option-cases (read 16 bytes)) [
  | inl f ↦ absurd (ground arith)
  | inr ((v, r), f) ↦ ground (arith, read_length 16 bytes v r f)
]

with_header-decoded :
    (h : RadiusHeader) (r : Attributes) (p : RadiusPacket)
    → with_header h r ≡ Decoded.decoded p
    → (ras : List RadiusAttribute) × (r ≡ Attributes.decoded ras)
      × (p ≡ record { header = h; attributes = ras })
with_header-decoded h Attributes.out_of_fuel p e = absurd (ground arith)
with_header-decoded h Attributes.failed p e = absurd (ground arith)
with_header-decoded h (Attributes.decoded ras) p e = (ras, refl, ground arith)

header_range : (n : ℕ) → (ltb n 20 || ltb 4096 n) ≡ false → (20 ≤ n) × (n ≤ 4096)
header_range n h = ground arith

-- With its fuel, which is one more than the bytes after the header, `decode` always comes to a result.
pub decode-ends : (bytes : List ℕ) → decode bytes ≢ Decoded.out_of_fuel
unfolding decode
decode-ends bytes = elim (Option-cases (decode_header bytes)) [
  | inl e ↦ ground arith
  | inr ((h, rest), e) ↦
      ground (arith, decode_attributes_fuel (suc (length rest)) (h.length - 20) rest (omega arith))
]

-- A packet that is decoded from a datagram of the largest size at most has attributes whose lengths
-- sum up to its own length less the header, or to one less: an attribute never reaches beyond the
-- packet, although the length that is left wraps when one does.
pub decode-total :
    (bytes : List ℕ) (p : RadiusPacket)
    → length bytes ≤ 4096
    → decode bytes ≡ Decoded.decoded p
    → (20 ≤ p.header.length)
      × (p.header.length ≤ 4096)
      × (total p.attributes + 20 ≤ p.header.length)
      × (p.header.length ≤ total p.attributes + 21)
unfolding decode
decode-total bytes p small d = elim (Option-cases (decode_header bytes)) [
  | inl e ↦ absurd (ground arith)
  | inr ((h, rest), e) ↦ elim (Bool-cases (ltb h.length 20 || ltb 4096 h.length)) [
    | inl wrong ↦ absurd (ground arith)
    | inr right ↦
        let got = decode_attributes (suc (length rest)) (h.length - 20) rest in
        let (ras, r, same) = with_header-decoded h got p (ground arith) in
        let size = decode_header_length bytes h rest e in
        let (least, most) = header_range h.length right in
        let below =
          decode_attributes-total (suc (length rest)) (h.length - 20) rest ras (omega arith)
            (omega arith) r in
        let header : p.header.length ≡ h.length = ap (λ (q : RadiusPacket). q.header.length) same in
        let sum : total p.attributes ≡ total ras =
          ap (λ (q : RadiusPacket). total q.attributes) same in
        omega arith
  ]
]
