-- ===== src/Healthcheck/Radius/Packet.antt =====
-- healthcheck/radius.go: packets, their encoding and their decoding. A `bytes.Reader` is the list of the
-- bytes that are left to read.
use seesaw.Base.{
  ℕ, zero, suc, ◌+◌, ◌-◌, ◌*◌, ◌/◌, ◌%◌, true, false, ◌||◌, Option, none, some, List, [], ◌∷◌, ◌++◌,
  ltb, u8, u16, if◌then◌else◌, length,
}

abbrev pub radius_header_size : ℕ
radius_header_size = 20

abbrev pub radius_maximum_size : ℕ
radius_maximum_size = 4096

pub record RadiusHeader : Type 0 where
  pub code : ℕ
  pub identifier : ℕ
  pub length : ℕ
  pub authenticator : List ℕ

pub record RadiusAttribute : Type 0 where
  pub ra_type : ℕ
  pub length : ℕ
  pub value : List ℕ

pub record RadiusPacket : Type 0 where
  pub header : RadiusHeader
  pub attributes : List RadiusAttribute

-- A read of so many bytes; `none` if there are fewer.
unfoldable pub read : ℕ → List ℕ → Option (List ℕ × List ℕ)
read zero bytes = some ([], bytes)
read (suc n) [] = none
read (suc n) (b ∷ bytes) = elim (read n bytes) [
  | none ↦ none
  | some (value, rest) ↦ some (b ∷ value, rest)
]

-- `radiusHeader.decode`
unfoldable pub decode_header : List ℕ → Option (RadiusHeader × List ℕ)
unfolding read
decode_header (code ∷ identifier ∷ hi ∷ lo ∷ bytes) = elim (read 16 bytes) [
  | none ↦ none
  | some (authenticator, rest) ↦ some (
    record {
      code = code;
      identifier = identifier;
      length = hi * 256 + lo;
      authenticator = authenticator;
    },
    rest,
  )
]
decode_header _ = none

-- `radiusHeader.encode`
unfoldable pub encode_header : RadiusHeader → List ℕ
encode_header h = h.code ∷ h.identifier ∷ (h.length / 256) ∷ (h.length % 256) ∷ h.authenticator

-- `radiusAttribute.decode`
unfoldable pub decode_attribute : List ℕ → Option (RadiusAttribute × List ℕ)
unfolding read
decode_attribute (ra_type ∷ n ∷ bytes) = if ltb n 2 then none else elim (read (n - 2) bytes) [
  | none ↦ none
  | some (value, rest) ↦ some (record { ra_type = ra_type; length = n; value = value }, rest)
]
decode_attribute _ = none

-- `radiusAttribute.encode` sets the length and returns the bytes.
abbrev pub sized : RadiusAttribute → RadiusAttribute
sized ra = record ra { length = u8 (2 + length ra.value) }

unfoldable pub encode_attribute : RadiusAttribute → List ℕ
encode_attribute ra = ra.ra_type ∷ (sized ra).length ∷ ra.value

pub data Attributes : Type 0 where
  out_of_fuel failed : Attributes
  decoded : List RadiusAttribute → Attributes

abbrev pub prepend : RadiusAttribute → Attributes → Attributes
prepend ra Attributes.out_of_fuel = Attributes.out_of_fuel
prepend ra Attributes.failed = Attributes.failed
prepend ra (Attributes.decoded ras) = Attributes.decoded (ra ∷ ras)

-- The loop of `radiusPacket.decode`, in which the length that is left is a `uint16`.
unfoldable pub decode_attributes : ℕ → ℕ → List ℕ → Attributes
unfolding decode_attribute
decode_attributes zero left bytes = Attributes.out_of_fuel
decode_attributes (suc fuel) left bytes = elim (ltb left 2) [
  | true ↦ Attributes.decoded []
  | false ↦ elim (decode_attribute bytes) [
    | none ↦ Attributes.failed
    | some (ra, rest) ↦ prepend ra (decode_attributes fuel (u16 (left + 65536 - ra.length)) rest)
  ]
]

pub data Decoded : Type 0 where
  out_of_fuel failed : Decoded
  decoded : RadiusPacket → Decoded

abbrev pub with_header : RadiusHeader → Attributes → Decoded
with_header h Attributes.out_of_fuel = Decoded.out_of_fuel
with_header h Attributes.failed = Decoded.failed
with_header h (Attributes.decoded ras) = Decoded.decoded (record { header = h; attributes = ras })

-- `radiusPacket.decode`
unfoldable pub decode : List ℕ → Decoded
unfolding decode_header decode_attributes
decode bytes = elim (decode_header bytes) [
  | none ↦ Decoded.failed
  | some (h, rest) ↦
      if ltb h.length radius_header_size || ltb radius_maximum_size h.length
      then Decoded.failed
      else with_header h
          (decode_attributes (suc (length rest)) (h.length - radius_header_size) rest)
]

-- The loop of `radiusPacket.encode`.
unfoldable pub encode_attributes : List RadiusAttribute → List ℕ
unfolding encode_attribute
encode_attributes [] = []
encode_attributes (ra ∷ ras) = encode_attribute ra ++ encode_attributes ras

unfoldable pub size_from : ℕ → List RadiusAttribute → ℕ
size_from n [] = n
size_from n (ra ∷ ras) = size_from (u16 (n + (sized ra).length)) ras

abbrev pub sized_all : List RadiusAttribute → List RadiusAttribute
sized_all [] = []
sized_all (ra ∷ ras) = sized ra ∷ sized_all ras

-- `radiusPacket.encode`: the packet with the lengths that it sets, and the bytes.
unfoldable pub encode : RadiusPacket → RadiusPacket × List ℕ
unfolding encode_header encode_attributes size_from
encode p =
    let h = record (p.header) { length = size_from radius_header_size p.attributes } in
    (
      record { header = h; attributes = sized_all p.attributes },
      encode_header h ++ encode_attributes p.attributes,
    )
