-- ===== src/Ha/Wire/Defs.antt =====
-- ha/net.go: checksum, encoding and validation of an advertisement.
use seesaw.Base.{
  ℕ, zero, suc, ◌+◌, ◌-◌, ◌*◌, ◌/◌, ◌%◌, Bool, true, false, not, ◌&&◌, Option, none, some, List, [],
  ◌∷◌, ◌++◌, replicate, ◌==◌, if◌then◌else◌, u8, u32,
}
use seesaw.Ha.Node.Defs.{Advertisement}

abbrev pub vrrp_advert_size : ℕ
vrrp_advert_size = 8

-- `binary.Write(buf, binary.BigEndian, v)` of a `uint16`.
abbrev pub put_u16 : ℕ → List ℕ
put_u16 v = u8 (v / 256) ∷ u8 v ∷ []

abbrev pub get_u16 : ℕ → ℕ → ℕ
get_u16 hi lo = 256 * hi + lo

-- The fields of `advertisement` in order.
unfoldable pub encode : Advertisement → List ℕ
encode a =
    a.version_type
    ∷ a.vrid
    ∷ a.priority
    ∷ a.count_ip_addrs
    ∷ (put_u16 a.advert_int ++ put_u16 a.checksum)

unfoldable pub decode : List ℕ → Option Advertisement
decode (v ∷ r ∷ p ∷ c ∷ i1 ∷ i0 ∷ s1 ∷ s0 ∷ []) = some (record {
  version_type = v;
  vrid = r;
  priority = p;
  count_ip_addrs = c;
  advert_int = get_u16 i1 i0;
  checksum = get_u16 s1 s0;
})
decode _ = none

-- A `net.IP` as Go reads it: what `To4` accepts, what only `To16` accepts, and neither.
pub data Address : Type 0 where
  ip4 : (a b c d : ℕ) → Address
  ip6 : List ℕ → Address
  invalid : Address

abbrev pub to16 : Address → Option (List ℕ)
to16 (ip4 a b c d) = some (replicate 10 0 ++ (0xff ∷ 0xff ∷ a ∷ b ∷ c ∷ d ∷ []))
to16 (ip6 bytes) = some bytes
to16 invalid = none

abbrev pub same_bytes : List ℕ → List ℕ → Bool
same_bytes [] [] = true
same_bytes (x ∷ a) (y ∷ b) = x == y && same_bytes a b
same_bytes _ _ = false

-- `net.IP.Equal`
unfoldable pub same_address : Address → Address → Bool
same_address (ip4 a b c d) (ip4 e f g h) = a == e && b == f && c == g && d == h
same_address (ip6 a) (ip6 b) = same_bytes a b
same_address invalid invalid = true
same_address _ _ = false

-- The loop of `ipChecksum` over the words of the buffer; `uint32` wraps.
unfoldable pub sum_words : ℕ → List ℕ → ℕ
sum_words sum [] = sum
sum_words sum (x ∷ []) = u32 (sum + x * 256)
sum_words sum (x ∷ y ∷ b) = sum_words (u32 (sum + (x * 256 + y))) b

-- `for sum>>16 != 0 { sum = (sum & 0xffff) + (sum >> 16) }`, with fuel.
unfoldable pub fold : ℕ → ℕ → Option ℕ
fold zero sum = none
fold (suc fuel) sum =
    let rest = fold fuel (sum % 65536 + sum / 65536) in if sum / 65536 == 0 then some sum else rest

-- `uint16(^sum)`, for a sum below 2^16.
abbrev pub complement : ℕ → ℕ
complement sum = 65535 - sum

-- Two rounds are enough for any `uint32`.
unfoldable pub ip_checksum : List ℕ → Option ℕ
unfolding sum_words fold
ip_checksum b = elim (fold 3 (sum_words 0 b)) [ none ↦ none | some sum ↦ some (complement sum) ]

unfoldable pub ip6_pseudo_header : Option (List ℕ) → Option (List ℕ) → Option (List ℕ)
ip6_pseudo_header (some src) (some dst) =
    some (src ++ (dst ++ (0 ∷ 0 ∷ 0 ∷ vrrp_advert_size ∷ 0 ∷ 0 ∷ 0 ∷ 112 ∷ [])))
ip6_pseudo_header _ _ = none

-- The pseudo header of `checksum`; two addresses of different families count as IPv6.
unfoldable pub pseudo_header : Address → Address → Option (List ℕ)
unfolding ip6_pseudo_header
pseudo_header (ip4 a b c d) (ip4 e f g h) =
    some (a ∷ b ∷ c ∷ d ∷ e ∷ f ∷ g ∷ h ∷ 0 ∷ 112 ∷ put_u16 vrrp_advert_size)
pseudo_header src dst = ip6_pseudo_header (to16 src) (to16 dst)

-- `checksum`; `none` is its error.
unfoldable pub checksum : Advertisement → Address → Address → Option ℕ
checksum advert src dst = elim (pseudo_header src dst) [
  | none ↦ none
  | some header ↦ ip_checksum (header ++ encode advert)
]

pub record Conn : Type 0 where
  pub laddr : Address
  pub raddr : Address

-- `send` fills in a checksum that is 0, and writes the advertisement; `none` is an error.
unfoldable pub send : Conn → Advertisement → Option (Advertisement × List ℕ)
send c advert =
    if advert.checksum == 0
    then elim (checksum advert c.laddr c.raddr) [
      | none ↦ none
      | some sum ↦ let a = record advert { checksum = sum } in some (a, encode a)
    ]
    else some (advert, encode advert)

pub record Packet : Type 0 where
  pub src : Address
  pub dst : Address
  pub ttl : ℕ
  pub payload : List ℕ

-- The validation in `receive` of an advertisement that was decoded from a packet.
unfoldable pub validate : Conn → Packet → Advertisement → Option Advertisement
validate c p advert =
    if same_address p.src c.laddr
    then none
    else if not (p.ttl == 255)
    then none
    else elim (checksum advert p.src p.dst) [
      | none ↦ none
      | some sum ↦ if sum == 0 then some advert else none
    ]

-- `receive`, once `readPacket` gave a packet. `none`: the packet is dropped.
unfoldable pub receive : Conn → Packet → Option Advertisement
receive c p = elim (decode p.payload) [ none ↦ none | some advert ↦ validate c p advert ]
