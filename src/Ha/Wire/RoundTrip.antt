-- ===== src/Ha/Wire/RoundTrip.antt =====
-- ha/net.go: from the `send` of one node to the `receive` of the other.
use seesaw.Base.{
  ℕ, ◌+◌, ◌*◌, ◌%◌, ◌≤◌, ◌<◌, ◌≡◌, ◌≢◌, refl, ◌↔◌, false, none, some, List, ◌++◌, All, All-append,
  length, length-append, arith, ap, sym, ◌∙◌,
}
use seesaw.Ha.Node.Defs.{Advertisement}
use seesaw.Ha.Wire.Defs.{
  encode, decode, Address, ip4, ip6, invalid, to16, same_address, pseudo_header, ip6_pseudo_header,
  checksum, ip_checksum, complement, Conn, send, Packet, validate, receive,
}
use seesaw.Ha.Wire.Checksum.{
  words, IsPaired, IsByte, words-append, IsPaired-append, words_bound, ip_checksum_total,
  ip_checksum-eq-zero_iff, Folded,
}

abbrev pub IsAddress : Address → Type 0
IsAddress (ip4 a b c d) = IsByte a × IsByte b × IsByte c × IsByte d
IsAddress (ip6 bytes) = All IsByte bytes × IsPaired bytes × (length bytes ≡ 16)
IsAddress invalid = ⊥

pub record IsAdvertisement (a : Advertisement) : Type 0 where
  pub version_fits : a.version_type < 256
  pub vrid_fits : a.vrid < 256
  pub priority_fits : a.priority < 256
  pub count_fits : a.count_ip_addrs < 256
  pub int_fits : a.advert_int < 65536
  pub checksum_fits : a.checksum < 65536

-- The words of a header and an advertisement, summed.
abbrev pub field_sum : Advertisement → ℕ
field_sum a =
    a.version_type * 256
    + a.vrid
    + (a.priority * 256 + a.count_ip_addrs)
    + a.advert_int
    + a.checksum

words-encode : (a : Advertisement) → IsAdvertisement a → words (encode a) ≡ field_sum a
unfolding encode
words-encode a v = omega arith

decode-encode : (a : Advertisement) → IsAdvertisement a → decode (encode a) ≡ some a
unfolding decode encode
decode-encode a v = ground arith

record IsHeader (h : List ℕ) : Type 0 where
  paired : IsPaired h
  bytes : All IsByte h
  short : length h ≤ 40

abbrev Is16 : List ℕ → Type 0
Is16 bytes = All IsByte bytes × IsPaired bytes × (length bytes ≡ 16)

to16_total : (x : Address) → IsAddress x → (b : List ℕ) × (to16 x ≡ some b) × Is16 b
to16_total (ip4 a b c d) u = (_, refl, (omega arith, tt, refl))
to16_total (ip6 bytes) u = (bytes, refl, u)
to16_total invalid u = absurd u

ip6_pseudo_header_total :
    (x y : List ℕ)
    → Is16 x
    → Is16 y
    → (h : List ℕ) × (ip6_pseudo_header (some x) (some y) ≡ some h) × IsHeader h
unfolding ip6_pseudo_header
ip6_pseudo_header_total x y u v = (
  _,
  refl,
  record {
    paired = IsPaired-append x _ u.1 (IsPaired-append y _ v.1 tt);
    bytes = All-append IsByte x _ u.0 (All-append IsByte y _ v.0 (omega arith));
    short = omega (arith, length-append x _, length-append y _, u.2, v.2);
  },
)

-- `checksum` succeeds for any two addresses, also of different families.
pseudo_header_total :
    (x y : Address)
    → IsAddress x
    → IsAddress y
    → (h : List ℕ) × (pseudo_header x y ≡ some h) × IsHeader h
unfolding pseudo_header to16_total
pseudo_header_total (ip4 a b c d) (ip4 e f g h) u v =
    (_, refl, record { paired = tt; bytes = omega arith; short = omega arith })
pseudo_header_total (ip4 a b c d) (ip6 y) u v =
    let (bx, ex, ux) = to16_total (ip4 a b c d) u in ip6_pseudo_header_total bx y ux v
pseudo_header_total (ip6 x) (ip6 y) u v = ip6_pseudo_header_total x y u v
pseudo_header_total (ip6 x) (ip4 a b c d) u v =
    let (by, ey, uy) = to16_total (ip4 a b c d) v in ip6_pseudo_header_total x by u uy
pseudo_header_total x invalid u v = absurd v
pseudo_header_total invalid y u v = absurd u

-- The checksum of an advertisement, through the sum of its header.
module _ (x y : Address) {h : List ℕ} (built : pseudo_header x y ≡ some h) (hd : IsHeader h) where
  checked_words :
      (a : Advertisement)
      → IsAdvertisement a
      → (words (h ++ encode a) ≡ words h + field_sum a) × (words (h ++ encode a) < 4294967296)
  checked_words a v =
      let e : words (h ++ encode a) ≡ words h + field_sum a =
        words-append h (encode a) hd.paired ∙ ap (λ (t : ℕ). words h + t) (words-encode a v) in
      (e, omega (arith, words_bound h hd.bytes, e, hd.short, v))

  checksum-ip_checksum : (a : Advertisement) → checksum a x y ≡ ip_checksum (h ++ encode a)
  unfolding checksum
  checksum-ip_checksum a = rw (built, checksum)

  checksum_total :
      (a : Advertisement)
      → IsAdvertisement a
      → (r : ℕ) × (checksum a x y ≡ some (complement r)) × Folded (words h + field_sum a) r
  checksum_total a v =
      let (e, short) = checked_words a v in
      let (r, computed, folded) = ip_checksum_total (h ++ encode a) short in
      (r, checksum-ip_checksum a ∙ computed, rw e at folded)

  checksum-eq-zero_iff :
      (a : Advertisement)
      → IsAdvertisement a
      → (checksum a x y ≡ some 0)
        ↔ ((0 < words h + field_sum a) × ((words h + field_sum a) % 65535 ≡ 0))
  checksum-eq-zero_iff a v =
      let (e, short) = checked_words a v in
      rw (checksum-ip_checksum a, ← e) (ip_checksum-eq-zero_iff (h ++ encode a) short)

  -- Filling the checksum in makes the checksum of the whole 0.
  checksum_fills :
      (a : Advertisement)
      → IsAdvertisement a
      → a.checksum ≡ 0
      → (s : ℕ) × (checksum a x y ≡ some s)
        × (s < 65536)
        × (checksum (record a { checksum = s }) x y ≡ some 0)
  checksum_fills a v z =
      let (r, computed, folded) = checksum_total a v in
      (
        complement r,
        computed,
        omega (arith, folded.small),
        (checksum-eq-zero_iff (record a { checksum = complement r })
              (omega (arith, folded.small))).1
            (omega (arith, folded.same), omega (arith, folded.same)),
      )

abbrev pub packet_of : Conn → List ℕ → Packet
packet_of c bytes = record { src = c.laddr; dst = c.raddr; ttl = 255; payload = bytes }

receive-encode :
    (peer c : Conn) (b : Advertisement)
    → IsAdvertisement b
    → receive peer (packet_of c (encode b)) ≡ validate peer (packet_of c (encode b)) b
unfolding receive
receive-encode peer c b v = rw (decode-encode b v, receive)

validate_accepts :
    (peer : Conn) (p : Packet) (b : Advertisement)
    → same_address p.src peer.laddr ≡ false
    → p.ttl ≡ 255
    → checksum b p.src p.dst ≡ some 0
    → validate peer p b ≡ some b
unfolding validate
validate_accepts peer p b other hops sum = ground arith

validate_drops :
    (peer : Conn) (p : Packet) (b : Advertisement)
    → checksum b p.src p.dst ≢ some 0
    → validate peer p b ≡ none
unfolding validate
validate_drops peer p b sum = ground arith

validate_checked :
    (peer : Conn) (p : Packet) (a : Advertisement) {b : Advertisement}
    → validate peer p a ≡ some b
    → checksum a p.src p.dst ≡ some 0
unfolding validate
validate_checked peer p a e = ground arith

-- An advertisement with no checksum yet is sent with one, between any two well-formed addresses, and
-- every other node that reads those bytes, with a TTL of 255, accepts it: it receives what was sent
-- with the checksum filled in, and nothing else changed.
pub receive-send :
    (c peer : Conn) (a : Advertisement)
    → IsAddress c.laddr
    → IsAddress c.raddr
    → IsAdvertisement a
    → a.checksum ≡ 0
    → same_address c.laddr peer.laddr ≡ false
    → (b : Advertisement) × (bytes : List ℕ) × (send c a ≡ some (b, bytes))
      × (receive peer (packet_of c bytes) ≡ some b)
      × (b ≡ record a { checksum = b.checksum })
unfolding send
receive-send c peer a ul ur v z other =
    let (h, built, hd) = pseudo_header_total c.laddr c.raddr ul ur in
    let (s, computed, fits, verified) = checksum_fills c.laddr c.raddr built hd a v z in
    let b : Advertisement = record a { checksum = s } in
    let fit : IsAdvertisement b = omega (arith, fits) in
    (
      b,
      encode b,
      ground arith,
      receive-encode peer c b fit
          ∙ validate_accepts peer (packet_of c (encode b)) b other refl verified,
      refl,
    )

-- Of two well-formed advertisements from one node that differ in the priority alone, at most one is
-- accepted: a priority that is altered on the way is noticed.
pub altered_priority_dropped :
    (peer c : Conn) (a : Advertisement) (p : ℕ) {b : Advertisement}
    → IsAddress c.laddr
    → IsAddress c.raddr
    → IsAdvertisement a
    → p < 256
    → p ≢ a.priority
    → receive peer (packet_of c (encode a)) ≡ some b
    → receive peer (packet_of c (encode (record a { priority = p }))) ≡ none
altered_priority_dropped peer c a p ul ur v small ne got =
    let (h, built, hd) = pseudo_header_total c.laddr c.raddr ul ur in
    let b' : Advertisement = record a { priority = p } in
    let fit : IsAdvertisement b' = omega arith in
    let was : (words h + field_sum a) % 65535 ≡ 0 =
      ((checksum-eq-zero_iff c.laddr c.raddr built hd a v).0 (
        validate_checked peer (packet_of c (encode a)) a
          (sym (receive-encode peer c a v) ∙ got))).1 in
    receive-encode peer c b' fit
    ∙ validate_drops peer (packet_of c (encode b')) b' (λ sum.
      absurd (omega (arith, was, ((checksum-eq-zero_iff c.laddr c.raddr built hd b' fit).0 sum).1)))
