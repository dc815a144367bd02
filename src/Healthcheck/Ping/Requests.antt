-- ===== src/Healthcheck/Ping/Requests.antt =====
-- healthcheck/ping.go: the checksum of the echo request that a ping sends.
use seesaw.Base.{ℕ, ◌+◌, ◌*◌, ◌/◌, ◌<◌, ◌≡◌, ap, ◌∙◌, List, [], ◌∷◌, arith, replicate, u8, u32, All}
use Prim.Native.Nat.{bit_xor, bit_xor-bitwise}
use seesaw.Healthcheck.Ping.Echo.{
  icmp, copy, repeat, icmp_sum, folded, icmp_checksum, new_icmp_info_message,
  new_icmpv4_echo_request, new_icmp_echo_request, parse_icmp_echo_reply,
}
use seesaw.Healthcheck.Ping.Exchange.{filler}

bit_xor_zero : (b : ℕ) → bit_xor 0 b ≡ b
bit_xor_zero b = λ i. bit_xor-bitwise 0 b i

icmp_sum_shift : (s : ℕ) (msg : List ℕ) → s < 4294967296 → icmp_sum s msg ≡ u32 (s + icmp_sum 0 msg)
icmp_sum_shift s [] h = omega arith
icmp_sum_shift s (a ∷ []) h = omega arith
icmp_sum_shift s (a ∷ (b ∷ msg)) h = omega (
  arith,
  icmp_sum_shift (u32 (s + (256 * b + a))) msg (omega arith),
  icmp_sum_shift (u32 (0 + (256 * b + a))) msg (omega arith),
)

folded_bound : (s : ℕ) → folded s < 65536
folded_bound s = omega arith

-- A sum and its checksum add up to a checksum of 0.
folded_placed : (s : ℕ) → 0 < s → s < 2147483648 → folded (s + folded s) ≡ 0
folded_placed s pos h = omega arith

abbrev IsByte : ℕ → Type 0
IsByte b = b < 256

add_words : (t k w b c : ℕ) → k ≡ c → t + (k + w) + b ≡ t + ((256 * 0 + 0) + w) + b + c
add_words t k w b c h = omega (arith, h)

-- The words of a header and the sum of what follows, which does not come near the wrap.
header_sum :
    (t k1 k0 i1 i0 s1 s0 : ℕ) (body : List ℕ)
    → All IsByte (t ∷ k1 ∷ k0 ∷ i1 ∷ i0 ∷ s1 ∷ s0 ∷ [])
    → icmp_sum 0 body < 1073741824
    → icmp_sum 0 (t ∷ 0 ∷ k1 ∷ k0 ∷ i1 ∷ i0 ∷ s1 ∷ s0 ∷ body)
      ≡ t + ((256 * k0 + k1) + ((256 * i0 + i1) + (256 * s0 + s1))) + icmp_sum 0 body
header_sum t k1 k0 i1 i0 s1 s0 body (ht, (hk1, (hk0, (hi1, (hi0, (hs1, (hs0, _))))))) small =
    let s =
      u32 (u32 (u32 (u32 (0 + (0 + t)) + (256 * k0 + k1)) + (256 * i0 + i1)) + (256 * s0 + s1)) in
    let words : s ≡ t + ((256 * k0 + k1) + ((256 * i0 + i1) + (256 * s0 + s1))) = omega arith in
    omega (arith, words, icmp_sum_shift s body (omega arith))

-- A message is valid with its checksum in place.
checksum-placed :
    (t i1 i0 s1 s0 : ℕ) (body : List ℕ)
    → 0 < t
    → All IsByte (t ∷ i1 ∷ i0 ∷ s1 ∷ s0 ∷ [])
    → icmp_sum 0 body < 1073741824
    → let cs = icmp_checksum (t ∷ 0 ∷ 0 ∷ 0 ∷ i1 ∷ i0 ∷ s1 ∷ s0 ∷ body) in
      icmp_checksum (t ∷ 0 ∷ u8 cs ∷ u8 (cs / 256) ∷ i1 ∷ i0 ∷ s1 ∷ s0 ∷ body) ≡ 0
unfolding icmp_checksum
checksum-placed t i1 i0 s1 s0 body pos (ht, (hi1, (hi0, (hs1, (hs0, _))))) small =
    let s : ℕ = t + ((256 * 0 + 0) + ((256 * i0 + i1) + (256 * s0 + s1))) + icmp_sum 0 body in
    let cs = icmp_checksum (t ∷ 0 ∷ 0 ∷ 0 ∷ i1 ∷ i0 ∷ s1 ∷ s0 ∷ body) in
    let placed : cs ≡ folded s =
      ap (λ n. folded n)
        (header_sum t 0 0 i1 i0 s1 s0 body
          (ht, (omega arith, (omega arith, (hi1, (hi0, (hs1, (hs0, tt))))))) small) in
    let bound : cs < 65536 = omega (arith, placed, folded_bound s) in
    let low : u8 cs < 256 = omega arith in
    let high : u8 (cs / 256) < 256 = omega arith in
    let whole : 256 * u8 (cs / 256) + u8 cs ≡ cs = omega (arith, bound) in
    let after : icmp_sum 0 (t ∷ 0 ∷ u8 cs ∷ u8 (cs / 256) ∷ i1 ∷ i0 ∷ s1 ∷ s0 ∷ body)
        ≡ s + folded s =
      header_sum t (u8 cs) (u8 (cs / 256)) i1 i0 s1 s0 body
        (ht, (low, (high, (hi1, (hi0, (hs1, (hs0, tt))))))) small
      ∙ add_words t (256 * u8 (cs / 256) + u8 cs) ((256 * i0 + i1) + (256 * s0 + s1))
          (icmp_sum 0 body) (folded s) (whole ∙ placed) in
    let below : s < 2147483648 = omega arith in
    let above : 0 < s = omega (arith, pos) in ap (λ n. folded n) after ∙ folded_placed s above below

-- The echo request of a ping of an IPv4 target has the checker's id and sequence number, and a checksum
-- that is right.
pub icmp_checksum-new_icmp_echo_request :
    (id seqnum : ℕ)
    → id < 65536
    → seqnum < 65536
    → (icmp_checksum (new_icmp_echo_request icmp id seqnum 64 filler) ≡ 0)
      × ((parse_icmp_echo_reply (new_icmp_echo_request icmp id seqnum 64 filler)).id ≡ id)
      × ((parse_icmp_echo_reply (new_icmp_echo_request icmp id seqnum 64 filler)).seqnum ≡ seqnum)
unfolding new_icmp_echo_request new_icmpv4_echo_request new_icmp_info_message
icmp_checksum-new_icmp_echo_request id seqnum h k =
    let body = copy (repeat filler 4) (replicate 56 0) in
    let i1 = u8 (id / 256) in
    let i0 = u8 id in
    let s1 = u8 (seqnum / 256) in
    let s0 = u8 seqnum in
    let cs = icmp_checksum (8 ∷ 0 ∷ 0 ∷ 0 ∷ i1 ∷ i0 ∷ s1 ∷ s0 ∷ body) in
    (
      ap (λ k1. icmp_checksum (8 ∷ 0 ∷ k1 ∷ bit_xor 0 (u8 (cs / 256)) ∷ i1 ∷ i0 ∷ s1 ∷ s0 ∷ body))
            (bit_xor_zero (u8 cs))
          ∙ ap (λ k0. icmp_checksum (8 ∷ 0 ∷ u8 cs ∷ k0 ∷ i1 ∷ i0 ∷ s1 ∷ s0 ∷ body))
              (bit_xor_zero (u8 (cs / 256)))
          ∙ checksum-placed 8 i1 i0 s1 s0 body (omega arith)
              (omega arith, (omega arith, (omega arith, (omega arith, (omega arith, tt)))))
              (omega arith),
      omega (arith, h),
      omega (arith, k),
    )
