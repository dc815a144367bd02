-- ===== src/Healthcheck/Ping/Buffer.antt =====
-- healthcheck/ping.go: what a buffer holds after a read, and the checksum of all of it.
use seesaw.Base.{
  subst, sym, ℕ, zero, suc, ◌+◌, ◌*◌, ◌<◌, ◌≤◌, ◌≡◌, refl, ap, ◌∙◌, List, [], ◌∷◌, ◌++◌, arith, All,
  length, replicate, u32,
}
use seesaw.Healthcheck.Radius.Checker.{drop}
use seesaw.Healthcheck.Ping.Echo.{copy, icmp_sum}

pub length-copy : (bytes buffer : List ℕ) → length (copy bytes buffer) ≡ length buffer
length-copy [] buffer = refl
length-copy (b ∷ bytes) [] = refl
length-copy (b ∷ bytes) (old ∷ buffer) = omega (arith, length-copy bytes buffer)

-- A read leaves what is behind its bytes.
pub copy-append :
    (bytes buffer : List ℕ)
    → length bytes ≤ length buffer
    → copy bytes buffer ≡ bytes ++ drop (length bytes) buffer
copy-append [] buffer h = refl
copy-append (b ∷ bytes) [] h = absurd (omega arith)
copy-append (b ∷ bytes) (old ∷ buffer) h = ap (λ l. b ∷ l) (copy-append bytes buffer (omega arith))

pub drop-copy :
    (n : ℕ) (bytes buffer : List ℕ) → length bytes ≤ n → drop n (copy bytes buffer) ≡ drop n buffer
drop-copy n [] buffer h = refl
drop-copy n (b ∷ bytes) [] h = refl
drop-copy zero (b ∷ bytes) (old ∷ buffer) h = absurd (omega arith)
drop-copy (suc n) (b ∷ bytes) (old ∷ buffer) h = drop-copy n bytes buffer (omega arith)

abbrev pub IsZero : ℕ → Type 0
IsZero b = b ≡ 0

pub drop-IsZero : (n k : ℕ) → All IsZero (drop n (replicate k 0))
drop-IsZero zero zero = tt
drop-IsZero (suc n) zero = tt
drop-IsZero zero (suc k) = (refl, drop-IsZero zero k)
drop-IsZero (suc n) (suc k) = drop-IsZero n k

pub length-replicate : (k : ℕ) → length {A = ℕ} (replicate k 0) ≡ k
length-replicate zero = refl
length-replicate (suc k) = omega (arith, length-replicate k)

icmp_sum_zeros : (s : ℕ) (bytes : List ℕ) → s < 4294967296 → All IsZero bytes → icmp_sum s bytes ≡ s
icmp_sum_zeros s [] h z = refl
icmp_sum_zeros s (a ∷ []) h z = omega (arith, z.0)
icmp_sum_zeros s (a ∷ (b ∷ bytes)) h z =
    let same : u32 (s + (256 * b + a)) ≡ s = omega (arith, z.0, z.1.0) in
    ap (λ t. icmp_sum t bytes) same ∙ icmp_sum_zeros s bytes h z.1.1

-- Zeroes behind a message do not change its sum.
pub icmp_sum-append_zeros :
    (s : ℕ) (bytes zeros : List ℕ)
    → s < 4294967296
    → All IsZero zeros
    → icmp_sum s (bytes ++ zeros) ≡ icmp_sum s bytes
icmp_sum-append_zeros s [] zeros h z = icmp_sum_zeros s zeros h z
icmp_sum-append_zeros s (a ∷ []) [] h z = refl
icmp_sum-append_zeros s (a ∷ []) (b ∷ zeros) h z =
    let same : u32 (s + (256 * b + a)) ≡ u32 (s + a) = omega (arith, z.0) in
    ap (λ t. icmp_sum t zeros) same ∙ icmp_sum_zeros (u32 (s + a)) zeros (omega arith) z.1
icmp_sum-append_zeros s (a ∷ (b ∷ bytes)) zeros h z =
    icmp_sum-append_zeros (u32 (s + (256 * b + a))) bytes zeros (omega arith) z

pub drop-append : (bytes tail : List ℕ) → drop (length bytes) (bytes ++ tail) ≡ tail
drop-append [] tail = refl
drop-append (b ∷ bytes) tail = drop-append bytes tail

-- A read puts the payload at the front of the buffer, and where zeroes follow the longest payload so far,
-- zeroes follow it still. It may take the header of the datagram, of 20 bytes, through the same buffer.
pub record Reads (read_from : List ℕ → List ℕ → List ℕ) : Type 0 where
  pub sized : (bytes buffer : List ℕ) → length (read_from bytes buffer) ≡ length buffer
  pub front :
      (bytes buffer : List ℕ)
      → length bytes ≤ 216
      → length buffer ≡ 256
      → (tail : List ℕ) × (read_from bytes buffer ≡ bytes ++ tail)
  pub rest :
      (n : ℕ) (bytes buffer : List ℕ)
      → length bytes ≤ n
      → n ≤ 216
      → length buffer ≡ 256
      → All IsZero (drop n buffer)
      → All IsZero (drop n (read_from bytes buffer))

pub copy-Reads : Reads copy
copy-Reads = record {
  sized = length-copy;
  front = λ bytes buffer small size.
      (drop (length bytes) buffer, copy-append bytes buffer (omega (arith, small, size)));
  rest = λ n bytes buffer fits small size z.
      subst (λ l. All IsZero l) (sym (drop-copy n bytes buffer fits)) z;
}
