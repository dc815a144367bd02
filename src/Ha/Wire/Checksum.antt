-- ===== src/Ha/Wire/Checksum.antt =====
-- The Internet checksum: what the two loops of `ipChecksum` compute.
use seesaw.Base.{
  ℕ, suc, ◌+◌, ◌*◌, ◌/◌, ◌%◌, ◌≤◌, ◌<◌, ◌≡◌, ◌↔◌, some, List, [], ◌∷◌, ◌++◌, All, length, arith,
  ◌∙◌, u32, dec_lt,
}
use seesaw.Ha.Wire.Defs.{sum_words, fold, ip_checksum, complement}

-- The sum of the big-endian words, without bound.
abbrev pub words : List ℕ → ℕ
words [] = 0
words (x ∷ []) = x * 256
words (x ∷ y ∷ b) = x * 256 + y + words b

-- A whole number of words.
abbrev pub IsPaired : List ℕ → Type 0
IsPaired [] = Unit
IsPaired (x ∷ []) = ⊥
IsPaired (x ∷ y ∷ b) = IsPaired b

abbrev pub IsByte : ℕ → Type 0
IsByte x = x < 256

pub words-append : (a b : List ℕ) → IsPaired a → words (a ++ b) ≡ words a + words b
words-append [] b h = omega arith
words-append (x ∷ []) b h = absurd h
words-append (x ∷ y ∷ a) b h = omega (arith, words-append a b h)

pub IsPaired-append : (a b : List ℕ) → IsPaired a → IsPaired b → IsPaired (a ++ b)
IsPaired-append [] b h k = k
IsPaired-append (x ∷ []) b h k = absurd h
IsPaired-append (x ∷ y ∷ a) b h k = IsPaired-append a b h k

pub words_bound : (a : List ℕ) → All IsByte a → words a ≤ 65535 * length a
words_bound [] h = omega arith
words_bound (x ∷ []) h = omega arith
words_bound (x ∷ y ∷ a) h = omega (arith, words_bound a h.1.1)

-- Below 2^32 the loop does not wrap.
pub sum_words-words :
    (sum : ℕ) (b : List ℕ) → sum + words b < 4294967296 → sum_words sum b ≡ sum + words b
unfolding sum_words
sum_words-words sum [] h = omega arith
sum_words-words sum (x ∷ []) h = omega arith
sum_words-words sum (x ∷ y ∷ b) h =
    let e : u32 (sum + (x * 256 + y)) ≡ sum + (x * 256 + y) = omega arith in
    omega (arith, sum_words-words (u32 (sum + (x * 256 + y))) b (omega arith), e)

-- `r` is the one's complement sum of `s`.
pub record Folded (s r : ℕ) : Type 0 where
  pub small : r < 65536
  pub quotient : ℕ
  pub same : s ≡ r + quotient * 65535
  pub positive : 0 < s → 0 < r

fold_done : (f s : ℕ) → s < 65536 → fold (suc f) s ≡ some s
unfolding fold
fold_done f s h = ground arith

fold_more : (f s : ℕ) → 65536 ≤ s → fold (suc f) s ≡ fold f (s % 65536 + s / 65536)
unfolding fold
fold_more f s h = ground arith

Folded-more : (s r : ℕ) → Folded (s % 65536 + s / 65536) r → Folded s r
Folded-more s r h = record {
  small = h.small;
  quotient = h.quotient + s / 65536;
  same = omega (arith, h.same);
  positive = λ p. h.positive (omega arith);
}

Folded-self : (s : ℕ) → s < 65536 → Folded s s
Folded-self s h = record { small = h; quotient = 0; same = omega arith; positive = λ p. p }

-- Each round that the loop is known to need takes one unit of fuel.
FoldsIn : ℕ → ℕ → Type 0
FoldsIn fuel s = (r : ℕ) × (fold fuel s ≡ some r) × Folded s r

FoldsIn-suc : (f s : ℕ) → (65536 ≤ s → FoldsIn f (s % 65536 + s / 65536)) → FoldsIn (suc f) s
unfolding FoldsIn
FoldsIn-suc f s more = elim (dec_lt s 65536) [
  | yes small ↦ (s, fold_done f s small, Folded-self s small)
  | no big ↦
      let (r, e, folded) = more (omega arith) in
      (r, fold_more f s (omega arith) ∙ e, Folded-more s r folded)
]

-- The folding loop ends within the fuel, and leaves the one's complement sum.
pub fold_total : (s : ℕ) → s < 4294967296 → (r : ℕ) × (fold 3 s ≡ some r) × Folded s r
unfolding FoldsIn
fold_total s h =
    FoldsIn-suc 2 s λ _.
      FoldsIn-suc 1 (s % 65536 + s / 65536) λ big. FoldsIn-suc 0 _ λ bigger. absurd (omega arith)

-- The buffers of `checksum` are short enough that nothing wraps.
module _ (b : List ℕ) (short : words b < 4294967296) where
  -- The checksum of any such buffer is computed.
  pub ip_checksum_total : (r : ℕ) × (ip_checksum b ≡ some (complement r)) × Folded (words b) r
  unfolding ip_checksum
  ip_checksum_total =
      let e : sum_words 0 b ≡ words b = sum_words-words 0 b (omega arith) ∙ omega arith in
      let (r, computed, folded) = fold_total (words b) short in
      (r, rw (e, ip_checksum) (rw (computed, ip_checksum)), folded)

  -- A buffer passes exactly if its words sum up to a positive multiple of 65535.
  pub ip_checksum-eq-zero_iff : (ip_checksum b ≡ some 0) ↔ ((0 < words b) × (words b % 65535 ≡ 0))
  ip_checksum-eq-zero_iff =
      let (r, computed, folded) = ip_checksum_total in
      (
        λ h. (ground (arith, folded.positive), ground (arith, folded.positive)),
        λ h. ground (arith, folded.positive),
      )
