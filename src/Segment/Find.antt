-- ===== src/Segment/Find.antt =====
-- The search of `find_bitmap` (smlsharp/src/runtime/heap_concurrent.c, lines 1833 to 1888) over two
-- bitmaps finds the bit that a search bit by bit through the first one finds.
use native.Mathlib.Nat.{two-pow-succ}
use smlsharp_completions_gen.Base.{
  ℕ, zero, suc, ◌+◌, ◌-◌, ◌*◌, ◌/◌, ◌%◌, ◌^◌, ◌≤◌, ◌<◌, ◌≡◌, ◌≢◌, inl, inr, arith, ap, subst, ◌∙◌,
  sym, less_or_not, if◌then◌else◌, some,
}
use smlsharp_completions_gen.Bitptr.{
  Bitptr, bitptr, bitptr_next0, bitptr_next_failed, bitptr_wordindex, bitptr_index,
}
use smlsharp_completions_gen.Bitptr.Words.{bit}
use smlsharp_completions_gen.Bitptr.Next.{
  bit_at, AllOnes, IsWords, NextZero, failed, found, bitptr_next0-NextZero, bitptr_not_failed,
  bitptr_index-bitptr, low_ones_below,
}
use smlsharp_completions_gen.Segment.{search_upper, descend, search_bitmap}
use smlsharp_completions_gen.Segment.Scan.{
  FirstZero, filled, free_at, FirstZeroOf, no_zero, zero_bit, AllOnes-append, word_start,
  mask_failed, search_upper-FirstZeroOf,
}

-- Bitmap 1, of `len1` words from `upper` on, tells for each of the `len0` words of bitmap 0 whether
-- it is full, and has its sentinel bits behind them.
pub record IsSummary (memory : ℕ → ℕ) (lower upper len0 len1 : ℕ) : Type 0 where
  pub full : (v : ℕ) → v < len0 → bit_at memory upper v ≡ 1 → memory (lower + v) ≡ 2 ^ 32 - 1
  pub open_word : (v : ℕ) → v < len0 → bit_at memory upper v ≡ 0 → memory (lower + v) ≢ 2 ^ 32 - 1
  pub sentinels : (v : ℕ) → len0 ≤ v → v < len1 * 32 → bit_at memory upper v ≡ 1

-- A word of which all the bits are 1.
ones_word : (n w : ℕ) → w < 2 ^ n → ((i : ℕ) → i < n → bit w i ≡ 1) → w + 1 ≡ 2 ^ n
ones_word zero w h f = omega arith
ones_word (suc n) w h f = omega (
  arith,
  two-pow-succ n,
  f 0 (omega arith),
  ones_word n (w / 2) (omega (arith, two-pow-succ n)) (λ i k. f (suc i) (omega arith)),
)

full_word :
    (memory : ℕ → ℕ) (p v : ℕ)
    → memory (p + v) ≡ 2 ^ 32 - 1
    → AllOnes memory p (v * 32) ((v + 1) * 32)
full_word memory p v e i a b =
    let q : i / 32 ≡ v = omega arith in
    ap (λ k. bit (memory (p + k)) (i % 32)) q
    ∙ ap (λ w. bit w (i % 32)) e
    ∙ low_ones_below 32 (i % 32) (omega arith)

word_full :
    (memory : ℕ → ℕ) (p v : ℕ)
    → IsWords memory
    → AllOnes memory p (v * 32) ((v + 1) * 32)
    → memory (p + v) ≡ 2 ^ 32 - 1
word_full memory p v h f = omega (
  arith,
  ones_word 32 (memory (p + v)) (h (p + v)) (λ i k.
      let q : (v * 32 + i) / 32 ≡ v = omega arith in
      let r : (v * 32 + i) % 32 ≡ i = omega arith in
      sym (ap (λ j. bit (memory (p + j)) i) q)
      ∙ sym (ap (λ j. bit (memory (p + (v * 32 + i) / 32)) j) r)
      ∙ f (v * 32 + i) (omega arith) (omega arith)),
)

full_words :
    (memory : ℕ → ℕ) (lower upper len0 len1 v k : ℕ)
    → IsSummary memory lower upper len0 len1
    → v + k ≤ len0
    → AllOnes memory upper v (v + k)
    → AllOnes memory lower (v * 32) ((v + k) * 32)
full_words memory lower upper len0 len1 v zero s h f i a b = absurd (omega arith)
full_words memory lower upper len0 len1 v (suc k) s h f i a b =
    elim (less_or_not i ((v + k) * 32)) [
      | inl (c, _) ↦
          full_words memory lower upper len0 len1 v k s (omega arith) (λ j d e. f j d (omega arith))
            i a c
      | inr (c, _) ↦
          full_word memory lower (v + k)
            (s.full (v + k) (omega arith) (f (v + k) (omega arith) (omega arith))) i c (omega arith)
    ]

word_index :
    (lower n : ℕ) (b : Bitptr) → b.ptr ≡ lower + n / 32 → bitptr_wordindex b lower + 1 ≡ n / 32 + 1
unfolding bitptr_wordindex
word_index lower n b f = omega (arith, f)

module _ (memory : ℕ → ℕ) (lower upper len0 len1 : ℕ) (words : IsWords memory)
    (summary : IsSummary memory lower upper len0 len1) where
  -- A 0 in bitmap 1 stands for a word of bitmap 0 that has one.
  below_zero_bit :
      (n v : ℕ)
      → v < len0
      → bit_at memory upper v ≡ 0
      → n ≤ v * 32
      → AllOnes memory lower n (v * 32)
      → (b : Bitptr) → NextZero memory lower (v * 32) b
      → FirstZero memory lower n (len0 * 32) (some b)
  below_zero_bit n v h z l f b (failed _ _ g) =
      absurd
        (summary.open_word v h z (word_full memory lower v words (λ i a c. g i a (omega arith))))
  below_zero_bit n v h z l f b (found m e a c y g) =
      subst (λ x. FirstZero memory lower n (len0 * 32) (some x)) (sym e)
        (free_at m (omega arith) (omega arith) y (AllOnes-append memory lower n (v * 32) m f g))

  descend-FirstZero :
      (n w : ℕ) (b : Bitptr)
      → w ≤ len0
      → n ≤ w * 32
      → AllOnes memory lower n (w * 32)
      → len0 ≤ len1 * 32
      → FirstZeroOf memory upper w (len1 * 32) b
      → FirstZero memory lower n (len0 * 32) (descend memory lower upper b)
  unfolding descend
  descend-FirstZero n w b h k f r (no_zero e g) = rw (mask_failed b e) (
      filled (
        AllOnes-append memory lower n (w * 32) (len0 * 32) f (
          subst (λ x. AllOnes memory lower (w * 32) (x * 32)) {x = w + (len0 - w)} {y = len0}
            (omega arith)
            (full_words memory lower upper len0 len1 w (len0 - w) summary (omega arith)
              (λ i a c. g i a (omega arith))))))
  descend-FirstZero n w b h k f r (zero_bit v e a c z g) = elim (less_or_not v len0) [
    | inr (l, _) ↦ absurd (omega (arith, summary.sentinels v l c, z))
    | inl (l, _) ↦ rw (ap bitptr_next_failed e ∙ bitptr_not_failed upper v) (
        below_zero_bit n v l z (omega arith)
          (AllOnes-append memory lower n (w * 32) (v * 32) f (
            subst (λ x. AllOnes memory lower (w * 32) (x * 32)) {x = w + (v - w)} {y = v}
              (omega arith)
              (full_words memory lower upper len0 len1 w (v - w) summary (omega arith)
                (λ i d q. g i d (omega arith)))))
          _
          (subst (λ x. NextZero memory lower (v * 32) (bitptr_next0 memory x))
            (sym (
              ap (λ x. bitptr (lower + bitptr_index x upper) 0) e
              ∙ ap (λ i. bitptr (lower + i) 0) (bitptr_index-bitptr upper v)
              ∙ word_start lower v))
            (bitptr_next0-NextZero memory lower (v * 32) words)))
  ]

  -- From bit n of bitmap 0 on, the search by means of bitmap 1 comes to the first bit that is 0, or
  -- to nothing if there is none, where bitmap 1 tells which words of bitmap 0 are full and has a
  -- sentinel bit behind them.
  pub search_bitmap-FirstZero :
      (n : ℕ)
      → n < len0 * 32
      → len0 < len1 * 32
      → FirstZero memory lower n
          (len0 * 32)
          (search_bitmap memory lower upper (upper + len1) (bitptr lower n))
  unfolding search_bitmap
  search_bitmap-FirstZero n h k = from_word (bitptr_next0-NextZero memory lower n words)
    where
      from_word :
          NextZero memory lower n (bitptr_next0 memory (bitptr lower n))
          → FirstZero memory lower n (len0 * 32) (
              if bitptr_next_failed (bitptr_next0 memory (bitptr lower n))
              then descend memory lower upper (
                  search_upper memory upper
                    (upper + len1)
                    (bitptr_wordindex (bitptr_next0 memory (bitptr lower n)) lower + 1))
              else some (bitptr_next0 memory (bitptr lower n)))
      from_word (found m e a c z f) = rw (ap bitptr_next_failed e ∙ bitptr_not_failed lower m) (
          subst (λ x. FirstZero memory lower n (len0 * 32) (some x)) (sym e)
            (free_at m a (omega arith) z f))
      from_word (failed e f g) = rw (mask_failed (bitptr_next0 memory (bitptr lower n)) e) (
          subst
            (λ i.
              FirstZero memory lower n (len0 * 32)
                (descend memory lower upper (search_upper memory upper (upper + len1) i)))
            {x = n / 32 + 1} (sym (word_index lower n (bitptr_next0 memory (bitptr lower n)) f))
            (descend-FirstZero n (n / 32 + 1) _ (omega arith) (omega arith) g (omega arith)
              (search_upper-FirstZeroOf memory upper len1 (n / 32 + 1) words (omega arith))))
