-- ===== src/Pool/Fresh.antt =====
-- A segment after `init_segment` (smlsharp/src/runtime/heap_concurrent.c, lines 276 to 335) is ready
-- for allocation, and all its blocks are free.
use native.Mathlib.Nat.{pow-le-pow_right}
use smlsharp_completions_gen.Base.{
  ℕ, ◌+◌, ◌-◌, ◌*◌, ◌/◌, ◌%◌, ◌^◌, ◌≤◌, ◌<◌, ◌≡◌, ◌≢◌, inl, inr, arith, refl, ap, subst, ◌∙◌, sym,
  less_or_not, same_or_not,
}
use smlsharp_completions_gen.Bitptr.Words.{bit, bit-zero}
use smlsharp_completions_gen.Bitptr.Next.{bit_at}
use smlsharp_completions_gen.Segment.{SegmentLayout, sentinel, base0, base1, base2}
use smlsharp_completions_gen.Segment.Layout.{IsLaidOut}
use smlsharp_completions_gen.Allocator.{Segment}
use smlsharp_completions_gen.Allocator.Blocks.{IsSegment, len0}
use smlsharp_completions_gen.Reclaim.Copied.{high_ones, sentinel_lem}
use smlsharp_completions_gen.Subheap.Clean.{IsEmpty}
use smlsharp_completions_gen.Pool.{init_segment, set_layout}
use smlsharp_completions_gen.Pool.Blank.{IsBlank, blank_word, init_segment-IsBlank}

-- A bitmap from p on for n bits, with nothing but its sentinel.
module _ (memory : ℕ → ℕ) (p n : ℕ) (last : memory (p + n / 32) ≡ sentinel n)
    (zeros : (v : ℕ) → v < n / 32 → memory (p + v) ≡ 0) where
  no_bit : (i : ℕ) → i < n → bit_at memory p i ≡ 0
  no_bit i h = elim (less_or_not (i / 32) (n / 32)) [
    | inl (k, _) ↦ ap (λ w. bit w (i % 32)) (zeros (i / 32) k) ∙ bit-zero (i % 32)
    | inr (k, _) ↦
        let (low, _) = high_ones 32 (n % 32) (i % 32) (omega arith) (omega arith) in
        ap (λ v. bit (memory (p + v)) (i % 32)) {x = i / 32} {y = n / 32} (omega arith)
        ∙ ap (λ w. bit w (i % 32)) (last ∙ sentinel_lem n)
        ∙ low (omega arith)
  ]

  sentinel_bit : (i : ℕ) → n ≤ i → i < (n / 32 + 1) * 32 → bit_at memory p i ≡ 1
  sentinel_bit i h k =
      let (_, high) = high_ones 32 (n % 32) (i % 32) (omega arith) (omega arith) in
      ap (λ v. bit (memory (p + v)) (i % 32)) {x = i / 32} {y = n / 32} (omega arith)
      ∙ ap (λ w. bit w (i % 32)) (last ∙ sentinel_lem n)
      ∙ high (omega arith)

  not_full : n % 32 ≢ 0 → (v : ℕ) → v < n / 32 + 1 → memory (p + v) ≢ 2 ^ 32 - 1
  not_full h v k e = elim (less_or_not v (n / 32)) [
    | inl (l, _) ↦ absurd (omega (arith, zeros v l, e))
    | inr (l, _) ↦
        let two : 2 ^ 1 ≤ 2 ^ (n % 32) =
          pow-le-pow_right (omega arith) {i = 1} {j = n % 32} (omega arith) in
        let same : memory (p + v) ≡ sentinel n =
          ap (λ u. memory (p + u)) {x = v} {y = n / 32} (omega arith) ∙ last in
        absurd (omega (arith, same, sentinel_lem n, two, e))
  ]

blank_zero : (l : SegmentLayout) (w : ℕ) → w ≢ base2 l - 1 → w ≢ base1 l - 1 → blank_word l w ≡ 0
blank_zero l w h k = elim (same_or_not w (base2 l - 1)) [
  | inl (e, _) ↦ absurd (h e)
  | inr (_, b) ↦ elim (same_or_not w (base1 l - 1)) [
    | inl (e, _) ↦ absurd (k e)
    | inr (_, c) ↦ rw (b, c) refl
  ]
]

blank_lower :
    (l : SegmentLayout) (w : ℕ)
    → w ≢ base2 l - 1
    → w ≡ base1 l - 1
    → blank_word l w ≡ l.bitmap_sentinel0
blank_lower l w h k = elim (same_or_not w (base2 l - 1)) [
  | inl (e, _) ↦ absurd (h e)
  | inr (_, b) ↦ elim (same_or_not w (base1 l - 1)) [
    | inl (_, c) ↦ rw (b, c) refl
    | inr (e, _) ↦ absurd (e k)
  ]
]

blank_upper : (l : SegmentLayout) (w : ℕ) → w ≡ base2 l - 1 → blank_word l w ≡ l.bitmap_sentinel1
blank_upper l w h = elim (same_or_not w (base2 l - 1)) [
  | inl (_, b) ↦ rw b refl
  | inr (e, _) ↦ absurd (e h)
]

module _ (seg : Segment) (s : IsBlank seg) where
  abbrev l : SegmentLayout
  l = seg.layout

  abbrev laid : IsLaidOut l
  laid = s.laid_out

  lower_last : seg.memory (base0 + l.num_blocks / 32) ≡ sentinel l.num_blocks
  lower_last =
      s.blank _ (omega arith)
        (omega (arith, laid.lower_words, laid.bitmap1, laid.collect, laid.collect_after))
      ∙ blank_lower l _ (omega (arith, laid.lower_words, laid.collect_after))
          (omega (arith, laid.lower_words))
      ∙ laid.lower_sentinel

  lower_zeros : (v : ℕ) → v < l.num_blocks / 32 → seg.memory (base0 + v) ≡ 0
  lower_zeros v h =
      s.blank _ (omega arith)
        (omega (arith, laid.lower_words, laid.bitmap1, laid.collect, laid.collect_after))
      ∙ blank_zero l _ (omega (arith, laid.lower_words, laid.collect_after))
          (omega (arith, laid.lower_words))

  upper_last : seg.memory (base1 l + len0 seg / 32) ≡ sentinel (len0 seg)
  upper_last =
      s.blank _ (omega (arith, laid.upper_after)) (
        omega (
          arith, laid.upper_words, laid.bitmap1, laid.collect, laid.collect_after, laid.length,
          laid.upper_after,
        ))
      ∙ blank_upper l _ (omega (arith, laid.upper_words, laid.collect_after))
      ∙ laid.upper_sentinel

  upper_zeros : (v : ℕ) → v < len0 seg / 32 → seg.memory (base1 l + v) ≡ 0
  upper_zeros v h =
      s.blank _ (omega (arith, laid.upper_after)) (
        omega
          (arith, laid.upper_words, laid.bitmap1, laid.collect, laid.collect_after, laid.length))
      ∙ blank_zero l _ (omega (arith, laid.upper_words, laid.collect_after))
          (omega (arith, laid.upper_after))

  blank-IsSegment : l.num_blocks % 32 ≢ 0 → IsSegment seg × IsEmpty seg
  blank-IsSegment h = (
    record {
      laid_out = laid;
      words = s.words;
      summary = record {
        full = λ v k e.
            absurd
              (omega (arith, no_bit seg.memory (base1 l) (len0 seg) upper_last upper_zeros v k, e));
        open_word = λ v k e.
            not_full seg.memory base0 l.num_blocks lower_last lower_zeros h v
              (omega (arith, k, laid.lower_words));
        sentinels = λ v k m.
            sentinel_bit seg.memory (base1 l) (len0 seg) upper_last upper_zeros v k
              (omega (arith, m, laid.upper_words));
      };
      sentinels = λ i k m.
          sentinel_bit seg.memory base0 l.num_blocks lower_last lower_zeros i k
            (omega (arith, m, laid.lower_words));
      mapped = s.mapped;
    },
    no_bit seg.memory base0 l.num_blocks lower_last lower_zeros,
  )

same_size :
    (seg : Segment) (l : SegmentLayout)
    → (seg.layout.blocksize_log2 ≡ l.blocksize_log2 → seg.layout ≡ l)
    → (init_segment seg l).layout ≡ l
unfolding init_segment set_layout
same_size seg l h = elim (same_or_not seg.layout.blocksize_log2 l.blocksize_log2) [
  | inl (e, b) ↦ rw b (h e)
  | inr (_, b) ↦ rw b refl
]

-- `init_segment` gives a segment a new layout, if the bitmaps are 0 but for the sentinels, and the
-- layout has a number of blocks that is no multiple of 32. Afterwards the bitmaps are 0 but for the
-- new sentinels, they are in order for allocation, and every block is free.
pub init_segment-IsSegment :
    (seg : Segment) (l : SegmentLayout)
    → IsBlank seg
    → IsLaidOut l
    → (seg.layout.blocksize_log2 ≡ l.blocksize_log2 → seg.layout ≡ l)
    → l.num_blocks % 32 ≢ 0
    → ((init_segment seg l).layout ≡ l)
      × (IsBlank (init_segment seg l)
          × (IsSegment (init_segment seg l) × IsEmpty (init_segment seg l)))
init_segment-IsSegment seg l s laid h k =
    let e = same_size seg l h in
    let blank = init_segment-IsBlank seg l s laid in
    (
      e,
      (
        blank,
        blank-IsSegment (init_segment seg l) blank (subst (λ x. x.num_blocks % 32 ≢ 0) (sym e) k),
      ),
    )
