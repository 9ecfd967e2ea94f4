-- ===== src/Pool/Blank.antt =====
-- `init_segment` (smlsharp/src/runtime/heap_concurrent.c, lines 276 to 335) makes an empty segment
-- ready for another size of blocks.
use native.Mathlib.Nat.{one-le-pow}
use smlsharp_completions_gen.Base.{
  ℕ, ◌-◌, ◌/◌, ◌%◌, ◌^◌, ◌≤◌, ◌<◌, ◌≡◌, ◌==◌, Bool, true, false, if◌then◌else◌, inl, inr, arith,
  refl, ap, ◌∙◌, less_or_not, same_or_not,
}
use smlsharp_completions_gen.Bitptr.Next.{IsWords}
use smlsharp_completions_gen.Segment.{SegmentLayout, sentinel, base0, base1, base2}
use smlsharp_completions_gen.Segment.Layout.{IsLaidOut}
use smlsharp_completions_gen.Allocator.{Segment}
use smlsharp_completions_gen.Reclaim.{write_word}
use smlsharp_completions_gen.Reclaim.Upper.{write-IsWords}
use smlsharp_completions_gen.Reclaim.Copied.{sentinel_lem}
use smlsharp_completions_gen.Subheap.Clean.{cleared, not_cleared, cleared-IsWords}
use smlsharp_completions_gen.Pool.{write_limits, set_layout, clear_old, init_segment}

-- The words of the bitmaps of an empty segment: 0, but for the sentinels.
abbrev pub blank_word : SegmentLayout → ℕ → ℕ
blank_word l w =
    if w == base2 l - 1
    then l.bitmap_sentinel1
    else if w == base1 l - 1
    then l.bitmap_sentinel0
    else 0

pub record IsBlank (seg : Segment) : Type 0 where
  pub laid_out : IsLaidOut seg.layout
  pub words : IsWords seg.memory
  pub mapped : 0 < seg.address
  pub blank :
      (w : ℕ)
      → base0 ≤ w
      → w < seg.layout.zerofill_limit / 4
      → seg.memory w ≡ blank_word seg.layout w

limits_lem :
    (l : SegmentLayout) (word0 word1 : ℕ) (memory : ℕ → ℕ) (w : ℕ)
    → write_limits l word0 word1 memory w
      ≡ (if w == base2 l - 1 then word1 else if w == base1 l - 1 then word0 else memory w)
unfolding write_limits write_word
limits_lem l word0 word1 memory w = refl

sentinel_size : (n : ℕ) → sentinel n < 2 ^ 32
sentinel_size n = omega (arith, sentinel_lem n, one-le-pow (n % 32) 2 (omega arith))

limits-IsWords :
    (l : SegmentLayout) (word0 word1 : ℕ) (memory : ℕ → ℕ)
    → IsWords memory
    → word0 < 2 ^ 32
    → word1 < 2 ^ 32
    → IsWords (write_limits l word0 word1 memory)
unfolding write_limits
limits-IsWords l word0 word1 memory m h k =
    write-IsWords _ (base2 l - 1) word1 (write-IsWords memory (base1 l - 1) word0 m h) k

-- Where a memory is 0, the sentinels make it blank.
pub set_layout-IsBlank :
    (address : ℕ) (l : SegmentLayout) (memory : ℕ → ℕ)
    → IsLaidOut l
    → IsWords memory
    → 0 < address
    → ((w : ℕ) → base0 ≤ w → w < l.zerofill_limit / 4 → memory w ≡ 0)
    → IsBlank (set_layout address l memory)
unfolding set_layout
set_layout-IsBlank address l memory laid words mapped zeros = record {
  laid_out = laid;
  words =
      limits-IsWords l l.bitmap_sentinel0 l.bitmap_sentinel1 memory words
        (omega (arith, laid.lower_sentinel, sentinel_size l.num_blocks))
        (omega (arith, laid.upper_sentinel, sentinel_size (base1 l - base0)));
  mapped = mapped;
  blank = λ w h k.
      limits_lem l l.bitmap_sentinel0 l.bitmap_sentinel1 memory w
      ∙ ap
          (λ x.
            if w == base2 l - 1
            then l.bitmap_sentinel1
            else if w == base1 l - 1
            then l.bitmap_sentinel0
            else x)
          (zeros w h k);
}

without_limits :
    (b c : Bool) (x y z : ℕ)
    → z ≡ (if b then x else if c then y else 0)
    → (if b then 0 else if c then 0 else z) ≡ 0
without_limits true c x y z h = refl
without_limits false true x y z h = refl
without_limits false false x y z h = h

-- What is left of the old layout.
old_cleared :
    (seg : Segment)
    → IsBlank seg
    → (w : ℕ) → base0 ≤ w
    → w < seg.layout.zerofill_limit / 4
    → write_limits seg.layout 0 0 seg.memory w ≡ 0
old_cleared seg s w h k =
    limits_lem seg.layout 0 0 seg.memory w
    ∙ without_limits (w == base2 seg.layout - 1) (w == base1 seg.layout - 1)
        seg.layout.bitmap_sentinel1 seg.layout.bitmap_sentinel0 (seg.memory w) (s.blank w h k)

new_cleared :
    (seg : Segment) (l : SegmentLayout)
    → IsBlank seg
    → (w : ℕ) → base0 ≤ w
    → w < l.zerofill_limit / 4
    → clear_old seg l w ≡ 0
unfolding clear_old
new_cleared seg l s w h k =
    let old = seg.layout.zerofill_limit / 4 in
    let new = l.zerofill_limit / 4 in
    let memory = write_limits seg.layout 0 0 seg.memory in
    elim (less_or_not old new) [
      | inl (m, b) ↦ rw b (elim (less_or_not w old) [
        | inl (n, _) ↦ not_cleared memory old (new - old) w n ∙ old_cleared seg s w h n
        | inr (n, _) ↦ cleared memory old (new - old) w n (omega arith)
      ])
      | inr (m, b) ↦ rw b (old_cleared seg s w h (omega arith))
    ]

clear_old-IsWords :
    (seg : Segment) (l : SegmentLayout) → IsWords seg.memory → IsWords (clear_old seg l)
unfolding clear_old
clear_old-IsWords seg l words =
    let memory = limits-IsWords seg.layout 0 0 seg.memory words (omega arith) (omega arith) in
    elim (less_or_not (seg.layout.zerofill_limit / 4) (l.zerofill_limit / 4)) [
      | inl (_, b) ↦ rw b (cleared-IsWords _ _ _ memory)
      | inr (_, b) ↦ rw b memory
    ]

-- For another layout an empty segment becomes one that is empty, too.
pub init_segment-IsBlank :
    (seg : Segment) (l : SegmentLayout) → IsBlank seg → IsLaidOut l → IsBlank (init_segment seg l)
unfolding init_segment
init_segment-IsBlank seg l s laid = elim (same_or_not seg.layout.blocksize_log2 l.blocksize_log2) [
  | inl (_, b) ↦ rw b s
  | inr (_, b) ↦ rw b (
      set_layout-IsBlank seg.address l (clear_old seg l) laid (clear_old-IsWords seg l s.words)
        s.mapped (new_cleared seg l s))
]
