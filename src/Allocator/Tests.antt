-- ===== src/Allocator/Tests.antt =====
-- Runs of the models of segments and of allocation.
use smlsharp_completions_gen.Base.{
  ℕ, zero, suc, ◌+◌, ◌-◌, ◌*◌, ◌^◌, ◌≤◌, ◌<◌, ◌≡◌, arith, refl, ap, ◌∙◌, sym, Bool, true, false,
  ◌||◌, ltb, ◌==◌, if◌then◌else◌, some,
}
use smlsharp_completions_gen.Splay.Memory.{ceiling}
use smlsharp_completions_gen.Object.Equal.{all_below}
use smlsharp_completions_gen.Object.Equal.Symmetric.{all_below_at, eqb→eq}
use smlsharp_completions_gen.Bitptr.{bitptr}
use smlsharp_completions_gen.Bitptr.Next.{bit_at, IsWords}
use smlsharp_completions_gen.Segment.{
  SegmentLayout, segment_size, layout_of, bitmap_bits, base0, base1, base2, search_bitmap,
  compute_segment_layout,
}
use smlsharp_completions_gen.Segment.Layout.{
  IsLaidOut, layout_of-IsLaidOut, compute_segment_layout-IsLaidOut, block_address,
}
use smlsharp_completions_gen.Segment.Scan.{FirstZero}
use smlsharp_completions_gen.Segment.Find.{IsSummary, search_bitmap-FirstZero}
use smlsharp_completions_gen.Allocator.{Segment, AllocPtr, alloc_block, size_class}
use smlsharp_completions_gen.Allocator.Blocks.{IsSegment, IsAt, Allocates, alloc_block-Allocates}
use smlsharp_completions_gen.Allocator.Sizes.{Fits, size_class-Fits}

-- A segment with twenty blocks of 32 bytes, of which 0, 1 and 3 are in use.
abbrev twenty : SegmentLayout
twenty = layout_of 5 20

abbrev bits : ℕ → ℕ
bits i = if i == 8 then 2 ^ 32 - 2 ^ 20 + 11 else if i == 9 then 2 ^ 32 - 2 else 0

abbrev segment : Segment
segment = record {
  address = 3 * 2 ^ 15;
  layout = twenty;
  memory = bits;
  allocptr_snapshot = 0;
  free_count = 17;
}

twenty_room : (layout_of 5 20).block_limit ≤ segment_size
unfolding layout_of bitmap_bits ceiling
twenty_room = omega arith

twenty-IsLaidOut : IsLaidOut twenty
twenty-IsLaidOut = layout_of-IsLaidOut 5 20 twenty_room

bits-IsWords : IsWords bits
bits-IsWords i = ground arith

bases : (base0 ≡ 8) × ((base1 twenty ≡ 9) × (base2 twenty ≡ 10))
unfolding base0 base1 base2 layout_of bitmap_bits ceiling
bases = (refl, (refl, refl))

upper_ones : all_below 32 (λ v. v == 0 || bit_at bits 9 v == 1) ≡ true
unfolding all_below
upper_ones = refl

behind_ones : all_below 32 (λ i. ltb i 20 || bit_at bits 8 i == 1) ≡ true
unfolding all_below
behind_ones = refl

one_of_or : (b : Bool) (x : ℕ) → b ≡ false → (b || x == 1) ≡ true → x ≡ 1
one_of_or b x f h = eqb→eq x 1 (ap (λ c. c || x == 1) (sym f) ∙ h)

bits-IsSummary : IsSummary bits 8 9 1 1
bits-IsSummary = record {
  full = λ v h e. absurd (omega (arith, upper_zero v h, e));
  open_word = λ v h e f. absurd (omega (arith, word_eight v h, f));
  sentinels = λ v h k.
      one_of_or (v == 0) (bit_at bits 9 v) (ground arith)
        (all_below_at 32 (λ v. v == 0 || bit_at bits 9 v == 1) upper_ones v k);
}
  where
    upper_zero : (v : ℕ) → v < 1 → bit_at bits 9 v ≡ 0
    upper_zero zero h = refl
    upper_zero (suc v) h = absurd (omega arith)

    word_eight : (v : ℕ) → v < 1 → bits (8 + v) ≡ 2 ^ 32 - 2 ^ 20 + 11
    word_eight zero h = refl
    word_eight (suc v) h = absurd (omega arith)

search_bitmap-FirstZero_example :
    FirstZero bits 8 1 (1 * 32) (search_bitmap bits 8 9 (9 + 1) (bitptr 8 1))
search_bitmap-FirstZero_example =
    search_bitmap-FirstZero bits 8 9 1 1 bits-IsWords bits-IsSummary 1 (omega arith) (omega arith)

segment-IsSegment : IsSegment segment
unfolding base0 base1 base2 layout_of bitmap_bits ceiling
segment-IsSegment = record {
  laid_out = twenty-IsLaidOut;
  words = bits-IsWords;
  summary = bits-IsSummary;
  sentinels = λ i h k.
      one_of_or (ltb i 20) (bit_at bits 8 i) (ground arith)
        (all_below_at 32 (λ i. ltb i 20 || bit_at bits 8 i == 1) behind_ones i k);
  mapped = omega arith;
}

abbrev pointer : AllocPtr
pointer = record {
  b = bitptr base0 0;
  p = block_address twenty (3 * 2 ^ 15) 0;
  blocksize_bytes = 32;
}

pointer-IsAt : IsAt segment 0 pointer
unfolding layout_of
pointer-IsAt = record {
  position = refl;
  next_block = refl;
  in_bitmap = omega arith;
  block_size = refl;
}

alloc_block-Allocates_example : Allocates segment 0 (alloc_block segment pointer)
alloc_block-Allocates_example =
    alloc_block-Allocates segment segment-IsSegment 0 pointer pointer-IsAt

compute_segment_layout-IsLaidOut_example :
    (l : SegmentLayout) × ((compute_segment_layout 2 ≡ some l)
      × (IsLaidOut l × ((l.blocksize_log2 ≡ 5) × (1 ≤ l.num_blocks))))
compute_segment_layout-IsLaidOut_example = compute_segment_layout-IsLaidOut 2 (omega arith)

twenty_blocks : 7 < twenty.num_blocks
unfolding layout_of
twenty_blocks = omega arith

size_class-Fits_example : Fits 100 (size_class 100)
size_class-Fits_example = size_class-Fits 100
