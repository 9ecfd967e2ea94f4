-- ===== src/Segment.antt =====
-- Segments of the concurrent collector: their layout, their bitmaps and the search for a free block
-- (smlsharp/src/runtime/heap_concurrent.c, lines 32 to 245 and 1833 to 1886).
--
-- `SEG_RANK` is 2, and the loops over the ranks of a bitmap, which then have one turn each, are
-- written without a loop. `struct segment` takes 32 bytes and `MAXALIGN` is 16. The memory of a
-- segment is read by words of 32 bits, with the index of a word counted from the segment's start.
pub mod Layout
pub mod Scan
pub mod Find
use Prim.Native.Nat.{bit_and, bit_or}
use smlsharp_completions_gen.Base.{
  ℕ, zero, suc, ◌+◌, ◌-◌, ◌*◌, ◌/◌, ◌%◌, ◌^◌, ◌==◌, ◌&&◌, min, leb, ltb, Bool, true, false, not,
  if◌then◌else◌, Option, none, some,
}
use smlsharp_completions_gen.Splay.Memory.{ceiling}
use smlsharp_completions_gen.Bitptr.{
  Bitptr, bitptr, bitptr_next0, bitptr_next_failed, bitptr_wordindex, bitptr_index, bitptr_inc,
}

abbrev pub segment_size : ℕ
segment_size = 2 ^ 15

abbrev pub blocksize_min_log2 : ℕ
blocksize_min_log2 = 3

abbrev pub blocksize_max_log2 : ℕ
blocksize_max_log2 = 12

abbrev pub blocksize_max : ℕ
blocksize_max = 2 ^ 12

abbrev pub num_subheaps : ℕ
num_subheaps = 12 - 3 + 1

abbrev pub bitmap0_offset : ℕ
bitmap0_offset = 32

pub record SegmentLayout : Type 0 where
  pub blocksize_log2 : ℕ
  pub blocksize_bytes : ℕ
  pub bitmap_offset1 : ℕ
  pub bitmap_offset2 : ℕ
  pub bitmap_sentinel0 : ℕ
  pub bitmap_sentinel1 : ℕ
  pub bitmap_length : ℕ
  pub bitmap0_length : ℕ
  pub zerofill_limit : ℕ
  pub stack_offset : ℕ
  pub block_offset : ℕ
  pub num_blocks : ℕ
  pub block_limit : ℕ

-- `bmbits` for a `bmlen`: a bitmap has at least one bit more than it needs.
unfoldable pub bitmap_bits : ℕ → ℕ
bitmap_bits len = ceiling (len + 1) 32

-- `-1 << (BITPTR_WORDBITS - (bmbits - bmlen))`, in a word.
unfoldable pub sentinel : ℕ → ℕ
sentinel len = 2 ^ 32 - 2 ^ (32 - (bitmap_bits len - len))

-- The body of the loop in `compute_segment_layout`, for n blocks.
unfoldable pub layout_of : ℕ → ℕ → SegmentLayout
layout_of log2 n =
    let blocksize = 2 ^ log2 in
    let bits0 = bitmap_bits n in
    let len1 = bits0 / 32 in
    let offset1 = bitmap0_offset + bits0 / 8 in
    let offset2 = offset1 + bitmap_bits len1 / 8 in
    let bmlimit = offset2 + bits0 / 8 in
    let stackoffset = ceiling bmlimit 8 in
    let stacklimit = stackoffset + 8 * n in
    let blockoffset = ceiling (stacklimit + 4) (min 16 blocksize) in
    record {
      blocksize_log2 = log2;
      blocksize_bytes = blocksize;
      bitmap_offset1 = offset1;
      bitmap_offset2 = offset2;
      bitmap_sentinel0 = sentinel n;
      bitmap_sentinel1 = sentinel len1;
      bitmap_length = offset2 - bitmap0_offset;
      bitmap0_length = bits0 / 8;
      zerofill_limit = bmlimit;
      stack_offset = stackoffset;
      block_offset = blockoffset;
      num_blocks = n;
      block_limit = blockoffset + blocksize * n;
    }

-- `for (;; n--)`; `none` is that n would go below 0.
unfoldable pub layout_loop : ℕ → ℕ → Option SegmentLayout
layout_loop log2 zero =
    if leb (layout_of log2 0).block_limit segment_size then some (layout_of log2 0) else none
layout_loop log2 (suc n) =
    let rest = layout_loop log2 n in
    if leb (layout_of log2 (suc n)).block_limit segment_size
    then some (layout_of log2 (suc n))
    else rest

-- The number of blocks to start from. The division is in `float`: by the size of a block, 8 for the
-- stack slot, 0 for `32U / (32U - 1) / 8` and 1/8; the operands are exact, and the quotients so small
-- that the fraction is cut off as it is in the division of eight times as much.
unfoldable pub first_num_blocks : ℕ → ℕ
first_num_blocks log2 = 8 * (segment_size - bitmap0_offset) / (8 * (2 ^ log2 + 8) + 1)

unfoldable pub compute_segment_layout : ℕ → Option SegmentLayout
compute_segment_layout subheap_index =
    let log2 = subheap_index + blocksize_min_log2 in layout_loop log2 (first_num_blocks log2)

-- `segment_addr`: the mask leaves the multiple of the segment's size.
unfoldable pub segment_addr : ℕ → ℕ
segment_addr p = p - p % segment_size

-- `object_index`
unfoldable pub object_index : SegmentLayout → ℕ → ℕ → ℕ
object_index l seg obj = (obj - (seg + l.block_offset)) / 2 ^ l.blocksize_log2

-- `BITMAP_BASE` and `BITMAP_LIMIT` in words: of bitmap 0, of bitmap 1, of the collect bitmap.
unfoldable pub base0 : ℕ
base0 = bitmap0_offset / 4

unfoldable pub base1 : SegmentLayout → ℕ
base1 l = l.bitmap_offset1 / 4

unfoldable pub base2 : SegmentLayout → ℕ
base2 l = l.bitmap_offset2 / 4

-- `bitptr_linear_search`, by the number of words that are left.
unfoldable pub linear_search : (ℕ → ℕ) → ℕ → ℕ → Bitptr
linear_search memory start zero = record { ptr = start; mask = 0 }
linear_search memory start (suc left) =
    let b = bitptr_next0 memory (record { ptr = start; mask = 1 }) in
    let rest = linear_search memory (start + 1) left in if bitptr_next_failed b then rest else b

-- The search in bitmap 1, from bit `index`.
unfoldable pub search_upper : (ℕ → ℕ) → ℕ → ℕ → ℕ → Bitptr
search_upper memory upper limit index =
    let b = bitptr_next0 memory (bitptr upper index) in
    if bitptr_next_failed b then linear_search memory (b.ptr + 1) (limit - (b.ptr + 1)) else b

-- From the bit found in bitmap 1 to the bitmap below.
unfoldable pub descend : (ℕ → ℕ) → ℕ → ℕ → Bitptr → Option Bitptr
descend memory lower upper b =
    if bitptr_next_failed b
    then none
    else some (bitptr_next0 memory (bitptr (lower + bitptr_index b upper) 0))

-- The search in `find_bitmap`, with the bitmaps from `lower` and from `upper` on, the second up to
-- `limit`; `none` is the return of NULL.
unfoldable pub search_bitmap : (ℕ → ℕ) → ℕ → ℕ → ℕ → Bitptr → Option Bitptr
search_bitmap memory lower upper limit b0 =
    let b = bitptr_next0 memory b0 in
    if bitptr_next_failed b
    then descend memory lower upper (search_upper memory upper limit (bitptr_wordindex b lower + 1))
    else some b
