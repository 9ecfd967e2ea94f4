-- ===== src/Allocator.antt =====
-- Allocation of blocks (smlsharp/src/runtime/heap_concurrent.c, lines 683 to 765 and 1846 to 1945):
-- the size classes, the allocation pointer of a subheap, and the search for the next free block.
--
-- A segment has its address, its layout and its memory by words; an allocation pointer that is not
-- NULL is taken with the segment that it points into. A pointer that is NULL has `dummy_bitptr`, which
-- points to a word of ones.
pub mod Blocks
pub mod Sizes
mod Tests
use smlsharp_completions_gen.Base.{
  ℕ, zero, suc, ◌+◌, ◌-◌, ◌*◌, ◌^◌, ◌==◌, ◌&&◌, ltb, leb, Bool, true, false, not, if◌then◌else◌,
  Option, none, some,
}
use smlsharp_completions_gen.Splay.Memory.{ceiling}
use smlsharp_completions_gen.Bitptr.{
  Bitptr, bitptr, bitptr_test, bitptr_inc, bitptr_index, ceil_log2,
}
use smlsharp_completions_gen.Segment.{
  SegmentLayout, blocksize_min_log2, blocksize_max, base0, base1, base2, search_bitmap,
}

pub record Segment : Type 0 where
  pub address : ℕ
  pub layout : SegmentLayout
  pub memory : ℕ → ℕ
  pub allocptr_snapshot : ℕ
  pub free_count : ℕ

-- `BLOCK_BASE`, `BLOCK_LIMIT`
unfoldable pub block_base : Segment → ℕ
block_base seg = seg.address + seg.layout.block_offset

unfoldable pub block_limit : Segment → ℕ
block_limit seg = seg.address + seg.layout.block_limit

pub record AllocPtr : Type 0 where
  pub b : Bitptr
  pub p : ℕ
  pub blocksize_bytes : ℕ

-- The end of `find_bitmap`: the block of the bit, and the pointer behind it.
abbrev pub block_of : Segment → AllocPtr → Option Bitptr → Option (ℕ × AllocPtr)
block_of seg ptr none = none
block_of seg ptr (some b) =
    let obj = block_base seg + bitptr_index b base0 * 2 ^ seg.layout.blocksize_log2 in
    some (obj, record ptr { b = bitptr_inc b; p = obj + ptr.blocksize_bytes })

unfoldable pub find_bitmap : Segment → AllocPtr → Option (ℕ × AllocPtr)
find_bitmap seg ptr =
    if ptr.p == 0
    then none
    else block_of seg ptr
        (search_bitmap seg.memory base0 (base1 seg.layout) (base2 seg.layout) ptr.b)

-- `BITPTR_TEST(ptr->b)`
unfoldable pub test_alloc_ptr : Segment → AllocPtr → Bool
test_alloc_ptr seg ptr = if ptr.p == 0 then true else bitptr_test seg.memory ptr.b

-- The allocation in `sml_alloc`, as far as the segment of the allocation pointer has a free block.
unfoldable pub alloc_block : Segment → AllocPtr → Option (ℕ × AllocPtr)
alloc_block seg ptr =
    if not (test_alloc_ptr seg ptr)
    then some (ptr.p, record ptr { b = bitptr_inc ptr.b; p = ptr.p + ptr.blocksize_bytes })
    else find_bitmap seg ptr

-- The size class in `sml_alloc`: the number of the subheap, or `none` for `malloc_object`.
unfoldable pub size_class : ℕ → Option ℕ
size_class objsize =
    if ltb (blocksize_max - 4) objsize
    then none
    else some (ceil_log2 (ceiling (4 + objsize) 8) - blocksize_min_log2)
