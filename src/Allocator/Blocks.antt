-- ===== src/Allocator/Blocks.antt =====
-- The allocation pointer of a subheap (smlsharp/src/runtime/heap_concurrent.c, lines 1846 to 1945)
-- takes the free blocks of its segment one after the other.
use native.Mathlib.Nat.{add-mul}
use smlsharp_completions_gen.Base.{
  ℕ, ◌+◌, ◌-◌, ◌*◌, ◌/◌, ◌%◌, ◌^◌, ◌≤◌, ◌<◌, ◌≡◌, inl, inr, arith, refl, ap, subst, ◌∙◌, sym,
  same_or_not, less_or_not, false, ◌==◌, Option, none, some,
}
use smlsharp_completions_gen.Bitptr.{Bitptr, bitptr, bitptr_test, bitptr_inc}
use smlsharp_completions_gen.Bitptr.Words.{bit_lt}
use smlsharp_completions_gen.Bitptr.Next.{
  bit_at, AllOnes, IsWords, bitptr_inc-bitptr, bitptr_index-bitptr, bitptr_test-bit,
}
use smlsharp_completions_gen.Segment.{base0, base1, base2, search_bitmap}
use smlsharp_completions_gen.Segment.Layout.{IsLaidOut, block_address}
use smlsharp_completions_gen.Segment.Scan.{FirstZero, filled, free_at}
use smlsharp_completions_gen.Segment.Find.{IsSummary, search_bitmap-FirstZero}
use smlsharp_completions_gen.Allocator.{
  Segment, AllocPtr, block_base, block_of, find_bitmap, test_alloc_ptr, alloc_block,
}

-- The words of the bitmaps 0 and 1 of a segment.
abbrev pub len0 : Segment → ℕ
len0 seg = base1 seg.layout - base0

abbrev pub len1 : Segment → ℕ
len1 seg = base2 seg.layout - base1 seg.layout

-- A segment whose bitmaps are in order: bitmap 1 tells about bitmap 0, and no bit behind those of the
-- blocks is 0.
pub record IsSegment (seg : Segment) : Type 0 where
  pub laid_out : IsLaidOut seg.layout
  pub words : IsWords seg.memory
  pub summary : IsSummary seg.memory base0 (base1 seg.layout) (len0 seg) (len1 seg)
  pub sentinels : AllOnes seg.memory base0 seg.layout.num_blocks (len0 seg * 32)
  pub mapped : 0 < seg.address

-- Block n is free.
abbrev pub IsFree : Segment → ℕ → Type 0
IsFree seg n = bit_at seg.memory base0 n ≡ 0

-- The allocation pointer stands at block n, or behind the last one.
pub record IsAt (seg : Segment) (n : ℕ) (ptr : AllocPtr) : Type 0 where
  pub position : ptr.b ≡ bitptr base0 n
  pub next_block : ptr.p ≡ block_address seg.layout seg.address n
  pub in_bitmap : n ≤ seg.layout.num_blocks
  pub block_size : ptr.blocksize_bytes ≡ 2 ^ seg.layout.blocksize_log2

-- What an allocation comes to: nothing, if no block from n on is free, or the first block that is,
-- with the pointer behind it.
pub data Allocates (seg : Segment) (n : ℕ) : Option (ℕ × AllocPtr) → Type 0 where
  exhausted : AllOnes seg.memory base0 n seg.layout.num_blocks → Allocates seg n none
  allocates :
      (m : ℕ) (ptr' : AllocPtr)
      → n ≤ m
      → m < seg.layout.num_blocks
      → IsFree seg m
      → AllOnes seg.memory base0 n m
      → IsAt seg (m + 1) ptr'
      → Allocates seg n (some (block_address seg.layout seg.address m, ptr'))

module _ (seg : Segment) (ok : IsSegment seg) where
  next_address :
      (n : ℕ)
      → block_address seg.layout seg.address n + 2 ^ seg.layout.blocksize_log2
        ≡ block_address seg.layout seg.address (n + 1)
  next_address n = omega (arith, add-mul n 1 (2 ^ seg.layout.blocksize_log2))

  pointer_behind :
      (m n : ℕ) (ptr : AllocPtr)
      → IsAt seg n ptr
      → m < seg.layout.num_blocks
      → IsAt seg (m + 1) (record ptr {
        b = bitptr_inc (bitptr base0 m);
        p = block_address seg.layout seg.address m + ptr.blocksize_bytes;
      })
  pointer_behind m n ptr a h = record {
    position = bitptr_inc-bitptr base0 m;
    next_block = ap (λ s. block_address seg.layout seg.address m + s) a.block_size ∙ next_address m;
    in_bitmap = omega arith;
    block_size = a.block_size;
  }

  block_of_bit :
      (m : ℕ) (ptr : AllocPtr)
      → block_of seg ptr (some (bitptr base0 m))
        ≡ some (
          block_address seg.layout seg.address m,
          record ptr {
            b = bitptr_inc (bitptr base0 m);
            p = block_address seg.layout seg.address m + ptr.blocksize_bytes;
          },
        )
  unfolding block_base
  block_of_bit m ptr = rw (bitptr_index-bitptr base0 m) refl

  not_behind : (m : ℕ) → m < len0 seg * 32 → IsFree seg m → m < seg.layout.num_blocks
  not_behind m h z = elim (less_or_not m seg.layout.num_blocks) [
    | inl (k, _) ↦ k
    | inr (k, _) ↦ absurd (omega (arith, ok.sentinels m k h, z))
  ]

  found-Allocates :
      (n : ℕ) (ptr : AllocPtr) (o : Option Bitptr)
      → IsAt seg n ptr
      → FirstZero seg.memory base0 n (len0 seg * 32) o
      → Allocates seg n (block_of seg ptr o)
  found-Allocates n ptr o a (filled f) =
      exhausted (λ i c d. f i c (omega (arith, ok.laid_out.lower_room)))
  found-Allocates n ptr o a (free_at m h k z f) =
      let room = not_behind m k z in
      subst (Allocates seg n) (sym (block_of_bit m ptr))
        (allocates m _ h room z f (pointer_behind m n ptr a room))

  not_null : (n : ℕ) (ptr : AllocPtr) → IsAt seg n ptr → ptr.p == 0 ≡ false
  not_null n ptr a = ground (arith, a.next_block, ok.mapped)

  find_bitmap-Allocates :
      (n : ℕ) (ptr : AllocPtr) → IsAt seg n ptr → Allocates seg n (find_bitmap seg ptr)
  unfolding find_bitmap
  find_bitmap-Allocates n ptr a =
      let upper : base1 seg.layout + len1 seg ≡ base2 seg.layout =
        omega (arith, ok.laid_out.collect_after) in
      let first =
        search_bitmap-FirstZero seg.memory base0 (base1 seg.layout) (len0 seg) (len1 seg) ok.words
          ok.summary n (omega (arith, a.in_bitmap, ok.laid_out.lower_room))
          ok.laid_out.upper_room in
      rw (not_null n ptr a, a.position)
        (found-Allocates n ptr _ a (
          subst
            (λ l.
              FirstZero seg.memory base0 n (len0 seg * 32)
                (search_bitmap seg.memory base0 (base1 seg.layout) l (bitptr base0 n)))
            upper first))

  test_lem :
      (n : ℕ) (ptr : AllocPtr)
      → IsAt seg n ptr
      → test_alloc_ptr seg ptr ≡ (bit_at seg.memory base0 n == 1)
  unfolding test_alloc_ptr
  test_lem n ptr a =
      rw (not_null n ptr a)
        (ap (bitptr_test seg.memory) a.position ∙ bitptr_test-bit seg.memory base0 n)

  quick_lem :
      (n : ℕ) (ptr : AllocPtr)
      → IsAt seg n ptr
      → ◌≡◌ {A = Option (ℕ × AllocPtr)}
          (some (
            block_address seg.layout seg.address n,
            record ptr {
              b = bitptr_inc (bitptr base0 n);
              p = block_address seg.layout seg.address n + ptr.blocksize_bytes;
            },
          ))
          (some (ptr.p, record ptr { b = bitptr_inc ptr.b; p = ptr.p + ptr.blocksize_bytes }))
  quick_lem n ptr a = rw (a.position, a.next_block) refl

  -- From block n on, an allocation in a segment takes the first block that is free, by its address,
  -- and leaves the allocation pointer behind it; it fails only if none of these blocks is free. The
  -- quick test of one bit and the search through the bitmaps together do this.
  pub alloc_block-Allocates :
      (n : ℕ) (ptr : AllocPtr) → IsAt seg n ptr → Allocates seg n (alloc_block seg ptr)
  unfolding alloc_block
  alloc_block-Allocates n ptr a = elim (same_or_not (bit_at seg.memory base0 n) 1) [
    | inl (e, b) ↦ rw (test_lem n ptr a, b) (find_bitmap-Allocates n ptr a)
    | inr (e, b) ↦
        let z : IsFree seg n = omega (arith, e, bit_lt (seg.memory (base0 + n / 32)) (n % 32)) in
        let room = not_behind n (omega (arith, a.in_bitmap, ok.laid_out.lower_room)) z in
        rw (test_lem n ptr a, b)
          (subst (Allocates seg n) (quick_lem n ptr a) (
            allocates n _ (omega arith) room z (λ i c d. absurd (omega arith))
              (pointer_behind n n ptr a room)))
  ]
