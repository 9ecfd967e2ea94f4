-- ===== src/Pool/Pointer.antt =====
-- `set_alloc_ptr` (smlsharp/src/runtime/heap_concurrent.c, lines 711 to 732) and the allocations after
-- it.
use native.Mathlib.Nat.{one-le-pow, mul-le-mul_right}
use smlsharp_completions_gen.Bitptr.{bitptr}
use smlsharp_completions_gen.Base.{
  ℕ, ◌+◌, ◌*◌, ◌^◌, ◌≤◌, ◌<◌, ◌≡◌, Bool, true, false, if◌then◌else◌, arith, refl, ap, ◌∙◌,
}
use smlsharp_completions_gen.Segment.{SegmentLayout, base0}
use smlsharp_completions_gen.Segment.Layout.{IsLaidOut, block_address}
use smlsharp_completions_gen.Allocator.{Segment, AllocPtr, block_base, block_limit, alloc_block}
use smlsharp_completions_gen.Allocator.Blocks.{IsSegment, Allocates, alloc_block-Allocates}
use smlsharp_completions_gen.Pool.{
  SyncPhase, preasync, async, presync1, sync1, presync2, sync2, premark, mark, dummy_phase,
  before_snapshot, end_snapshot, set_alloc_ptr,
}

block_below :
    (l : SegmentLayout) (address i : ℕ)
    → IsLaidOut l
    → i < l.num_blocks
    → block_address l address i < address + l.block_limit
block_below l address i laid h =
    let p = one-le-pow l.blocksize_log2 2 (omega arith) in
    let ends : (i + 1) * 2 ^ l.blocksize_log2 ≤ l.num_blocks * 2 ^ l.blocksize_log2 =
      mul-le-mul_right (2 ^ l.blocksize_log2) (omega arith) in
    let area : l.blocksize_bytes * l.num_blocks ≡ l.num_blocks * 2 ^ l.blocksize_log2 =
      ap (λ b. b * l.num_blocks) laid.size ∙ grind arith in
    omega (arith, ends, area, p, laid.blocks)

with_snapshot :
    (seg : Segment) (snapshot : ℕ)
    → IsSegment seg
    → IsSegment (record seg { allocptr_snapshot = snapshot })
with_snapshot seg snapshot s = record {
  laid_out = s.laid_out;
  words = s.words;
  summary = s.summary;
  sentinels = s.sentinels;
  mapped = s.mapped;
}

start-Allocates :
    (seg : Segment) (ptr : AllocPtr)
    → IsSegment seg
    → ptr.blocksize_bytes ≡ 2 ^ seg.layout.blocksize_log2
    → Allocates seg 0 (alloc_block seg (record ptr { b = bitptr base0 0; p = block_base seg }))
unfolding block_base
start-Allocates seg ptr s h =
    alloc_block-Allocates seg s 0 (record ptr { b = bitptr base0 0; p = block_base seg })
      (record {
        position = refl;
        next_block = omega arith;
        in_bitmap = omega arith;
        block_size = h;
      })

-- All blocks of the segment lie below the snapshot.
abbrev pub IsBelow : Segment → ℕ → Type 0
IsBelow seg snapshot =
    (i : ℕ) → i < seg.layout.num_blocks → block_address seg.layout seg.address i < snapshot

-- The snapshot after the segment has been taken, by the phase: before the snapshot of the allocation
-- pointers is taken, in SYNC2, all blocks are below it; in the other phases it is as it was.
abbrev pub Snapshot : SyncPhase → Segment → ℕ → Type 0
Snapshot async seg snapshot = IsBelow seg snapshot
Snapshot presync1 seg snapshot = IsBelow seg snapshot
Snapshot sync1 seg snapshot = IsBelow seg snapshot
Snapshot presync2 seg snapshot = IsBelow seg snapshot
Snapshot preasync seg snapshot = snapshot ≡ seg.allocptr_snapshot
Snapshot sync2 seg snapshot = snapshot ≡ seg.allocptr_snapshot
Snapshot premark seg snapshot = snapshot ≡ seg.allocptr_snapshot
Snapshot mark seg snapshot = snapshot ≡ seg.allocptr_snapshot
Snapshot dummy_phase seg snapshot = snapshot ≡ seg.allocptr_snapshot

end_snapshot-IsBelow : (seg : Segment) → IsSegment seg → IsBelow seg (block_limit seg)
unfolding block_limit
end_snapshot-IsBelow seg s i k = block_below seg.layout seg.address i s.laid_out k

end_snapshot-Snapshot :
    (phase : SyncPhase) (seg : Segment)
    → IsSegment seg
    → Snapshot phase seg (end_snapshot phase seg).allocptr_snapshot
end_snapshot-Snapshot async seg s = end_snapshot-IsBelow seg s
end_snapshot-Snapshot presync1 seg s = end_snapshot-IsBelow seg s
end_snapshot-Snapshot sync1 seg s = end_snapshot-IsBelow seg s
end_snapshot-Snapshot presync2 seg s = end_snapshot-IsBelow seg s
end_snapshot-Snapshot preasync seg s = refl
end_snapshot-Snapshot sync2 seg s = refl
end_snapshot-Snapshot premark seg s = refl
end_snapshot-Snapshot mark seg s = refl
end_snapshot-Snapshot dummy_phase seg s = refl

-- After `set_alloc_ptr` on a segment in order, an allocation takes the first free block of the
-- segment. In the phases ASYNC, PRESYNC1, SYNC1 and PRESYNC2 all blocks of the segment lie below its
-- snapshot then, and in the others the snapshot is as it was.
pub set_alloc_ptr-Allocates :
    (phase : SyncPhase) (ptr : AllocPtr) (seg : Segment)
    → IsSegment seg
    → ptr.blocksize_bytes ≡ 2 ^ seg.layout.blocksize_log2
    → Allocates
        (set_alloc_ptr phase ptr seg).1
        0
        (alloc_block (set_alloc_ptr phase ptr seg).1 (set_alloc_ptr phase ptr seg).0)
      × Snapshot phase seg (set_alloc_ptr phase ptr seg).1.allocptr_snapshot
unfolding set_alloc_ptr block_base
set_alloc_ptr-Allocates phase ptr seg s h =
    (allocates (before_snapshot phase), end_snapshot-Snapshot phase seg s)
  where
    allocates :
        (b : Bool)
        → let seg' : Segment =
            if b then record seg { allocptr_snapshot = block_limit seg } else seg in
          Allocates seg' 0
            (alloc_block seg' (record ptr { b = bitptr base0 0; p = block_base seg }))
    allocates true =
        start-Allocates (record seg { allocptr_snapshot = block_limit seg }) ptr
          (with_snapshot seg (block_limit seg) s) h
    allocates false = start-Allocates seg ptr s h
