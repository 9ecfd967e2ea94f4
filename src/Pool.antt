-- ===== src/Pool.antt =====
-- The pool of segments, and the setting of allocation pointers
-- (smlsharp/src/runtime/heap_concurrent.c, lines 276 to 335 and 539 to 763).
--
-- A segment with no layout yet is memory filled with 0. The layouts of the subheaps are different, so
-- that two pointers to layouts are compared by the size of their blocks.
pub mod Blank
pub mod Fresh
pub mod Taken
pub mod Pointer
mod Tests
use smlsharp_completions_gen.Base.{
  ℕ, zero, suc, ◌+◌, ◌-◌, ◌*◌, ◌/◌, ◌==◌, ◌||◌, ◌&&◌, ◌^◌, leb, ltb, min, Bool, true, false,
  if◌then◌else◌, Option, none, some, List, [], ◌∷◌,
}
use smlsharp_completions_gen.Bitptr.{Bitptr, bitptr}
use smlsharp_completions_gen.Segment.{SegmentLayout, segment_size, base0, base1, base2}
use smlsharp_completions_gen.Allocator.{Segment, AllocPtr, block_base, block_limit}
use smlsharp_completions_gen.Reclaim.{
  write_word, clear_words, copy_collect_bitmap, clear_collect_bitmap,
}

pub data SyncPhase : Type 0 where
  preasync async presync1 sync1 presync2 sync2 premark mark dummy_phase : SyncPhase

-- `for (...) BITMAP_LIMIT(seg, i)[-1] = ...`, for both bitmaps.
unfoldable pub write_limits : SegmentLayout → ℕ → ℕ → (ℕ → ℕ) → ℕ → ℕ
write_limits l word0 word1 memory =
    write_word (write_word memory (base1 l - 1) word0) (base2 l - 1) word1

-- From the new layout on.
unfoldable pub set_layout : ℕ → SegmentLayout → (ℕ → ℕ) → Segment
set_layout address l memory = record {
  address = address;
  layout = l;
  memory = write_limits l l.bitmap_sentinel0 l.bitmap_sentinel1 memory;
  allocptr_snapshot = address + l.block_offset;
  free_count = l.num_blocks;
}

-- The old sentinels are cleared, and the difference of the two areas of bitmaps.
unfoldable pub clear_old : Segment → SegmentLayout → ℕ → ℕ
clear_old seg l =
    let cleared = write_limits seg.layout 0 0 seg.memory in
    let old_limit = seg.layout.zerofill_limit / 4 in
    let new_limit = l.zerofill_limit / 4 in
    if ltb old_limit new_limit
    then clear_words cleared old_limit (new_limit - old_limit)
    else cleared

unfoldable pub init_segment : Segment → SegmentLayout → Segment
init_segment seg l =
    if seg.layout.blocksize_log2 == l.blocksize_log2
    then seg
    else set_layout seg.address l (clear_old seg l)

-- The same for a segment that has no layout.
unfoldable pub init_new : ℕ → SegmentLayout → Segment
init_new address l = set_layout address l (λ w. 0)

pub record Memory : Type 0 where
  pub begin : ℕ
  pub count : ℕ
  pub alloced : ℕ

unfoldable pub allocate_segment : Memory → ℕ → Option (ℕ × Memory)
allocate_segment memory limit =
    if leb (if ltb limit memory.count then limit else memory.count) memory.alloced
    then none
    else some (
      memory.begin + memory.alloced * segment_size,
      record memory { alloced = memory.alloced + 1 },
    )

pub record Subpool : Type 0 where
  pub filled : List Segment
  pub partial : List Segment
  pub partial_marked : List Segment

pub record SegmentPool : Type 0 where
  pub subpool : ℕ → Subpool
  pub freelist : List Segment
  pub memory : Memory

unfoldable pub set_subpool : ℕ → Subpool → SegmentPool → SegmentPool
set_subpool i s pool = record pool { subpool = λ j. if j == i then s else pool.subpool j }

abbrev pub sees_marked : SyncPhase → Bool
sees_marked mark = true
sees_marked async = true
sees_marked preasync = true
sees_marked presync1 = false
sees_marked sync1 = false
sees_marked presync2 = false
sees_marked sync2 = false
sees_marked premark = false
sees_marked dummy_phase = false

abbrev pub from_marked : SyncPhase → Segment → Segment
from_marked async seg = clear_collect_bitmap (copy_collect_bitmap seg)
from_marked mark seg = seg
from_marked preasync seg = seg
from_marked presync1 seg = seg
from_marked sync1 seg = seg
from_marked presync2 seg = seg
from_marked sync2 seg = seg
from_marked premark seg = seg
from_marked dummy_phase seg = seg

module _ (segment_layout : ℕ → SegmentLayout) (i : ℕ) where
  abbrev pub extend_heap : SegmentPool → Option (ℕ × Memory) → Option (Segment × SegmentPool)
  extend_heap pool none = none
  extend_heap pool (some (address, memory)) =
      some (init_new address (segment_layout i), record pool { memory = memory })

  abbrev pub from_freelist : SegmentPool → List Segment → Option (Segment × SegmentPool)
  from_freelist pool [] = extend_heap pool (allocate_segment pool.memory pool.memory.count)
  from_freelist pool (seg ∷ rest) =
      some (init_segment seg (segment_layout i), record pool { freelist = rest })

  abbrev pub from_partial_marked :
      SyncPhase → SegmentPool → List Segment → Option (Segment × SegmentPool)
  from_partial_marked current pool [] = from_freelist pool pool.freelist
  from_partial_marked current pool (seg ∷ rest) = some (
    from_marked current seg,
    set_subpool i (record (pool.subpool i) { partial_marked = rest }) pool,
  )

  abbrev pub from_partial :
      SyncPhase → SyncPhase → SegmentPool → List Segment → Option (Segment × SegmentPool)
  from_partial phase current pool [] =
      if sees_marked phase
      then from_partial_marked current pool (pool.subpool i).partial_marked
      else from_freelist pool pool.freelist
  from_partial phase current pool (seg ∷ rest) =
      some (seg, set_subpool i (record (pool.subpool i) { partial = rest }) pool)

  -- `get_segment_from_pool`, where `current` is the phase that the thread is in.
  unfoldable pub get_segment_from_pool :
      SyncPhase → SyncPhase → SegmentPool → Option (Segment × SegmentPool)
  get_segment_from_pool phase current pool =
      from_partial phase current pool (pool.subpool i).partial

-- The numbers of the phases.
abbrev pub phase_number : SyncPhase → ℕ
phase_number preasync = 0
phase_number async = 1
phase_number presync1 = 2
phase_number sync1 = 3
phase_number presync2 = 4
phase_number sync2 = 5
phase_number premark = 6
phase_number mark = 7
phase_number dummy_phase = 16

-- `ASYNC <= phase && phase <= PRESYNC2`
abbrev pub before_snapshot : SyncPhase → Bool
before_snapshot phase =
    leb (phase_number async) (phase_number phase)
    && leb (phase_number phase) (phase_number presync2)

abbrev pub end_snapshot : SyncPhase → Segment → Segment
end_snapshot phase seg =
    if before_snapshot phase then record seg { allocptr_snapshot = block_limit seg } else seg

-- `dummy_bitptr` is named by its mask; a test of it is in `test_alloc_ptr`.
unfoldable pub clear_alloc_ptr : AllocPtr → AllocPtr
clear_alloc_ptr ptr = record ptr { b = record { ptr = 0; mask = 1 }; p = 0 }

unfoldable pub init_alloc_ptr : ℕ → AllocPtr
init_alloc_ptr blocksize_log2 =
    clear_alloc_ptr
      (record { b = record { ptr = 0; mask = 1 }; p = 0; blocksize_bytes = 2 ^ blocksize_log2 })

unfoldable pub set_alloc_ptr : SyncPhase → AllocPtr → Segment → AllocPtr × Segment
set_alloc_ptr phase ptr seg =
    (record ptr { b = bitptr base0 0; p = block_base seg }, end_snapshot phase seg)

unfoldable pub release_alloc_ptr : SyncPhase → AllocPtr → Segment → AllocPtr × Segment
release_alloc_ptr phase ptr seg = (clear_alloc_ptr ptr, end_snapshot phase seg)

-- With the segment of the pointer, which is changed only if there is one.
unfoldable pub save_alloc_ptr : AllocPtr → Segment → Segment
save_alloc_ptr ptr seg = if ptr.p == 0 then seg else record seg { allocptr_snapshot = ptr.p }
