-- ===== src/Subheap.antt =====
-- Reclaiming the segments of a subheap after marking (smlsharp/src/runtime/heap_concurrent.c, lines
-- 1295 to 1418).
--
-- A list that is linked through `next` is a list of segments; `LIST_APPEND` adds to its end. The
-- segment of the allocation pointer, if it has one, stands beside it.
pub mod Counts
pub mod Clean
pub mod Lists
mod Tests
use smlsharp_completions_gen.Base.{
  ℕ, zero, suc, ◌+◌, ◌-◌, ◌*◌, ◌/◌, ◌==◌, ◌||◌, ltb, Bool, true, false, if◌then◌else◌, Option, none,
  some, List, [], ◌∷◌, ◌++◌, foldl,
}
use smlsharp_completions_gen.Bitptr.{complement, popcount}
use smlsharp_completions_gen.Segment.{base0, base1, object_index}
use smlsharp_completions_gen.Allocator.{Segment, AllocPtr, block_base, block_limit}
use smlsharp_completions_gen.Reclaim.{copy_collect_bitmap, clear_collect_bitmap}

-- The loop of `free_count` over the words that are left.
unfoldable pub count_words : (ℕ → ℕ) → ℕ → ℕ → ℕ
count_words memory p zero = 0
count_words memory p (suc left) =
    popcount 32 (complement (memory p)) + count_words memory (p + 1) left

unfoldable pub free_count : Segment → ℕ → ℕ
free_count seg allocptr =
    if allocptr == 0
    then count_words seg.memory base0 (base1 seg.layout - base0)
    else let p = base0 + object_index seg.layout seg.address allocptr / 32 + 1 in
      count_words seg.memory p (base1 seg.layout - p)

pub record Subheap : Type 0 where
  pub filled : List Segment
  pub partial : List Segment
  pub ptr : AllocPtr
  pub current : Option Segment

-- The lists and the counters of `reclaim_subheap`.
pub record Reclaimed : Type 0 where
  pub partial : List Segment
  pub filled : List Segment
  pub free : List Segment
  pub num_partial : ℕ
  pub num_filled : ℕ
  pub num_blocks_free : ℕ
  pub num_blocks_alloced : ℕ
  pub num_blocks_room : ℕ

-- The loop over the partial segments.
unfoldable pub reclaim_partial : Reclaimed → Segment → Reclaimed
reclaim_partial r seg =
    let copied = copy_collect_bitmap seg in
    let count = free_count copied 0 in
    if count == copied.layout.num_blocks
    then record r { free = r.free ++ (record copied { free_count = count } ∷ []) }
    else record r {
      num_partial = r.num_partial + 1;
      num_blocks_free = r.num_blocks_free + count;
      num_blocks_room = r.num_blocks_room + seg.free_count;
      partial = r.partial ++ (clear_collect_bitmap (record copied { free_count = count }) ∷ []);
    }

-- The segment of the allocation pointer stays where it is.
unfoldable pub reclaim_current : AllocPtr → Segment → Segment
reclaim_current ptr seg =
    let cleared = clear_collect_bitmap (copy_collect_bitmap seg) in
    record cleared {
      allocptr_snapshot = block_limit cleared;
      free_count = free_count cleared ptr.p;
    }

unfoldable pub count_current : AllocPtr → Reclaimed → Segment → Reclaimed
count_current ptr r seg =
    let count = (reclaim_current ptr seg).free_count in
    record r {
      num_blocks_free = r.num_blocks_free + count;
      num_blocks_room = r.num_blocks_room + count;
      num_blocks_alloced = r.num_blocks_alloced + object_index seg.layout seg.address ptr.p;
      num_filled = r.num_filled + 1;
    }

-- The loop over the filled segments.
unfoldable pub reclaim_filled : Reclaimed → Segment → Reclaimed
reclaim_filled r seg =
    let copied = copy_collect_bitmap seg in
    let count = free_count copied 0 in
    let counted = record copied { free_count = count } in
    let r' = record r { num_blocks_alloced = r.num_blocks_alloced + seg.free_count } in
    if ltb seg.allocptr_snapshot (block_limit seg) || count == 0
    then record r' {
      num_filled = r.num_filled + 1;
      filled =
          r.filled
          ++ (record (clear_collect_bitmap counted) { allocptr_snapshot = block_limit seg } ∷ []);
    }
    else if count == copied.layout.num_blocks
    then record r' { free = r.free ++ (record counted { allocptr_snapshot = block_base seg } ∷ []) }
    else record r' {
      num_partial = r.num_partial + 1;
      num_blocks_free = r.num_blocks_free + count;
      partial =
          r.partial
          ++ (record (clear_collect_bitmap counted) { allocptr_snapshot = block_base seg } ∷ []);
    }

abbrev pub no_segments : List Segment → Reclaimed
no_segments free = record {
  partial = [];
  filled = [];
  free = free;
  num_partial = 0;
  num_filled = 0;
  num_blocks_free = 0;
  num_blocks_alloced = 0;
  num_blocks_room = 0;
}

abbrev pub with_current : Subheap → Reclaimed → Option Segment → Reclaimed × Option Segment
with_current s r none = (r, none)
with_current s r (some seg) = (count_current s.ptr r seg, some (reclaim_current s.ptr seg))

-- `reclaim_subheap`: the lists and counters, with the list of free segments that it adds to, and the
-- subheap after it.
unfoldable pub reclaim_subheap : Subheap → List Segment → Reclaimed × Subheap
reclaim_subheap s free =
    let r = foldl reclaim_partial (no_segments free) s.partial in
    let (r', current) = with_current s r s.current in
    let end = foldl reclaim_filled r' s.filled in
    (end, record { filled = end.filled; partial = end.partial; ptr = s.ptr; current = current })
