-- ===== src/Pool/Tests.antt =====
-- Runs of the models of the pool, with layouts of twenty blocks.
use smlsharp_completions_gen.Base.{◌+◌, ◌*◌, ◌^◌, ◌%◌, ◌≤◌, ◌≡◌, ◌≢◌, arith, refl, [], ◌∷◌}
use smlsharp_completions_gen.Splay.Memory.{ceiling}
use smlsharp_completions_gen.Segment.{SegmentLayout, segment_size, layout_of, bitmap_bits}
use smlsharp_completions_gen.Segment.Layout.{layout_of-IsLaidOut}
use smlsharp_completions_gen.Allocator.{Segment, AllocPtr, alloc_block}
use smlsharp_completions_gen.Allocator.Blocks.{IsSegment, Allocates}
use smlsharp_completions_gen.Subheap.Clean.{IsEmpty}
use smlsharp_completions_gen.Pool.{
  SegmentPool, async, init_alloc_ptr, clear_alloc_ptr, set_alloc_ptr, init_segment, init_new,
  set_layout, get_segment_from_pool,
}
use smlsharp_completions_gen.Pool.Blank.{IsBlank, set_layout-IsBlank}
use smlsharp_completions_gen.Pool.Fresh.{init_segment-IsSegment}
use smlsharp_completions_gen.Pool.Pointer.{Snapshot, set_alloc_ptr-Allocates}
use smlsharp_completions_gen.Pool.Taken.{Takes, get_segment_from_pool-Takes}

abbrev small : SegmentLayout
small = layout_of 5 20

abbrev large : SegmentLayout
large = layout_of 6 20

small_room : (layout_of 5 20).block_limit ≤ segment_size
unfolding layout_of bitmap_bits ceiling
small_room = omega arith

large_room : (layout_of 6 20).block_limit ≤ segment_size
unfolding layout_of bitmap_bits ceiling
large_room = omega arith

abbrev segment : Segment
segment = init_new (3 * 2 ^ 15) small

segment-IsBlank : IsBlank segment
unfolding init_new
segment-IsBlank =
    set_layout-IsBlank (3 * 2 ^ 15) small (λ w. 0) (layout_of-IsLaidOut 5 20 small_room)
      (λ w. omega arith) (omega arith) (λ w h k. refl)

different : segment.layout.blocksize_log2 ≡ large.blocksize_log2 → segment.layout ≡ large
unfolding init_new set_layout layout_of
different e = absurd (omega (arith, e))

twenty : large.num_blocks % 32 ≢ 0
unfolding layout_of
twenty e = absurd (omega (arith, e))

init_segment-IsSegment_example :
    ((init_segment segment large).layout ≡ large)
    × (IsBlank (init_segment segment large)
        × (IsSegment (init_segment segment large) × IsEmpty (init_segment segment large)))
init_segment-IsSegment_example =
    init_segment-IsSegment segment large segment-IsBlank (layout_of-IsLaidOut 6 20 large_room)
      different twenty

abbrev pool : SegmentPool
pool = record {
  subpool = λ i. record { filled = []; partial = []; partial_marked = segment ∷ [] };
  freelist = segment ∷ [];
  memory = record { begin = 2 ^ 15; count = 3; alloced = 3 };
}

get_segment_from_pool-Takes_example :
    Takes
      (λ i. layout_of (i + 3) 20)
      2
      async
      async
      pool
      (get_segment_from_pool (λ i. layout_of (i + 3) 20) 2 async async pool)
get_segment_from_pool-Takes_example =
    get_segment_from_pool-Takes (λ i. layout_of (i + 3) 20) 2 async async pool

set_up : IsSegment (init_segment segment large)
set_up =
    (init_segment-IsSegment segment large segment-IsBlank (layout_of-IsLaidOut 6 20 large_room)
      different twenty).1.1.0

abbrev pointer : AllocPtr
pointer = init_alloc_ptr 6

pointer_size : pointer.blocksize_bytes ≡ 2 ^ (init_segment segment large).layout.blocksize_log2
unfolding init_alloc_ptr clear_alloc_ptr init_segment init_new set_layout layout_of
pointer_size = refl

set_alloc_ptr-Allocates_example :
    Allocates (set_alloc_ptr async pointer (init_segment segment large)).1 0 (
      alloc_block
        (set_alloc_ptr async pointer (init_segment segment large)).1
        (set_alloc_ptr async pointer (init_segment segment large)).0)
    × Snapshot async
        (init_segment segment large)
        (set_alloc_ptr async pointer (init_segment segment large)).1.allocptr_snapshot
set_alloc_ptr-Allocates_example =
    set_alloc_ptr-Allocates async pointer (init_segment segment large) set_up pointer_size
