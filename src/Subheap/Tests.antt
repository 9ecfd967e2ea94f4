-- ===== src/Subheap/Tests.antt =====
-- Runs of the models of reclaiming, on segments with twenty blocks of 32 bytes.
use mathlib.Core.List.{Memᴰ}
use smlsharp_completions_gen.Base.{
  ℕ, ◌+◌, ◌-◌, ◌*◌, ◌^◌, ◌≤◌, ◌<◌, ◌≡◌, ◌==◌, if◌then◌else◌, arith, refl, none, List, [], ◌∷◌,
}
use smlsharp_completions_gen.Base.Predicates.{All}
use smlsharp_completions_gen.Bitptr.Next.{bit_at}
use smlsharp_completions_gen.Splay.Memory.{ceiling}
use smlsharp_completions_gen.Segment.{segment_size, layout_of, bitmap_bits, base0, base2}
use smlsharp_completions_gen.Segment.Layout.{layout_of-IsLaidOut}
use smlsharp_completions_gen.Allocator.{Segment}
use smlsharp_completions_gen.Allocator.Blocks.{IsSegment}
use smlsharp_completions_gen.Reclaim.{copy_collect_bitmap}
use smlsharp_completions_gen.Reclaim.Ready.{copy_collect_bitmap-IsSegment}
use smlsharp_completions_gen.Subheap.{Subheap, reclaim_subheap}
use smlsharp_completions_gen.Subheap.Clean.{IsMarked, IsReclaimed}
use smlsharp_completions_gen.Subheap.Lists.{Sorts, listed, occurrences, reclaim_subheap-Sorts}

-- Of the blocks 0, 1 and 3 in use, 1 and 3 are marked.
abbrev words : ℕ → ℕ
words i =
    if i == 8
    then 2 ^ 32 - 2 ^ 20 + 11
    else if i == 9
    then 2 ^ 32 - 2
    else if i == 10
    then 10
    else 0

abbrev first : Segment
first = record {
  address = 3 * 2 ^ 15;
  layout = layout_of 5 20;
  memory = words;
  allocptr_snapshot = 3 * 2 ^ 15;
  free_count = 17;
}

abbrev second : Segment
second = record first { address = 4 * 2 ^ 15; allocptr_snapshot = 5 * 2 ^ 15; memory = λ i. 0 }

abbrev both : List Segment
both = first ∷ (second ∷ [])

room : (layout_of 5 20).block_limit ≤ segment_size
unfolding layout_of bitmap_bits ceiling
room = omega arith

first-IsMarked : IsMarked first
first-IsMarked = record {
  laid_out = layout_of-IsLaidOut 5 20 room;
  words = λ i. ground arith;
  mapped = omega arith;
}

second-IsMarked : IsMarked second
second-IsMarked = record {
  laid_out = layout_of-IsLaidOut 5 20 room;
  words = λ i. omega arith;
  mapped = omega arith;
}

copy_collect_bitmap-IsSegment_example :
    IsSegment (copy_collect_bitmap first)
    × (((i : ℕ)
          → i < first.layout.num_blocks
          → bit_at (copy_collect_bitmap first).memory base0 i
            ≡ bit_at first.memory (base2 first.layout) i)
        × ((w : ℕ)
            → base2 first.layout ≤ w
            → (copy_collect_bitmap first).memory w ≡ first.memory w))
copy_collect_bitmap-IsSegment_example =
    copy_collect_bitmap-IsSegment first first-IsMarked.laid_out first-IsMarked.words
      first-IsMarked.mapped

abbrev subheap : Subheap
subheap = record {
  filled = second ∷ [];
  partial = first ∷ [];
  ptr = record { b = record { ptr = 0; mask = 1 }; p = 0; blocksize_bytes = 32 };
  current = none;
}

reclaim_subheap-Sorts_example :
    Sorts both
      (λ a. occurrences a [] + occurrences a subheap.partial + occurrences a subheap.filled)
      (reclaim_subheap subheap []).1.partial
      (reclaim_subheap subheap []).1.filled
      (reclaim_subheap subheap []).0.free
    × (All (IsReclaimed both) (listed (reclaim_subheap subheap []).1.current)
        × ((a : ℕ)
            → occurrences a (listed (reclaim_subheap subheap []).1.current)
              ≡ occurrences a (listed none)))
reclaim_subheap-Sorts_example =
    reclaim_subheap-Sorts both subheap [] ((Memᴰ.head refl, first-IsMarked), tt)
      ((Memᴰ.tail (Memᴰ.head refl), second-IsMarked), tt) tt tt
