-- ===== src/Subheap/Clean.antt =====
-- Clearing the collect bits (smlsharp/src/runtime/heap_concurrent.c, lines 337 to 341), and what a
-- segment is like after it has been reclaimed.
use mathlib.Core.List.{Memᴰ}
use smlsharp_completions_gen.Base.{
  ℕ, ◌+◌, ◌*◌, ◌/◌, ◌%◌, ◌≤◌, ◌<◌, ◌≡◌, ◌&&◌, leb, ltb, true, false, inl, inr, arith, refl, ap, ◌∙◌,
  sym, Bool-cases, List,
}
use smlsharp_completions_gen.Bitptr.Words.{bit, bit-zero}
use smlsharp_completions_gen.Bitptr.Next.{bit_at, IsWords}
use smlsharp_completions_gen.Segment.{base0, base1, base2}
use smlsharp_completions_gen.Segment.Layout.{IsLaidOut}
use smlsharp_completions_gen.Allocator.{Segment}
use smlsharp_completions_gen.Allocator.Blocks.{IsSegment, len1}
use smlsharp_completions_gen.Reclaim.{clear_words, copy_collect_bitmap, clear_collect_bitmap}
use smlsharp_completions_gen.Reclaim.Ready.{copy_collect_bitmap-IsSegment}
use smlsharp_completions_gen.Subheap.{free_count}
use smlsharp_completions_gen.Subheap.Counts.{zeros_all, free_count-zeros}

-- No block has a mark.
abbrev pub IsClean : Segment → Type 0
IsClean seg = (i : ℕ) → i < seg.layout.num_blocks → bit_at seg.memory (base2 seg.layout) i ≡ 0

-- A segment before reclaiming.
pub record IsMarked (seg : Segment) : Type 0 where
  pub laid_out : IsLaidOut seg.layout
  pub words : IsWords seg.memory
  pub mapped : 0 < seg.address

-- A segment in order that comes from one of some segments, whose marks tell which of its blocks are
-- in use, and that has no marks any more.
pub record IsReclaimed (before : List Segment) (seg : Segment) : Type 0 where
  pub origin : Segment
  pub listed : Memᴰ origin before
  pub same_address : seg.address ≡ origin.address
  pub same_layout : seg.layout ≡ origin.layout
  pub ready : IsSegment seg
  pub clean : IsClean seg
  pub marks :
      (i : ℕ)
      → i < seg.layout.num_blocks
      → bit_at seg.memory base0 i ≡ bit_at origin.memory (base2 origin.layout) i

pub not_cleared : (memory : ℕ → ℕ) (p n w : ℕ) → w < p → clear_words memory p n w ≡ memory w
unfolding clear_words
not_cleared memory p n w h =
    let outside : (leb p w && ltb w (p + n)) ≡ false = ground arith in rw outside refl

pub cleared : (memory : ℕ → ℕ) (p n w : ℕ) → p ≤ w → w < p + n → clear_words memory p n w ≡ 0
unfolding clear_words
cleared memory p n w h k =
    let inside : (leb p w && ltb w (p + n)) ≡ true = ground arith in rw inside refl

pub cleared-IsWords : (memory : ℕ → ℕ) (p n : ℕ) → IsWords memory → IsWords (clear_words memory p n)
unfolding clear_words
cleared-IsWords memory p n h w = elim (Bool-cases (leb p w && ltb w (p + n))) [
  | inl b ↦ rw b (omega arith)
  | inr b ↦ rw b (h w)
]

-- The bitmaps of a segment in order, in a memory that agrees with it on them.
moved-IsSegment :
    (seg : Segment) (memory : ℕ → ℕ)
    → IsSegment seg
    → IsWords memory
    → ((w : ℕ) → w < base2 seg.layout → memory w ≡ seg.memory w)
    → IsSegment (record seg { memory = memory })
moved-IsSegment seg memory s words same = record {
  laid_out = s.laid_out;
  words = words;
  summary = record {
    full = λ v h e.
        same (base0 + v) (omega (arith, h, s.laid_out.collect_after))
        ∙ s.summary.full v h (sym (upper v (omega (arith, h, s.laid_out.upper_room))) ∙ e);
    open_word = λ v h e f.
        s.summary.open_word v h (sym (upper v (omega (arith, h, s.laid_out.upper_room))) ∙ e)
          (sym (same (base0 + v) (omega (arith, h, s.laid_out.collect_after))) ∙ f);
    sentinels = λ v h k. upper v k ∙ s.summary.sentinels v h k;
  };
  sentinels = λ i h k.
      ap (λ w. bit w (i % 32)) (same (base0 + i / 32) (omega (arith, k, s.laid_out.collect_after)))
      ∙ s.sentinels i h k;
  mapped = s.mapped;
}
  where
    upper :
        (v : ℕ)
        → v < len1 seg * 32
        → bit_at memory (base1 seg.layout) v ≡ bit_at seg.memory (base1 seg.layout) v
    upper v h =
        ap (λ w. bit w (v % 32))
          (same (base1 seg.layout + v / 32) (omega (arith, h, s.laid_out.collect_after)))

clear-IsClean : (seg : Segment) → IsLaidOut seg.layout → IsClean (clear_collect_bitmap seg)
unfolding clear_collect_bitmap
clear-IsClean seg l i h =
    ap (λ w. bit w (i % 32))
      (cleared seg.memory (base2 seg.layout) (seg.layout.bitmap0_length / 4)
        (base2 seg.layout + i / 32) (omega arith) (omega (arith, h, l.length, l.lower_room)))
    ∙ bit-zero (i % 32)

-- The parts of a reclaimed segment that the changes of its other fields leave alone.
module _ (before : List Segment) (seg : Segment) (k : Memᴰ seg before) (m : IsMarked seg) where
  pub ready : IsSegment (copy_collect_bitmap seg)
  ready = (copy_collect_bitmap-IsSegment seg m.laid_out m.words m.mapped).0

  cleared-IsSegment : IsSegment (clear_collect_bitmap (copy_collect_bitmap seg))
  unfolding clear_collect_bitmap
  cleared-IsSegment =
      let copied = copy_collect_bitmap seg in
      moved-IsSegment copied _ ready
        (cleared-IsWords copied.memory (base2 copied.layout) (copied.layout.bitmap0_length / 4)
          ready.words)
        (not_cleared copied.memory (base2 copied.layout) (copied.layout.bitmap0_length / 4))

  cleared_mark :
      (i : ℕ)
      → i < seg.layout.num_blocks
      → bit_at (clear_collect_bitmap (copy_collect_bitmap seg)).memory base0 i
        ≡ bit_at seg.memory (base2 seg.layout) i
  unfolding clear_collect_bitmap copy_collect_bitmap
  cleared_mark i h =
      let copied = copy_collect_bitmap seg in
      ap (λ w. bit w (i % 32))
        (not_cleared copied.memory (base2 seg.layout) (seg.layout.bitmap0_length / 4)
          (base0 + i / 32) (omega (arith, h, m.laid_out.lower_room, m.laid_out.collect_after)))
      ∙ (copy_collect_bitmap-IsSegment seg m.laid_out m.words m.mapped).1.0 i h

  -- With its collect bits cleared.
  pub cleared-IsReclaimed :
      (snapshot count : ℕ)
      → IsReclaimed before (record (clear_collect_bitmap (copy_collect_bitmap seg)) {
        allocptr_snapshot = snapshot;
        free_count = count;
      })
  unfolding clear_collect_bitmap copy_collect_bitmap
  cleared-IsReclaimed snapshot count =
      let s = cleared-IsSegment in
      record {
        origin = seg;
        listed = k;
        same_address = refl;
        same_layout = refl;
        ready = record {
          laid_out = s.laid_out;
          words = s.words;
          summary = s.summary;
          sentinels = s.sentinels;
          mapped = s.mapped;
        };
        clean = clear-IsClean (copy_collect_bitmap seg) m.laid_out;
        marks = cleared_mark;
      }

-- All blocks are free.
abbrev pub IsEmpty : Segment → Type 0
IsEmpty seg = (i : ℕ) → i < seg.layout.num_blocks → bit_at seg.memory base0 i ≡ 0

module _ (before : List Segment) (seg : Segment) (k : Memᴰ seg before) (m : IsMarked seg)
    (all : free_count (copy_collect_bitmap seg) 0
      ≡ (copy_collect_bitmap seg).layout.num_blocks) where
  all_free :
      (i : ℕ) → i < seg.layout.num_blocks → bit_at (copy_collect_bitmap seg).memory base0 i ≡ 0
  unfolding copy_collect_bitmap
  all_free i h =
      let s = ready before seg k m in
      zeros_all (bit_at (copy_collect_bitmap seg).memory base0) seg.layout.num_blocks i
        (sym (free_count-zeros (copy_collect_bitmap seg) s) ∙ all) h

  no_mark :
      (i : ℕ)
      → i < seg.layout.num_blocks
      → bit_at (copy_collect_bitmap seg).memory (base2 seg.layout) i ≡ 0
  no_mark i h =
      let (_, (marks, same)) = copy_collect_bitmap-IsSegment seg m.laid_out m.words m.mapped in
      ap (λ w. bit w (i % 32)) (same (base2 seg.layout + i / 32) (omega arith))
      ∙ sym (marks i h)
      ∙ all_free i h

  -- As it is, if no block is in use.
  pub unused-IsReclaimed :
      (snapshot count : ℕ)
      → IsReclaimed before
          (record (copy_collect_bitmap seg) { allocptr_snapshot = snapshot; free_count = count })
        × IsEmpty
            (record (copy_collect_bitmap seg) { allocptr_snapshot = snapshot; free_count = count })
  unfolding copy_collect_bitmap
  unused-IsReclaimed snapshot count =
      let s = ready before seg k m in
      (
        record {
          origin = seg;
          listed = k;
          same_address = refl;
          same_layout = refl;
          ready = record {
            laid_out = s.laid_out;
            words = s.words;
            summary = s.summary;
            sentinels = s.sentinels;
            mapped = s.mapped;
          };
          clean = no_mark;
          marks = (copy_collect_bitmap-IsSegment seg m.laid_out m.words m.mapped).1.0;
        },
        all_free,
      )
