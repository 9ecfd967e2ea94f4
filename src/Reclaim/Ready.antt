-- ===== src/Reclaim/Ready.antt =====
-- After `copy_collect_bitmap` (smlsharp/src/runtime/heap_concurrent.c, lines 343 to 374) a segment is
-- ready for allocation: the blocks without a mark are free.
use Prim.Native.Nat.{bit_or}
use smlsharp_completions_gen.Base.{
  ℕ, ◌+◌, ◌-◌, ◌*◌, ◌/◌, ◌%◌, ◌^◌, ◌≤◌, ◌<◌, ◌≡◌, inl, inr, arith, refl, ap, subst, ◌∙◌, sym,
  less_or_not, true, false, ◌&&◌, leb, ltb, Bool-cases,
}
use smlsharp_completions_gen.Bitptr.Words.{bit}
use smlsharp_completions_gen.Bitptr.Next.{bit_at, AllOnes, IsWords}
use smlsharp_completions_gen.Segment.{SegmentLayout, sentinel, base0, base1, base2}
use smlsharp_completions_gen.Segment.Layout.{IsLaidOut}
use smlsharp_completions_gen.Segment.Find.{IsSummary}
use smlsharp_completions_gen.Allocator.{Segment}
use smlsharp_completions_gen.Allocator.Blocks.{IsSegment, len0}
use smlsharp_completions_gen.Reclaim.{
  copy_words, upper_loop, finish_upper, copy_lower, copy_collect_bitmap,
}
use smlsharp_completions_gen.Reclaim.Upper.{
  write_same, write_other, write-IsWords, IsBuilding, Built, upper_loop-Built,
}
use smlsharp_completions_gen.Reclaim.Copied.{
  below_sentinel, in_sentinel, sentinel_lt, finished_kept, finished_beyond, finished-IsWords,
  finished-IsSummary,
}

copied_word :
    (memory : ℕ → ℕ) (dst src n v : ℕ)
    → v < n
    → copy_words memory dst src n (dst + v) ≡ memory (src + v)
unfolding copy_words
copied_word memory dst src n v h =
    let inside : (leb dst (dst + v) && ltb (dst + v) (dst + n)) ≡ true = ground arith in
    rw inside (ap memory (omega arith))

copied-IsWords :
    (memory : ℕ → ℕ) (dst src n : ℕ) → IsWords memory → IsWords (copy_words memory dst src n)
unfolding copy_words
copied-IsWords memory dst src n h w = elim (Bool-cases (leb dst w && ltb w (dst + n))) [
  | inl b ↦ rw b (h (src + (w - dst)))
  | inr b ↦ rw b (h w)
]

module _ (l : SegmentLayout) (laid : IsLaidOut l) (memory : ℕ → ℕ) (words : IsWords memory) where
  abbrev copied : ℕ → ℕ
  copied = copy_words memory base0 (base2 l) (l.bitmap0_length / 4)

  abbrev last : ℕ
  last = base1 l - 1

  lower_word : (v : ℕ) → v < base1 l - base0 → copied (base0 + v) ≡ memory (base2 l + v)
  lower_word v h =
      copied_word memory base0 (base2 l) (l.bitmap0_length / 4) v (omega (arith, laid.length))

  lower_bit :
      (i : ℕ) → i < l.num_blocks → bit_at (copy_lower l memory) base0 i ≡ bit_at memory (base2 l) i
  unfolding copy_lower
  lower_bit i h = elim (less_or_not (i / 32) (l.num_blocks / 32)) [
    | inl (m, _) ↦
        ap (λ w. bit w (i % 32))
          (write_other copied last (bit_or (copied last) l.bitmap_sentinel0) (base0 + i / 32)
              (omega (arith, laid.lower_words))
            ∙ lower_word (i / 32) (omega (arith, laid.lower_words)))
    | inr (m, _) ↦
        ap (λ w. bit w (i % 32))
          (write_same copied last (bit_or (copied last) l.bitmap_sentinel0) (base0 + i / 32)
            (omega (arith, laid.lower_words)))
        ∙ ap (λ s. bit (bit_or (copied last) s) (i % 32)) laid.lower_sentinel
        ∙ below_sentinel (copied last) l.num_blocks (i % 32) (omega arith)
        ∙ ap (λ w. bit w (i % 32))
            (ap copied {x = last} {y = base0 + i / 32} (omega (arith, laid.lower_words))
              ∙ lower_word (i / 32) (omega (arith, laid.lower_words)))
  ]

  lower_beyond : (w : ℕ) → base1 l ≤ w → copy_lower l memory w ≡ memory w
  unfolding copy_lower copy_words
  lower_beyond w h =
      let outside : (leb base0 w && ltb w (base0 + l.bitmap0_length / 4)) ≡ false =
        ground (arith, laid.length, laid.upper_after) in
      write_other copied last _ w (omega (arith, laid.upper_after)) ∙ rw outside refl

  lower_sentinels : AllOnes (copy_lower l memory) base0 l.num_blocks ((base1 l - base0) * 32)
  unfolding copy_lower
  lower_sentinels i h k =
      ap (λ w. bit w (i % 32))
        (write_same copied last (bit_or (copied last) l.bitmap_sentinel0) (base0 + i / 32)
          (omega (arith, laid.lower_words)))
      ∙ ap (λ s. bit (bit_or (copied last) s) (i % 32)) laid.lower_sentinel
      ∙ in_sentinel (copied last) l.num_blocks (i % 32) (omega (arith, laid.lower_words))
          (omega arith)

  lower-IsWords : IsWords (copy_lower l memory)
  unfolding copy_lower
  lower-IsWords =
      let all = copied-IsWords memory base0 (base2 l) (l.bitmap0_length / 4) words in
      write-IsWords copied last _ all (
        subst (λ s. bit_or (copied last) s < 2 ^ 32) (sym laid.lower_sentinel)
          (sentinel_lt (copied last) l.num_blocks (all last)))

  start-IsBuilding :
      IsBuilding (copy_lower l memory) base0 (base1 l) 0 (copy_lower l memory) (base1 l) 0 1
  start-IsBuilding = record {
    position = omega arith;
    next_bit = refl;
    small = omega arith;
    bits = λ k h. absurd (omega arith);
    written = λ j h. absurd (omega arith);
    kept = λ w h. refl;
    beyond = λ w h. refl;
    words = lower-IsWords;
  }

  loop-Built :
      Built
        (copy_lower l memory)
        base0
        (base1 l)
        (base1 l - base0)
        (upper_loop (base1 l - base0) base0 (base1 l) 0 1 (copy_lower l memory))
  loop-Built =
      let lower = copy_lower l memory in
      let len = base1 l - base0 in
      subst (λ n. Built lower base0 (base1 l) n (upper_loop len base0 (base1 l) 0 1 lower))
        {x = 0 + len} (omega arith)
        (subst (λ a. Built lower base0 (base1 l) (0 + len) (upper_loop len a (base1 l) 0 1 lower))
          {x = base0 + 0} (omega arith)
          (upper_loop-Built lower base0 (base1 l) len 0 lower (base1 l) 0 1
            (omega (arith, laid.upper_after)) start-IsBuilding))

-- A segment with bitmaps that agree with its collect bits.
abbrev Agrees : Segment → (ℕ → ℕ) → Type 0
Agrees seg memory =
    IsSegment (record seg { memory = memory })
    × (((i : ℕ)
          → i < seg.layout.num_blocks
          → bit_at memory base0 i ≡ bit_at seg.memory (base2 seg.layout) i)
        × ((w : ℕ) → base2 seg.layout ≤ w → memory w ≡ seg.memory w))

module _ (seg : Segment) (laid : IsLaidOut seg.layout) (words : IsWords seg.memory)
    (mapped : 0 < seg.address) where
  finish-Agrees :
      (r : (ℕ → ℕ) × (ℕ × ℕ))
      → Built (copy_lower seg.layout seg.memory) base0 (base1 seg.layout) (len0 seg) r
      → Agrees seg (finish_upper (sentinel (len0 seg)) r)
  finish-Agrees (memory, (upper, word)) (mask, s) =
      let lower = copy_lower seg.layout seg.memory in
      let kept = finished_kept lower base0 (base1 seg.layout) (len0 seg) memory upper word mask s in
      let same : (i : ℕ)
          → i < len0 seg * 32
          → bit_at (finish_upper (sentinel (len0 seg)) (memory, (upper, word))) base0 i
            ≡ bit_at lower base0 i =
        λ i h.
          ap (λ w. bit w (i % 32)) (kept (base0 + i / 32) (omega (arith, h, laid.upper_after))) in
      (
        record {
          laid_out = laid;
          words =
              finished-IsWords lower base0 (base1 seg.layout) (len0 seg) memory upper word mask s;
          summary = subst (IsSummary _ base0 (base1 seg.layout) (len0 seg)) (sym laid.upper_words) (
              finished-IsSummary lower base0 (base1 seg.layout) (len0 seg) memory upper word mask s
                (omega (arith, laid.upper_after)));
          sentinels = λ i h k. same i k ∙ lower_sentinels seg.layout laid seg.memory words i h k;
          mapped = mapped;
        },
        (
          λ i h.
              same i (omega (arith, h, laid.lower_room))
              ∙ lower_bit seg.layout laid seg.memory words i h,
          λ w h.
              finished_beyond lower base0 (base1 seg.layout) (len0 seg) memory upper word mask s w
                (omega (arith, h, laid.upper_words, laid.collect_after))
              ∙ lower_beyond seg.layout laid seg.memory words w
                  (omega (arith, h, laid.collect_after)),
        ),
      )

-- `copy_collect_bitmap` leaves a segment in order: bitmap 1 tells about bitmap 0, and the sentinels
-- are set. A block is in use exactly if its collect bit was set. No word behind the two bitmaps is
-- changed, so the collect bits are still there.
pub copy_collect_bitmap-IsSegment :
    (seg : Segment)
    → IsLaidOut seg.layout
    → IsWords seg.memory
    → 0 < seg.address
    → IsSegment (copy_collect_bitmap seg)
      × (((i : ℕ)
            → i < seg.layout.num_blocks
            → bit_at (copy_collect_bitmap seg).memory base0 i
              ≡ bit_at seg.memory (base2 seg.layout) i)
          × ((w : ℕ) → base2 seg.layout ≤ w → (copy_collect_bitmap seg).memory w ≡ seg.memory w))
unfolding copy_collect_bitmap
copy_collect_bitmap-IsSegment seg laid words mapped =
    let r = upper_loop (len0 seg) base0 (base1 seg.layout) 0 1 (copy_lower seg.layout seg.memory) in
    subst (λ x. Agrees seg (finish_upper x r)) (sym laid.upper_sentinel)
      (finish-Agrees seg laid words mapped r (loop-Built seg.layout laid seg.memory words))
