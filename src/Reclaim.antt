-- ===== src/Reclaim.antt =====
-- Segments after marking (smlsharp/src/runtime/heap_concurrent.c, lines 337 to 374): their bitmaps
-- are made from the collect bits.
--
-- The words of a segment are counted from its start, as in Segment.antt.
pub mod Upper
pub mod Copied
pub mod Ready
use Prim.Native.Nat.{bit_or}
use smlsharp_completions_gen.Base.{
  ℕ, zero, suc, ◌+◌, ◌-◌, ◌*◌, ◌/◌, ◌%◌, ◌^◌, ◌==◌, ◌&&◌, leb, ltb, Bool, true, false,
  if◌then◌else◌,
}
use smlsharp_completions_gen.Segment.{SegmentLayout, base0, base1, base2}
use smlsharp_completions_gen.Allocator.{Segment}

-- `*p = word`
unfoldable pub write_word : (ℕ → ℕ) → ℕ → ℕ → ℕ → ℕ
write_word memory p word w = if w == p then word else memory w

-- `memcpy` and `memset` with 0 on n words.
unfoldable pub copy_words : (ℕ → ℕ) → ℕ → ℕ → ℕ → ℕ → ℕ
copy_words memory dst src n w =
    if leb dst w && ltb w (dst + n) then memory (src + (w - dst)) else memory w

unfoldable pub clear_words : (ℕ → ℕ) → ℕ → ℕ → ℕ → ℕ
clear_words memory p n w = if leb p w && ltb w (p + n) then 0 else memory w

-- The loop that makes a word of bitmap 1 from each 32 words of bitmap 0, by the number of words that
-- are left, with the rest for the last word.
unfoldable pub upper_loop : ℕ → ℕ → ℕ → ℕ → ℕ → (ℕ → ℕ) → (ℕ → ℕ) × (ℕ × ℕ)
upper_loop zero lower upper word mask memory = (memory, (upper, word))
upper_loop (suc left) lower upper word mask memory =
    let word' = if memory lower == 2 ^ 32 - 1 then bit_or word mask else word in
    let mask' = mask * 2 % 2 ^ 32 in
    let flushed = upper_loop left (lower + 1) (upper + 1) 0 1 (write_word memory upper word') in
    let rest = upper_loop left (lower + 1) upper word' mask' memory in
    if mask' == 0 then flushed else rest

-- `*(upper++) = word | sentinel` after the loop.
abbrev pub finish_upper : ℕ → (ℕ → ℕ) × (ℕ × ℕ) → ℕ → ℕ
finish_upper sentinel (memory, (upper, word)) = write_word memory upper (bit_or word sentinel)

-- `BITMAP_LIMIT(seg, 0)[-1] |= ...` after `memcpy`.
unfoldable pub copy_lower : SegmentLayout → (ℕ → ℕ) → ℕ → ℕ
copy_lower l memory =
    let copied = copy_words memory base0 (base2 l) (l.bitmap0_length / 4) in
    write_word copied (base1 l - 1) (bit_or (copied (base1 l - 1)) l.bitmap_sentinel0)

unfoldable pub copy_collect_bitmap : Segment → Segment
copy_collect_bitmap seg =
    let memory = copy_lower seg.layout seg.memory in
    let loop = upper_loop (base1 seg.layout - base0) base0 (base1 seg.layout) 0 1 memory in
    record seg { memory = finish_upper seg.layout.bitmap_sentinel1 loop }

unfoldable pub clear_collect_bitmap : Segment → Segment
clear_collect_bitmap seg = record seg {
  memory = clear_words seg.memory (base2 seg.layout) (seg.layout.bitmap0_length / 4);
}
