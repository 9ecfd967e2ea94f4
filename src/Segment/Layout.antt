-- ===== src/Segment/Layout.antt =====
-- `compute_segment_layout` (smlsharp/src/runtime/heap_concurrent.c, lines 151 to 222): the parts of a
-- segment are apart from each other and within it.
use native.Mathlib.Nat.{
  one-le-pow, mul-mod_right, pow-le-pow_right, mul-div_left, mul-le-mul_right, div-add-mod, mod-lt,
}
use smlsharp_completions_gen.Base.{
  ℕ, zero, suc, ◌+◌, ◌-◌, ◌*◌, ◌/◌, ◌%◌, ◌^◌, ◌≤◌, ◌<◌, ◌≡◌, ◌⊎◌, inl, inr, arith, refl, ap, ◌∙◌,
  min, less_or_not, leb, true, false, some,
}
use smlsharp_completions_gen.Splay.Memory.{ceiling, ceiling_multiple, ceiling_bounds}
use smlsharp_completions_gen.Segment.{
  SegmentLayout, num_subheaps, segment_size, bitmap0_offset, bitmap_bits, sentinel, layout_of,
  layout_loop, first_num_blocks, compute_segment_layout, base0, base1, base2, segment_addr,
  object_index,
}

-- A bitmap for n bits: whole words, and room for a sentinel.
bitmap_bits_lem :
    (n : ℕ) → (bitmap_bits n % 32 ≡ 0) × ((n < bitmap_bits n) × (bitmap_bits n ≤ n + 32))
unfolding bitmap_bits
bitmap_bits_lem n =
    let m = ceiling_multiple (n + 1) 32 (omega arith) in
    let b = ceiling_bounds (n + 1) 32 (omega arith) in
    (omega (arith, m), (omega (arith, b), omega (arith, b)))

-- The parts of a segment one after the other, each with its alignment.
pub record IsLaidOut (l : SegmentLayout) : Type 0 where
  pub within : l.block_limit ≤ segment_size
  pub blocks : l.block_offset + l.blocksize_bytes * l.num_blocks ≡ l.block_limit
  pub headers : l.stack_offset + 8 * l.num_blocks + 4 ≤ l.block_offset
  pub aligned : l.block_offset % min 16 l.blocksize_bytes ≡ 0
  pub stack : l.zerofill_limit ≤ l.stack_offset
  pub stack_aligned : l.stack_offset % 8 ≡ 0
  pub collect : l.bitmap_offset2 + l.bitmap0_length ≡ l.zerofill_limit
  pub bitmap1 : base2 l * 4 ≡ l.bitmap_offset2
  pub bitmap0 : base1 l * 4 ≡ l.bitmap_offset1
  pub lower_room : l.num_blocks < (base1 l - base0) * 32
  pub upper_room : base1 l - base0 < (base2 l - base1 l) * 32
  pub upper_after : base0 < base1 l
  pub collect_after : base1 l < base2 l
  pub size : l.blocksize_bytes ≡ 2 ^ l.blocksize_log2
  pub length : l.bitmap0_length ≡ (base1 l - base0) * 4
  pub lower_words : base1 l - base0 ≡ l.num_blocks / 32 + 1
  pub upper_words : base2 l - base1 l ≡ (base1 l - base0) / 32 + 1
  pub lower_sentinel : l.bitmap_sentinel0 ≡ sentinel l.num_blocks
  pub upper_sentinel : l.bitmap_sentinel1 ≡ sentinel (base1 l - base0)

ceiling_mod : (x y : ℕ) → 0 < y → ceiling x y % y ≡ 0
ceiling_mod x y h = ap (λ m. m % y) (ceiling_multiple x y h) ∙ mul-mod_right y _

pub layout_of-IsLaidOut :
    (log2 n : ℕ) → (layout_of log2 n).block_limit ≤ segment_size → IsLaidOut (layout_of log2 n)
unfolding layout_of base0 base1 base2
layout_of-IsLaidOut log2 n h =
    let b0 = bitmap_bits_lem n in
    let b1 = bitmap_bits_lem (bitmap_bits n / 32) in
    let bmlimit =
      bitmap0_offset
      + bitmap_bits n / 8
      + bitmap_bits (bitmap_bits n / 32) / 8
      + bitmap_bits n / 8 in
    let st = ceiling_bounds bmlimit 8 (omega arith) in
    let p = one-le-pow log2 2 (omega arith) in
    let bl = ceiling_bounds (ceiling bmlimit 8 + 8 * n + 4) (min 16 (2 ^ log2)) (omega arith) in
    record {
      within = h;
      blocks = refl;
      headers = omega (arith, bl);
      aligned = ceiling_mod _ _ (omega arith);
      stack = omega (arith, st);
      stack_aligned = ceiling_mod _ 8 (omega arith);
      collect = refl;
      bitmap1 = omega (arith, b0, b1);
      bitmap0 = omega (arith, b0);
      lower_room = omega (arith, b0);
      upper_room = omega (arith, b0, b1);
      upper_after = omega (arith, b0);
      collect_after = omega (arith, b0, b1);
      size = refl;
      length = omega (arith, b0);
      lower_words = omega (arith, b0);
      upper_words = omega (arith, b0, b1);
      lower_sentinel = refl;
      upper_sentinel = ap sentinel (omega (arith, b0));
    }

fits_or_not :
    (m : ℕ)
    → ((m ≤ segment_size) × (leb m segment_size ≡ true))
      ⊎ ((segment_size < m) × (leb m segment_size ≡ false))
fits_or_not m = ground arith

at_most_once : (p n : ℕ) → n ≤ 1 → p * n ≤ p
at_most_once p zero h = omega arith
at_most_once p (suc zero) h = omega arith
at_most_once p (suc (suc n)) h = absurd (omega arith)

one_le_div : (a b : ℕ) → 0 < b → b ≤ a → 1 ≤ a / b
one_le_div a b h k = grind (arith, div-add-mod a b, mod-lt a h)

-- No block, and one block, have room.
small_fits : (log2 n : ℕ) → log2 ≤ 12 → n ≤ 1 → (layout_of log2 n).block_limit ≤ segment_size
unfolding layout_of
small_fits log2 n h k =
    let b0 = bitmap_bits_lem n in
    let b1 = bitmap_bits_lem (bitmap_bits n / 32) in
    let bmlimit =
      bitmap0_offset
      + bitmap_bits n / 8
      + bitmap_bits (bitmap_bits n / 32) / 8
      + bitmap_bits n / 8 in
    let st = ceiling_bounds bmlimit 8 (omega arith) in
    let p = one-le-pow log2 2 (omega arith) in
    let q : 2 ^ log2 ≤ 2 ^ 12 = pow-le-pow_right (omega arith) {i = log2} {j = 12} h in
    let bl = ceiling_bounds (ceiling bmlimit 8 + 8 * n + 4) (min 16 (2 ^ log2)) (omega arith) in
    let area : 2 ^ log2 * n ≤ 2 ^ log2 = at_most_once (2 ^ log2) n k in
    omega (arith, b0, b1, st, bl)

layout_of_lem :
    (log2 n : ℕ) → ((layout_of log2 n).blocksize_log2 ≡ log2) × ((layout_of log2 n).num_blocks ≡ n)
unfolding layout_of
layout_of_lem log2 n = (refl, refl)

-- The loop stops at a layout that has room, and at one with a block if it starts there.
layout_loop-IsLaidOut :
    (log2 n : ℕ)
    → log2 ≤ 12
    → (l : SegmentLayout) × ((layout_loop log2 n ≡ some l)
        × (IsLaidOut l × ((l.blocksize_log2 ≡ log2) × (min 1 n ≤ l.num_blocks))))
unfolding layout_loop
layout_loop-IsLaidOut log2 zero h =
    let fits = small_fits log2 0 h (omega arith) in
    (
      layout_of log2 0,
      (ground arith, (layout_of-IsLaidOut log2 0 fits, ((layout_of_lem log2 0).0, omega arith))),
    )
layout_loop-IsLaidOut log2 (suc n) h = elim (fits_or_not (layout_of log2 (suc n)).block_limit) [
  | inl (fits, b) ↦ (
    layout_of log2 (suc n),
    (
      rw b refl,
      (
        layout_of-IsLaidOut log2 (suc n) fits,
        ((layout_of_lem log2 (suc n)).0, omega (arith, (layout_of_lem log2 (suc n)).1)),
      ),
    ),
  )
  | inr (large, b) ↦
      let (l, (e, (laid, (s, m)))) = layout_loop-IsLaidOut log2 n h in
      (
        l,
        (
          rw b e,
          (
            laid,
            (
              s,
              elim (less_or_not n 1) [
                | inl (k, _) ↦
                    absurd (omega (arith, small_fits log2 (suc n) h (omega arith), large))
                | inr (k, _) ↦ omega (arith, m)
              ],
            ),
          ),
        ),
      )
]

some_blocks : (log2 : ℕ) → log2 ≤ 12 → 1 ≤ first_num_blocks log2
unfolding first_num_blocks
some_blocks log2 h =
    let q : 2 ^ log2 ≤ 2 ^ 12 = pow-le-pow_right (omega arith) {i = log2} {j = 12} h in
    one_le_div (8 * (segment_size - bitmap0_offset)) (8 * (2 ^ log2 + 8) + 1) (omega arith)
      (omega arith)

-- `compute_segment_layout` ends for each of the subheaps. In its layout the bitmaps, the stack and
-- the blocks lie one after the other within the segment, aligned, with room for a header before each
-- block, for a sentinel in the bitmaps and for at least one block, of the size of the subheap.
pub compute_segment_layout-IsLaidOut :
    (subheap_index : ℕ)
    → subheap_index < num_subheaps
    → (l : SegmentLayout) × ((compute_segment_layout subheap_index ≡ some l)
        × (IsLaidOut l × ((l.blocksize_log2 ≡ subheap_index + 3) × (1 ≤ l.num_blocks))))
unfolding compute_segment_layout
compute_segment_layout-IsLaidOut i h =
    let (l, (e, (laid, (s, m)))) =
      layout_loop-IsLaidOut (i + 3) (first_num_blocks (i + 3)) (omega arith) in
    (l, (e, (laid, (s, omega (arith, m, some_blocks (i + 3) (omega arith))))))

-- The address of a block.
abbrev pub block_address : SegmentLayout → ℕ → ℕ → ℕ
block_address l seg i = seg + l.block_offset + i * 2 ^ l.blocksize_log2

-- The address of a block leads back to its segment, which starts at a multiple of the segment size,
-- and to its number; the block ends within the segment.
pub block_address_lem :
    (l : SegmentLayout) (k i : ℕ)
    → IsLaidOut l
    → i < l.num_blocks
    → (segment_addr (block_address l (k * segment_size) i) ≡ k * segment_size)
      × ((object_index l (k * segment_size) (block_address l (k * segment_size) i) ≡ i)
          × (block_address l (k * segment_size) i + l.blocksize_bytes
              ≤ k * segment_size + l.block_limit))
unfolding segment_addr object_index
block_address_lem l k i laid h =
    let p = one-le-pow l.blocksize_log2 2 (omega arith) in
    let ends : (i + 1) * 2 ^ l.blocksize_log2 ≤ l.num_blocks * 2 ^ l.blocksize_log2 =
      mul-le-mul_right (2 ^ l.blocksize_log2) (omega arith) in
    let area : l.blocksize_bytes * l.num_blocks ≡ l.num_blocks * 2 ^ l.blocksize_log2 =
      ap (λ b. b * l.num_blocks) laid.size ∙ grind arith in
    (
      omega (arith, ends, area, p, laid.blocks, laid.within),
      (
        ap (λ d. d / 2 ^ l.blocksize_log2) {y = i * 2 ^ l.blocksize_log2} (omega arith)
            ∙ mul-div_left i p,
        omega (arith, ends, area, laid.blocks, laid.size),
      ),
    )
