-- ===== src/Allocator/Sizes.antt =====
-- The size classes of `sml_alloc` (smlsharp/src/runtime/heap_concurrent.c, lines 1917 to 1925).
use native.Mathlib.Nat.{pow-le-pow_right, two-pow-succ}
use smlsharp_completions_gen.Base.{
  ℕ, zero, suc, ap, subst, ◌∙◌, ◌+◌, ◌-◌, ◌*◌, ◌^◌, ◌≤◌, ◌<◌, ◌≡◌, Option, none, some, arith, refl,
  ◌⊎◌, inl, inr, less_or_not,
}
use smlsharp_completions_gen.Splay.Memory.{ceiling, ceiling_bounds, ceiling_multiple}
use smlsharp_completions_gen.Bitptr.{ceil_log2}
use smlsharp_completions_gen.Bitptr.Counts.{ceil_log2_bounds}
use smlsharp_completions_gen.Segment.{blocksize_max, num_subheaps}
use smlsharp_completions_gen.Allocator.{size_class}

-- Powers of two compare as their exponents.
exponent_lt : (a b : ℕ) → 2 ^ a < 2 ^ b → a < b
exponent_lt a b h = elim (less_or_not a b) [
  | inl (k, _) ↦ k
  | inr (k, _) ↦
      let le : 2 ^ b ≤ 2 ^ a = pow-le-pow_right (omega arith) {i = b} {j = a} k in
      absurd (omega (arith, h, le))
]

-- A subheap for objects of a size: its blocks have room for a header and the object, and those of the
-- subheap before it, if there is one, have not.
pub data Fits (objsize : ℕ) : Option ℕ → Type 0 where
  large : blocksize_max < 4 + objsize → Fits objsize none
  in_subheap :
      (i : ℕ)
      → i < num_subheaps
      → 4 + objsize ≤ 2 ^ (i + 3)
      → (i ≡ 0) ⊎ (2 ^ (i + 2) < 4 + objsize)
      → Fits objsize (some i)

-- `c` is the exponent for a size n rounded up to a multiple of 8.
exponent_bounds :
    (n c : ℕ)
    → n ≤ 2 ^ 12
    → ceiling n 8 ≤ 2 ^ c
    → 2 ^ c < 2 * ceiling n 8
    → 1 ≤ n
    → (3 ≤ c) × ((c ≤ 12) × (n ≤ 2 ^ c))
exponent_bounds n c h lower upper k =
    let m = ceiling_multiple n 8 (omega arith) in
    let b = ceiling_bounds n 8 (omega arith) in
    let least : 2 < c = exponent_lt 2 c (omega (arith, m, b, lower)) in
    let most : c < 13 = exponent_lt c 13 (omega (arith, m, b, upper)) in
    (least, (omega (arith, most), omega (arith, b, lower)))

-- The powers of two from 8 on are multiples of 8.
eighth : (i : ℕ) → 2 ^ (suc i + 2) ≡ 8 * 2 ^ i
eighth i =
    ap (λ e. 2 ^ e) {x = suc i + 2} {y = suc (suc (suc i))} (omega arith)
    ∙ omega (arith, two-pow-succ (suc (suc i)), two-pow-succ (suc i), two-pow-succ i)

no_smaller : (n c i : ℕ) → c ≡ i + 3 → 2 ^ c < 2 * ceiling n 8 → 1 ≤ n → (i ≡ 0) ⊎ (2 ^ (i + 2) < n)
no_smaller n c zero e h k = inl refl
no_smaller n c (suc i) e h k =
    let m = ceiling_multiple n 8 (omega arith) in
    let b = ceiling_bounds n 8 (omega arith) in
    let double : 2 ^ c ≡ 2 * 2 ^ (suc i + 2) =
      ap (λ d. 2 ^ d) {x = c} {y = suc (suc i + 2)} (omega arith)
      ∙ omega (arith, two-pow-succ (suc i + 2)) in
    inr (omega (arith, h, double, eighth i, m, b))

-- For every size `sml_alloc` takes the smallest subheap whose blocks have room for a header and the
-- object, and `malloc` exactly for those that have no such subheap.
pub size_class-Fits : (objsize : ℕ) → Fits objsize (size_class objsize)
unfolding size_class
size_class-Fits objsize = elim (less_or_not (blocksize_max - 4) objsize) [
  | inl (h, b) ↦ rw b (large (omega arith))
  | inr (h, b) ↦
      let n = 4 + objsize in
      let e = ceiling_bounds n 8 (omega arith) in
      let (lower, upper) = ceil_log2_bounds (ceiling n 8) (omega (arith, e)) (omega (arith, e)) in
      let (least, (most, room)) =
        exponent_bounds n (ceil_log2 (ceiling n 8)) (omega arith) lower upper (omega arith) in
      rw b (
        in_subheap (ceil_log2 (ceiling n 8) - 3) (omega arith)
          (subst (λ d. n ≤ 2 ^ d) {x = ceil_log2 (ceiling n 8)} (omega arith) room)
          (no_smaller n (ceil_log2 (ceiling n 8)) (ceil_log2 (ceiling n 8) - 3) (omega arith) upper
            (omega arith)))
]
