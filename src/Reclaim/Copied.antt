-- ===== src/Reclaim/Copied.antt =====
-- `copy_collect_bitmap` (smlsharp/src/runtime/heap_concurrent.c, lines 343 to 374): the bitmaps of a
-- segment agree with its collect bits.
use Prim.Native.Nat.{bit_or}
use native.Mathlib.Nat.{two-pow-succ, pow-le-pow_right, one-le-pow}
use smlsharp_completions_gen.Base.{
  ℕ, zero, suc, ◌+◌, ◌-◌, ◌*◌, ◌/◌, ◌%◌, ◌^◌, ◌≤◌, ◌<◌, ◌≡◌, ◌≢◌, inl, inr, arith, ap, subst, ◌∙◌,
  sym, less_or_not,
}
use smlsharp_completions_gen.Splay.Memory.{ceiling, ceiling_multiple, ceiling_bounds}
use smlsharp_completions_gen.Bitptr.Words.{bit, bit_lt, bit-bit_or}
use smlsharp_completions_gen.Bitptr.Next.{bit_at, IsWords, or_lt, low_ones_below}
use smlsharp_completions_gen.Segment.{bitmap_bits, sentinel}
use smlsharp_completions_gen.Segment.Find.{IsSummary}
use smlsharp_completions_gen.Reclaim.{write_word}
use smlsharp_completions_gen.Reclaim.Upper.{
  full, write_same, write_other, write-IsWords, IsBuilding,
}

-- The bits of a sentinel.
pub sentinel_lem : (len : ℕ) → sentinel len ≡ 2 ^ 32 - 2 ^ (len % 32)
unfolding sentinel bitmap_bits
sentinel_lem len =
    let m = ceiling_multiple (len + 1) 32 (omega arith) in
    let b = ceiling_bounds (len + 1) 32 (omega arith) in
    ap (λ k. 2 ^ 32 - 2 ^ k) {x = 32 - (ceiling (len + 1) 32 - len)} {y = len % 32}
      (omega (arith, m, b))

pub high_ones :
    (n k i : ℕ)
    → k ≤ n
    → i < n
    → (i < k → bit (2 ^ n - 2 ^ k) i ≡ 0) × (k ≤ i → bit (2 ^ n - 2 ^ k) i ≡ 1)
high_ones n zero i h l = (λ m. absurd (omega arith), λ m. low_ones_below n i l)
high_ones zero (suc k) i h l = absurd (omega arith)
high_ones (suc n) (suc k) zero h l =
    (λ m. omega (arith, two-pow-succ n, two-pow-succ k), λ m. absurd (omega arith))
high_ones (suc n) (suc k) (suc i) h l =
    let half : (2 ^ suc n - 2 ^ suc k) / 2 ≡ 2 ^ n - 2 ^ k =
      omega (arith, two-pow-succ n, two-pow-succ k) in
    let (low, high) = high_ones n k i (omega arith) (omega arith) in
    (
      λ m. ap (λ w. bit w i) half ∙ low (omega arith),
      λ m. ap (λ w. bit w i) half ∙ high (omega arith),
    )

pub below_sentinel : (w len i : ℕ) → i < len % 32 → bit (bit_or w (sentinel len)) i ≡ bit w i
below_sentinel w len i h =
    let (low, _) = high_ones 32 (len % 32) i (omega arith) (omega arith) in
    ap (λ x. bit (bit_or w x) i) (sentinel_lem len)
    ∙ omega (arith, bit-bit_or w (2 ^ 32 - 2 ^ (len % 32)) i, low h)

pub in_sentinel : (w len i : ℕ) → len % 32 ≤ i → i < 32 → bit (bit_or w (sentinel len)) i ≡ 1
in_sentinel w len i h l =
    let (_, high) = high_ones 32 (len % 32) i (omega arith) l in
    ap (λ x. bit (bit_or w x) i) (sentinel_lem len)
    ∙ omega (arith, bit-bit_or w (2 ^ 32 - 2 ^ (len % 32)) i, high h, bit_lt w i)

pub sentinel_lt : (w len : ℕ) → w < 2 ^ 32 → bit_or w (sentinel len) < 2 ^ 32
sentinel_lt w len h =
    or_lt 32 w (sentinel len) h
      (omega (arith, sentinel_lem len, one-le-pow (len % 32) 2 (omega arith)))

-- After the loop, the last word of bitmap 1 gets its sentinel.
module _ (start : ℕ → ℕ) (p q n : ℕ) (memory : ℕ → ℕ) (upper word mask : ℕ)
    (s : IsBuilding start p q n memory upper word mask) where
  abbrev pub last_word : ℕ → ℕ
  last_word = write_word memory upper (bit_or word (sentinel n))

  finished_bit : (j : ℕ) → j < n → bit_at last_word q j ≡ full start p j
  finished_bit j h = elim (less_or_not j (n / 32 * 32)) [
    | inl (m, _) ↦
        ap (λ w. bit w (j % 32))
          (write_other memory upper _ (q + j / 32) (omega (arith, s.position)))
        ∙ s.written j m
    | inr (m, _) ↦
        ap (λ w. bit w (j % 32))
          (write_same memory upper _ (q + j / 32) (omega (arith, s.position)))
        ∙ below_sentinel word n (j % 32) (omega arith)
        ∙ s.bits (j % 32) (omega arith)
        ∙ ap (full start p) {y = j} (omega arith)
  ]

  finished_sentinel : (j : ℕ) → n ≤ j → j < (n / 32 + 1) * 32 → bit_at last_word q j ≡ 1
  finished_sentinel j h l =
      ap (λ w. bit w (j % 32)) (write_same memory upper _ (q + j / 32) (omega (arith, s.position)))
      ∙ in_sentinel word n (j % 32) (omega arith) (omega arith)

  pub finished_kept : (w : ℕ) → w < q → last_word w ≡ start w
  finished_kept w h = write_other memory upper _ w (omega (arith, s.position)) ∙ s.kept w h

  pub finished_beyond : (w : ℕ) → q + (n / 32 + 1) ≤ w → last_word w ≡ start w
  finished_beyond w h =
      write_other memory upper _ w (omega (arith, s.position)) ∙ s.beyond w (omega arith)

  pub finished-IsWords : IsWords last_word
  finished-IsWords =
      let size : 2 ^ (n % 32) ≤ 2 ^ 31 =
        pow-le-pow_right (omega arith) {i = n % 32} {j = 31} (omega arith) in
      write-IsWords memory upper _ s.words (sentinel_lt word n (omega (arith, s.small, size)))

  full_of_bit : (v : ℕ) → full start p v ≡ 1 → start (p + v) ≡ 2 ^ 32 - 1
  full_of_bit v h = ground (arith, h)

  open_of_bit : (v : ℕ) → full start p v ≡ 0 → start (p + v) ≢ 2 ^ 32 - 1
  open_of_bit v h = ground (arith, h)

  pub finished-IsSummary : p + n ≤ q → IsSummary last_word p q n (n / 32 + 1)
  finished-IsSummary h = record {
    full =
        λ v l e. finished_kept (p + v) (omega arith) ∙ full_of_bit v (sym (finished_bit v l) ∙ e);
    open_word = λ v l e.
        subst (λ w. w ≢ 2 ^ 32 - 1) (sym (finished_kept (p + v) (omega arith)))
          (open_of_bit v (sym (finished_bit v l) ∙ e));
    sentinels = finished_sentinel;
  }
