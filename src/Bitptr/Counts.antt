-- ===== src/Bitptr/Counts.antt =====
-- `CEIL_LOG2` and `BITPTRA_TEST_AND_SET` (smlsharp/src/runtime/smlsharp.h, lines 511 to 519 and 559
-- to 561).
use Prim.Native.Nat.{bit_or}
use native.Mathlib.Nat.{two-pow-succ}
use smlsharp_completions_gen.Base.{
  ℕ, zero, suc, ◌+◌, ◌-◌, ◌*◌, ◌/◌, ◌%◌, ◌^◌, ◌≤◌, ◌<◌, ◌≡◌, ◌≢◌, inl, inr, arith, refl, ap, ◌∙◌,
  sym, same_or_not, if◌then◌else◌, ◌==◌,
}
use smlsharp_completions_gen.Bitptr.{bitptr, bitptra_test_and_set, num_bits, ceil_log2}
use smlsharp_completions_gen.Bitptr.Words.{
  bit, bit_lt, bit-bit_or, bit-two-pow_same, bit-two-pow_other,
}
use smlsharp_completions_gen.Bitptr.Next.{bit_at, bitptr_test-bit}

num_bits-zero : (n : ℕ) → num_bits n 0 ≡ 0
unfolding num_bits
num_bits-zero zero = refl
num_bits-zero (suc n) = refl

half_upper :
    (n w : ℕ)
    → w ≢ 0
    → (0 < w / 2 → 2 ^ num_bits n (w / 2) ≤ 2 * (w / 2))
    → 2 ^ suc (num_bits n (w / 2)) ≤ 2 * w
half_upper n w k h = elim (same_or_not (w / 2) 0) [
  | inl (e, _) ↦ rw (e, num_bits-zero n) (omega arith)
  | inr (e, _) ↦ omega (arith, two-pow-succ (num_bits n (w / 2)), h (omega arith))
]

num_bits_bounds :
    (n w : ℕ)
    → w < 2 ^ n
    → (w < 2 ^ num_bits n w) × ((0 < w → 2 ^ num_bits n w ≤ 2 * w) × (num_bits n w ≤ n))
unfolding num_bits
num_bits_bounds zero w h = (h, (λ k. absurd (omega arith), omega arith))
num_bits_bounds (suc n) w h = elim (same_or_not w 0) [
  | inl (e, b) ↦ rw b (omega arith, (λ k. absurd (omega arith), omega arith))
  | inr (e, b) ↦
      let (lower, (upper, few)) = num_bits_bounds n (w / 2) (omega (arith, two-pow-succ n)) in
      rw b (
        omega (arith, two-pow-succ (num_bits n (w / 2)), lower),
        (λ k. half_upper n w e upper, omega (arith, few)),
      )
]

-- For a size from 2 on, `CEIL_LOG2` gives the least power of two that is not below it.
pub ceil_log2_bounds :
    (x : ℕ) → 2 ≤ x → x ≤ 2 ^ 32 → (x ≤ 2 ^ ceil_log2 x) × (2 ^ ceil_log2 x < 2 * x)
unfolding ceil_log2
ceil_log2_bounds x h k =
    let e : (x + 2 ^ 32 - 1) % 2 ^ 32 ≡ x - 1 = omega arith in
    let (lower, (upper, _)) = num_bits_bounds 32 (x - 1) (omega arith) in
    rw e (omega (arith, lower), omega (arith, upper (omega arith)))

-- The bits of a word with another one set.
pub or-bit_same : (w k : ℕ) → bit (bit_or w (2 ^ k)) k ≡ 1
or-bit_same w k = omega (arith, bit-bit_or w (2 ^ k) k, bit-two-pow_same k, bit_lt w k)

pub or-bit_other : (w k i : ℕ) → i ≢ k → bit (bit_or w (2 ^ k)) i ≡ bit w i
or-bit_other w k i h = omega (arith, bit-bit_or w (2 ^ k) i, bit-two-pow_other k i h)

if_there :
    (memory : ℕ → ℕ) (p n i : ℕ)
    → bit_at memory p n ≡ 1
    → bit_at memory p i ≡ (if i == n then 1 else bit_at memory p i)
if_there memory p n i e = elim (same_or_not i n) [
  | inl (f, b) ↦ rw b (ap (bit_at memory p) f ∙ e)
  | inr (f, b) ↦ rw b refl
]

set_here :
    (memory : ℕ → ℕ) (p n i : ℕ)
    → i / 32 ≡ n / 32
    → bit (bit_or (memory (p + n / 32)) (2 ^ (n % 32))) (i % 32)
      ≡ (if i == n then 1 else bit_at memory p i)
set_here memory p n i e = elim (same_or_not i n) [
  | inl (f, b) ↦ rw b (
      ap (bit (bit_or (memory (p + n / 32)) (2 ^ (n % 32)))) (ap (λ j. j % 32) f)
      ∙ or-bit_same (memory (p + n / 32)) (n % 32))
  | inr (f, b) ↦ rw b (
      or-bit_other (memory (p + n / 32)) (n % 32) (i % 32) (omega arith)
      ∙ ap (λ q. bit (memory (p + q)) (i % 32)) (sym e))
]

set_elsewhere :
    (memory : ℕ → ℕ) (p n i : ℕ)
    → i / 32 ≢ n / 32
    → bit_at memory p i ≡ (if i == n then 1 else bit_at memory p i)
set_elsewhere memory p n i e = elim (same_or_not i n) [
  | inl (f, b) ↦ absurd (omega arith)
  | inr (f, b) ↦ rw b refl
]

set_word :
    (memory : ℕ → ℕ) (p n i : ℕ)
    → bit
        (if p + i / 32 == p + n / 32
          then bit_or (memory (p + n / 32)) (2 ^ (n % 32))
          else memory (p + i / 32))
        (i % 32)
      ≡ (if i == n then 1 else bit_at memory p i)
set_word memory p n i = elim (same_or_not (p + i / 32) (p + n / 32)) [
  | inl (e, b) ↦ rw b (set_here memory p n i (omega arith))
  | inr (e, b) ↦ rw b (set_elsewhere memory p n i (omega arith))
]

-- `BITPTRA_TEST_AND_SET` at bit n tells whether the bit was set, and sets it and no other.
pub test_and_set-bit :
    (memory : ℕ → ℕ) (p n i : ℕ)
    → ((bitptra_test_and_set memory (bitptr p n)).0 ≡ (bit_at memory p n == 1))
      × (bit_at (bitptra_test_and_set memory (bitptr p n)).1 p i
          ≡ (if i == n then 1 else bit_at memory p i))
unfolding bitptra_test_and_set bitptr
test_and_set-bit memory p n i = elim (same_or_not (bit_at memory p n) 1) [
  | inl (e, b) ↦ rw (bitptr_test-bit memory p n, b) (refl, if_there memory p n i e)
  | inr (e, b) ↦ rw (bitptr_test-bit memory p n, b) (refl, set_word memory p n i)
]
