-- ===== src/Bitptr/Words.antt =====
-- The bits of words, and what `&`, `|` and `+` do to them.
use Prim.Native.Nat.{bit_and, bit_or, min, max, digits, bitwise, bit_and-bitwise, bit_or-bitwise}
use native.Mathlib.Nat.{le_refl, two-pow-succ}
use smlsharp_completions_gen.Base.{
  ℕ, zero, suc, ◌+◌, ◌-◌, ◌*◌, ◌/◌, ◌%◌, ◌^◌, ◌≤◌, ◌<◌, ◌≡◌, ◌≢◌, arith, refl, ap, ◌∙◌,
}

-- Bit i of a word, 0 or 1.
abbrev pub bit : ℕ → ℕ → ℕ
bit w zero = w % 2
bit w (suc i) = bit (w / 2) i

pub bit_lt : (w i : ℕ) → bit w i < 2
bit_lt w zero = omega arith
bit_lt w (suc i) = bit_lt (w / 2) i

-- An operation on digits, by its lowest digit. The fuel of `digits` may be larger than needed.
module _ (rest : ℕ → ℕ) (op : ℕ → ℕ → ℕ) where
  spare : (n w v : ℕ) → w ≤ n → digits rest op (suc n) w v ≡ digits rest op n w v
  spare zero zero v h = refl
  spare zero (suc w) v h = absurd (omega arith)
  spare (suc n) zero v h = refl
  spare (suc n) (suc w) v h = rw (spare n (suc w / 2) (v / 2) (omega arith)) refl

  much : (k n w v : ℕ) → w ≤ n → digits rest op (k + n) w v ≡ digits rest op n w v
  much zero n w v h = ap (λ m. digits rest op m w v) {x = 0 + n} {y = n} (omega arith)
  much (suc k) n w v h =
      ap (λ m. digits rest op m w v) {x = suc k + n} {y = suc (k + n)} (omega arith)
      ∙ (spare (k + n) w v (omega arith) ∙ much k n w v h)

  by_digit :
      ((v : ℕ) → rest v ≡ 2 * rest (v / 2) + op 0 (v % 2))
      → (w v : ℕ) → bitwise rest op w v ≡ 2 * bitwise rest op (w / 2) (v / 2) + op (w % 2) (v % 2)
  by_digit end zero v = end v
  by_digit end (suc w) v =
      let k = w - suc w / 2 in
      let enough =
        ap (λ n. digits rest op n (suc w / 2) (v / 2)) {x = w} {y = k + suc w / 2} (omega arith)
        ∙ much k (suc w / 2) (suc w / 2) (v / 2) (omega arith) in
      omega (arith, enough)

pub or_digit : (w v : ℕ) → bit_or w v ≡ 2 * bit_or (w / 2) (v / 2) + max (w % 2) (v % 2)
or_digit w v = simp bit_or-bitwise (by_digit (λ x. x) max (λ x. omega arith) w v)

pub and_digit : (w v : ℕ) → bit_and w v ≡ 2 * bit_and (w / 2) (v / 2) + min (w % 2) (v % 2)
and_digit w v = simp bit_and-bitwise (by_digit (λ x. 0) min (λ x. omega arith) w v)

-- Bit by bit.
pub bit-bit_or : (a b i : ℕ) → bit (bit_or a b) i ≡ max (bit a i) (bit b i)
bit-bit_or a b zero = omega (arith, or_digit a b)
bit-bit_or a b (suc i) =
    ap (λ w. bit w i) (omega (arith, or_digit a b)) ∙ bit-bit_or (a / 2) (b / 2) i

pub bit-bit_and : (a b i : ℕ) → bit (bit_and a b) i ≡ min (bit a i) (bit b i)
bit-bit_and a b zero = omega (arith, and_digit a b)
bit-bit_and a b (suc i) =
    ap (λ w. bit w i) (omega (arith, and_digit a b)) ∙ bit-bit_and (a / 2) (b / 2) i

pub bit_and-zero : (a : ℕ) → bit_and a 0 ≡ 0
bit_and-zero a = halves a a (le_refl a)
  where
    halves : (n a : ℕ) → a ≤ n → bit_and a 0 ≡ 0
    halves n zero h = omega (arith, and_digit 0 0)
    halves zero (suc a) h = absurd (omega arith)
    halves (suc n) (suc a) h =
        omega (arith, and_digit (suc a) 0, halves n (suc a / 2) (omega arith))

pub bit_or-zero : (a : ℕ) → bit_or a 0 ≡ a
bit_or-zero a = halves a a (le_refl a)
  where
    halves : (n a : ℕ) → a ≤ n → bit_or a 0 ≡ a
    halves n zero h = refl
    halves zero (suc a) h = absurd (omega arith)
    halves (suc n) (suc a) h = omega (arith, or_digit (suc a) 0, halves n (suc a / 2) (omega arith))

pub two-pow_half : (k : ℕ) → 2 ^ suc k / 2 ≡ 2 ^ k
two-pow_half k = omega (arith, two-pow-succ k)

-- A single bit.
pub bit_and-two-pow : (w k : ℕ) → bit_and w (2 ^ k) ≡ bit w k * 2 ^ k
bit_and-two-pow w zero = omega (arith, and_digit w 1, bit_and-zero (w / 2))
bit_and-two-pow w (suc k) =
    let half = ap (bit_and (w / 2)) (two-pow_half k) in
    let twice = ap (λ t. bit (w / 2) k * t) (two-pow-succ k) in
    grind (arith, and_digit w (2 ^ suc k), two-pow-succ k, half, twice, bit_and-two-pow (w / 2) k)

pub bit-two-pow_same : (k : ℕ) → bit (2 ^ k) k ≡ 1
bit-two-pow_same zero = refl
bit-two-pow_same (suc k) = ap (λ w. bit w k) (two-pow_half k) ∙ bit-two-pow_same k

pub bit-zero : (i : ℕ) → bit 0 i ≡ 0
bit-zero zero = refl
bit-zero (suc i) = bit-zero i

pub bit-two-pow_other : (k i : ℕ) → i ≢ k → bit (2 ^ k) i ≡ 0
bit-two-pow_other zero zero h = absurd (h refl)
bit-two-pow_other zero (suc i) h = bit-zero i
bit-two-pow_other (suc k) zero h = omega (arith, two-pow-succ k)
bit-two-pow_other (suc k) (suc i) h =
    ap (λ w. bit w i) (two-pow_half k) ∙ bit-two-pow_other k i (omega arith)
