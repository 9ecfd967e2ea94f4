-- ===== src/Control/Sums.antt =====
-- Sums of a function on the numbers below another one.
use smlsharp_completions_gen.Base.{
  ℕ, zero, suc, ◌+◌, ◌≤◌, ◌<◌, ◌≡◌, ◌≢◌, inl, inr, arith, refl, less_or_not, lt_or_eq,
}

abbrev pub total : (ℕ → ℕ) → ℕ → ℕ
total f zero = 0
total f (suc n) = total f n + f n

pub total_same : (f g : ℕ → ℕ) (n : ℕ) → ((j : ℕ) → j < n → g j ≡ f j) → total g n ≡ total f n
total_same f g zero h = refl
total_same f g (suc n) h =
    omega (arith, total_same f g n (λ j k. h j (omega arith)), h n (omega arith))

-- Where they differ at one number.
pub total_change :
    (f g : ℕ → ℕ) (n i : ℕ)
    → i < n
    → ((j : ℕ) → j ≢ i → g j ≡ f j)
    → total g n + f i ≡ total f n + g i
total_change f g zero i h k = absurd (omega arith)
total_change f g (suc n) i h k = elim (lt_or_eq i n h) [
  | inl l ↦ omega (arith, total_change f g n i l k, k n (omega arith))
  | inr e ↦ rw e (omega (arith, total_same f g n (λ j l. k j (omega arith))))
]

pub total_at_least : (f : ℕ → ℕ) (n i : ℕ) → i < n → f i ≤ total f n
total_at_least f zero i h = absurd (omega arith)
total_at_least f (suc n) i h = elim (lt_or_eq i n h) [
  | inl l ↦ omega (arith, total_at_least f n i l)
  | inr e ↦ rw e (omega arith)
]

pub total_zero : (f : ℕ → ℕ) (n i : ℕ) → total f n ≡ 0 → i < n → f i ≡ 0
total_zero f n i e h = omega (arith, total_at_least f n i h)

-- The other values are 0 where one is the whole sum.
pub total_others : (f : ℕ → ℕ) (n i j : ℕ) → i < n → j < n → j ≢ i → f i + f j ≤ total f n
total_others f zero i j h k l = absurd (omega arith)
total_others f (suc n) i j h k l = elim (lt_or_eq i n h) [
  | inl a ↦ elim (lt_or_eq j n k) [
    | inl b ↦ omega (arith, total_others f n i j a b l)
    | inr b ↦ rw b (omega (arith, total_at_least f n i a))
  ]
  | inr a ↦ elim (lt_or_eq j n k) [
    | inl b ↦ rw a (omega (arith, total_at_least f n j b))
    | inr b ↦ absurd (omega (arith, a, b, l))
  ]
]

-- A sum that is not 0 has a value that is not 0.
pub total_positive : (f : ℕ → ℕ) (n : ℕ) → 0 < total f n → (i : ℕ) × ((i < n) × (0 < f i))
total_positive f zero h = absurd (omega arith)
total_positive f (suc n) h = elim (less_or_not 0 (f n)) [
  | inl (k, _) ↦ (n, (omega arith, k))
  | inr (k, _) ↦ let (i, (l, m)) = total_positive f n (omega arith) in (i, (omega arith, m))
]
