-- ===== src/Bitptr/Next.antt =====
-- `BITPTR_NEXT0` and `BITPTR_INC` (smlsharp/src/runtime/smlsharp.h, lines 531 to 557) move to the
-- next 0 bit and to the next bit.
use Prim.Native.Nat.{bit_and, bit_or, min}
use native.Mathlib.Nat.{two-pow-succ, one-le-pow, pow-le-pow_right, mod-eq_of_lt, mod_self}
use smlsharp_completions_gen.Base.{
  ℕ, zero, suc, ◌+◌, ◌-◌, ◌*◌, ◌/◌, ◌%◌, ◌^◌, ◌≤◌, ◌<◌, ◌≡◌, ◌⊎◌, inl, inr, arith, refl, ap, subst,
  ◌∙◌, sym, less_or_not, same_or_not, if◌then◌else◌, true, false, ◌==◌,
}
use smlsharp_completions_gen.Bitptr.{
  Bitptr, bitptr, next0_mask, bitptr_next0, bitptr_inc, bitptr_test, bitptr_wordindex,
  bitptr_maskindex, bitptr_next_failed, count_trailing_zeros, bitptr_index,
}
use smlsharp_completions_gen.Bitptr.Words.{
  bit, bit_lt, bit-zero, bit-bit_or, or_digit, and_digit, bit_and-zero, bit_or-zero,
  bit_and-two-pow, two-pow_half,
}

-- The lowest 0 among the n low bits of x, as a mask, or 0.
abbrev low_zero : ℕ → ℕ → ℕ
low_zero zero x = 0
low_zero (suc n) x = if x % 2 == 0 then 1 else 2 * low_zero n (x / 2)

even_or_odd : (x : ℕ) → ((x % 2 ≡ 0) × (x % 2 == 0 ≡ true)) ⊎ ((x % 2 ≡ 1) × (x % 2 == 0 ≡ false))
even_or_odd x = ground arith

-- `x & ~x`, and `(x + 1) & ~x`, in words of n bits.
with_complement : (n x : ℕ) → x < 2 ^ n → bit_and x (2 ^ n - 1 - x) ≡ 0
with_complement zero x h =
    ap (λ y. bit_and x y) {x = 2 ^ 0 - 1 - x} {y = 0} (omega arith) ∙ bit_and-zero x
with_complement (suc n) x h =
    let half =
      ap (bit_and (x / 2)) {x = (2 ^ suc n - 1 - x) / 2} {y = 2 ^ n - 1 - x / 2}
        (omega (arith, two-pow-succ n)) in
    omega (
      arith,
      and_digit x (2 ^ suc n - 1 - x),
      two-pow-succ n,
      half,
      with_complement n (x / 2) (omega (arith, two-pow-succ n)),
    )

wrap : (x p : ℕ) → x < p → ((x + 1 < p) × ((x + 1) % p ≡ x + 1)) ⊎ ((x + 1 ≡ p) × ((x + 1) % p ≡ 0))
wrap x p h = elim (less_or_not (x + 1) p) [
  | inl (k, _) ↦ inl (k, mod-eq_of_lt k)
  | inr (k, _) ↦ let end : x + 1 ≡ p = omega arith in inr (end, ap (λ m. m % p) end ∙ mod_self p)
]

half_wrap : (n x : ℕ) → x < 2 ^ suc n → x % 2 ≡ 1 → (x + 1) % 2 ^ suc n / 2 ≡ (x / 2 + 1) % 2 ^ n
half_wrap n x h e = elim (wrap x (2 ^ suc n) h) [
  | inl (k, m) ↦ elim (wrap (x / 2) (2 ^ n) (omega (arith, two-pow-succ n))) [
    | inl (l, o) ↦ omega (arith, m, o, e)
    | inr (l, o) ↦ absurd (omega (arith, l, k, e, two-pow-succ n))
  ]
  | inr (k, m) ↦ elim (wrap (x / 2) (2 ^ n) (omega (arith, two-pow-succ n))) [
    | inl (l, o) ↦ absurd (omega (arith, l, k, e, two-pow-succ n))
    | inr (l, o) ↦ omega (arith, m, o)
  ]
]

and_halves :
    (a b a' b' : ℕ)
    → a / 2 ≡ a'
    → b / 2 ≡ b'
    → bit_and a b ≡ 2 * bit_and a' b' + min (a % 2) (b % 2)
and_halves a b a' b' e f = rw (sym e, sym f) (and_digit a b)

plus_one : (n x : ℕ) → x < 2 ^ n → bit_and ((x + 1) % 2 ^ n) (2 ^ n - 1 - x) ≡ low_zero n x
plus_one zero x h =
    ap (λ y. bit_and ((x + 1) % 1) y) {x = 2 ^ 0 - 1 - x} {y = 0} (omega arith) ∙ bit_and-zero _
plus_one (suc n) x h = elim (even_or_odd x) [
  | inl (e, b) ↦ elim (wrap x (2 ^ suc n) h) [
    | inl (k, m) ↦
        rw (b, m)
          (omega (
            arith,
            two-pow-succ n,
            and_halves (x + 1) (2 ^ suc n - 1 - x) (x / 2) (2 ^ n - 1 - x / 2) (omega arith)
                (omega (arith, two-pow-succ n)),
            with_complement n (x / 2) (omega (arith, two-pow-succ n)),
          ))
    | inr (k, m) ↦ absurd (omega (arith, k, e, two-pow-succ n))
  ]
  | inr (e, b) ↦ rw b (
      omega (
        arith,
        two-pow-succ n,
        and_halves ((x + 1) % 2 ^ suc n) (2 ^ suc n - 1 - x) ((x / 2 + 1) % 2 ^ n)
            (2 ^ n - 1 - x / 2) (half_wrap n x h e) (omega (arith, two-pow-succ n)),
        plus_one n (x / 2) (omega (arith, two-pow-succ n)),
      ))
]

-- The lowest 0 bit of x from k on, below n: its number, if there is one.
pub data Lowest (n x k : ℕ) : ℕ → Type 0 where
  all_ones : ((i : ℕ) → k ≤ i → i < n → bit x i ≡ 1) → Lowest n x k 0
  zero_at :
      (j : ℕ)
      → k ≤ j
      → j < n
      → bit x j ≡ 0
      → ((i : ℕ) → k ≤ i → i < j → bit x i ≡ 1)
      → Lowest n x k (2 ^ j)

bit_is : (x : ℕ) → (x % 2 ≡ 1) → bit x 0 ≡ 1
bit_is x h = h

below_zero :
    (x j : ℕ)
    → x % 2 ≡ 1
    → ((i : ℕ) → 0 ≤ i → i < j → bit (x / 2) i ≡ 1)
    → (i : ℕ) → 0 ≤ i
    → i < suc j
    → bit x i ≡ 1
below_zero x j e h zero a b = e
below_zero x j e h (suc i) a b = h i (omega arith) (omega arith)

doubled : (n x m : ℕ) → x % 2 ≡ 1 → Lowest n (x / 2) 0 m → Lowest (suc n) x 0 (2 * m)
doubled n x m e (all_ones h) = all_ones (below_zero x n e h)
doubled n x m e (zero_at j a b z h) =
    subst (Lowest (suc n) x 0) (omega (arith, two-pow-succ j))
      (zero_at (suc j) (omega arith) (omega arith) z (below_zero x j e h))

low_zero-Lowest : (n x : ℕ) → Lowest n x 0 (low_zero n x)
low_zero-Lowest zero x = all_ones (λ i a b. absurd (omega arith))
low_zero-Lowest (suc n) x = elim (even_or_odd x) [
  | inl (e, b) ↦ rw b (zero_at 0 (omega arith) (omega arith) e (λ i a c. absurd (omega arith)))
  | inr (e, b) ↦ rw b (doubled n x (low_zero n (x / 2)) e (low_zero-Lowest n (x / 2)))
]

-- The bits of `mask - 1`.
pub low_ones_below : (k i : ℕ) → i < k → bit (2 ^ k - 1) i ≡ 1
low_ones_below zero i h = absurd (omega arith)
low_ones_below (suc k) zero h = omega (arith, two-pow-succ k, one-le-pow k 2)
low_ones_below (suc k) (suc i) h =
    ap (λ w. bit w i) {x = (2 ^ suc k - 1) / 2} {y = 2 ^ k - 1}
      (omega (arith, two-pow-succ k, one-le-pow k 2))
    ∙ low_ones_below k i (omega arith)

low_ones_above : (k i : ℕ) → k ≤ i → bit (2 ^ k - 1) i ≡ 0
low_ones_above zero i h = bit-zero i
low_ones_above (suc k) zero h = absurd (omega arith)
low_ones_above (suc k) (suc i) h =
    ap (λ w. bit w i) {x = (2 ^ suc k - 1) / 2} {y = 2 ^ k - 1}
      (omega (arith, two-pow-succ k, one-le-pow k 2))
    ∙ low_ones_above k i (omega arith)

-- The bits below k do not count once they are set.
filled_above : (w k i : ℕ) → k ≤ i → bit (bit_or w (2 ^ k - 1)) i ≡ bit w i
filled_above w k i h = omega (arith, bit-bit_or w (2 ^ k - 1) i, low_ones_above k i h)

filled_under : (w k i : ℕ) → i < k → bit (bit_or w (2 ^ k - 1)) i ≡ 1
filled_under w k i h = omega (arith, bit-bit_or w (2 ^ k - 1) i, low_ones_below k i h, bit_lt w i)

filled-Lowest : (n w k m : ℕ) → Lowest n (bit_or w (2 ^ k - 1)) 0 m → Lowest n w k m
filled-Lowest n w k m (all_ones h) =
    all_ones (λ i a b. sym (filled_above w k i a) ∙ h i (omega arith) b)
filled-Lowest n w k m (zero_at j a b z h) = elim (less_or_not j k) [
  | inl (l, _) ↦ absurd (omega (arith, filled_under w k j l, z))
  | inr (l, _) ↦
      zero_at j l b (sym (filled_above w k j l) ∙ z)
        (λ i c d. sym (filled_above w k i c) ∙ h i (omega arith) d)
]

pub or_lt : (n a b : ℕ) → a < 2 ^ n → b < 2 ^ n → bit_or a b < 2 ^ n
or_lt zero a b h k =
    let none : a ≡ 0 = omega arith in
    let none' : b ≡ 0 = omega arith in rw (none, none') (omega arith)
or_lt (suc n) a b h k = omega (
  arith,
  or_digit a b,
  two-pow-succ n,
  or_lt n (a / 2) (b / 2) (omega (arith, two-pow-succ n)) (omega (arith, two-pow-succ n)),
)

-- In a word of 32 bits, with a mask for bit k.
pub next0_mask-Lowest : (w k : ℕ) → w < 2 ^ 32 → k < 32 → Lowest 32 w k (next0_mask w (2 ^ k))
unfolding next0_mask
next0_mask-Lowest w k h l =
    let fits : 2 ^ k ≤ 2 ^ 31 = pow-le-pow_right (omega arith) {i = k} {j = 31} (omega arith) in
    let ones : (2 ^ k + 2 ^ 32 - 1) % 2 ^ 32 ≡ 2 ^ k - 1 = omega (arith, one-le-pow k 2) in
    rw ones (
      rw (plus_one 32 (bit_or w (2 ^ k - 1)) (or_lt 32 w (2 ^ k - 1) h (omega arith)))
        (filled-Lowest 32 w k _ (low_zero-Lowest 32 (bit_or w (2 ^ k - 1)))))

-- Bit n of the words from p on, and the bits between two numbers.
abbrev pub bit_at : (ℕ → ℕ) → ℕ → ℕ → ℕ
bit_at memory p n = bit (memory (p + n / 32)) (n % 32)

abbrev pub AllOnes : (ℕ → ℕ) → ℕ → ℕ → ℕ → Type 0
AllOnes memory p n m = (i : ℕ) → n ≤ i → i < m → bit_at memory p i ≡ 1

-- All the words are words of 32 bits.
abbrev pub IsWords : (ℕ → ℕ) → Type 0
IsWords memory = (i : ℕ) → memory i < 2 ^ 32

-- What `BITPTR_NEXT0` comes to from bit n: a failure, where all the bits up to the end of the word
-- are 1, or a pointer to the first bit that is 0, in the same word.
pub data NextZero (memory : ℕ → ℕ) (p n : ℕ) (b : Bitptr) : Type 0 where
  failed :
      b.mask ≡ 0
      → b.ptr ≡ p + n / 32
      → AllOnes memory p n ((n / 32 + 1) * 32)
      → NextZero memory p n b
  found :
      (m : ℕ)
      → b ≡ bitptr p m
      → n ≤ m
      → m / 32 ≡ n / 32
      → bit_at memory p m ≡ 0
      → AllOnes memory p n m
      → NextZero memory p n b

-- A bit of the word that bit n is in.
in_word : (n i : ℕ) → n ≤ i → i < (n / 32 + 1) * 32 → (i / 32 ≡ n / 32) × (n % 32 ≤ i % 32)
in_word n i h k = (omega arith, omega arith)

word_bit :
    (memory : ℕ → ℕ) (p n i : ℕ)
    → i / 32 ≡ n / 32
    → bit_at memory p i ≡ bit (memory (p + n / 32)) (i % 32)
word_bit memory p n i e = ap (λ q. bit (memory (p + q)) (i % 32)) e

lowest_next :
    (memory : ℕ → ℕ) (p n m : ℕ)
    → Lowest 32 (memory (p + n / 32)) (n % 32) m
    → NextZero memory p n (record { ptr = p + n / 32; mask = m })
unfolding bitptr
lowest_next memory p n m (all_ones h) =
    failed refl refl (λ i a b.
      let (e, f) = in_word n i a b in word_bit memory p n i e ∙ h (i % 32) f (omega arith))
lowest_next memory p n m (zero_at j a b z h) =
    let s = n / 32 * 32 + j in
    let e : s / 32 ≡ n / 32 = omega arith in
    let f : s % 32 ≡ j = omega arith in
    found s (rw (e, f) refl) (omega arith) e
      (word_bit memory p n s e ∙ ap (bit (memory (p + n / 32))) f ∙ z)
      (λ i c d.
        let (g, k) = in_word n i c (omega arith) in
        word_bit memory p n i g ∙ h (i % 32) k (omega arith))

pub bitptr_next0-NextZero :
    (memory : ℕ → ℕ) (p n : ℕ)
    → IsWords memory
    → NextZero memory p n (bitptr_next0 memory (bitptr p n))
unfolding bitptr_next0 bitptr
bitptr_next0-NextZero memory p n h =
    lowest_next memory p n _ (next0_mask-Lowest (memory (p + n / 32)) (n % 32) (h _) (omega arith))

pub same_bitptr :
    {p q m n : ℕ}
    → p ≡ q
    → m ≡ n
    → ◌≡◌ {A = Bitptr} (record { ptr = p; mask = m }) (record { ptr = q; mask = n })
same_bitptr e f = rw (e, f) refl

-- The next bit.
pub bitptr_inc-bitptr : (p n : ℕ) → bitptr_inc (bitptr p n) ≡ bitptr p (n + 1)
unfolding bitptr_inc bitptr
bitptr_inc-bitptr p n = elim (less_or_not (n % 32) 31) [
  | inl (h, _) ↦
      let k = n % 32 in
      let small : 2 ^ k ≤ 2 ^ 30 = pow-le-pow_right (omega arith) {i = k} {j = 30} (omega arith) in
      let high : 2 ^ k / 2 ^ 31 ≡ 0 = omega arith in
      let next : (n + 1) % 32 ≡ suc k = omega arith in
      rw high (
        same_bitptr (omega arith)
          (bit_or-zero _ ∙ omega (arith, two-pow-succ k) ∙ ap (λ i. 2 ^ i) (sym next)))
  | inr (h, _) ↦
      let e : n % 32 ≡ 31 = omega arith in
      let next : (n + 1) % 32 ≡ 0 = omega arith in rw (e, next) (same_bitptr (omega arith) refl)
]

-- `BITPTR_INDEX` gives the number back, and a pointer that has not failed has a mask.
ctz-two-pow : (n k : ℕ) → k < n → count_trailing_zeros n (2 ^ k) ≡ k
unfolding count_trailing_zeros
ctz-two-pow zero k h = absurd (omega arith)
ctz-two-pow (suc n) zero h = refl
ctz-two-pow (suc n) (suc k) h =
    let even : 2 ^ suc k % 2 ≡ 0 = omega (arith, two-pow-succ k) in
    rw even (ap suc (ap (count_trailing_zeros n) (two-pow_half k) ∙ ctz-two-pow n k (omega arith)))

pub bitptr_index-bitptr : (p n : ℕ) → bitptr_index (bitptr p n) p ≡ n
unfolding bitptr_index bitptr bitptr_wordindex bitptr_maskindex
bitptr_index-bitptr p n = omega (arith, ctz-two-pow 32 (n % 32) (omega arith))

pub bitptr_wordindex-bitptr : (p n : ℕ) → bitptr_wordindex (bitptr p n) p ≡ n / 32
unfolding bitptr bitptr_wordindex
bitptr_wordindex-bitptr p n = omega arith

pub bitptr_not_failed : (p n : ℕ) → bitptr_next_failed (bitptr p n) ≡ false
unfolding bitptr bitptr_next_failed
bitptr_not_failed p n = ground (arith, one-le-pow (n % 32) 2)

-- A test of the n-th bit.
pub bitptr_test-bit :
    (memory : ℕ → ℕ) (p n : ℕ) → bitptr_test memory (bitptr p n) ≡ (bit_at memory p n == 1)
unfolding bitptr_test bitptr
bitptr_test-bit memory p n = elim (same_or_not (bit_at memory p n) 1) [
  | inl (e, b) ↦
      let value : bit_and (memory (p + n / 32)) (2 ^ (n % 32)) ≡ 2 ^ (n % 32) =
        bit_and-two-pow (memory (p + n / 32)) (n % 32)
        ∙ ap (λ c. c * 2 ^ (n % 32)) e
        ∙ omega arith in
      ground (arith, value, one-le-pow (n % 32) 2)
  | inr (e, b) ↦
      let none : bit_at memory p n ≡ 0 = omega (arith, bit_lt (memory (p + n / 32)) (n % 32)) in
      let value : bit_and (memory (p + n / 32)) (2 ^ (n % 32)) ≡ 0 =
        bit_and-two-pow (memory (p + n / 32)) (n % 32)
        ∙ ap (λ c. c * 2 ^ (n % 32)) none
        ∙ omega arith in
      ground (arith, value)
]
