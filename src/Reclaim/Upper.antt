-- ===== src/Reclaim/Upper.antt =====
-- The loop of `copy_collect_bitmap` (smlsharp/src/runtime/heap_concurrent.c, lines 352 to 373) sets in
-- bitmap 1 the bits of the words that are full.
use Prim.Native.Nat.{bit_or}
use native.Mathlib.Nat.{two-pow-succ, pow-le-pow_right, one-le-pow}
use smlsharp_completions_gen.Base.{
  ℕ, zero, suc, ◌+◌, ◌-◌, ◌*◌, ◌/◌, ◌%◌, ◌^◌, ◌≤◌, ◌<◌, ◌≡◌, ◌≢◌, ◌⊎◌, inl, inr, arith, refl, ap,
  subst, ◌∙◌, sym, same_or_not, less_or_not, Bool, true, false, ◌==◌, if◌then◌else◌,
}
use smlsharp_completions_gen.Bitptr.Words.{bit, bit-zero}
use smlsharp_completions_gen.Bitptr.Next.{bit_at, IsWords, or_lt}
use smlsharp_completions_gen.Bitptr.Counts.{or-bit_same, or-bit_other}
use smlsharp_completions_gen.Reclaim.{write_word, upper_loop}

pub bit_above : (w k i : ℕ) → w < 2 ^ k → k ≤ i → bit w i ≡ 0
bit_above w zero i h l = ap (λ x. bit x i) {x = w} {y = 0} (omega arith) ∙ bit-zero i
bit_above w (suc k) zero h l = absurd (omega arith)
bit_above w (suc k) (suc i) h l =
    bit_above (w / 2) k i (omega (arith, two-pow-succ k)) (omega arith)

pub write_same : (memory : ℕ → ℕ) (p x w : ℕ) → w ≡ p → write_word memory p x w ≡ x
unfolding write_word
write_same memory p x w h = elim (same_or_not w p) [
  | inl (_, b) ↦ rw b refl
  | inr (e, _) ↦ absurd (e h)
]

pub write_other : (memory : ℕ → ℕ) (p x w : ℕ) → w ≢ p → write_word memory p x w ≡ memory w
unfolding write_word
write_other memory p x w h = elim (same_or_not w p) [
  | inl (e, _) ↦ absurd (h e)
  | inr (_, b) ↦ rw b refl
]

pub write-IsWords :
    (memory : ℕ → ℕ) (p x : ℕ) → IsWords memory → x < 2 ^ 32 → IsWords (write_word memory p x)
unfolding write_word
write-IsWords memory p x m h w = elim (same_or_not w p) [
  | inl (_, b) ↦ rw b h
  | inr (_, b) ↦ rw b (m w)
]

-- Whether word v is full, as a bit.
abbrev pub full : (ℕ → ℕ) → ℕ → ℕ → ℕ
full memory p v = if memory (p + v) == 2 ^ 32 - 1 then 1 else 0

not_zero : (k : ℕ) → 2 ^ k == 0 ≡ false
not_zero k = ground (arith, one-le-pow k 2 (omega arith))

module _ (start : ℕ → ℕ) (p q : ℕ) where
  -- The loop behind v words: what it has written, and the bits for the next word.
  pub record IsBuilding (v : ℕ) (memory : ℕ → ℕ) (upper word mask : ℕ) : Type 0 where
    pub position : upper ≡ q + v / 32
    pub next_bit : mask ≡ 2 ^ (v % 32)
    pub small : word < 2 ^ (v % 32)
    pub bits : (k : ℕ) → k < v % 32 → bit word k ≡ full start p (v / 32 * 32 + k)
    pub written : (j : ℕ) → j < v / 32 * 32 → bit_at memory q j ≡ full start p j
    pub kept : (w : ℕ) → w < q → memory w ≡ start w
    pub beyond : (w : ℕ) → q + v / 32 ≤ w → memory w ≡ start w
    pub words : IsWords memory

  -- The bits of the next word with the one for word v.
  extend :
      (word k : ℕ) (b : Bool)
      → word < 2 ^ k
      → (bit (if b then bit_or word (2 ^ k) else word) k ≡ (if b then 1 else 0))
        × (((i : ℕ) → i < k → bit (if b then bit_or word (2 ^ k) else word) i ≡ bit word i)
            × ((if b then bit_or word (2 ^ k) else word) < 2 ^ suc k))
  extend word k true h = (
    or-bit_same word k,
    (
      λ i l. or-bit_other word k i (omega arith),
      or_lt (suc k) word (2 ^ k) (omega (arith, two-pow-succ k))
          (omega (arith, two-pow-succ k, one-le-pow k 2 (omega arith))),
    ),
  )
  extend word k false h =
      (bit_above word k k h (omega arith), (λ i l. refl, omega (arith, two-pow-succ k)))

  mask_lem :
      (k : ℕ)
      → k < 32
      → ((k ≡ 31) × (2 ^ k * 2 % 2 ^ 32 ≡ 0)) ⊎ ((k < 31) × (2 ^ k * 2 % 2 ^ 32 ≡ 2 ^ (k + 1)))
  mask_lem k h = elim (less_or_not k 31) [
    | inl (l, _) ↦
        let fits : 2 ^ (k + 1) ≤ 2 ^ 31 =
          pow-le-pow_right (omega arith) {i = k + 1} {j = 31} (omega arith) in
        let double : 2 ^ (k + 1) ≡ 2 * 2 ^ k =
          ap (λ e. 2 ^ e) {x = k + 1} {y = suc k} (omega arith) ∙ omega (arith, two-pow-succ k) in
        inr (l, omega (arith, fits, double))
    | inr (l, _) ↦ let last : k ≡ 31 = omega arith in inl (last, ap (λ e. 2 ^ e * 2 % 2 ^ 32) last)
  ]

  -- The bits of a word that has got the bit for word v.
  next_bits :
      (v word word' : ℕ)
      → ((k : ℕ) → k < v % 32 → bit word k ≡ full start p (v / 32 * 32 + k))
      → bit word' (v % 32) ≡ full start p v
      → ((k : ℕ) → k < v % 32 → bit word' k ≡ bit word k)
      → (k : ℕ) → k ≤ v % 32
      → bit word' k ≡ full start p (v / 32 * 32 + k)
  next_bits v word word' h e f k l = elim (less_or_not k (v % 32)) [
    | inl (m, _) ↦ f k m ∙ h k m
    | inr (m, _) ↦
        ap (bit word') {x = k} {y = v % 32} (omega arith)
        ∙ e
        ∙ ap (full start p) {x = v} (omega arith)
  ]

  module _ (v : ℕ) (memory : ℕ → ℕ) (upper word mask : ℕ) (s : IsBuilding v memory upper word mask)
      (word' : ℕ) (here : bit word' (v % 32) ≡ full start p v)
      (below : (k : ℕ) → k < v % 32 → bit word' k ≡ bit word k)
      (size : word' < 2 ^ suc (v % 32)) where
    next-IsBuilding : v % 32 < 31 → IsBuilding (suc v) memory upper word' (2 ^ (v % 32 + 1))
    next-IsBuilding h =
        let q' : suc v / 32 ≡ v / 32 = omega arith in
        let r' : suc v % 32 ≡ suc (v % 32) = omega arith in
        record {
          position = omega (arith, s.position);
          next_bit = ap (λ k. 2 ^ k) {x = v % 32 + 1} {y = suc v % 32} (omega arith);
          small = subst (λ k. word' < 2 ^ k) (sym r') size;
          bits = λ k l.
              next_bits v word word' s.bits here below k (omega arith)
              ∙ ap (λ d. full start p (d * 32 + k)) (sym q');
          written = λ j l. s.written j (omega arith);
          kept = s.kept;
          beyond = λ w l. s.beyond w (omega arith);
          words = s.words;
        }

    flushed_bit :
        v % 32 ≡ 31
        → (j : ℕ) → j < (v / 32 + 1) * 32
        → bit_at (write_word memory upper word') q j ≡ full start p j
    flushed_bit h j l = elim (less_or_not j (v / 32 * 32)) [
      | inl (m, _) ↦
          ap (λ w. bit w (j % 32))
            (write_other memory upper word' (q + j / 32) (omega (arith, s.position)))
          ∙ s.written j m
      | inr (m, _) ↦
          ap (λ w. bit w (j % 32))
            (write_same memory upper word' (q + j / 32) (omega (arith, s.position)))
          ∙ next_bits v word word' s.bits here below (j % 32) (omega arith)
          ∙ ap (full start p) {y = j} (omega arith)
    ]

    flush-IsBuilding :
        v % 32 ≡ 31 → IsBuilding (suc v) (write_word memory upper word') (upper + 1) 0 1
    flush-IsBuilding h =
        let q' : suc v / 32 ≡ v / 32 + 1 = omega arith in
        let r' : suc v % 32 ≡ 0 = omega arith in
        let word_size : word' < 2 ^ 32 =
          subst (λ k. word' < 2 ^ k) {x = suc (v % 32)} {y = 32} (omega arith) size in
        record {
          position = omega (arith, s.position);
          next_bit = ap (λ k. 2 ^ k) {x = 0} {y = suc v % 32} (omega arith);
          small = subst (λ k. 0 < 2 ^ k) (sym r') (omega arith);
          bits = λ k l. absurd (omega arith);
          written = λ j l. flushed_bit h j (omega arith);
          kept = λ w l. write_other memory upper word' w (omega (arith, s.position)) ∙ s.kept w l;
          beyond = λ w l.
              write_other memory upper word' w (omega (arith, s.position))
              ∙ s.beyond w (omega arith);
          words = write-IsWords memory upper word' s.words word_size;
        }

  -- What the loop comes to.
  abbrev pub Built : ℕ → (ℕ → ℕ) × (ℕ × ℕ) → Type 0
  Built n (memory, (upper, word)) = (mask : ℕ) × IsBuilding n memory upper word mask

  abbrev with_bit : ℕ → ℕ → Bool → ℕ
  with_bit word k b = if b then bit_or word (2 ^ k) else word

  module _ (left v : ℕ)
      (rest : (memory : ℕ → ℕ) (upper word mask : ℕ)
        → IsBuilding (suc v) memory upper word mask
        → Built (v + suc left) (upper_loop left (p + v + 1) upper word mask memory)) where
    turn-Built :
        (memory : ℕ → ℕ) (upper word : ℕ)
        → p + v < q
        → IsBuilding v memory upper word (2 ^ (v % 32))
        → Built (v + suc left) (upper_loop (suc left) (p + v) upper word (2 ^ (v % 32)) memory)
    unfolding upper_loop
    turn-Built memory upper word h s =
        let b = start (p + v) == 2 ^ 32 - 1 in
        let (here, (below, size)) = extend word (v % 32) b s.small in
        let word' = with_bit word (v % 32) b in
        rw (s.kept (p + v) h) (elim (mask_lem (v % 32) (omega arith)) [
          | inl (k, m) ↦ rw m (
              rest _ _ _ _
                (flush-IsBuilding v memory upper word (2 ^ (v % 32)) s word' here below size k))
          | inr (k, m) ↦
              rw (m, not_zero (v % 32 + 1))
                (rest _ _ _ _
                  (next-IsBuilding v memory upper word (2 ^ (v % 32)) s word' here below size k))
        ])

  pub upper_loop-Built :
      (left v : ℕ) (memory : ℕ → ℕ) (upper word mask : ℕ)
      → p + (v + left) ≤ q
      → IsBuilding v memory upper word mask
      → Built (v + left) (upper_loop left (p + v) upper word mask memory)
  unfolding upper_loop
  upper_loop-Built zero v memory upper word mask h s =
      (mask, subst (λ n. IsBuilding n memory upper word mask) {x = v} (omega arith) s)
  upper_loop-Built (suc left) v memory upper word mask h s =
      let go = turn-Built left v (λ memory' upper' word' mask' s'.
        subst (λ n. Built n (upper_loop left (p + v + 1) upper' word' mask' memory'))
          {x = suc v + left} (omega arith)
          (subst (λ a. Built (suc v + left) (upper_loop left a upper' word' mask' memory'))
            {x = p + suc v} (omega arith)
            (upper_loop-Built left (suc v) memory' upper' word' mask' (omega arith) s'))) in
      subst (λ m. Built (v + suc left) (upper_loop (suc left) (p + v) upper word m memory))
        (sym s.next_bit)
        (go memory upper word (omega arith) (subst (IsBuilding v memory upper word) s.next_bit s))
