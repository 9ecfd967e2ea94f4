-- ===== src/Subheap/Counts.antt =====
-- `free_count` (smlsharp/src/runtime/heap_concurrent.c, lines 1295 to 1320) counts the free blocks.
use native.Mathlib.Nat.{two-pow-succ}
use smlsharp_completions_gen.Base.{
  ℕ, zero, suc, ◌+◌, ◌-◌, ◌*◌, ◌/◌, ◌%◌, ◌^◌, ◌≤◌, ◌<◌, ◌≡◌, ◌==◌, if◌then◌else◌, arith, refl, ap,
  ◌∙◌,
}
use smlsharp_completions_gen.Bitptr.{popcount}
use smlsharp_completions_gen.Bitptr.Words.{bit}
use smlsharp_completions_gen.Bitptr.Next.{bit_at, IsWords}
use smlsharp_completions_gen.Segment.{base0, base1}
use smlsharp_completions_gen.Allocator.{Segment}
use smlsharp_completions_gen.Allocator.Blocks.{IsSegment}
use smlsharp_completions_gen.Subheap.{count_words, free_count}

-- How many of the first n values of a function are 0.
abbrev pub zeros : (ℕ → ℕ) → ℕ → ℕ
zeros f zero = 0
zeros f (suc n) = (if f 0 == 0 then 1 else 0) + zeros (λ i. f (suc i)) n

zeros_ext : (f g : ℕ → ℕ) (n : ℕ) → ((i : ℕ) → i < n → f i ≡ g i) → zeros f n ≡ zeros g n
zeros_ext f g zero h = refl
zeros_ext f g (suc n) h =
    rw
      (
        h 0 (omega arith),
        zeros_ext (λ i. f (suc i)) (λ i. g (suc i)) n (λ i k. h (suc i) (omega arith)),
      )
      refl

zeros_sum : (f : ℕ → ℕ) (n m : ℕ) → zeros f (n + m) ≡ zeros f n + zeros (λ i. f (n + i)) m
zeros_sum f zero m =
    ap (zeros f) {x = 0 + m} {y = m} (omega arith)
    ∙ omega (arith, zeros_ext f (λ i. f (0 + i)) m (λ i k. ap f (omega arith)))
zeros_sum f (suc n) m =
    ap (zeros f) {x = suc n + m} {y = suc (n + m)} (omega arith)
    ∙ omega (
      arith,
      zeros_sum (λ i. f (suc i)) n m,
      zeros_ext (λ i. f (suc (n + i))) (λ i. f (suc n + i)) m (λ i k. ap f (omega arith)),
    )

digit_le : (x : ℕ) → (if x == 0 then 1 else 0) ≤ 1
digit_le x = ground arith

pub zeros_le : (f : ℕ → ℕ) (n : ℕ) → zeros f n ≤ n
zeros_le f zero = omega arith
zeros_le f (suc n) = omega (arith, digit_le (f 0), zeros_le (λ i. f (suc i)) n)

zeros_none : (f : ℕ → ℕ) (n : ℕ) → ((i : ℕ) → i < n → f i ≡ 1) → zeros f n ≡ 0
zeros_none f zero h = refl
zeros_none f (suc n) h =
    rw (h 0 (omega arith))
      (omega (arith, zeros_none (λ i. f (suc i)) n (λ i k. h (suc i) (omega arith))))

one_zero : (x : ℕ) → 1 ≤ (if x == 0 then 1 else 0) → x ≡ 0
one_zero x h = ground arith

pub zeros_all : (f : ℕ → ℕ) (n i : ℕ) → zeros f n ≡ n → i < n → f i ≡ 0
zeros_all f zero i h k = absurd (omega arith)
zeros_all f (suc n) zero h k = one_zero (f 0) (omega (arith, h, zeros_le (λ i. f (suc i)) n))
zeros_all f (suc n) (suc i) h k =
    zeros_all (λ i. f (suc i)) n i (omega (arith, h, digit_le (f 0), zeros_le (λ i. f (suc i)) n))
      (omega arith)

-- The bits of a word.
one_digit : (w : ℕ) → (if w % 2 == 0 then 1 else 0) ≡ 1 - w % 2
one_digit w = ground arith

popcount_lem : (n w : ℕ) → w < 2 ^ n → popcount n (2 ^ n - 1 - w) ≡ zeros (bit w) n
unfolding popcount
popcount_lem zero w h = refl
popcount_lem (suc n) w h =
    let half =
      ap (popcount n) {x = (2 ^ suc n - 1 - w) / 2} {y = 2 ^ n - 1 - w / 2}
        (omega (arith, two-pow-succ n)) in
    omega (
      arith,
      half,
      popcount_lem n (w / 2) (omega (arith, two-pow-succ n)),
      one_digit w,
      two-pow-succ n,
    )

word_bits : (memory : ℕ → ℕ) (p i : ℕ) → i < 32 → bit (memory p) i ≡ bit_at memory p i
word_bits memory p i h =
    ap (λ a. bit (memory a) i) {x = p} {y = p + i / 32} (omega arith)
    ∙ ap (bit (memory (p + i / 32))) {x = i} {y = i % 32} (omega arith)

later_bits : (memory : ℕ → ℕ) (p i : ℕ) → bit_at memory (p + 1) i ≡ bit_at memory p (32 + i)
later_bits memory p i =
    ap (λ a. bit (memory a) (i % 32)) {x = p + 1 + i / 32} {y = p + (32 + i) / 32} (omega arith)
    ∙ ap (bit (memory (p + (32 + i) / 32))) {x = i % 32} {y = (32 + i) % 32} (omega arith)

count_words_lem :
    (memory : ℕ → ℕ) (p n : ℕ)
    → IsWords memory
    → count_words memory p n ≡ zeros (bit_at memory p) (32 * n)
unfolding count_words
count_words_lem memory p zero h = refl
count_words_lem memory p (suc n) h = omega (
  arith,
  popcount_lem 32 (memory p) (h p),
  zeros_ext (bit (memory p)) (bit_at memory p) 32 (word_bits memory p),
  count_words_lem memory (p + 1) n h,
  zeros_ext (bit_at memory (p + 1)) (λ i. bit_at memory p (32 + i)) (32 * n)
      (λ i k. later_bits memory p i),
  zeros_sum (bit_at memory p) 32 (32 * n),
  ap (zeros (bit_at memory p)) {x = 32 * suc n} {y = 32 + 32 * n} (omega arith),
)

-- Without an allocation pointer `free_count` is the number of the blocks of a segment in order that
-- are free.
pub free_count-zeros :
    (seg : Segment)
    → IsSegment seg
    → free_count seg 0 ≡ zeros (bit_at seg.memory base0) seg.layout.num_blocks
unfolding free_count
free_count-zeros seg s =
    let n = seg.layout.num_blocks in
    let more = 32 * (base1 seg.layout - base0) - n in
    omega (
      arith,
      count_words_lem seg.memory base0 (base1 seg.layout - base0) s.words,
      ap (zeros (bit_at seg.memory base0)) {x = 32 * (base1 seg.layout - base0)} {y = n + more}
          (omega (arith, s.laid_out.lower_room)),
      zeros_sum (bit_at seg.memory base0) n more,
      zeros_none (λ i. bit_at seg.memory base0 (n + i)) more
          (λ i k. s.sentinels (n + i) (omega arith) (omega (arith, k))),
    )
