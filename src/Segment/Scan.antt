-- ===== src/Segment/Scan.antt =====
-- `bitptr_linear_search` (smlsharp/src/runtime/heap_concurrent.c, lines 1833 to 1844), and the search
-- in one bitmap.
use smlsharp_completions_gen.Base.{
  ℕ, zero, suc, ◌+◌, ◌-◌, ◌*◌, ◌/◌, ◌%◌, ◌≤◌, ◌<◌, ◌≡◌, inl, inr, arith, refl, ap, subst, ◌∙◌, sym,
  less_or_not, true, if◌then◌else◌, Option, none, some,
}
use smlsharp_completions_gen.Bitptr.{Bitptr, bitptr, bitptr_next0, bitptr_next_failed}
use smlsharp_completions_gen.Bitptr.Next.{
  bit_at, AllOnes, IsWords, NextZero, failed, found, bitptr_next0-NextZero, bitptr_not_failed,
  same_bitptr,
}
use smlsharp_completions_gen.Segment.{linear_search, search_upper}

-- The first bit that is 0 from bit n on, among the bits below `limit`.
pub data FirstZero (memory : ℕ → ℕ) (p n limit : ℕ) : Option Bitptr → Type 0 where
  filled : AllOnes memory p n limit → FirstZero memory p n limit none
  free_at :
      (m : ℕ)
      → n ≤ m
      → m < limit
      → bit_at memory p m ≡ 0
      → AllOnes memory p n m
      → FirstZero memory p n limit (some (bitptr p m))

-- The same for a pointer that fails.
pub data FirstZeroOf (memory : ℕ → ℕ) (p n limit : ℕ) (b : Bitptr) : Type 0 where
  no_zero : b.mask ≡ 0 → AllOnes memory p n limit → FirstZeroOf memory p n limit b
  zero_bit :
      (m : ℕ)
      → b ≡ bitptr p m
      → n ≤ m
      → m < limit
      → bit_at memory p m ≡ 0
      → AllOnes memory p n m
      → FirstZeroOf memory p n limit b

pub AllOnes-append :
    (memory : ℕ → ℕ) (p n m k : ℕ)
    → AllOnes memory p n m
    → AllOnes memory p m k
    → AllOnes memory p n k
AllOnes-append memory p n m k f g i a b = elim (less_or_not i m) [
  | inl (h, _) ↦ f i a h
  | inr (h, _) ↦ g i h b
]

at_word : (p q : ℕ) → ◌≡◌ {A = Bitptr} (record { ptr = p + q; mask = 1 }) (bitptr p (q * 32))
unfolding bitptr
at_word p q = let e : q * 32 % 32 ≡ 0 = omega arith in rw e (same_bitptr (omega arith) refl)

pub word_start : (p q : ℕ) → bitptr (p + q) 0 ≡ bitptr p (q * 32)
unfolding bitptr
word_start p q = let e : q * 32 % 32 ≡ 0 = omega arith in rw e (same_bitptr (omega arith) refl)

further :
    (memory : ℕ → ℕ) (p n m limit : ℕ) (b : Bitptr)
    → n ≤ m
    → AllOnes memory p n m
    → FirstZeroOf memory p m limit b
    → FirstZeroOf memory p n limit b
further memory p n m limit b h f (no_zero e g) = no_zero e (AllOnes-append memory p n m limit f g)
further memory p n m limit b h f (zero_bit k e a c z g) =
    zero_bit k e (omega arith) c z (AllOnes-append memory p n m k f g)

pub mask_failed : (b : Bitptr) → b.mask ≡ 0 → bitptr_next_failed b ≡ true
unfolding bitptr_next_failed
mask_failed b e = ground arith

-- One word of a search, before the rest.
one_word :
    (memory : ℕ → ℕ) (p q limit : ℕ) (b rest : Bitptr)
    → (q + 1) * 32 ≤ limit
    → NextZero memory p (q * 32) b
    → FirstZeroOf memory p ((q + 1) * 32) limit rest
    → FirstZeroOf memory p (q * 32) limit (if bitptr_next_failed b then rest else b)
one_word memory p q limit b rest h (failed e _ f) r = rw (mask_failed b e) (
    further memory p (q * 32) ((q + 1) * 32) limit rest (omega arith) (λ i a c. f i a (omega arith))
      r)
one_word memory p q limit b rest h (found m e a c z f) r =
    rw (ap bitptr_next_failed e ∙ bitptr_not_failed p m) (zero_bit m e a (omega arith) z f)

linear_search-FirstZeroOf :
    (memory : ℕ → ℕ) (p q left : ℕ)
    → IsWords memory
    → FirstZeroOf memory p (q * 32) ((q + left) * 32) (linear_search memory (p + q) left)
unfolding linear_search
linear_search-FirstZeroOf memory p q zero h = no_zero refl (λ i a b. absurd (omega arith))
linear_search-FirstZeroOf memory p q (suc left) h =
    let here =
      subst (λ b. NextZero memory p (q * 32) (bitptr_next0 memory b)) (sym (at_word p q))
        (bitptr_next0-NextZero memory p (q * 32) h) in
    let rest : FirstZeroOf memory p ((q + 1) * 32) ((q + suc left) * 32)
        (linear_search memory (p + q + 1) left) =
      subst
        (λ l. FirstZeroOf memory p ((q + 1) * 32) (l * 32) (linear_search memory (p + q + 1) left))
        {x = q + 1 + left} {y = q + suc left} (omega arith)
        (subst
          (λ s.
            FirstZeroOf memory p ((q + 1) * 32) ((q + 1 + left) * 32) (linear_search memory s left))
          {x = p + (q + 1)} {y = p + q + 1} (omega arith)
          (linear_search-FirstZeroOf memory p (q + 1) left h)) in
    one_word memory p q ((q + suc left) * 32) _ _ (omega arith) here rest

same_search :
    (memory : ℕ → ℕ) (s s' k k' : ℕ)
    → s ≡ s'
    → k ≡ k'
    → linear_search memory s k ≡ linear_search memory s' k'
same_search memory s s' k k' e f = rw (e, f) refl

-- The search in bitmap 1 from a bit below its last word's end.
pub search_upper-FirstZeroOf :
    (memory : ℕ → ℕ) (p len n : ℕ)
    → IsWords memory
    → n < len * 32
    → FirstZeroOf memory p n (len * 32) (search_upper memory p (p + len) n)
unfolding search_upper
search_upper-FirstZeroOf memory p len n h l = upper_cases (bitptr_next0-NextZero memory p n h)
  where
    upper_cases :
        NextZero memory p n (bitptr_next0 memory (bitptr p n))
        → FirstZeroOf memory p n (len * 32) (
            if bitptr_next_failed (bitptr_next0 memory (bitptr p n))
            then linear_search memory
                ((bitptr_next0 memory (bitptr p n)).ptr + 1)
                (p + len - ((bitptr_next0 memory (bitptr p n)).ptr + 1))
            else bitptr_next0 memory (bitptr p n))
    upper_cases (failed e f g) =
        let q = n / 32 + 1 in
        let b = bitptr_next0 memory (bitptr p n) in
        let lin =
          subst
            (λ k. FirstZeroOf memory p (q * 32) (k * 32) (linear_search memory (p + q) (len - q)))
            {x = q + (len - q)} {y = len} (omega arith)
            (linear_search-FirstZeroOf memory p q (len - q) h) in
        rw (mask_failed b e) (
          subst (FirstZeroOf memory p n (len * 32))
            (same_search memory (p + q) (b.ptr + 1) (len - q) (p + len - (b.ptr + 1))
              (omega (arith, f)) (omega (arith, f)))
            (further memory p n (q * 32) (len * 32) _ (omega arith) g lin))
    upper_cases (found m e a c z f) =
        rw (ap bitptr_next_failed e ∙ bitptr_not_failed p m) (zero_bit m e a (omega arith) z f)
