-- ===== src/Primitives/Memcmp.antt =====
-- `sml_memcmp` (smlsharp/src/runtime/prim.c, lines 282 to 297) finds the first difference.
use smlsharp_completions_gen.Base.{
  ℕ, zero, suc, ◌+◌, ◌<◌, ◌≡◌, ◌≢◌, ◌⊎◌, inl, inr, arith, refl, ap, ◌∙◌, sym, same_or_not,
}
use smlsharp_completions_gen.Primitives.{memcmp_loop, sml_memcmp}

-- The first n bytes are the same.
abbrev pub Agree : (ℕ → ℕ) → ℕ → ℕ → ℕ → Type 0
Agree memory p q zero = Unit
Agree memory p q (suc n) = (memory p ≡ memory q) × Agree memory (p + 1) (q + 1) n

-- A result for two areas: no difference, or the first one, at place k.
abbrev pub IsComparison : (ℕ → ℕ) → ℕ → ℕ → ℕ → ℕ × ℕ → Type 0
IsComparison memory p q len r =
    ((r ≡ (0, 0)) × Agree memory p q len)
    ⊎ ((k : ℕ) × ((k < len)
          × (Agree memory p q k
              × ((memory (p + k) ≢ memory (q + k)) × (r ≡ (memory (p + k), memory (q + k)))))))

itself-Agree : (memory : ℕ → ℕ) (p q n : ℕ) → p ≡ q → Agree memory p q n
itself-Agree memory p q zero e = tt
itself-Agree memory p q (suc n) e =
    (ap memory e, itself-Agree memory (p + 1) (q + 1) n (omega arith))

one_further :
    (memory : ℕ → ℕ) (p q len : ℕ) (r : ℕ × ℕ)
    → memory p ≡ memory q
    → IsComparison memory (p + 1) (q + 1) len r
    → IsComparison memory p q (suc len) r
one_further memory p q len r e (inl (z, a)) = inl (z, (e, a))
one_further memory p q len r e (inr (k, (l, (a, (n, v))))) =
    let at : (s : ℕ) → memory (s + 1 + k) ≡ memory (s + suc k) = λ s. ap memory (omega arith) in
    inr (
      suc k,
      (
        omega arith,
        (
          (e, a),
          (
            λ z. n (at p ∙ z ∙ sym (at q)),
            v ∙ ap (λ x. (x, memory (q + 1 + k))) (at p) ∙ ap (λ x. (memory (p + suc k), x)) (at q),
          ),
        ),
      ),
    )

loop-IsComparison :
    (memory : ℕ → ℕ) (p q len : ℕ) → IsComparison memory p q len (memcmp_loop memory p q len)
unfolding memcmp_loop
loop-IsComparison memory p q zero = inl (refl, tt)
loop-IsComparison memory p q (suc len) = elim (same_or_not (memory p) (memory q)) [
  | inl (e, b) ↦
      rw b (one_further memory p q len _ e (loop-IsComparison memory (p + 1) (q + 1) len))
  | inr (n, b) ↦ rw b (at_once n)
]
  where
    at : (s : ℕ) → memory s ≡ memory (s + 0)
    at s = ap memory (omega arith)

    at_once : memory p ≢ memory q → IsComparison memory p q (suc len) (memory p, memory q)
    at_once n = inr (
      zero,
      (
        omega arith,
        (
          tt,
          (
            λ z. n (at p ∙ z ∙ sym (at q)),
            ap (λ x. (x, memory q)) (at p) ∙ ap (λ x. (memory (p + 0), x)) (at q),
          ),
        ),
      ),
    )

-- `sml_memcmp` returns 0 if the two areas hold the same bytes, and otherwise the difference of the
-- first two bytes that are not the same.
pub sml_memcmp-IsComparison :
    (memory : ℕ → ℕ) (s1 i1 s2 i2 len : ℕ)
    → IsComparison memory (s1 + i1) (s2 + i2) len (sml_memcmp memory s1 i1 s2 i2 len)
unfolding sml_memcmp
sml_memcmp-IsComparison memory s1 i1 s2 i2 len = elim (same_or_not (s1 + i1) (s2 + i2)) [
  | inl (e, b) ↦ rw b (inl (refl, itself-Agree memory (s1 + i1) (s2 + i2) len e))
  | inr (n, b) ↦ rw b (loop-IsComparison memory (s1 + i1) (s2 + i2) len)
]
