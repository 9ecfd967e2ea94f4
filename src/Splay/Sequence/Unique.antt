-- ===== src/Splay/Sequence/Unique.antt =====
-- A sorted list is known by what is found in it. It models no code.
use smlsharp_completions_gen.Base.{
  ◌≡◌, refl, sym, ap, ◌∙◌, eq, Option, none, some, List, [], ◌∷◌, inl, inr, Ordering-cases,
}
use smlsharp_completions_gen.Base.Predicates.{All-imp}
use smlsharp_completions_gen.Splay.Order.{Comparison, ◌≺◌, IsSorted}
use smlsharp_completions_gen.Splay.Sequence.{lookup, lookup_here, lookup-Above, lookup_tail}

module _ {ℓ} {A : Type ℓ} ⦃c : Comparison A⦄ where
  lookup_less : (x y : A) (ys : List A) → x ≺ y → IsSorted (y ∷ ys) → lookup x (y ∷ ys) ≡ none
  lookup_less x y ys e (a, s) =
      lookup-Above x (y ∷ ys) (e, All-imp (λ z q. c.lt_trans x y z e q) ys a)

  found_once : (x y : A) (ys : List A) → lookup x (x ∷ ys) ≡ none → ⊥
  found_once x y ys h = let here = lookup_here x x ys (c.cmp_refl x) in cc

  same_item : (x y : A) → ◌≡◌ {A = Option A} (some x) (some y) → x ≡ y
  same_item x y h = cc

  pub eq-of_lookup :
      (xs ys : List A) → IsSorted xs → IsSorted ys → ((z : A) → lookup z xs ≡ lookup z ys) → xs ≡ ys
  eq-of_lookup [] [] s t h = refl
  eq-of_lookup [] (y ∷ ys) s t h = absurd (found_once y y ys (sym (h y) ∙ unfold lookup in refl))
  eq-of_lookup (x ∷ xs) [] s t h = absurd (found_once x x xs (h x ∙ unfold lookup in refl))
  eq-of_lookup (x ∷ xs) (y ∷ ys) (a, s) (b, t) h = elim (Ordering-cases (c.cmp x y)) [
    | inl e ↦ absurd (found_once x x xs (h x ∙ lookup_less x y ys e (b, t)))
    | inr (inl e) ↦
        let same =
          same_item x y (sym (lookup_here x x xs (c.cmp_refl x)) ∙ h x ∙ lookup_here x y ys e) in
        let rest = eq-of_lookup xs ys s t (λ z.
          lookup_tail z x xs a
          ∙ ap (λ o. elim (c.cmp z x) [ eq ↦ none | _ ↦ o ]) (h z)
          ∙ ap (λ w. elim (c.cmp z w) [ eq ↦ none | _ ↦ lookup z (y ∷ ys) ]) same
          ∙ sym (lookup_tail z y ys b)) in
        rw (same, rest) refl
    | inr (inr e) ↦
        absurd (found_once y y ys (sym (h y) ∙ lookup_less y x xs (c.lt_of_gt x y e) (a, s)))
  ]
