-- ===== src/Splay/Order.antt =====
-- The compare function that `sml_tree_new` takes, with what a tree needs of it: it is consistent,
-- transitive, and items that it calls equal compare alike with every other. Equal items may differ.
use smlsharp_completions_gen.Base.{◌≡◌, Ordering, lt, eq, gt, arith, sym, ◌∙◌, List, [], ◌∷◌}
use smlsharp_completions_gen.Base.Predicates.{All}

pub record IsPreorder {ℓ} {A : Type ℓ} (cmp : A → A → Ordering) : Type ℓ where
  pub cmp_refl : (a : A) → cmp a a ≡ eq
  pub gt_of_lt : (a b : A) → cmp a b ≡ lt → cmp b a ≡ gt
  pub lt_of_gt : (a b : A) → cmp a b ≡ gt → cmp b a ≡ lt
  pub lt_trans : (a b c : A) → cmp a b ≡ lt → cmp b c ≡ lt → cmp a c ≡ lt
  pub cmp_congr : (a b c : A) → cmp a b ≡ eq → cmp a c ≡ cmp b c

-- A negative result of the C function is `lt`, zero is `eq`, a positive one is `gt`.
pub record Comparison {ℓ} (A : Type ℓ) : Type ℓ where
  pub cmp : A → A → Ordering
  pub lawful : IsPreorder cmp
  pub open lawful use *

infix 50 ◌≺◌
abbrev pub ◌≺◌ {ℓ} : {A : Type ℓ} ⦃c : Comparison A⦄ → A → A → Type 0
◌≺◌ ⦃c⦄ a b = c.cmp a b ≡ lt

module _ {ℓ} {A : Type ℓ} ⦃c : Comparison A⦄ where
  pub eq_symm : (a b : A) → c.cmp a b ≡ eq → c.cmp b a ≡ eq
  eq_symm a b h = sym (c.cmp_congr a b a h) ∙ c.cmp_refl a

  pub lt_irrefl : (a : A) → a ≺ a → ⊥
  lt_irrefl a h = ground (arith, c.cmp_refl a)

  pub lt_asymm : (a b : A) → a ≺ b → b ≺ a → ⊥
  lt_asymm a b h k = ground (arith, c.gt_of_lt a b)

  -- Equal items stand on the same side of a third.
  pub lt_of_eq_lt : (a b d : A) → c.cmp a b ≡ eq → b ≺ d → a ≺ d
  lt_of_eq_lt a b d e h = c.cmp_congr a b d e ∙ h

  pub lt_of_lt_eq : (a b d : A) → a ≺ b → c.cmp b d ≡ eq → a ≺ d
  lt_of_lt_eq a b d h e = c.lt_of_gt d a (sym (c.cmp_congr b d a e) ∙ c.gt_of_lt a b h)

  -- Strictly increasing: no two elements are equal for the comparison.
  abbrev pub IsSorted : List A → Type 0
  IsSorted [] = Unit
  IsSorted (x ∷ xs) = All (λ y. x ≺ y) xs × IsSorted xs
