-- ===== src/Splay/Store/Pointer.antt =====
-- The item that `sml_tree_find` and `sml_tree_insert` return a pointer to (smlsharp/src/runtime/splay.c,
-- lines 302 to 334).
use smlsharp_completions_gen.Base.{
  ◌≡◌, refl, ap, ◌∙◌, eq, Bool, Option, some, List, [], ◌∷◌, arith, inl, inr, Ordering-cases,
}
use smlsharp_completions_gen.Splay.{root_item, insert}
use smlsharp_completions_gen.Splay.Order.{Comparison}
use smlsharp_completions_gen.Splay.Sequence.{lookup}
use smlsharp_completions_gen.Splay.Root.{root_item-find, root_item-insert}
use smlsharp_completions_gen.Splay.Store.{SmlTree, sml_tree_find, sml_tree_insert}

module _ {ℓ} {A : Type ℓ} ⦃c : Comparison A⦄ where
  pub found-eq : (x a : A) (xs : List A) → lookup x xs ≡ some a → c.cmp x a ≡ eq
  unfolding lookup
  found-eq x a [] h = cc
  found-eq x a (y ∷ ys) h = elim (Ordering-cases (c.cmp x y)) [
    | inl e ↦ found-eq x a ys (rw (e, lookup) at h)
    | inr (inl e) ↦
        let h' : ◌≡◌ {A = Option A} (some y) (some a) = rw (e, lookup) at h in
        let s : y ≡ a = cc in rw (← s) e
    | inr (inr e) ↦ found-eq x a ys (rw (e, lookup) at h)
  ]

  pub root_item-sml_tree_find :
      (x a : A) (t : SmlTree A)
      → (sml_tree_find x t).0 ≡ some a
      → root_item (sml_tree_find x t).1.root ≡ some a
  unfolding sml_tree_find
  root_item-sml_tree_find x a t h = root_item-find x a t.root h

  inserted_root :
      (x : A) (t t' : SmlTree A) (new : Bool)
      → (insert x t.root).0 ≡ new
      → sml_tree_insert x t ≡ some t'
      → t'.root ≡ (insert x t.root).1
  unfolding sml_tree_insert
  inserted_root x t t' new e h = ground (arith, e, h)

  pub root_item-sml_tree_insert :
      (x : A) (t t' : SmlTree A) → sml_tree_insert x t ≡ some t' → root_item t'.root ≡ some x
  root_item-sml_tree_insert x t t' h =
      ap root_item (inserted_root x t t' (insert x t.root).0 refl h) ∙ root_item-insert x t.root
