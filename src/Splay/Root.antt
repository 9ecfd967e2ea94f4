-- ===== src/Splay/Root.antt =====
-- The item at the root after `sml_tree_find` and `sml_tree_insert` (smlsharp/src/runtime/splay.c, lines
-- 302 to 334), which is the one that they return a pointer to, and what a write through the pointer does.
use smlsharp_completions_gen.Base.{
  ◌≡◌, refl, sym, ap, ◌∙◌, Ordering, lt, eq, gt, some, List, [], ◌∷◌, arith, inl, inr,
  Ordering-cases,
}
use smlsharp_completions_gen.Base.Predicates.{All-imp}
use smlsharp_completions_gen.Splay.{
  Tree, leaf, node, Splayed, root_item, overwrite, hang, assemble, splay, find, insert,
}
use smlsharp_completions_gen.Splay.Order.{Comparison, IsSorted, lt_of_eq_lt, lt_of_lt_eq, eq_symm}
use smlsharp_completions_gen.Splay.Sequence
use smlsharp_completions_gen.Splay.Sequence.{sorted_around, insert_middle, same_side}
use smlsharp_completions_gen.Splay.Inorder.{inorder}
use smlsharp_completions_gen.Splay.Walk.{size}
use smlsharp_completions_gen.Splay.Loop.{StopsAt, splay_stops}

module _ {ℓ} {A : Type ℓ} ⦃c : Comparison A⦄ where
  pub root_item-find :
      (x a : A) (t : Tree A) → (find x t).0 ≡ some a → root_item (find x t).1 ≡ some a
  unfolding find
  root_item-find x a leaf h = cc
  root_item-find x a (node l k r) h = ground (arith, h)

  root_item-hang :
      (x : A) (s : Splayed A) (st : StopsAt x s)
      → root_item (overwrite x (assemble (hang x s) s.lesser s.greater)) ≡ some x
  unfolding assemble
  root_item-hang x s st = rw st.at_node (by_result s.n)
    where
      by_result :
          (n : Ordering)
          → root_item (
              overwrite x (
                assemble
                  (hang x (record {
                    n = n;
                    tree = node st.left st.item st.right;
                    lesser = s.lesser;
                    greater = s.greater;
                  }))
                  s.lesser
                  s.greater))
            ≡ some x
      by_result lt = refl
      by_result eq = refl
      by_result gt = refl

  pub root_item-insert : (x : A) (t : Tree A) → root_item (insert x t).1 ≡ some x
  unfolding insert splay assemble
  root_item-insert x leaf = refl
  root_item-insert x (node l k r) = root_item-hang x _ (splay_stops x (node l k r) refl [] [])

  -- An equal item written over the root.
  pub inorder-overwrite :
      (x a : A) (t : Tree A)
      → IsSorted (inorder t)
      → root_item t ≡ some a
      → c.cmp x a ≡ eq
      → inorder (overwrite x t) ≡ Sequence.insert x (inorder t)
  inorder-overwrite x a leaf h e f = cc
  inorder-overwrite x a (node l k r) h e f =
      let s = sorted_around (inorder l) k (inorder r) h in
      let same : c.cmp x k ≡ eq = ground (arith, e, f) in
      sym (
        insert_middle x (inorder l) k (inorder r)
          (All-imp (λ z q. c.gt_of_lt z x (lt_of_lt_eq z k x q (eq_symm x k same))) (inorder l)
            s.lower)
          (All-imp (λ z q. lt_of_eq_lt x k z same q) (inorder r) s.upper)
        ∙ rw same refl)

  pub size-overwrite : (x : A) (t : Tree A) → size (overwrite x t) ≡ size t
  unfolding size
  size-overwrite x leaf = refl
  size-overwrite x (node l k r) = refl

  -- Of two equal items that are inserted the second one stays.
  pub insert-insert :
      (x y : A) (xs : List A)
      → c.cmp x y ≡ eq
      → Sequence.insert x (Sequence.insert y xs) ≡ Sequence.insert x xs
  unfolding Sequence.insert
  insert-insert x y [] e = rw (e, Sequence.insert) refl
  insert-insert x y (z ∷ zs) e = elim (Ordering-cases (c.cmp y z)) [
    | inl f ↦ rw (f, c.cmp_congr x y z e, f, Sequence.insert, e) refl
    | inr (inl f) ↦ rw (f, c.cmp_congr x y z e, f, Sequence.insert, e) refl
    | inr (inr f) ↦
        rw (f, c.cmp_congr x y z e, f, Sequence.insert) (ap (λ l. z ∷ l) (insert-insert x y zs e))
  ]
