-- ===== src/Splay/Walk/Each.antt =====
-- `sml_tree_each` (smlsharp/src/runtime/splay.c, lines 399 to 417) against a walk by recursion.
use smlsharp_completions_gen.Base.{
  ℕ, suc, ◌+◌, ◌*◌, ◌≡◌, refl, sym, ap, ◌∙◌, some, List, [], ◌∷◌, ◌++◌, arith,
}
use smlsharp_completions_gen.Splay.{Tree, leaf, node}
use smlsharp_completions_gen.Splay.Inorder.{inorder}
use smlsharp_completions_gen.Splay.Walk.{
  Trail, below_left, below_right, climb, size, each_turn, each_loop, each,
}

module _ {ℓ κ} {A : Type ℓ} {S : Type κ} (visit : S → A → S × A) where
  -- The left subtree, the item, the right subtree.
  abbrev pub each_by_recursion : S → Tree A → S × Tree A
  each_by_recursion s leaf = (s, leaf)
  each_by_recursion s (node l k r) =
      let (s1, l') = each_by_recursion s l in
      let (s2, k') = visit s1 k in let (s3, r') = each_by_recursion s2 r in (s3, node l' k' r')

  -- The visitor over a list of items, from the first on.
  abbrev pub each_in_list : S → List A → S × List A
  each_in_list s [] = (s, [])
  each_in_list s (x ∷ xs) =
      let (s1, x') = visit s x in let (s2, xs') = each_in_list s1 xs in (s2, x' ∷ xs')

  each_fuel :
      (m n : ℕ) (s : S) (trail : Trail A) (t : Tree A)
      → m ≡ n
      → each_loop visit m s trail t ≡ each_loop visit n s trail t
  each_fuel m n s trail t e = ap (λ f. each_loop visit f s trail t) e

  -- From a subtree, the loop reaches the turn at which it goes back from the walked subtree.
  each_loop_subtree :
      (t : Tree A) (fuel : ℕ) (s : S) (trail : Trail A)
      → each_loop visit (2 * size t + suc fuel) s trail t
        ≡ each_turn visit
            (each_loop visit fuel)
            (each_by_recursion s t).0
            (climb trail (each_by_recursion s t).1)
  unfolding each_loop size
  each_loop_subtree leaf fuel s trail =
      each_fuel (2 * 0 + suc fuel) (suc fuel) s trail leaf (omega arith)
  each_loop_subtree (node l k r) fuel s trail =
      let (s1, l') = each_by_recursion s l in
      let (s2, k') = visit s1 k in
      each_fuel (2 * suc (size l + size r) + suc fuel)
        (suc (2 * size l + suc (2 * size r + suc fuel))) s trail (node l k r) (omega arith)
      ∙ each_loop_subtree l (2 * size r + suc fuel) s (below_left k r ∷ trail)
      ∙ each_loop_subtree r fuel s2 (below_right l' k' ∷ trail)

  -- `sml_tree_each` ends, and visits the items of the left subtree, then the node's, then those of the
  -- right one; what the visitor changes stays in its place.
  pub each-eq-recursion : (s : S) (t : Tree A) → each visit s t ≡ some (each_by_recursion s t)
  unfolding each climb
  each-eq-recursion s t = each_loop_subtree t 0 s []

  each_in_list-append :
      (s : S) (xs ys : List A)
      → each_in_list s (xs ++ ys) ≡ (
        (each_in_list (each_in_list s xs).0 ys).0,
        (each_in_list s xs).1 ++ (each_in_list (each_in_list s xs).0 ys).1,
      )
  each_in_list-append s [] ys = refl
  each_in_list-append s (x ∷ xs) ys =
      ap (λ p. (p.0, (visit s x).1 ∷ p.1)) (each_in_list-append (visit s x).0 xs ys)

  each_by_recursion-inorder :
      (s : S) (t : Tree A)
      → ((each_by_recursion s t).0, inorder (each_by_recursion s t).1) ≡ each_in_list s (inorder t)
  each_by_recursion-inorder s leaf = refl
  each_by_recursion-inorder s (node l k r) =
      let l' = (each_by_recursion s l).1 in
      let k' = (visit (each_by_recursion s l).0 k).1 in
      ap (λ (q : S × List A). (q.0, inorder l' ++ k' ∷ q.1))
        (each_by_recursion-inorder (visit (each_by_recursion s l).0 k).0 r)
      ∙ ap
          (λ (p : S × List A).
            ((each_in_list p.0 (k ∷ inorder r)).0, p.1 ++ (each_in_list p.0 (k ∷ inorder r)).1))
          (each_by_recursion-inorder s l)
      ∙ sym (each_in_list-append s (inorder l) (k ∷ inorder r))

  -- `sml_tree_each` ends; it calls the visitor once for each item, from the least to the greatest, and
  -- leaves what the visitor makes of them in the same order.
  pub each-inorder :
      (s : S) (t : Tree A)
      → (t' : Tree A) × (each visit s t ≡ some ((each_in_list s (inorder t)).0, t'))
        × (inorder t' ≡ (each_in_list s (inorder t)).1)
  each-inorder s t =
      let e = each_by_recursion-inorder s t in
      (
        (each_by_recursion s t).1,
        each-eq-recursion s t ∙ ap (λ (p : S × List A). some (p.0, (each_by_recursion s t).1)) e,
        ap (λ (p : S × List A). p.1) e,
      )
