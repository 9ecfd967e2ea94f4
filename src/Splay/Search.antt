-- ===== src/Splay/Search.antt =====
-- `sml_tree_find` (smlsharp/src/runtime/splay.c, lines 302 to 314).
use smlsharp_completions_gen.Base.{
  ◌≡◌, refl, sym, ◌∙◌, Ordering, lt, eq, gt, if◌then◌else◌, none, some, [],
}
use smlsharp_completions_gen.Splay.{Tree, leaf, node, is_eq, assemble, splay, find}
use smlsharp_completions_gen.Splay.Order.{Comparison, IsSorted}
use smlsharp_completions_gen.Splay.Sequence.{lookup, lookup_middle}
use smlsharp_completions_gen.Splay.Inorder.{inorder, inorder-assemble}
use smlsharp_completions_gen.Splay.Loop.{StopsAt, splay_stops}
use smlsharp_completions_gen.Splay.Split.{splay_parts, splay_splits}

module _ {ℓ} {A : Type ℓ} ⦃c : Comparison A⦄ where
  -- Putting a splayed tree together again gives the items that it had.
  pub assemble-splay :
      (x : A) (t : Tree A)
      → StopsAt x (splay x t [] [])
      → let s = splay x t [] [] in inorder (assemble s.tree s.lesser s.greater) ≡ inorder t
  assemble-splay x t st =
      let s = splay x t [] [] in
      rw st.at_node (inorder-assemble st.left st.item st.right s.lesser s.greater)
      ∙ sym (splay_parts x t st)

  -- `sml_tree_find` moves nodes, and neither adds, drops nor reorders an item, whether or not the tree
  -- is sorted.
  pub find-inorder : (x : A) (t : Tree A) → inorder (find x t).1 ≡ inorder t
  unfolding find
  find-inorder x leaf = refl
  find-inorder x (node l k r) =
      assemble-splay x (node l k r) (splay_stops x (node l k r) refl [] [])

  found_item :
      (n : Ordering) (k : A)
      → (if is_eq n then some k else none) ≡ elim n [ eq ↦ some k | _ ↦ none ]
  found_item lt k = refl
  found_item eq k = refl
  found_item gt k = refl

  -- In a sorted tree `sml_tree_find` returns exactly the item that is equal to the one looked for, and
  -- NULL where there is none.
  pub find-eq-lookup :
      (x : A) (t : Tree A) → IsSorted (inorder t) → (find x t).0 ≡ lookup x (inorder t)
  unfolding find assemble lookup
  find-eq-lookup x leaf h = refl
  find-eq-lookup x (node l k r) h =
      let sp = splay_splits x (node l k r) refl h in
      rw sp.parts (
        rw (lookup_middle x _ sp.item _ sp.below sp.above)
          (rw (sp.at_node, assemble, ← sp.compared) (found_item (c.cmp x sp.item) sp.item)))
