-- ===== src/Splay/Laws.antt =====
-- What the users of a tree see of smlsharp/src/runtime/splay.c: a set of items, up to equality, that
-- insertion overwrites and deletion takes from. The items of a tree stay sorted.
use smlsharp_completions_gen.Base.{◌≡◌, ◌∙◌, sym, ap, eq, none, some}
use smlsharp_completions_gen.Splay.{Tree, find, insert, insert_node, delete}
use smlsharp_completions_gen.Splay.Order.{Comparison, IsSorted}
use smlsharp_completions_gen.Splay.Sequence
use smlsharp_completions_gen.Splay.Inorder.{inorder}
use smlsharp_completions_gen.Splay.Search.{find-inorder, find-eq-lookup}
use smlsharp_completions_gen.Splay.Change.{insert_lem, insert_node_lem}
use smlsharp_completions_gen.Splay.Join.{delete-eq-remove}

module _ {ℓ} {A : Type ℓ} ⦃c : Comparison A⦄ where
  -- The representation invariant.
  abbrev pub IsOrdered : Tree A → Type 0
  IsOrdered t = IsSorted (inorder t)

  pub find-IsOrdered : (x : A) (t : Tree A) → IsOrdered t → IsOrdered (find x t).1
  find-IsOrdered x t h = rw (find-inorder x t) h

  pub insert-IsOrdered : (x : A) (t : Tree A) → IsOrdered t → IsOrdered (insert x t).1
  insert-IsOrdered x t h = rw (insert_lem x t h).0 (Sequence.insert-IsSorted x (inorder t) h)

  pub insert_node-IsOrdered : (x : A) (t : Tree A) → IsOrdered t → IsOrdered (insert_node x t).1
  insert_node-IsOrdered x t h = rw (insert_node_lem x t h).0 (Sequence.add-IsSorted x (inorder t) h)

  pub delete-IsOrdered : (x : A) (t : Tree A) → IsOrdered t → IsOrdered (delete x t).1
  delete-IsOrdered x t h = rw (delete-eq-remove x t h).1 (Sequence.remove-IsSorted x (inorder t) h)

  -- Every operation on an ordered tree leaves an ordered tree.
  pub operations-IsOrdered :
      (x : A) (t : Tree A)
      → IsOrdered t
      → IsOrdered (find x t).1
        × IsOrdered (insert x t).1
        × IsOrdered (insert_node x t).1
        × IsOrdered (delete x t).1
  operations-IsOrdered x t h = (
    find-IsOrdered x t h,
    insert-IsOrdered x t h,
    insert_node-IsOrdered x t h,
    delete-IsOrdered x t h,
  )

  -- In an ordered tree, `sml_tree_find` after `sml_tree_insert` returns the item inserted for whatever
  -- is equal to it, and for anything else what it returned before.
  pub find-insert :
      (y x : A) (t : Tree A)
      → IsOrdered t
      → (find y (insert x t).1).0 ≡ elim (c.cmp y x) [ eq ↦ some x | _ ↦ (find y t).0 ]
  find-insert y x t h =
      find-eq-lookup y _ (insert-IsOrdered x t h)
      ∙ ap (Sequence.lookup y) (insert_lem x t h).0
      ∙ Sequence.lookup-insert y x (inorder t) h
      ∙ ap (λ o. elim (c.cmp y x) [ eq ↦ some x | _ ↦ o ]) (sym (find-eq-lookup y t h))

  -- In an ordered tree, `sml_tree_find` after `sml_tree_delete` returns NULL for whatever is equal to
  -- the item deleted, and for anything else what it returned before.
  pub find-delete :
      (y x : A) (t : Tree A)
      → IsOrdered t
      → (find y (delete x t).1).0 ≡ elim (c.cmp y x) [ eq ↦ none | _ ↦ (find y t).0 ]
  find-delete y x t h =
      find-eq-lookup y _ (delete-IsOrdered x t h)
      ∙ ap (Sequence.lookup y) (delete-eq-remove x t h).1
      ∙ Sequence.lookup-remove y x (inorder t) h
      ∙ ap (λ o. elim (c.cmp y x) [ eq ↦ none | _ ↦ o ]) (sym (find-eq-lookup y t h))
