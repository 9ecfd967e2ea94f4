-- ===== src/Splay/Change.antt =====
-- `sml_tree_insert` and `insert_node` (smlsharp/src/runtime/splay.c, lines 316 to 351) as operations
-- on the items in order.
use smlsharp_completions_gen.Base.{
  ◌≡◌, refl, sym, ap, ◌∙◌, Ordering, lt, eq, gt, true, false, not, none, some, List, [], ◌∷◌, ◌++◌,
  append_assoc, is_none, arith, inl, inr, Bool-cases,
}
use smlsharp_completions_gen.Splay.{
  Tree, leaf, node, Spine, Splayed, is_eq, overwrite, hang, assemble, splay, insert, insert_node,
}
use smlsharp_completions_gen.Splay.Order.{Comparison, IsSorted}
use smlsharp_completions_gen.Splay.Sequence
use smlsharp_completions_gen.Splay.Sequence.{lookup, add_absent, add_present}
use smlsharp_completions_gen.Splay.Inorder.{inorder, before, after, inorder-assemble}
use smlsharp_completions_gen.Splay.Loop.{StopsAt, splay_stops}
use smlsharp_completions_gen.Splay.Search.{assemble-splay}
use smlsharp_completions_gen.Splay.Split.{splay_splits, split_lookup, split_insert}

module _ {ℓ} {A : Type ℓ} ⦃c : Comparison A⦄ where
  -- The items around the place of `x`, as the splayed tree and the spines hold them.
  abbrev around : A → (n : Ordering) → List A → A → List A → List A
  around x lt xs k ys = xs ++ x ∷ k ∷ ys
  around x eq xs k ys = xs ++ x ∷ ys
  around x gt xs k ys = xs ++ k ∷ x ∷ ys

  inorder-overwrite-hang :
      (x : A) (n : Ordering) (l : Tree A) (k : A) (r : Tree A) (ls gs : Spine A)
      → (n ≡ lt → l ≡ leaf)
      → (n ≡ gt → r ≡ leaf)
      → inorder (
          overwrite x (
            assemble
              (hang x (record { n = n; tree = node l k r; lesser = ls; greater = gs }))
              ls
              gs))
        ≡ around x n (before ls ++ inorder l) k (inorder r ++ after gs)
  unfolding assemble
  inorder-overwrite-hang x lt l k r ls gs ln rn =
      rw (ln refl) (inorder-assemble leaf x (node leaf k r) ls gs)
  inorder-overwrite-hang x eq l k r ls gs ln rn = inorder-assemble l x r ls gs
  inorder-overwrite-hang x gt l k r ls gs ln rn =
      rw (rn refl) (inorder-assemble (node l k leaf) x leaf ls gs ∙ simp append_assoc)

  insert_of_splay :
      (x : A) (s : Splayed A) (st : StopsAt x s)
      → inorder (overwrite x (assemble (hang x s) s.lesser s.greater))
        ≡ around x s.n
            (before s.lesser ++ inorder st.left)
            st.item
            (inorder st.right ++ after s.greater)
  insert_of_splay x s st = rw st.at_node (
      inorder-overwrite-hang x s.n st.left st.item st.right s.lesser s.greater st.left_null
        st.right_null)

  around-eq :
      (x : A) (n : Ordering) (xs : List A) (k : A) (ys : List A)
      → around x n xs k ys ≡ xs ++ elim n [ lt ↦ x ∷ k ∷ ys | eq ↦ x ∷ ys | gt ↦ k ∷ x ∷ ys ]
  around-eq x lt xs k ys = refl
  around-eq x eq xs k ys = refl
  around-eq x gt xs k ys = refl

  -- Both results of `sml_tree_insert`, by the result of `splay`.
  inorder-insert_node :
      (x : A) (l : Tree A) (k : A) (r : Tree A)
      → IsSorted (inorder (node l k r))
      → inorder (insert x (node l k r)).1 ≡ Sequence.insert x (inorder (node l k r))
  unfolding insert
  inorder-insert_node x l k r h =
      let s = splay x (node l k r) [] [] in
      let sp = splay_splits x (node l k r) refl h in
      insert_of_splay x s sp.stops
      ∙ around-eq x s.n _ sp.item _
      ∙ sym (split_insert x (node l k r) s sp)

  taken_unless_found :
      (n : Ordering) (k : A) → not (is_eq n) ≡ is_none (elim n [ eq ↦ some k | _ ↦ none ])
  taken_unless_found lt k = refl
  taken_unless_found eq k = refl
  taken_unless_found gt k = refl

  -- In a sorted tree `sml_tree_insert` puts the item in its place, where it overwrites an equal one; it
  -- takes a new node exactly where there is no equal one.
  pub insert_lem :
      (x : A) (t : Tree A)
      → IsSorted (inorder t)
      → (inorder (insert x t).1 ≡ Sequence.insert x (inorder t))
        × ((insert x t).0 ≡ is_none (lookup x (inorder t)))
  insert_lem x leaf h = unfold insert splay assemble Sequence.insert lookup in (refl, refl)
  insert_lem x (node l k r) h =
      let s = splay x (node l k r) [] [] in
      let sp = splay_splits x (node l k r) refl h in
      (
        inorder-insert_node x l k r h,
        rw (split_lookup x (node l k r) s sp) (unfold insert in taken_unless_found s.n sp.item),
      )

  -- `insert_node` differs where there is an equal item: that one stays.
  insert_node-eq_insert :
      (x : A) (t : Tree A) → (insert_node x t).0 ≡ true → (insert_node x t).1 ≡ (insert x t).1
  unfolding insert_node insert assemble
  insert_node-eq_insert x t h = ground arith

  hang_found : (x : A) (s : Splayed A) → not (is_eq s.n) ≡ false → hang x s ≡ s.tree
  hang_found x s h = ground arith

  same_flag : (x : A) (t : Tree A) → (insert_node x t).0 ≡ (insert x t).0
  unfolding insert insert_node
  same_flag x t = refl

  insert_node_found :
      (x : A) (t : Tree A) → (insert_node x t).0 ≡ false → inorder (insert_node x t).1 ≡ inorder t
  unfolding insert_node
  insert_node_found x leaf h = unfold splay in cc
  insert_node_found x (node l k r) h =
      let s = splay x (node l k r) [] [] in
      simp (hang_found x s h)
        (assemble-splay x (node l k r) (splay_stops x (node l k r) refl [] []))

  -- In a sorted tree `insert_node` puts the item in its place unless there is an equal one, which then
  -- stays; the flag says which.
  pub insert_node_lem :
      (x : A) (t : Tree A)
      → IsSorted (inorder t)
      → (inorder (insert_node x t).1 ≡ Sequence.add x (inorder t))
        × ((insert_node x t).0 ≡ is_none (lookup x (inorder t)))
  insert_node_lem x t h =
      let (items, taken) = insert_lem x t h in
      let flag = same_flag x t in
      elim (Bool-cases (insert_node x t).0) [
        | inl e ↦ (
          ap inorder (insert_node-eq_insert x t e)
              ∙ items
              ∙ sym (add_absent x (inorder t) (sym (flag ∙ taken) ∙ e)),
          flag ∙ taken,
        )
        | inr e ↦ (
          insert_node_found x t e ∙ sym (add_present x (inorder t) (sym (flag ∙ taken) ∙ e)),
          flag ∙ taken,
        )
      ]
