-- ===== src/Splay/Join.antt =====
-- `join` and `sml_tree_delete` (smlsharp/src/runtime/splay.c, lines 353 to 397) as operations on the
-- items in order.
use smlsharp_completions_gen.Base.{
  ◌≡◌, refl, sym, ◌∙◌, false, List, [], ◌∷◌, ◌++◌, append_assoc, append-nil, inl, inr,
  Ordering-cases,
}
use smlsharp_completions_gen.Base.Predicates.{All, All-append_right, eq_nil_of_All}
use smlsharp_completions_gen.Splay.{
  Tree, leaf, node, Spine, Splayed, is_null, fill_lesser, fill_greater, assemble, splay, join,
  join_root, rejoin, delete,
}
use smlsharp_completions_gen.Splay.Order.{Comparison, ◌≺◌, IsSorted, lt_asymm}
use smlsharp_completions_gen.Splay.Sequence.{
  lookup, remove, SortedAround, sorted_around, IsSorted-append_right,
}
use smlsharp_completions_gen.Splay.Inorder.{
  inorder, before, after, inorder-assemble, inorder-fill_lesser, inorder-fill_greater,
}
use smlsharp_completions_gen.Splay.Loop.{StopsAt}
use smlsharp_completions_gen.Splay.Split.{splay_splits, split_lookup, split_remove}
use smlsharp_completions_gen.Splay.Search.{assemble-splay}

module _ {ℓ} {A : Type ℓ} ⦃c : Comparison A⦄ where
  -- The splayed tree is a node with no right child, and nothing hangs in `hole[RIGHT]`.
  pub record AtGreatest (l : Tree A) (s : Splayed A) : Type ℓ where
    pub left : Tree A
    pub item : A
    pub at_node : s.tree ≡ node left item leaf
    pub parts : inorder l ≡ (before s.lesser ++ inorder left) ++ item ∷ []
    pub after_nil : after s.greater ≡ []

  -- `splay` of a sorted, non-empty left subtree, at an item greater than all of it, ends at its
  -- greatest node, which then has no right child, and leaves `hole[RIGHT]` empty: the `assert` in
  -- `join` holds.
  pub splay_greatest :
      (l : Tree A) (k : A)
      → IsSorted (inorder l)
      → All (λ y. y ≺ k) (inorder l)
      → is_null l ≡ false
      → AtGreatest l (splay k l [] [])
  splay_greatest leaf k h a n = cc
  splay_greatest (node ll lk lr) k h a n =
      let s = splay k (node ll lk lr) [] [] in
      let sp = splay_splits k (node ll lk lr) refl h in
      let around = All-append_right _ (before s.lesser ++ inorder sp.left) _ (rw sp.parts at a) in
      let greater = sym sp.compared ∙ c.gt_of_lt sp.item k around.0 in
      let right = sp.right_null greater in
      let nil =
        eq_nil_of_All (λ y p q. lt_asymm y k p q) (after s.greater)
          (All-append_right _ (inorder sp.right) _ around.1)
          (All-append_right _ (inorder sp.right) _ sp.above) in
      record {
        left = sp.left;
        item = sp.item;
        at_node = rw right at sp.at_node;
        parts = rw (right, nil) at sp.parts;
        after_nil = nil;
      }

  -- `join` drops the node between its subtrees, and keeps all other items in order.
  pub inorder-join :
      (l : Tree A) (k : A) (r : Tree A)
      → IsSorted (inorder l)
      → All (λ y. y ≺ k) (inorder l)
      → inorder (join l k r) ≡ inorder l ++ inorder r
  unfolding join
  inorder-join leaf k r h a = refl
  inorder-join (node ll lk lr) k r h a =
      let s = splay k (node ll lk lr) [] [] in
      let g = splay_greatest (node ll lk lr) k h a refl in
      rw (g.at_node, g.parts)
        (inorder-assemble g.left g.item r s.lesser s.greater
          ∙ rw (g.after_nil, append-nil) (simp append_assoc))

  inorder-assemble_all :
      (t : Tree A) (ls gs : Spine A)
      → is_null t ≡ false
      → inorder (assemble t ls gs) ≡ before ls ++ (inorder t ++ after gs)
  inorder-assemble_all leaf ls gs h = cc
  inorder-assemble_all (node l k r) ls gs h = inorder-assemble l k r ls gs ∙ simp append_assoc

  -- Both ways through the tail of `sml_tree_delete` leave the same items.
  inorder-rejoin_of :
      (w : Tree A) (s : Splayed A) (xs ys : List A)
      → inorder w ≡ xs ++ ys
      → inorder (join_root (assemble s.tree s.lesser s.greater))
        ≡ (before s.lesser ++ xs) ++ (ys ++ after s.greater)
      → inorder (rejoin w s) ≡ (before s.lesser ++ xs) ++ (ys ++ after s.greater)
  inorder-rejoin_of leaf s xs ys e again = again
  inorder-rejoin_of (node l k r) s xs ys e again =
      inorder-assemble_all (node l k r) s.lesser s.greater refl ∙ rw e (simp append_assoc)

  inorder-rejoin :
      (x : A) (s : Splayed A) (st : StopsAt x s)
      → SortedAround
          (before s.lesser ++ inorder st.left)
          st.item
          (inorder st.right ++ after s.greater)
      → inorder (rejoin (join_root s.tree) s)
        ≡ (before s.lesser ++ inorder st.left) ++ (inorder st.right ++ after s.greater)
  unfolding assemble
  inorder-rejoin x s st a =
      let l = fill_lesser s.lesser st.left in
      let r = fill_greater s.greater st.right in
      let e = inorder-fill_lesser s.lesser st.left in
      inorder-rejoin_of (join_root s.tree) s (inorder st.left) (inorder st.right)
        (rw st.at_node (
          inorder-join st.left st.item st.right
            (IsSorted-append_right (before s.lesser) (inorder st.left) a.lower_sorted)
            (All-append_right _ (before s.lesser) (inorder st.left) a.lower)))
        (rw (st.at_node, assemble)
          (inorder-join l st.item r (rw e a.lower_sorted) (rw e a.lower)
            ∙ rw (e, inorder-fill_greater s.greater st.right)))

  -- In a sorted tree `sml_tree_delete` returns the item that is equal to the given one and takes it
  -- alone out of the tree; where there is none it returns NULL and the items stay.
  pub delete-eq-remove :
      (x : A) (t : Tree A)
      → IsSorted (inorder t)
      → ((delete x t).0 ≡ lookup x (inorder t)) × (inorder (delete x t).1 ≡ remove x (inorder t))
  unfolding delete
  delete-eq-remove x leaf h = unfold lookup remove in (refl, refl)
  delete-eq-remove x (node l k r) h =
      let s = splay x (node l k r) [] [] in
      let sp = splay_splits x (node l k r) refl h in
      let a = sorted_around _ sp.item _ (rw sp.parts at h) in
      let found = split_lookup x (node l k r) s sp in
      let removed = split_remove x (node l k r) s sp in
      elim (Ordering-cases s.n) [
        | inl e ↦ rw e (
          sym (rw e at found),
          assemble-splay x (node l k r) sp.stops ∙ sp.parts ∙ sym (rw e at removed),
        )
        | inr (inl e) ↦ simp e (
          rw sp.at_node (sym (rw e at found)),
          inorder-rejoin x s sp.stops a ∙ sym (rw e at removed),
        )
        | inr (inr e) ↦ rw e (
          sym (rw e at found),
          assemble-splay x (node l k r) sp.stops ∙ sp.parts ∙ sym (rw e at removed),
        )
      ]
