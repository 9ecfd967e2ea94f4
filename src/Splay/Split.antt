-- ===== src/Splay/Split.antt =====
-- What `splay` (smlsharp/src/runtime/splay.c, lines 257 to 289) does to the items of a tree: it
-- keeps their order, and splits them at the item that it looks for.
use smlsharp_completions_gen.Base.{
  none, some, ap, ◌≡◌, refl, sym, ◌∙◌, Ordering, lt, eq, gt, false, List, [], ◌∷◌, ◌++◌,
  append_assoc, append-nil,
}
use smlsharp_completions_gen.Base.Predicates.{All-imp, All-append}
use smlsharp_completions_gen.Splay.{Tree, leaf, Spine, Splayed, is_null, splay}
use smlsharp_completions_gen.Splay.Order.{Comparison, IsSorted, eq_symm, lt_of_eq_lt, lt_of_lt_eq}
use smlsharp_completions_gen.Splay.Sequence
use smlsharp_completions_gen.Splay.Sequence.{
  Below, Above, SortedAround, sorted_around, lookup, remove, lookup_middle, insert_middle,
  remove_middle,
}
use smlsharp_completions_gen.Splay.Inorder.{inorder, before, after}
use smlsharp_completions_gen.Splay.Loop.{IsInvariant, splay_inv, StopsAt, splay_stops}

module _ {ℓ} {A : Type ℓ} ⦃c : Comparison A⦄ where
  -- All the items, in the tree and in the spines.
  abbrev pub whole : Tree A → Spine A → Spine A → List A
  whole t ls gs = before ls ++ (inorder t ++ after gs)

  whole_inv : (x : A) (xs : List A) → IsInvariant x (λ t ls gs. whole t ls gs ≡ xs)
  whole_inv x xs = record {
    rotate_right = λ ll lk lr k r ls gs e h. simp append_assoc (simp append_assoc at h);
    link_right = λ l k r ls gs e h. simp append_assoc at h;
    rotate_left = λ l k rl rk rr ls gs e h. simp append_assoc (simp append_assoc at h);
    link_left = λ l k r ls gs e h. simp append_assoc (simp append_assoc at h);
  }

  -- Whatever the order of the items, `splay` keeps it.
  pub splay-whole :
      (x : A) (t : Tree A) (ls gs : Spine A)
      → let s = splay x t ls gs in whole s.tree s.lesser s.greater ≡ whole t ls gs
  splay-whole x t ls gs = splay_inv x _ (whole_inv x (whole t ls gs)) t ls gs refl

  -- The tree is sorted, and `x` lies between the spines.
  pub record Between (x : A) (t : Tree A) (ls gs : Spine A) : Type 0 where
    pub below : Below x (before ls)
    pub above : Above x (after gs)
    pub sorted : IsSorted (inorder t)

  Between-inv : (x : A) → IsInvariant x (Between x)
  Between-inv x = record {
    rotate_right = λ ll lk lr k r ls gs e h. record {
      below = h.below;
      above = h.above;
      sorted = simp append_assoc at h.sorted;
    };
    link_right = λ l k r ls gs e h.
        let a = sorted_around (inorder l) k (inorder r) h.sorted in
        record {
          below = h.below;
          above = (
            e,
            All-append _ (inorder r) (after gs) (All-imp (λ z q. c.lt_trans x k z e q) _ a.upper)
                h.above,
          );
          sorted = a.lower_sorted;
        };
    rotate_left = λ l k rl rk rr ls gs e h. record {
      below = h.below;
      above = h.above;
      sorted = simp append_assoc h.sorted;
    };
    link_left = λ l k r ls gs e h.
        let a = sorted_around (inorder l) k (inorder r) h.sorted in
        record {
          below = All-append _ (before ls) (inorder l ++ k ∷ []) h.below (
              All-append _ (inorder l) (k ∷ [])
                (All-imp (λ z q. c.gt_of_lt z x (c.lt_trans z k x q (c.lt_of_gt x k e))) _ a.lower)
                (e, tt));
          above = h.above;
          sorted = a.upper_sorted;
        };
  }

  -- Where the loop has stopped, all the items before the node that it stopped at are less than `x`,
  -- and all behind it are greater.
  pub record SplitAt (x : A) (t : Tree A) (s : Splayed A) : Type ℓ where
    pub stops : StopsAt x s
    pub open stops use *
    pub parts :
        inorder t ≡ (before s.lesser ++ inorder left) ++ item ∷ (inorder right ++ after s.greater)
    pub below : Below x (before s.lesser ++ inorder left)
    pub above : Above x (inorder right ++ after s.greater)

  -- The same, at the node that the loop stopped at.
  pub splay_parts :
      (x : A) (t : Tree A) (st : StopsAt x (splay x t [] []))
      → let s = splay x t [] [] in
        inorder t
        ≡ (before s.lesser ++ inorder st.left) ++ st.item ∷ (inorder st.right ++ after s.greater)
  splay_parts x t st =
      sym (simp append-nil at (splay-whole x t [] [])) ∙ rw st.at_node (simp append_assoc)

  left-Below :
      (x : A) (l : Tree A) (k : A) (ys : List A) (n : Ordering)
      → c.cmp x k ≡ n
      → (n ≡ lt → l ≡ leaf)
      → SortedAround (inorder l) k ys
      → Below x (inorder l)
  left-Below x l k ys lt e null a = rw (null refl) tt
  left-Below x l k ys eq e null a =
      All-imp (λ z q. c.gt_of_lt z x (lt_of_lt_eq z k x q (eq_symm x k e))) _ a.lower
  left-Below x l k ys gt e null a =
      All-imp (λ z q. c.gt_of_lt z x (c.lt_trans z k x q (c.lt_of_gt x k e))) _ a.lower

  right-Above :
      (x : A) (r : Tree A) (k : A) (xs : List A) (n : Ordering)
      → c.cmp x k ≡ n
      → (n ≡ gt → r ≡ leaf)
      → SortedAround xs k (inorder r)
      → Above x (inorder r)
  right-Above x r k xs lt e null a = All-imp (λ z q. c.lt_trans x k z e q) _ a.upper
  right-Above x r k xs eq e null a = All-imp (λ z q. lt_of_eq_lt x k z e q) _ a.upper
  right-Above x r k xs gt e null a = rw (null refl) tt

  pub splay_splits :
      (x : A) (t : Tree A)
      → is_null t ≡ false
      → IsSorted (inorder t)
      → SplitAt x t (splay x t [] [])
  splay_splits x t h sorted =
      let s = splay x t [] [] in
      let st = splay_stops x t h [] [] in
      let b =
        splay_inv x (Between x) (Between-inv x) t [] []
          (record { below = tt; above = tt; sorted = sorted }) in
      let a =
        sorted_around (inorder st.left) st.item (inorder st.right) (rw st.at_node at b.sorted) in
      record {
        stops = st;
        parts = splay_parts x t st;
        below =
            All-append _ (before s.lesser) (inorder st.left) b.below
              (left-Below x st.left st.item _ s.n st.compared st.left_null a);
        above =
            All-append _ (inorder st.right) (after s.greater)
              (right-Above x st.right st.item _ s.n st.compared st.right_null a) b.above;
      }

  -- The operations on the items, by the result of `splay`.
  module _ (x : A) (t : Tree A) (s : Splayed A) (sp : SplitAt x t s) where
    open sp use {item, left, right, compared, parts, below, above}

    pub split_lookup : lookup x (inorder t) ≡ elim s.n [ eq ↦ some item | _ ↦ none ]
    split_lookup = ap (lookup x) parts ∙ lookup_middle x _ item _ below above ∙ rw compared

    pub split_insert :
        Sequence.insert x (inorder t)
        ≡ (before s.lesser ++ inorder left) ++ elim s.n [
          | lt ↦ x ∷ item ∷ (inorder right ++ after s.greater)
          | eq ↦ x ∷ (inorder right ++ after s.greater)
          | gt ↦ item ∷ x ∷ (inorder right ++ after s.greater)
        ]
    split_insert = ap (Sequence.insert x) parts ∙ insert_middle x _ item _ below above ∙ rw compared

    pub split_remove :
        remove x (inorder t)
        ≡ (before s.lesser ++ inorder left) ++ elim s.n [
          | eq ↦ inorder right ++ after s.greater
          | _ ↦ item ∷ (inorder right ++ after s.greater)
        ]
    split_remove = ap (remove x) parts ∙ remove_middle x _ item _ below above ∙ rw compared
