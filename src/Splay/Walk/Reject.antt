-- ===== src/Splay/Walk/Reject.antt =====
-- `sml_tree_reject` (smlsharp/src/runtime/splay.c, lines 419 to 447) on an ordered tree.
use smlsharp_completions_gen.Base.{
  ℕ, suc, ◌+◌, ◌*◌, ◌≡◌, refl, sym, ap, ◌∙◌, Bool, true, false, some, List, [], ◌∷◌, ◌++◌, arith,
  inl, inr, Bool-cases,
}
use smlsharp_completions_gen.Base.Predicates.{All}
use smlsharp_completions_gen.Splay.{
  Tree, leaf, node, Spine, is_null, fill_lesser, assemble, splay, join,
}
use smlsharp_completions_gen.Splay.Order.{Comparison, ◌≺◌, IsSorted}
use smlsharp_completions_gen.Splay.Sequence.{sorted_around}
use smlsharp_completions_gen.Splay.Inorder.{inorder, after}
use smlsharp_completions_gen.Splay.Join.{splay_greatest, inorder-join}
use smlsharp_completions_gen.Splay.Walk.{
  Trail, below_left, below_right, climb, resume, size, reject_turn_at, reject_turn, reject_loop,
  reject_items,
}

module _ {ℓ} {A : Type ℓ} ⦃c : Comparison A⦄ where
  nil_of_after : (gs : Spine A) → after gs ≡ [] → gs ≡ []
  nil_of_after [] h = refl
  nil_of_after ((m, r) ∷ gs) h = cc

  -- In an ordered tree `join` ends with its right subtree as the right child of the new root, below
  -- the greatest item of the left subtree.
  pub join_greatest :
      (l : Tree A) (k : A)
      → is_null l ≡ false
      → IsSorted (inorder l)
      → All (λ y. y ≺ k) (inorder l)
      → (l' : Tree A) × (m : A) × ((r : Tree A) → join l k r ≡ node l' m r)
  unfolding join assemble
  join_greatest leaf k n h a = cc
  join_greatest (node ll lk lr) k n h a =
      let s = splay k (node ll lk lr) [] [] in
      let g = splay_greatest (node ll lk lr) k h a refl in
      (
        fill_lesser s.lesser g.left,
        g.item,
        λ r. rw (g.at_node, nil_of_after s.greater g.after_nil) refl,
      )

  -- What becomes of a node whose subtrees have been walked.
  abbrev drop_if : Bool → Tree A → A → Tree A → Tree A
  drop_if true l k r = join l k r
  drop_if false l k r = node l k r

abbrev pub cons_unless {ℓ} : {A : Type ℓ} → Bool → A → List A → List A
cons_unless true x xs = xs
cons_unless false x xs = x ∷ xs

module _ {ℓ κ} {A : Type ℓ} {S : Type κ} ⦃c : Comparison A⦄ (reject : S → A → S × A × Bool) where
  abbrev pub reject_by_recursion : S → Tree A → S × Tree A
  reject_by_recursion s leaf = (s, leaf)
  reject_by_recursion s (node l k r) =
      let (s1, l') = reject_by_recursion s l in
      let (s2, k', rejected) = reject s1 k in
      let (s3, r') = reject_by_recursion s2 r in (s3, drop_if rejected l' k' r')

  -- The items that are not rejected, in order.
  abbrev pub survivors : S → List A → S × List A
  survivors s [] = (s, [])
  survivors s (x ∷ xs) =
      let (s1, x', rejected) = reject s x in
      let (s2, ys) = survivors s1 xs in (s2, cons_unless rejected x' ys)

  -- The visitor leaves the items as they are.
  abbrev pub LeavesItems : Type (ℓ ⊔ κ)
  LeavesItems = (s : S) (x : A) → (reject s x).1 ≡ x

  module _ (leaves : LeavesItems) where
    survivors-All : (P : A → Type 0) (s : S) (xs : List A) → All P xs → All P (survivors s xs).1
    survivors-All P s [] a = tt
    survivors-All P s (x ∷ xs) (p, a) = elim (Bool-cases (reject s x).2) [
      | inl e ↦ rw e (survivors-All P (reject s x).0 xs a)
      | inr e ↦ rw (e, leaves s x) (p, survivors-All P (reject s x).0 xs a)
    ]

    pub survivors-IsSorted : (s : S) (xs : List A) → IsSorted xs → IsSorted (survivors s xs).1
    survivors-IsSorted s [] h = tt
    survivors-IsSorted s (x ∷ xs) (a, h) = elim (Bool-cases (reject s x).2) [
      | inl e ↦ rw e (survivors-IsSorted (reject s x).0 xs h)
      | inr e ↦
          rw (e, leaves s x)
            (survivors-All _ (reject s x).0 xs a, survivors-IsSorted (reject s x).0 xs h)
    ]

    inorder-drop_if :
        (rejected : Bool) (l : Tree A) (k : A) (r : Tree A)
        → IsSorted (inorder l)
        → All (λ y. y ≺ k) (inorder l)
        → inorder (drop_if rejected l k r) ≡ inorder l ++ cons_unless rejected k (inorder r)
    inorder-drop_if true l k r h a = inorder-join l k r h a
    inorder-drop_if false l k r h a = refl

    survivors-append :
        (s : S) (xs ys : List A)
        → survivors s (xs ++ ys) ≡ (
          (survivors (survivors s xs).0 ys).0,
          (survivors s xs).1 ++ (survivors (survivors s xs).0 ys).1,
        )
    survivors-append s [] ys = refl
    survivors-append s (x ∷ xs) ys =
        ap (λ (p : S × List A). (p.0, cons_unless (reject s x).2 (reject s x).1 p.1))
          (survivors-append (reject s x).0 xs ys)
        ∙ cons_unless-append (reject s x).2 (reject s x).1
      where
        cons_unless-append :
            (b : Bool) (y : A)
            → ◌≡◌ {A = S × List A}
                (
                  (survivors (survivors (reject s x).0 xs).0 ys).0,
                  cons_unless b y (
                      (survivors (reject s x).0 xs).1
                      ++ (survivors (survivors (reject s x).0 xs).0 ys).1),
                )
                (
                  (survivors (survivors (reject s x).0 xs).0 ys).0,
                  cons_unless b y (survivors (reject s x).0 xs).1
                      ++ (survivors (survivors (reject s x).0 xs).0 ys).1,
                )
        cons_unless-append true y = refl
        cons_unless-append false y = refl

    -- The subtrees that the walk leaves on the left of an item.
    reject_by_recursion-inorder :
        (s : S) (t : Tree A)
        → IsSorted (inorder t)
        → ((reject_by_recursion s t).0, inorder (reject_by_recursion s t).1)
          ≡ survivors s (inorder t)
    reject_by_recursion-inorder s leaf h = refl
    reject_by_recursion-inorder s (node l k r) h =
        let a = sorted_around (inorder l) k (inorder r) h in
        let left = reject_by_recursion-inorder s l a.lower_sorted in
        let s1 = (reject_by_recursion s l).0 in
        let l' = (reject_by_recursion s l).1 in
        let r' = (reject_by_recursion (reject s1 k).0 r).1 in
        let e = ap (λ (p : S × List A). p.1) left in
        ap (λ zs. ((reject_by_recursion (reject s1 k).0 r).0, zs))
          (inorder-drop_if (reject s1 k).2 l' (reject s1 k).1 r'
            (rw e (survivors-IsSorted s (inorder l) a.lower_sorted))
            (rw (e, leaves s1 k) (survivors-All _ s (inorder l) a.lower)))
        ∙ ap
            (λ (q : S × List A).
              (q.0, inorder l' ++ cons_unless (reject s1 k).2 (reject s1 k).1 q.1))
            (reject_by_recursion-inorder (reject s1 k).0 r a.upper_sorted)
        ∙ ap
            (λ (p : S × List A).
              ((survivors p.0 (k ∷ inorder r)).0, p.1 ++ (survivors p.0 (k ∷ inorder r)).1))
            left
        ∙ sym (survivors-append s (inorder l) (k ∷ inorder r))

    -- One turn at a node whose left subtree has been walked, and then the walk of the right one.
    reject_turn_at_lem :
        (rejected : Bool) (fuel more : ℕ) (s s' : S) (l : Tree A) (k : A) (r r' : Tree A)
        (trail : Trail A)
        → IsSorted (inorder l)
        → All (λ y. y ≺ k) (inorder l)
        → ((trail : Trail A)
            → reject_loop reject more s trail r
              ≡ reject_turn reject (reject_loop reject fuel) s' (climb trail r'))
        → reject_turn_at reject (reject_loop reject more) s l k r trail rejected
          ≡ reject_turn reject (reject_loop reject fuel) s' (climb trail (drop_if rejected l k r'))
    unfolding climb
    reject_turn_at_lem false fuel more s s' l k r r' trail h a ih = ih (below_right l k ∷ trail)
    reject_turn_at_lem true fuel more s s' leaf k r r' trail h a ih = unfold join in ih trail
    reject_turn_at_lem true fuel more s s' (node ll lk lr) k r r' trail h a ih =
        let (l', m, joined) = join_greatest (node ll lk lr) k refl h a in
        rw (joined r, joined r') (unfold resume in ih (below_right l' m ∷ trail))

    reject_fuel :
        (m n : ℕ) (s : S) (trail : Trail A) (t : Tree A)
        → m ≡ n
        → reject_loop reject m s trail t ≡ reject_loop reject n s trail t
    reject_fuel m n s trail t e = ap (λ f. reject_loop reject f s trail t) e

    -- From an ordered subtree the loop reaches the turn at which it goes back from the walked one.
    reject_loop_subtree :
        (t : Tree A) (fuel : ℕ) (s : S) (trail : Trail A)
        → IsSorted (inorder t)
        → reject_loop reject (2 * size t + suc fuel) s trail t
          ≡ reject_turn reject
              (reject_loop reject fuel)
              (reject_by_recursion s t).0
              (climb trail (reject_by_recursion s t).1)
    unfolding reject_loop size
    reject_loop_subtree leaf fuel s trail h =
        reject_fuel (2 * 0 + suc fuel) (suc fuel) s trail leaf (omega arith)
    reject_loop_subtree (node l k r) fuel s trail h =
        let a = sorted_around (inorder l) k (inorder r) h in
        let s1 = (reject_by_recursion s l).0 in
        let e = ap (λ (p : S × List A). p.1) (reject_by_recursion-inorder s l a.lower_sorted) in
        reject_fuel (2 * suc (size l + size r) + suc fuel)
          (suc (2 * size l + suc (2 * size r + suc fuel))) s trail (node l k r) (omega arith)
        ∙ reject_loop_subtree l (2 * size r + suc fuel) s (below_left k r ∷ trail) a.lower_sorted
        ∙ reject_turn_at_lem (reject s1 k).2 fuel (2 * size r + suc fuel) (reject s1 k).0
            (reject_by_recursion (reject s1 k).0 r).0 (reject_by_recursion s l).1 (reject s1 k).1 r
            (reject_by_recursion (reject s1 k).0 r).1 trail
            (rw e (survivors-IsSorted s (inorder l) a.lower_sorted))
            (rw (e, leaves s1 k) (survivors-All _ s (inorder l) a.lower))
            (λ tr. reject_loop_subtree r fuel (reject s1 k).0 tr a.upper_sorted)

    -- On an ordered tree, with a visitor that leaves the items as they are, `sml_tree_reject` ends, asks
    -- the visitor once for each item, from the least to the greatest, and keeps exactly the items that
    -- it does not reject; the tree stays ordered.
    pub reject-survivors :
        (s : S) (t : Tree A)
        → IsSorted (inorder t)
        → (t' : Tree A) × (reject_items reject s t ≡ some ((survivors s (inorder t)).0, t'))
          × (inorder t' ≡ (survivors s (inorder t)).1)
          × IsSorted (inorder t')
    unfolding reject_items climb
    reject-survivors s t h =
        let e = reject_by_recursion-inorder s t h in
        let kept = ap (λ (p : S × List A). p.1) e in
        (
          (reject_by_recursion s t).1,
          reject_loop_subtree t 0 s [] h
              ∙ ap (λ (p : S × List A). some (p.0, (reject_by_recursion s t).1)) e,
          kept,
          rw kept (survivors-IsSorted s (inorder t) h),
        )
