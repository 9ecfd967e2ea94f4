-- ===== src/Splay/Store/Walks.antt =====
-- `sml_tree_reject` and `sml_tree_rebuild` on `struct sml_tree` (smlsharp/src/runtime/splay.c, lines 419
-- to 469): what they do to the items and to the account of the nodes.
use smlsharp_completions_gen.Base.{
  ℕ, suc, ◌+◌, ◌*◌, ◌≡◌, refl, sym, ap, ◌∙◌, Bool, true, false, Option, none, some, List, [], ◌∷◌,
  ◌++◌, length, length-append, arith, inl, inr, lt, Option-cases, Ordering-cases, Bool-cases,
  is_none,
}
use smlsharp_completions_gen.Base.Predicates.{All, All-imp}
use smlsharp_completions_gen.Splay.{Tree, leaf, node, insert_node}
use smlsharp_completions_gen.Splay.Order.{Comparison, IsSorted, lt_of_eq_lt}
use smlsharp_completions_gen.Splay.Sequence
use smlsharp_completions_gen.Splay.Sequence.{
  lookup, add, add_absent, add_present, found, length-insert, lookup-Above, sorted_around,
}
use smlsharp_completions_gen.Splay.Sequence.Unique.{eq-of_lookup}
use smlsharp_completions_gen.Splay.Inorder.{inorder}
use smlsharp_completions_gen.Splay.Change.{insert_node_lem}
use smlsharp_completions_gen.Splay.Laws.{IsOrdered, insert_node-IsOrdered}
use smlsharp_completions_gen.Splay.Walk.{size, reinsert}
use smlsharp_completions_gen.Splay.Walk.Reject.{survivors, LeavesItems, reject-survivors}
use smlsharp_completions_gen.Splay.Walk.Rebuild.{
  postorder, reinsert_all, rebuild-eq, reinsert_all_lem, or_else,
}
use smlsharp_completions_gen.Splay.Store.{SmlTree, counted, sml_tree_reject, sml_tree_rebuild}
use smlsharp_completions_gen.Splay.Store.Sound.{IsSound, size-eq-length}

module _ {ℓ} {A : Type ℓ} ⦃c : Comparison A⦄ where
  lookup-append :
      (y : A) (xs ys : List A) → lookup y (xs ++ ys) ≡ or_else (lookup y xs) (lookup y ys)
  unfolding lookup
  lookup-append y [] ys = refl
  lookup-append y (x ∷ xs) ys = ground (arith, lookup-append y xs ys)

  or_else-none : (o : Option A) → or_else o none ≡ o
  or_else-none none = refl
  or_else-none (some a) = refl

  lookup_first : (y : A) (ks : List A) → or_else (lookup y []) (lookup y ks) ≡ lookup y ks
  unfolding lookup
  lookup_first y ks = refl

  lookup_last :
      (y k : A) (ks : List A)
      → All (λ z. c.cmp k z ≡ lt) ks
      → or_else (lookup y ks) (lookup y (k ∷ [])) ≡ lookup y (k ∷ ks)
  unfolding lookup
  lookup_last y k ks a = elim (Ordering-cases (c.cmp y k)) [
    | inl e ↦ rw (e, lookup) (or_else-none (lookup y ks))
    | inr (inl e) ↦
        rw (e, lookup, lookup-Above y ks (All-imp (λ z q. lt_of_eq_lt y k z e q) ks a)) refl
    | inr (inr e) ↦ rw (e, lookup) (or_else-none (lookup y ks))
  ]

  lookup-postorder :
      (y : A) (t : Tree A) → IsOrdered t → lookup y (postorder t) ≡ lookup y (inorder t)
  lookup-postorder y leaf h = refl
  lookup-postorder y (node l k r) h =
      let s = sorted_around (inorder l) k (inorder r) h in
      lookup-append y (postorder l) (postorder r ++ k ∷ [])
      ∙ ap (λ o. or_else o (lookup y (postorder r ++ k ∷ []))) (lookup-postorder y l s.lower_sorted)
      ∙ ap (or_else (lookup y (inorder l))) (
          lookup-append y (postorder r) (k ∷ [])
          ∙ ap (λ o. or_else o (lookup y (k ∷ []))) (lookup-postorder y r s.upper_sorted)
          ∙ lookup_last y k (inorder r) s.upper)
      ∙ sym (lookup-append y (inorder l) (k ∷ inorder r))

  size-postorder : (t : Tree A) → length (postorder t) ≡ size t
  unfolding size
  size-postorder leaf = refl
  size-postorder (node l k r) = omega (
    arith,
    length-append (postorder l) (postorder r ++ k ∷ []),
    length-append (postorder r) (k ∷ []),
    size-postorder l,
    size-postorder r,
  )

  length-add :
      (x : A) (xs : List A)
      → IsSorted xs
      → length (add x xs) + found (lookup x xs) ≡ suc (length xs)
  length-add x xs h =
      let longer : length (Sequence.insert x xs) + found (lookup x xs) ≡ suc (length xs) =
        length-insert x xs h in
      elim (Option-cases (lookup x xs)) [
        | inl e ↦ omega (arith, ap length (add_absent x xs (ap is_none e)), longer)
        | inr (a, e) ↦ omega (arith, ap length (add_present x xs (ap is_none e)), ap found e)
      ]

  reclaimed_count :
      (k : A) (t : Tree A) (n : ℕ) (taken : Bool)
      → (insert_node k t).0 ≡ taken
      → (reinsert k (t, n)).1 ≡ elim taken [ true ↦ n | false ↦ suc n ]
  reclaimed_count k t n taken e = ap (λ b. elim b [ true ↦ n | false ↦ suc n ]) e

  size-reinsert :
      (k : A) (new : Tree A × ℕ)
      → IsOrdered new.0
      → size (reinsert k new).0 + (reinsert k new).1 ≡ suc (size new.0 + new.1)
  size-reinsert k (t, n) h =
      let (items, flag) = insert_node_lem k t h in
      let longer = length-add k (inorder t) h in
      let size' = size-eq-length (insert_node k t).1 ∙ ap length items in
      elim (Option-cases (lookup k (inorder t))) [
        | inl e ↦ omega (
          arith,
          size',
          rw e at longer,
          size-eq-length t,
          reclaimed_count k t n true (flag ∙ ap is_none e),
        )
        | inr (a, e) ↦ omega (
          arith,
          size',
          rw e at longer,
          size-eq-length t,
          reclaimed_count k t n false (flag ∙ ap is_none e),
        )
      ]

  size-reinsert_all :
      (ks : List A) (new : Tree A × ℕ)
      → IsOrdered new.0
      → size (reinsert_all ks new).0 + (reinsert_all ks new).1 ≡ length ks + (size new.0 + new.1)
  size-reinsert_all [] new h = omega arith
  size-reinsert_all (k ∷ ks) new h = omega (
    arith,
    size-reinsert_all ks (reinsert k new) (insert_node-IsOrdered k new.0 h),
    size-reinsert k new h,
  )

  -- `sml_tree_rebuild` ends; of an ordered tree it keeps the items, and the node of each is in the tree.
  pub sml_tree_rebuild-IsSound :
      (t : SmlTree A)
      → IsSound t
      → (t' : SmlTree A) × (sml_tree_rebuild t ≡ some t')
        × IsSound t'
        × (inorder t'.root ≡ inorder t.root)
  unfolding sml_tree_rebuild
  sml_tree_rebuild-IsSound t h =
      let new = reinsert_all (postorder t.root) (leaf, 0) in
      let (sorted, looked) = reinsert_all_lem (postorder t.root) (leaf, 0) tt in
      let count = size-reinsert_all (postorder t.root) (leaf, 0) tt in
      let n : size new.0 + new.1 ≡ size t.root =
        unfold size in omega (arith, count, size-postorder t.root) in
      (
        record t { root = new.0; freelist = t.freelist + new.1 },
        rw (sml_tree_rebuild, rebuild-eq t.root) refl,
        record {
          ordered = sorted;
          accounted = h.accounted ∙ ap (λ m. t.alloc_size * m) (omega (arith, n));
          fits = h.fits;
        },
        eq-of_lookup _ _ sorted h.ordered (λ y.
            looked y ∙ lookup_first y (postorder t.root) ∙ lookup-postorder y t.root h.ordered),
      )

  module _ {κ} {S : Type κ} (reject : S → A → S × A × Bool) (leaves : LeavesItems reject) where
    survivors-counted :
        (s : S) (n : ℕ) (xs : List A)
        → let counting = survivors (counted reject) (s, n) xs in
          (counting.0.0 ≡ (survivors reject s xs).0)
          × (counting.1 ≡ (survivors reject s xs).1)
          × (length counting.1 + counting.0.1 ≡ length xs + n)
    survivors-counted s n [] = (refl, refl, refl)
    survivors-counted s n (x ∷ xs) = elim (Bool-cases (reject s x).2) [
      | inl e ↦
          let (a, b, k) = survivors-counted (reject s x).0 (suc n) xs in
          rw e (a, b, omega (arith, k))
      | inr e ↦
          let (a, b, k) = survivors-counted (reject s x).0 n xs in
          rw e (a, ap (λ ys. (reject s x).1 ∷ ys) b, omega (arith, k))
    ]

    -- `sml_tree_reject` with a visitor that leaves the items as they are ends, asks it once for each
    -- item, keeps those that it does not reject, and the nodes of the others are in the free list.
    pub sml_tree_reject-IsSound :
        (s : S) (t : SmlTree A)
        → IsSound t
        → (t' : SmlTree A) × (sml_tree_reject reject s t
            ≡ some ((survivors reject s (inorder t.root)).0, t'))
          × IsSound t'
          × (inorder t'.root ≡ (survivors reject s (inorder t.root)).1)
    unfolding sml_tree_reject
    sml_tree_reject-IsSound s t h =
        let (root', ends, items, sorted) =
          reject-survivors (counted reject) (λ s x. leaves s.0 x) (s, t.freelist) t.root
            h.ordered in
        let (state, kept, count) = survivors-counted s t.freelist (inorder t.root) in
        let n = (survivors (counted reject) (s, t.freelist) (inorder t.root)).0.1 in
        let size' = size-eq-length root' ∙ ap length items in
        (
          record t { root = root'; freelist = n },
          rw (sml_tree_reject, ends, state) refl,
          record {
            ordered = sorted;
            accounted =
                h.accounted
                ∙ ap (λ m. t.alloc_size * m) (omega (arith, size', count, size-eq-length t.root));
            fits = h.fits;
          },
          items ∙ kept,
        )
