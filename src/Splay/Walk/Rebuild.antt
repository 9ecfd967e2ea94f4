-- ===== src/Splay/Walk/Rebuild.antt =====
-- `sml_tree_rebuild` (smlsharp/src/runtime/splay.c, lines 449 to 469): it orders a tree whose items
-- have changed.
use smlsharp_completions_gen.Base.{
  ℕ, suc, ◌+◌, ◌-◌, ◌*◌, ◌≤◌, ◌≡◌, refl, sym, ap, ◌∙◌, Option, none, some, List, [], ◌∷◌, ◌++◌,
  arith, eq,
}
use smlsharp_completions_gen.Splay.{Tree, leaf, node, find}
use smlsharp_completions_gen.Splay.Order.{Comparison, IsSorted}
use smlsharp_completions_gen.Splay.Sequence.{add, lookup, lookup-insert}
use smlsharp_completions_gen.Splay.Search.{find-eq-lookup}
use smlsharp_completions_gen.Splay.Inorder.{inorder}
use smlsharp_completions_gen.Splay.Change.{insert_node_lem}
use smlsharp_completions_gen.Splay.Laws.{insert_node-IsOrdered}
use smlsharp_completions_gen.Splay.Walk.{size, reinsert, rebuild_loop, rebuild_items}

module _ {ℓ} {A : Type ℓ} ⦃c : Comparison A⦄ where
  -- The order in which the nodes are taken over: children first.
  abbrev pub postorder : Tree A → List A
  postorder leaf = []
  postorder (node l k r) = postorder l ++ (postorder r ++ k ∷ [])

  abbrev pub reinsert_all : List A → Tree A × ℕ → Tree A × ℕ
  reinsert_all [] new = new
  reinsert_all (k ∷ ks) new = reinsert_all ks (reinsert k new)

  pub reinsert_all-append :
      (xs ys : List A) (new : Tree A × ℕ)
      → reinsert_all (xs ++ ys) new ≡ reinsert_all ys (reinsert_all xs new)
  reinsert_all-append [] ys new = refl
  reinsert_all-append (x ∷ xs) ys new = reinsert_all-append xs ys (reinsert x new)

  -- The turns of the loop for a subtree.
  turns : Tree A → ℕ
  turns leaf = 0
  turns (node l k leaf) = suc (turns l + 1)
  turns (node l k (node rl rk rr)) = suc (turns l + suc (turns (node rl rk rr) + 1))

  turns-le : (t : Tree A) → turns t ≤ 3 * size t
  unfolding turns size
  turns-le leaf = omega arith
  turns-le (node l k leaf) = omega (arith, turns-le l)
  turns-le (node l k (node rl rk rr)) = omega (arith, turns-le l, turns-le (node rl rk rr))

  rebuild_fuel :
      (m n : ℕ) (chain : List (A × Tree A)) (t : Tree A) (new : Tree A × ℕ)
      → m ≡ n
      → rebuild_loop m chain t new ≡ rebuild_loop n chain t new
  rebuild_fuel m n chain t new e = ap (λ f. rebuild_loop f chain t new) e

  rebuild_loop_subtree :
      (t : Tree A) (fuel : ℕ) (chain : List (A × Tree A)) (new : Tree A × ℕ)
      → rebuild_loop (turns t + fuel) chain t new
        ≡ rebuild_loop fuel chain leaf (reinsert_all (postorder t) new)
  unfolding rebuild_loop turns
  rebuild_loop_subtree leaf fuel chain new =
      rebuild_fuel (0 + fuel) fuel chain leaf new (omega arith)
  rebuild_loop_subtree (node l k leaf) fuel chain new =
      rebuild_fuel (suc (turns l + 1) + fuel) (suc (turns l + suc fuel)) chain (node l k leaf) new
        (omega arith)
      ∙ rebuild_loop_subtree l (suc fuel) ((k, leaf) ∷ chain) new
      ∙ ap (rebuild_loop fuel chain leaf) (sym (reinsert_all-append (postorder l) (k ∷ []) new))
  rebuild_loop_subtree (node l k (node rl rk rr)) fuel chain new =
      let r = node rl rk rr in
      let new' = reinsert_all (postorder l) new in
      rebuild_fuel (suc (turns l + suc (turns r + 1)) + fuel)
        (suc (turns l + suc (turns r + suc fuel))) chain (node l k r) new (omega arith)
      ∙ rebuild_loop_subtree l (suc (turns r + suc fuel)) ((k, r) ∷ chain) new
      ∙ rebuild_loop_subtree (node rl rk rr) (suc fuel) ((k, leaf) ∷ chain) new'
      ∙ ap (rebuild_loop fuel chain leaf) (
          sym (reinsert_all-append (postorder r) (k ∷ []) new')
          ∙ sym (reinsert_all-append (postorder l) (postorder r ++ k ∷ []) new))

  -- `sml_tree_rebuild` ends, and inserts the items one by one, children before parents, into an empty
  -- tree.
  pub rebuild-eq : (t : Tree A) → rebuild_items t ≡ some (reinsert_all (postorder t) (leaf, 0))
  unfolding rebuild_items
  rebuild-eq t =
      rebuild_fuel (3 * size t + 1) (turns t + suc (3 * size t - turns t)) [] t (leaf, 0)
        (omega (arith, turns-le t))
      ∙ rebuild_loop_subtree t (suc (3 * size t - turns t)) [] (leaf, 0)
      ∙ unfold rebuild_loop in refl

  -- The first of two results.
  abbrev pub or_else : Option A → Option A → Option A
  or_else (some a) o = some a
  or_else none o = o

  pub lookup_congr : (y x : A) (xs : List A) → c.cmp y x ≡ eq → lookup y xs ≡ lookup x xs
  unfolding lookup
  lookup_congr y x [] e = refl
  lookup_congr y x (z ∷ zs) e = ground (arith, c.cmp_congr y x z e, lookup_congr y x zs e)

  lookup-add :
      (y x : A) (xs ys : List A)
      → IsSorted xs
      → or_else (lookup y (add x xs)) (lookup y ys) ≡ or_else (lookup y xs) (lookup y (x ∷ ys))
  unfolding add lookup
  lookup-add y x xs ys h = ground (arith, lookup-insert y x xs h, lookup_congr y x xs)

  -- What is in the tree after a series of insertions.
  pub reinsert_all_lem :
      (ks : List A) (new : Tree A × ℕ)
      → IsSorted (inorder new.0)
      → IsSorted (inorder (reinsert_all ks new).0)
        × ((y : A)
            → lookup y (inorder (reinsert_all ks new).0)
              ≡ or_else (lookup y (inorder new.0)) (lookup y ks))
  unfolding lookup
  reinsert_all_lem [] new h = (h, λ y. ground arith)
  reinsert_all_lem (k ∷ ks) new h =
      let rest = reinsert_all_lem ks (reinsert k new) (insert_node-IsOrdered k new.0 h) in
      (
        rest.0,
        λ y.
            rest.1 y
            ∙ ap (λ zs. or_else (lookup y zs) (lookup y ks)) (insert_node_lem k new.0 h).0
            ∙ lookup-add y k (inorder new.0) ks h,
      )

  -- Whatever the order of its items, `sml_tree_rebuild` ends with an ordered tree, in which
  -- `sml_tree_find` returns the first of the equal items in the order of insertion.
  pub rebuild-IsOrdered :
      (t : Tree A)
      → (t' : Tree A) × (reclaimed : ℕ) × (rebuild_items t ≡ some (t', reclaimed))
        × IsSorted (inorder t')
        × ((y : A) → (find y t').0 ≡ lookup y (postorder t))
  unfolding rebuild_items
  rebuild-IsOrdered t =
      let (sorted, looked) = reinsert_all_lem (postorder t) (leaf, 0) tt in
      (
        (reinsert_all (postorder t) (leaf, 0)).0,
        (reinsert_all (postorder t) (leaf, 0)).1,
        rebuild-eq t,
        sorted,
        λ y. find-eq-lookup y _ sorted ∙ looked y ∙ unfold lookup in refl,
      )
