-- ===== src/Splay/Walk.antt =====
-- `sml_tree_each`, `sml_tree_reject` and `sml_tree_rebuild` (smlsharp/src/runtime/splay.c, lines 399
-- to 469): walks without a stack, over the links that `back` leaves in the nodes.
--
-- A walk stands at a subtree below a path. In the first two, `back` chains the nodes whose left
-- subtree is being walked, `below_left`; the nodes that lie between, whose right subtree is, are
-- `below_right`: a step back passes them by, as the C code does by going to `prev`.
--
-- The fuel counts the turns of the loop: one for each node on the way down, one for each on the way
-- back, and the last one.
pub mod Each
pub mod Reject
pub mod Rebuild
use smlsharp_completions_gen.Base.{
  ℕ, zero, suc, ◌+◌, ◌*◌, Bool, true, false, Option, none, some, List, [], ◌∷◌,
}
use smlsharp_completions_gen.Splay.{Tree, leaf, node, is_null, join, insert_node}
use smlsharp_completions_gen.Splay.Order.{Comparison}

pub data Crumb {ℓ} (A : Type ℓ) : Type ℓ where
  below_left : A → Tree A → Crumb A
  below_right : Tree A → A → Crumb A

abbrev pub Trail {ℓ} : Type ℓ → Type ℓ
Trail A = List (Crumb A)

-- Where the walk is when it finds NULL and goes back: at the end, where `prev` is NULL too, with the
-- whole tree; or at the node that `prev` names, with its walked left child and its right child.
pub data Climbed {ℓ} (A : Type ℓ) : Type ℓ where
  at_end : Tree A → Climbed A
  at_node : Tree A → A → Tree A → Trail A → Climbed A

module _ {ℓ} {A : Type ℓ} where
  unfoldable pub size : Tree A → ℕ
  size leaf = 0
  size (node l k r) = suc (size l + size r)

  unfoldable pub climb : Trail A → Tree A → Climbed A
  climb [] t = at_end t
  climb (below_left k r ∷ trail) t = at_node t k r trail
  climb (below_right l k ∷ trail) t = climb trail (node l k t)

  -- Where `sml_tree_reject` goes on after `join`: at the right child of what stands there now.
  unfoldable pub resume : Trail A → Tree A → Trail A × Tree A
  resume trail leaf = (trail, leaf)
  resume trail (node l k r) = (below_right l k ∷ trail, r)

-- The rest of a walk, from a state, a trail and the subtree that it stands at.
abbrev pub Rest {ℓ κ} : Type ℓ → Type κ → Type (ℓ ⊔ κ)
Rest A S = S → Trail A → Tree A → Option (S × Tree A)

-- The visitor is called with an item, which it may change; the state is what it acts on.
module _ {ℓ κ} {A : Type ℓ} {S : Type κ} (visit : S → A → S × A) where
  -- The `else` branch of `sml_tree_each`.
  abbrev pub each_turn : Rest A S → S → Climbed A → Option (S × Tree A)
  each_turn rest s (at_end t) = some (s, t)
  each_turn rest s (at_node l k r trail) =
      let (s', k') = visit s k in rest s' (below_right l k' ∷ trail) r

  -- The loop of `sml_tree_each`; `none` where the fuel runs out.
  unfoldable pub each_loop : ℕ → Rest A S
  unfolding climb
  each_loop zero s trail t = none
  each_loop (suc fuel) s trail leaf = each_turn (each_loop fuel) s (climb trail leaf)
  each_loop (suc fuel) s trail (node l k r) = each_loop fuel s (below_left k r ∷ trail) l

  -- `sml_tree_each`
  unfoldable pub each : S → Tree A → Option (S × Tree A)
  unfolding each_loop size
  each s t = each_loop (2 * size t + 1) s [] t

-- This visitor also says whether the item is to be rejected.
module _ {ℓ κ} {A : Type ℓ} {S : Type κ} ⦃c : Comparison A⦄ (reject : S → A → S × A × Bool) where
  -- The walk goes on at a node that has been visited.
  abbrev pub reject_turn_at :
      Rest A S → S → Tree A → A → Tree A → Trail A → Bool → Option (S × Tree A)
  reject_turn_at rest s l k r trail false = rest s (below_right l k ∷ trail) r
  reject_turn_at rest s leaf k r trail true = rest s trail r
  reject_turn_at rest s (node ll lk lr) k r trail true =
      let (trail', t) = resume trail (join (node ll lk lr) k r) in rest s trail' t

  -- `sml_tree_reject` from where it goes back.
  abbrev pub reject_turn : Rest A S → S → Climbed A → Option (S × Tree A)
  reject_turn rest s (at_end t) = some (s, t)
  reject_turn rest s (at_node l k r trail) =
      let (s', k', rejected) = reject s k in reject_turn_at rest s' l k' r trail rejected

  unfoldable pub reject_loop : ℕ → Rest A S
  unfolding climb resume
  reject_loop zero s trail t = none
  reject_loop (suc fuel) s trail leaf = reject_turn (reject_loop fuel) s (climb trail leaf)
  reject_loop (suc fuel) s trail (node l k r) = reject_loop fuel s (below_left k r ∷ trail) l

  -- `sml_tree_reject`, less the reclaiming of the nodes.
  unfoldable pub reject_items : S → Tree A → Option (S × Tree A)
  unfolding reject_loop size
  reject_items s t = reject_loop (2 * size t + 1) s [] t

-- `sml_tree_rebuild`. Its `back` chains all the nodes above. A chain entry is a node with the right
-- child that is still to be visited: NULL, if the walk has been there, which the C code sees by
-- `prev->child[RIGHT] == last`. The result has the number of nodes reclaimed.
module _ {ℓ} {A : Type ℓ} ⦃c : Comparison A⦄ where
  -- `if (insert_node(tree, last) == 0) node_reclaim(tree, last)`
  abbrev pub reinsert : A → Tree A × ℕ → Tree A × ℕ
  reinsert k (t, reclaimed) =
      let (taken, t') = insert_node k t in
      (t', elim taken [ true ↦ reclaimed | false ↦ suc reclaimed ])

  unfoldable pub rebuild_loop : ℕ → List (A × Tree A) → Tree A → Tree A × ℕ → Option (Tree A × ℕ)
  rebuild_loop zero chain t new = none
  rebuild_loop (suc fuel) chain (node l k r) new = rebuild_loop fuel ((k, r) ∷ chain) l new
  rebuild_loop (suc fuel) [] leaf new = some new
  rebuild_loop (suc fuel) ((k, leaf) ∷ chain) leaf new =
      rebuild_loop fuel chain leaf (reinsert k new)
  rebuild_loop (suc fuel) ((k, node rl rk rr) ∷ chain) leaf new =
      rebuild_loop fuel ((k, leaf) ∷ chain) (node rl rk rr) new

  unfoldable pub rebuild_items : Tree A → Option (Tree A × ℕ)
  unfolding rebuild_loop size
  rebuild_items t = rebuild_loop (3 * size t + 1) [] t (leaf, 0)
