-- ===== src/Splay.antt =====
-- smlsharp/src/runtime/splay.c, lines 257 to 397: the self-adjusting search tree.
--
-- A tree of nodes owned by one `struct sml_tree` is a data type; NULL is `leaf`. `splay` takes the
-- tree apart at `hole[LEFT]` and `hole[RIGHT]`: each hole is the end of a spine of linked nodes,
-- a list with the innermost link first. A failed `assert` would stop a debug build; the model goes
-- on as a release build does.
pub mod Order
pub mod Sequence
pub mod Inorder
pub mod Loop
pub mod Split
pub mod Search
pub mod Change
pub mod Join
pub mod Laws
pub mod Walk
pub mod Memory
pub mod Root
pub mod Store
mod Tests
use smlsharp_completions_gen.Base.{
  Ordering, lt, eq, gt, Bool, true, false, not, if◌then◌else◌, Option, none, some, List, [], ◌∷◌,
}
use Order.{Comparison}

-- `struct node`: `child[LEFT]`, the item, `child[RIGHT]`.
pub data Tree {ℓ} (A : Type ℓ) : Type ℓ where
  leaf : Tree A
  node : Tree A → A → Tree A → Tree A

-- A spine that ends in a hole. In `hole[LEFT]` a link is a node whose right child is the hole or the
-- next link, beside its left child; in `hole[RIGHT]` the other way round.
abbrev pub Spine {ℓ} : Type ℓ → Type ℓ
Spine A = List (A × Tree A)

-- What `splay` leaves: its result, `*tree`, and the two spines.
pub record Splayed {ℓ} (A : Type ℓ) : Type ℓ where
  pub n : Ordering
  pub tree : Tree A
  pub lesser : Spine A
  pub greater : Spine A

module _ {ℓ} {A : Type ℓ} where
  abbrev pub is_null : Tree A → Bool
  is_null leaf = true
  is_null (node l k r) = false

  -- `*hole[LEFT] = t`
  unfoldable pub fill_lesser : Spine A → Tree A → Tree A
  fill_lesser [] t = t
  fill_lesser ((m, l) ∷ spine) t = fill_lesser spine (node l m t)

  -- `*hole[RIGHT] = t`
  unfoldable pub fill_greater : Spine A → Tree A → Tree A
  fill_greater [] t = t
  fill_greater ((m, r) ∷ spine) t = fill_greater spine (node t m r)

  -- `assemble(node, result, hole)`
  unfoldable pub assemble : Tree A → Spine A → Spine A → Tree A
  unfolding fill_lesser fill_greater
  assemble leaf ls gs = leaf
  assemble (node l k r) ls gs = node (fill_lesser ls l) k (fill_greater gs r)

  -- `ITEM_OF(tree->root)`
  abbrev pub root_item : Tree A → Option A
  root_item leaf = none
  root_item (node l k r) = some k

  -- `memcpy(ITEM_OF(tree->root), item, item_size)`
  abbrev pub overwrite : A → Tree A → Tree A
  overwrite x leaf = leaf
  overwrite x (node l k r) = node l x r

  -- `left->child[RIGHT] = node->child[RIGHT]`
  abbrev pub set_right : Tree A → Tree A → Tree A
  set_right leaf r' = leaf
  set_right (node l k r) r' = node l k r'

-- `n == 0`
abbrev pub is_eq : Ordering → Bool
is_eq eq = true
is_eq _ = false

-- A way on in the loop of `splay`, given the spines.
abbrev pub Next {ℓ} : Type ℓ → Type ℓ
Next A = Spine A → Spine A → Splayed A

module _ {ℓ} {A : Type ℓ} ⦃c : Comparison A⦄ where
  -- One turn of the loop at the node `k` with `dir == LEFT`, and a left child. `deep` goes on at the
  -- left child's left child, `next` at the left child.
  unfoldable pub turn_left :
      A → Tree A → A → Tree A → A → Tree A → Next A → Next A → Spine A → Spine A → Splayed A
  turn_left x ll lk lr k r deep next ls gs = elim (c.cmp x lk) [
    | lt ↦ elim (is_null ll) [
      | true ↦ record { n = lt; tree = node ll lk (node lr k r); lesser = ls; greater = gs }
      | false ↦ deep ls ((lk, node lr k r) ∷ gs)
    ]
    | _ ↦ next ls ((k, r) ∷ gs)
  ]

  -- The same with `dir == RIGHT`.
  unfoldable pub turn_right :
      A → Tree A → A → Tree A → A → Tree A → Next A → Next A → Spine A → Spine A → Splayed A
  turn_right x l k rl rk rr deep next ls gs = elim (c.cmp x rk) [
    | gt ↦ elim (is_null rr) [
      | true ↦ record { n = gt; tree = node (node l k rl) rk rr; lesser = ls; greater = gs }
      | false ↦ deep ((rk, node l k rl) ∷ ls) gs
    ]
    | _ ↦ next ((k, l) ∷ ls) gs
  ]

  -- `splay`. The callers test the tree for NULL first; `sml_tree_insert` and `insert_node` take 1
  -- for the result where it is.
  unfoldable pub splay : A → Tree A → Spine A → Spine A → Splayed A
  unfolding turn_left turn_right
  splay x leaf ls gs = record { n = gt; tree = leaf; lesser = ls; greater = gs }
  splay x (node leaf k leaf) ls gs = record {
    n = c.cmp x k;
    tree = node leaf k leaf;
    lesser = ls;
    greater = gs;
  }
  splay x (node leaf k (node rl rk rr)) ls gs = elim (c.cmp x k) [
    | gt ↦ turn_right x leaf k rl rk rr (splay x rr) (splay x (node rl rk rr)) ls gs
    | n ↦ record { n = n; tree = node leaf k (node rl rk rr); lesser = ls; greater = gs }
  ]
  splay x (node (node ll lk lr) k leaf) ls gs = elim (c.cmp x k) [
    | lt ↦ turn_left x ll lk lr k leaf (splay x ll) (splay x (node ll lk lr)) ls gs
    | n ↦ record { n = n; tree = node (node ll lk lr) k leaf; lesser = ls; greater = gs }
  ]
  splay x (node (node ll lk lr) k (node rl rk rr)) ls gs = elim (c.cmp x k) [
    | lt ↦ turn_left x ll lk lr k (node rl rk rr) (splay x ll) (splay x (node ll lk lr)) ls gs
    | eq ↦ record {
      n = eq;
      tree = node (node ll lk lr) k (node rl rk rr);
      lesser = ls;
      greater = gs;
    }
    | gt ↦ turn_right x (node ll lk lr) k rl rk rr (splay x rr) (splay x (node rl rk rr)) ls gs
  ]

  -- `sml_tree_find`: the item found, or NULL, and the tree that is left.
  unfoldable pub find : A → Tree A → Option A × Tree A
  find x leaf = (none, leaf)
  find x (node l k r) =
      let s = splay x (node l k r) [] [] in
      let t = assemble s.tree s.lesser s.greater in (if is_eq s.n then root_item t else none, t)

  -- What `sml_tree_insert` and `insert_node` make of the result of `splay`: where no equal item was
  -- found, the new node takes the old root on the side that `OPP(DIR(n))` names.
  abbrev pub hang : A → Splayed A → Tree A
  hang x s = elim s.n [ lt ↦ node leaf x s.tree | eq ↦ s.tree | gt ↦ node s.tree x leaf ]

  -- `insert_node`, with whether the node was taken (`n != 0`).
  unfoldable pub insert_node : A → Tree A → Bool × Tree A
  insert_node x t =
      let s = splay x t [] [] in (not (is_eq s.n), assemble (hang x s) s.lesser s.greater)

  -- `sml_tree_insert`, less the allocation of the node: the same, and the item is copied to the root.
  unfoldable pub insert : A → Tree A → Bool × Tree A
  insert x t =
      let s = splay x t [] [] in
      (not (is_eq s.n), overwrite x (assemble (hang x s) s.lesser s.greater))

  -- `join(inst, node)` of the three fields of the node.
  unfoldable pub join : Tree A → A → Tree A → Tree A
  join leaf k r = r
  join (node ll lk lr) k r =
      let s = splay k (node ll lk lr) [] [] in assemble (set_right s.tree r) s.lesser s.greater

  -- `join` of the root of a tree.
  abbrev pub join_root : Tree A → Tree A
  join_root leaf = leaf
  join_root (node l k r) = join l k r

  -- The tail of `sml_tree_delete` from the result of the first `join`: where that is NULL the old root
  -- is put between the spines again, and joined there.
  abbrev pub rejoin : Tree A → Splayed A → Tree A
  rejoin leaf s = join_root (assemble s.tree s.lesser s.greater)
  rejoin (node l k r) s = assemble (node l k r) s.lesser s.greater

  -- `sml_tree_delete`: the item that was in the tree, or NULL, and the tree that is left.
  unfoldable pub delete : A → Tree A → Option A × Tree A
  delete x leaf = (none, leaf)
  delete x (node l k r) =
      let s = splay x (node l k r) [] [] in
      if is_eq s.n
      then (root_item s.tree, rejoin (join_root s.tree) s)
      else (none, assemble s.tree s.lesser s.greater)
