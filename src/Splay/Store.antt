-- ===== src/Splay/Store.antt =====
-- `struct sml_tree` and its operations (smlsharp/src/runtime/splay.c, lines 18 to 26, 144 to 185 and
-- 302 to 469): the tree with the memory of its nodes.
--
-- A node is not named in the model: `freelist` is the number of nodes in the list, which is what
-- `node_alloc` looks at, and `chunk` says how much has been cut from each chunk. The comparison is a
-- parameter in place of `inst.cmp`, and `item_size` is only needed for `alloc_size`.
pub mod Sound
pub mod Walks
pub mod Pointer
use smlsharp_completions_gen.Base.{
  ℕ, zero, suc, ◌+◌, Bool, true, false, if◌then◌else◌, leb, Option, none, some, List, [], ◌∷◌,
}
use smlsharp_completions_gen.Splay.{Tree, leaf, find, insert, delete}
use smlsharp_completions_gen.Splay.Order.{Comparison}
use smlsharp_completions_gen.Splay.Memory.{Block, chunk_alloc, chunk_size, sizeof_node}
use smlsharp_completions_gen.Splay.Walk.{each, reject_items, rebuild_items}

pub record SmlTree {ℓ} (A : Type ℓ) : Type ℓ where
  pub root : Tree A
  pub chunk : List ℕ
  pub freelist : ℕ
  pub alloc_size : ℕ

module _ {ℓ} {A : Type ℓ} where
  -- `none` is the failed `assert`.
  unfoldable pub sml_tree_new : ℕ → Option (SmlTree A)
  sml_tree_new item_size =
      if leb (sizeof_node item_size) chunk_size
      then some
          (record { root = leaf; chunk = []; freelist = 0; alloc_size = sizeof_node item_size })
      else none

  abbrev pub with_chunks : SmlTree A → Option (List ℕ × Block) → Option (SmlTree A)
  with_chunks t none = none
  with_chunks t (some (chunks, block)) = some (record t { chunk = chunks })

  -- The two branches of `node_alloc`.
  abbrev pub alloc_node : ℕ → SmlTree A → Option (SmlTree A)
  alloc_node zero t = with_chunks t (chunk_alloc t.chunk t.alloc_size)
  alloc_node (suc n) t = some (record t { freelist = n })

  unfoldable pub node_alloc : SmlTree A → Option (SmlTree A)
  node_alloc t = alloc_node t.freelist t

  unfoldable pub node_reclaim : SmlTree A → SmlTree A
  node_reclaim t = record t { freelist = suc t.freelist }

module _ {ℓ} {A : Type ℓ} ⦃c : Comparison A⦄ where
  unfoldable pub sml_tree_find : A → SmlTree A → Option A × SmlTree A
  sml_tree_find x t = ((find x t.root).0, record t { root = (find x t.root).1 })

  unfoldable pub sml_tree_insert : A → SmlTree A → Option (SmlTree A)
  sml_tree_insert x t =
      let (new, root') = insert x t.root in
      elim new [
        | true ↦ elim (node_alloc t) [ none ↦ none | some t' ↦ some (record t' { root = root' }) ]
        | false ↦ some (record t { root = root' })
      ]

  unfoldable pub sml_tree_delete : A → SmlTree A → Option A × SmlTree A
  unfolding node_reclaim
  sml_tree_delete x t =
      let (item, root') = delete x t.root in
      elim item [
        | none ↦ (none, record t { root = root' })
        | some i ↦ (some i, record (node_reclaim t) { root = root' })
      ]

  -- The reclaimed nodes are counted beside the state of the visitor.
  abbrev pub counted {κ} : {S : Type κ} → (S → A → S × A × Bool) → S × ℕ → A → (S × ℕ) × A × Bool
  counted reject (s, n) x =
      let (s', x', rejected) = reject s x in
      ((s', elim rejected [ true ↦ suc n | false ↦ n ]), x', rejected)

  unfoldable pub sml_tree_reject {κ} :
      {S : Type κ} → (S → A → S × A × Bool) → S → SmlTree A → Option (S × SmlTree A)
  sml_tree_reject reject s t = elim (reject_items (counted reject) (s, t.freelist) t.root) [
    | none ↦ none
    | some ((s', n), root') ↦ some (s', record t { root = root'; freelist = n })
  ]

  unfoldable pub sml_tree_rebuild : SmlTree A → Option (SmlTree A)
  sml_tree_rebuild t = elim (rebuild_items t.root) [
    | none ↦ none
    | some (root', reclaimed) ↦ some (record t { root = root'; freelist = t.freelist + reclaimed })
  ]

module _ {ℓ κ} {A : Type ℓ} {S : Type κ} (visit : S → A → S × A) where
  unfoldable pub sml_tree_each : S → SmlTree A → Option (S × SmlTree A)
  sml_tree_each s t = elim (each visit s t.root) [
    | none ↦ none
    | some (s', root') ↦ some (s', record t { root = root' })
  ]
