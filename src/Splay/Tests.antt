-- ===== src/Splay/Tests.antt =====
-- The splay tree at concrete inputs. The items are pairs that are compared by their first part.
use smlsharp_completions_gen.Base.{
  ℕ, ◌+◌, ◌%◌, ◌≤◌, ◌≡◌, refl, compare, Ordering, Bool, ◌==◌, some, [], ◌∷◌, ◌++◌, arith,
}
use smlsharp_completions_gen.Splay.{Tree, leaf, node, splay, assemble, find, insert, join, delete}
use smlsharp_completions_gen.Splay.Order.{IsPreorder, Comparison, IsSorted}
use smlsharp_completions_gen.Splay.Sequence
use smlsharp_completions_gen.Splay.Sequence.{lookup}
use smlsharp_completions_gen.Splay.Inorder.{inorder}
use smlsharp_completions_gen.Splay.Laws.{find-insert, find-delete}
use smlsharp_completions_gen.Splay.Join.{inorder-join}
use smlsharp_completions_gen.Splay.Walk
use smlsharp_completions_gen.Splay.Walk.{each, reject_items, rebuild_items}
use smlsharp_completions_gen.Splay.Walk.Each.{each-inorder}
use smlsharp_completions_gen.Splay.Walk.Reject.{reject-survivors}
use smlsharp_completions_gen.Splay.Walk.Rebuild.{postorder, rebuild-IsOrdered}
use smlsharp_completions_gen.Splay.Memory.{Block, chunk_size, chunk_alloc}
use smlsharp_completions_gen.Splay.Memory.Blocks.{IsCarved, chunk_alloc-IsCarved}
use smlsharp_completions_gen.Splay.Store.{SmlTree, sml_tree_find, sml_tree_insert, sml_tree_delete}
use smlsharp_completions_gen.Splay.Store.Sound.{
  IsSound, sml_tree_find-IsSound, sml_tree_insert-IsSound, sml_tree_delete-IsSound,
}

abbrev by_key : ℕ × ℕ → ℕ × ℕ → Ordering
by_key a b = compare a.0 b.0

by_key-IsPreorder : IsPreorder by_key
by_key-IsPreorder = record {
  cmp_refl = λ a. ground arith;
  gt_of_lt = λ a b h. ground arith;
  lt_of_gt = λ a b h. ground arith;
  lt_trans = λ a b d h k. ground arith;
  cmp_congr = λ a b d h. ground arith;
}

instance abbrev key_order : Comparison (ℕ × ℕ)
key_order = record { cmp = by_key; lawful = by_key-IsPreorder }

abbrev three : Tree (ℕ × ℕ)
three = node (node leaf (1, 10) leaf) (2, 20) (node leaf (3, 30) leaf)

-- The tree of `chain` leans to the left; looking for 1 rotates and links.
abbrev chain : Tree (ℕ × ℕ)
chain = node (node (node (node leaf (1, 10) leaf) (2, 20) leaf) (3, 30) leaf) (4, 40) leaf

find_splays : find (1, 0) chain ≡ (
  some (1, 10),
  node leaf (1, 10) (node (node leaf (2, 20) leaf) (3, 30) (node leaf (4, 40) leaf)),
)
unfolding find splay assemble
find_splays = refl

-- Deleting the root of `three` lifts its predecessor.
delete_joins : delete (2, 0) three ≡ (some (2, 20), node leaf (1, 10) (node leaf (3, 30) leaf))
unfolding delete join splay assemble
delete_joins = refl

abbrev sound_tree : SmlTree (ℕ × ℕ)
sound_tree = record { root = three; chunk = 160 ∷ []; freelist = 1; alloc_size = 40 }

sound_tree-IsSound : IsSound sound_tree
unfolding Walk.size
sound_tree-IsSound = ground arith

sml_tree_insert-IsSound_example :
    (t : SmlTree (ℕ × ℕ)) × (sml_tree_insert (2, 25) sound_tree ≡ some t)
    × IsSound t
    × (inorder t.root ≡ Sequence.insert (2, 25) (inorder three))
sml_tree_insert-IsSound_example = sml_tree_insert-IsSound (2, 25) sound_tree sound_tree-IsSound

sml_tree_delete-IsSound_example :
    IsSound (sml_tree_delete (2, 0) sound_tree).1
    × ((sml_tree_delete (2, 0) sound_tree).0 ≡ lookup (2, 0) (inorder three))
    × (inorder (sml_tree_delete (2, 0) sound_tree).1.root ≡ Sequence.remove (2, 0) (inorder three))
sml_tree_delete-IsSound_example = sml_tree_delete-IsSound (2, 0) sound_tree sound_tree-IsSound

sml_tree_find-IsSound_example :
    IsSound (sml_tree_find (2, 0) sound_tree).1
    × ((sml_tree_find (2, 0) sound_tree).0 ≡ lookup (2, 0) (inorder three))
    × (inorder (sml_tree_find (2, 0) sound_tree).1.root ≡ inorder three)
sml_tree_find-IsSound_example = sml_tree_find-IsSound (2, 0) sound_tree sound_tree-IsSound

three-IsSorted : IsSorted (inorder three)
three-IsSorted = ground arith

find-insert_example : (find (2, 0) (insert (2, 25) three).1).0 ≡ some (2, 25)
find-insert_example = find-insert (2, 0) (2, 25) three three-IsSorted

find-delete_example : (find (3, 0) (delete (2, 0) three).1).0 ≡ (find (3, 0) three).0
find-delete_example = find-delete (3, 0) (2, 0) three three-IsSorted

inorder-join_example : inorder (join three (9, 0) chain) ≡ inorder three ++ inorder chain
inorder-join_example = inorder-join three (9, 0) chain three-IsSorted (ground arith)

-- Sums the second parts up, and adds one to each.
abbrev sum_up : ℕ → ℕ × ℕ → ℕ × (ℕ × ℕ)
sum_up s (k, v) = (s + v, (k, v + 1))

each-inorder_example :
    (t : Tree (ℕ × ℕ)) × (each sum_up 0 three ≡ some (60, t))
    × (inorder t ≡ (1, 11) ∷ (2, 21) ∷ (3, 31) ∷ [])
each-inorder_example = each-inorder sum_up 0 three

-- Rejects the odd keys, and counts the calls.
abbrev reject_odd : ℕ → ℕ × ℕ → ℕ × (ℕ × ℕ) × Bool
reject_odd s x = (s + 1, x, x.0 % 2 == 1)

reject-survivors_example :
    (t : Tree (ℕ × ℕ)) × (reject_items reject_odd 0 three ≡ some (3, t))
    × (inorder t ≡ (2, 20) ∷ [])
    × IsSorted (inorder t)
reject-survivors_example = reject-survivors reject_odd (λ s x. refl) 0 three three-IsSorted

-- The same nodes with keys that have changed, no longer in order.
abbrev moved : Tree (ℕ × ℕ)
moved = node (node leaf (8, 10) leaf) (2, 20) (node leaf (5, 30) leaf)

rebuild-IsOrdered_example :
    (t : Tree (ℕ × ℕ)) × (reclaimed : ℕ) × (rebuild_items moved ≡ some (t, reclaimed))
    × IsSorted (inorder t)
    × ((y : ℕ × ℕ) → (find y t).0 ≡ lookup y (postorder moved))
rebuild-IsOrdered_example = rebuild-IsOrdered moved

abbrev first_block : Block
first_block = record { chunk = 0; offset = 0 }

carved : IsCarved 2000 (2000 ∷ []) (first_block ∷ [])
carved = omega arith

-- The second block of 2000 bytes still fits in the first chunk.
chunk_alloc-IsCarved_example :
    IsCarved 2000 (4000 ∷ []) (record { chunk = 0; offset = 2000 } ∷ first_block ∷ [])
    × (2000 + 2000 ≤ chunk_size)
unfolding chunk_alloc
chunk_alloc-IsCarved_example = chunk_alloc-IsCarved 2000 (2000 ∷ []) (first_block ∷ []) carved refl
