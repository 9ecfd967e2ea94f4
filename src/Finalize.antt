-- ===== src/Finalize.antt =====
-- The finalizers of objects (smlsharp/src/runtime/finalize.c), which a search tree holds. An address is a
-- number, and so is a function, where 0 is NULL. The calls of finalizers are kept in a list, in the
-- order in which they are made: the function and its argument.
pub mod Sound
mod Tests
use smlsharp_completions_gen.Base.{
  ℕ, ◌==◌, ltb, Ordering, lt, eq, gt, Bool, true, false, if◌then◌else◌, Option, none, some, List,
  [], ◌∷◌, ◌++◌, arith,
}
use smlsharp_completions_gen.Splay.{Tree, leaf, node}
use smlsharp_completions_gen.Splay.Order.{IsPreorder, Comparison}
use smlsharp_completions_gen.Splay.Store.{
  SmlTree, sml_tree_new, sml_tree_find, sml_tree_insert, sml_tree_each, sml_tree_reject,
  sml_tree_rebuild,
}
use smlsharp_completions_gen.Mark.{Heap, Marks, is_alive}

pub record Finalizer : Type 0 where
  pub obj : ℕ
  pub finalizer : ℕ

unfoldable pub voidp_cmp : ℕ → ℕ → Ordering
voidp_cmp m n = if ltb m n then lt else if ltb n m then gt else eq

abbrev pub finalizer_cmp : Finalizer → Finalizer → Ordering
finalizer_cmp final1 final2 = voidp_cmp final1.obj final2.obj

pub finalizer_cmp-IsPreorder : IsPreorder finalizer_cmp
unfolding voidp_cmp
finalizer_cmp-IsPreorder = record {
  cmp_refl = λ a. ground arith;
  gt_of_lt = λ a b h. ground arith;
  lt_of_gt = λ a b h. ground arith;
  lt_trans = λ a b d h k. ground arith;
  cmp_congr = λ a b d h. ground arith;
}

instance abbrev pub finalizer_order : Comparison Finalizer
finalizer_order = record { cmp = finalizer_cmp; lawful = finalizer_cmp-IsPreorder }

-- `sizeof(struct finalizer)` is 16.
unfoldable pub sml_finalize_init : Option (SmlTree Finalizer)
sml_finalize_init = sml_tree_new 16

-- `item->finalizer = finalizer`, where `item` is at the root.
abbrev pub with_finalizer : ℕ → Tree Finalizer → Tree Finalizer
with_finalizer f leaf = leaf
with_finalizer f (node l k r) = node l (record k { finalizer = f }) r

abbrev pub set_item : ℕ → SmlTree Finalizer → SmlTree Finalizer
set_item f t = record t { root = with_finalizer f t.root }

-- `key.finalizer` is not initialized: `unset` is what stands there.
unfoldable pub sml_set_finalizer : ℕ → ℕ → ℕ → SmlTree Finalizer → Option (SmlTree Finalizer)
sml_set_finalizer unset obj f t =
    let key : Finalizer = record { obj = obj; finalizer = unset } in
    let (item, found) = sml_tree_find key t in
    elim item [
      | some i ↦ some (set_item f found)
      | none ↦ elim (sml_tree_insert key found) [ none ↦ none | some t' ↦ some (set_item f t') ]
    ]

-- The calls made, with the call of a finalizer that is not NULL.
abbrev pub Calls : Type 0
Calls = List (ℕ × ℕ)

unfoldable pub call : Calls → Finalizer → Calls
call calls final =
    if final.finalizer == 0 then calls else calls ++ (final.finalizer, final.obj) ∷ []

abbrev pub each_destroy : Calls → Finalizer → Calls × Finalizer
each_destroy calls final = (call calls final, final)

-- `sml_tree_destroy` frees the tree.
unfoldable pub sml_finalize_destroy : Calls → SmlTree Finalizer → Option Calls
sml_finalize_destroy calls t = elim (sml_tree_each each_destroy calls t) [
  | none ↦ none
  | some (calls', t') ↦ some calls'
]

-- With the concurrent collector, whose `sml_heap_check_alive` is `is_alive`.
module _ (h : Heap) (m : Marks) where
  unfoldable pub each_run : Calls → Finalizer → Calls × Finalizer × Bool
  each_run calls final =
      if is_alive h final.obj m then (calls, final, false) else (call calls final, final, true)

  unfoldable pub sml_run_finalizer : Calls → SmlTree Finalizer → Option (Calls × SmlTree Finalizer)
  sml_run_finalizer calls t = elim (sml_tree_reject each_run calls t) [
    | none ↦ none
    | some (calls', t') ↦ elim (sml_tree_rebuild t') [ none ↦ none | some t2 ↦ some (calls', t2) ]
  ]
