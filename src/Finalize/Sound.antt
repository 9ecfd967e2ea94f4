-- ===== src/Finalize/Sound.antt =====
-- The set of finalizers (smlsharp/src/runtime/finalize.c): what is set and which finalizers are called.
use smlsharp_completions_gen.Base.{
  ℕ, ◌+◌, ◌*◌, ◌≡◌, refl, sym, ap, ◌∙◌, ◌==◌, eq, Bool, not, if◌then◌else◌, some, List, [], ◌∷◌,
  ◌++◌, append_assoc, append-nil, arith, inl, inr, Bool-cases, Option-cases, either_result,
}
use smlsharp_completions_gen.Splay.{Tree, leaf, node, root_item, overwrite}
use smlsharp_completions_gen.Splay.Sequence
use smlsharp_completions_gen.Splay.Sequence.{lookup, insert-IsSorted}
use smlsharp_completions_gen.Splay.Inorder.{inorder}
use smlsharp_completions_gen.Splay.Walk.{size}
use smlsharp_completions_gen.Splay.Walk.Reject.{survivors}
use smlsharp_completions_gen.Splay.Walk.Each.{each-inorder, each_in_list}
use smlsharp_completions_gen.Splay.Root.{inorder-overwrite, size-overwrite, insert-insert}
use smlsharp_completions_gen.Splay.Store.{SmlTree, sml_tree_find, sml_tree_each}
use smlsharp_completions_gen.Splay.Store.Sound.{
  IsSound, sml_tree_find-IsSound, sml_tree_insert-IsSound,
}
use smlsharp_completions_gen.Splay.Store.Pointer.{
  found-eq, root_item-sml_tree_find, root_item-sml_tree_insert,
}
use smlsharp_completions_gen.Splay.Store.Walks.{sml_tree_reject-IsSound, sml_tree_rebuild-IsSound}
use smlsharp_completions_gen.Mark.{Heap, Marks, is_alive}
use smlsharp_completions_gen.Finalize.{
  Finalizer, voidp_cmp, finalizer_cmp, finalizer_order, with_finalizer, set_item, sml_set_finalizer,
  Calls, call, each_destroy, sml_finalize_destroy, each_run, sml_run_finalizer,
}

-- The elements with a test.
abbrev pub select : (Finalizer → Bool) → List Finalizer → List Finalizer
select p [] = []
select p (x ∷ xs) = if p x then x ∷ select p xs else select p xs

-- The calls of the finalizers of a list that are not NULL.
abbrev pub calls_of : List Finalizer → Calls
calls_of [] = []
calls_of (x ∷ xs) = if x.finalizer == 0 then calls_of xs else (x.finalizer, x.obj) ∷ calls_of xs

call-calls_of :
    (calls : Calls) (x : Finalizer) (xs : List Finalizer)
    → call calls x ++ calls_of xs ≡ calls ++ calls_of (x ∷ xs)
unfolding call
call-calls_of calls x xs = elim (Bool-cases (x.finalizer == 0)) [
  | inl e ↦ rw e refl
  | inr e ↦ rw e (append_assoc calls ((x.finalizer, x.obj) ∷ []) (calls_of xs))
]

module _ (h : Heap) (m : Marks) where
  abbrev pub living : Finalizer → Bool
  living final = is_alive h final.obj m

  abbrev pub dying : Finalizer → Bool
  dying final = not (living final)

  leaves : (calls : Calls) (x : Finalizer) → (each_run h m calls x).1 ≡ x
  unfolding each_run
  leaves calls x =
      either_result (λ (r : Calls × Finalizer × Bool). r.1 ≡ x) (living x) _ _ (λ e. refl)
        (λ e. refl)

  survivors-each_run :
      (calls : Calls) (xs : List Finalizer)
      → survivors (each_run h m) calls xs ≡ (calls ++ calls_of (select dying xs), select living xs)
  unfolding each_run
  survivors-each_run calls [] = rw (append-nil calls) refl
  survivors-each_run calls (x ∷ xs) = elim (Bool-cases (living x)) [
    | inl e ↦
        rw e (ap (λ (p : Calls × List Finalizer). (p.0, x ∷ p.1)) (survivors-each_run calls xs))
    | inr e ↦ rw e (
        survivors-each_run (call calls x) xs
        ∙ ap (λ (cs : Calls). (cs, select living xs)) (call-calls_of calls x (select dying xs)))
  ]

  -- After marking, `sml_run_finalizer` ends; it calls the finalizers of exactly the objects that are
  -- not alive, once each, in the order of the addresses, except those that are NULL. The finalizers
  -- of the objects that are alive stay set, and no others, and the nodes of the others are in the
  -- free list.
  pub sml_run_finalizer-IsSound :
      (calls : Calls) (t : SmlTree Finalizer)
      → IsSound t
      → (t' : SmlTree Finalizer) × (sml_run_finalizer h m calls t
          ≡ some (calls ++ calls_of (select dying (inorder t.root)), t'))
        × IsSound t'
        × (inorder t'.root ≡ select living (inorder t.root))
  unfolding sml_run_finalizer
  sml_run_finalizer-IsSound calls t n =
      let (t1, ends, sound, kept) = sml_tree_reject-IsSound (each_run h m) leaves calls t n in
      let (t2, ends', sound', same) = sml_tree_rebuild-IsSound t1 sound in
      let e = survivors-each_run calls (inorder t.root) in
      (
        t2,
        rw (sml_run_finalizer, ends, ends') (ap (λ (p : Calls × List Finalizer). some (p.0, t2)) e),
        sound',
        same ∙ kept ∙ ap (λ (p : Calls × List Finalizer). p.1) e,
      )

abbrev pub item_of : ℕ → ℕ → Finalizer
item_of obj f = record { obj = obj; finalizer = f }

item_eq : (obj f : ℕ) (a : Finalizer) → finalizer_cmp (item_of obj f) a ≡ eq → a.obj ≡ obj
unfolding voidp_cmp
item_eq obj f a e = ground (arith, e)

-- The write through the pointer to the root is one of a whole item.
with_finalizer-overwrite :
    (obj f : ℕ) (a : Finalizer) (t : Tree Finalizer)
    → root_item t ≡ some a
    → a.obj ≡ obj
    → with_finalizer f t ≡ overwrite (item_of obj f) t
with_finalizer-overwrite obj f a leaf e o = refl
with_finalizer-overwrite obj f a (node l k r) e o =
    let same : k.obj ≡ obj = ground (arith, e, o) in rw same refl

set_item-IsSound :
    (obj f : ℕ) (a : Finalizer) (t : SmlTree Finalizer)
    → IsSound t
    → root_item t.root ≡ some a
    → finalizer_cmp (item_of obj f) a ≡ eq
    → IsSound (set_item f t)
      × (inorder (set_item f t).root ≡ Sequence.insert (item_of obj f) (inorder t.root))
set_item-IsSound obj f a t n e q =
    let x = item_of obj f in
    let written = with_finalizer-overwrite obj f a t.root e (item_eq obj f a q) in
    let items = ap inorder written ∙ inorder-overwrite x a t.root n.ordered e q in
    let size' = ap size written ∙ size-overwrite x t.root in
    (
      record {
        ordered = rw items (insert-IsSorted x (inorder t.root) n.ordered);
        accounted = n.accounted ∙ ap (λ k. t.alloc_size * (k + t.freelist)) (sym size');
        fits = n.fits;
      },
      items,
    )

-- `sml_set_finalizer` never fails, and keeps the invariant of the tree. It sets the finalizer of the
-- object, in place of the one that was set if there was one, and leaves the others as they are; what
-- stands in the field that is not initialized is never seen.
pub sml_set_finalizer-IsSound :
    (unset obj f : ℕ) (t : SmlTree Finalizer)
    → IsSound t
    → (t' : SmlTree Finalizer) × (sml_set_finalizer unset obj f t ≡ some t')
      × IsSound t'
      × (inorder t'.root ≡ Sequence.insert (item_of obj f) (inorder t.root))
unfolding sml_set_finalizer
sml_set_finalizer-IsSound unset obj f t n =
    let key = item_of obj unset in
    let (sound, item, items) = sml_tree_find-IsSound key t n in
    let found = (sml_tree_find key t).1 in
    elim (Option-cases (sml_tree_find key t).0) [
      | inl e ↦
          let (t', inserted, sound', items') = sml_tree_insert-IsSound key found sound in
          let (sound2, items2) =
            set_item-IsSound obj f key t' sound' (root_item-sml_tree_insert key found t' inserted)
              (finalizer_order.cmp_refl key) in
          (
            set_item f t',
            rw (sml_set_finalizer, e, inserted) refl,
            sound2,
            items2
                ∙ ap (Sequence.insert (item_of obj f)) (items' ∙ ap (Sequence.insert key) items)
                ∙ insert-insert (item_of obj f) key (inorder t.root) (finalizer_order.cmp_refl key),
          )
      | inr (a, e) ↦
          let (sound', items') =
            set_item-IsSound obj f a found sound (root_item-sml_tree_find key a t e)
              (found-eq key a (inorder t.root) (sym item ∙ e)) in
          (
            set_item f found,
            rw (sml_set_finalizer, e) refl,
            sound',
            items' ∙ ap (Sequence.insert (item_of obj f)) items,
          )
    ]

destroyed :
    (calls : Calls) (xs : List Finalizer)
    → each_in_list each_destroy calls xs ≡ (calls ++ calls_of xs, xs)
destroyed calls [] = rw (append-nil calls) refl
destroyed calls (x ∷ xs) =
    ap (λ (p : Calls × List Finalizer). (p.0, x ∷ p.1))
      (destroyed (call calls x) xs ∙ ap (λ (cs : Calls). (cs, xs)) (call-calls_of calls x xs))

-- `sml_finalize_destroy` ends, and calls every finalizer that is set and not NULL once, in the order of
-- the addresses.
pub sml_finalize_destroy-calls :
    (calls : Calls) (t : SmlTree Finalizer)
    → sml_finalize_destroy calls t ≡ some (calls ++ calls_of (inorder t.root))
unfolding sml_finalize_destroy sml_tree_each
sml_finalize_destroy-calls calls t =
    let (root', ends, items) = each-inorder each_destroy calls t.root in
    rw (sml_finalize_destroy, sml_tree_each, ends, destroyed calls (inorder t.root)) refl
