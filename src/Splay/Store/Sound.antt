-- ===== src/Splay/Store/Sound.antt =====
-- The invariant of `struct sml_tree` (smlsharp/src/runtime/splay.c): the items are ordered, and the
-- memory cut from the chunks is that of the nodes in the tree and in the free list, no more and no
-- less. Every operation keeps it, and none fails.
use smlsharp_completions_gen.Base.{
  ℕ, zero, suc, ◌+◌, ◌*◌, ◌<◌, ◌≡◌, refl, sym, ap, ◌∙◌, true, false, none, some, List, [], ◌∷◌,
  length, length-append, arith, inl, inr, Option-cases,
}
use smlsharp_completions_gen.Splay.{Tree, leaf, node, find, insert, delete}
use smlsharp_completions_gen.Splay.Order.{Comparison}
use smlsharp_completions_gen.Splay.Sequence
use smlsharp_completions_gen.Splay.Sequence.{lookup, found, length-insert, length-remove}
use smlsharp_completions_gen.Splay.Inorder.{inorder}
use smlsharp_completions_gen.Splay.Search.{find-inorder, find-eq-lookup}
use smlsharp_completions_gen.Splay.Change.{insert_lem}
use smlsharp_completions_gen.Splay.Join.{delete-eq-remove}
use smlsharp_completions_gen.Splay.Laws.{
  IsOrdered, find-IsOrdered, insert-IsOrdered, delete-IsOrdered,
}
use smlsharp_completions_gen.Splay.Memory.{chunk_size, chunk_cut}
use smlsharp_completions_gen.Splay.Memory.Blocks.{chunk_alloc_lem}
use smlsharp_completions_gen.Splay.Walk.{size}
use smlsharp_completions_gen.Splay.Store.{
  SmlTree, alloc_node, node_alloc, sml_tree_find, sml_tree_insert, sml_tree_delete,
}

abbrev pub total : List ℕ → ℕ
total [] = 0
total (free ∷ rest) = free + total rest

total-chunk_cut : (chunks : List ℕ) (len : ℕ) → total (chunk_cut len chunks).0 ≡ len + total chunks
total-chunk_cut [] len = refl
total-chunk_cut (free ∷ rest) len = ground arith

pub size-eq-length {ℓ} : {A : Type ℓ} (t : Tree A) → size t ≡ length (inorder t)
unfolding size
size-eq-length leaf = refl
size-eq-length (node l k r) =
    omega (arith, length-append (inorder l) (k ∷ inorder r), size-eq-length l, size-eq-length r)

module _ {ℓ} {A : Type ℓ} ⦃c : Comparison A⦄ where
  pub record IsSound (t : SmlTree A) : Type 0 where
    pub ordered : IsOrdered t.root
    pub accounted : total t.chunk ≡ t.alloc_size * (size t.root + t.freelist)
    pub fits : t.alloc_size < chunk_size

  -- `sml_tree_find` keeps the invariant and the items, and returns the item that is equal to the one
  -- looked for, or NULL where there is none.
  pub sml_tree_find-IsSound :
      (x : A) (t : SmlTree A)
      → IsSound t
      → IsSound (sml_tree_find x t).1
        × ((sml_tree_find x t).0 ≡ lookup x (inorder t.root))
        × (inorder (sml_tree_find x t).1.root ≡ inorder t.root)
  unfolding sml_tree_find
  sml_tree_find-IsSound x t h = (
    record {
      ordered = find-IsOrdered x t.root h.ordered;
      accounted =
          h.accounted
          ∙ ap (λ n. t.alloc_size * (n + t.freelist))
              (size-eq-length t.root
                ∙ ap length (sym (find-inorder x t.root))
                ∙ sym (size-eq-length (find x t.root).1));
      fits = h.fits;
    },
    find-eq-lookup x t.root h.ordered,
    find-inorder x t.root,
  )

  size-insert :
      (x : A) (t : Tree A)
      → IsOrdered t
      → size (insert x t).1 + found (lookup x (inorder t)) ≡ suc (size t)
  size-insert x t h = omega (
    arith,
    size-eq-length t,
    size-eq-length (insert x t).1,
    ap length (insert_lem x t h).0,
    length-insert x (inorder t) h,
  )

  size-delete :
      (x : A) (t : Tree A)
      → IsOrdered t
      → size (delete x t).1 + found (lookup x (inorder t)) ≡ size t
  size-delete x t h = omega (
    arith,
    size-eq-length t,
    size-eq-length (delete x t).1,
    ap length (delete-eq-remove x t h).1,
    length-remove x (inorder t),
  )

  -- One node is taken, from the free list or from a chunk.
  record Taken (t t' : SmlTree A) : Type ℓ where
    same_root : t'.root ≡ t.root
    same_size : t'.alloc_size ≡ t.alloc_size
    taken :
        total t'.chunk + t.alloc_size * t.freelist ≡ total t.chunk + t.alloc_size * suc t'.freelist

  alloc_node-Taken :
      (n : ℕ) (t : SmlTree A)
      → t.freelist ≡ n
      → t.alloc_size < chunk_size
      → (t' : SmlTree A) × (alloc_node n t ≡ some t') × Taken t t'
  alloc_node-Taken zero t e h =
      let chunks = (chunk_cut t.alloc_size t.chunk).0 in
      (
        record t { chunk = chunks },
        rw (chunk_alloc_lem t.chunk t.alloc_size h),
        record {
          same_root = refl;
          same_size = refl;
          taken = omega (arith, e, total-chunk_cut t.chunk t.alloc_size);
        },
      )
  alloc_node-Taken (suc n) t e h =
      (record t { freelist = n }, refl, record { same_root = refl; same_size = refl; taken = rw e })

  node_alloc-Taken :
      (t : SmlTree A)
      → t.alloc_size < chunk_size
      → (t' : SmlTree A) × (node_alloc t ≡ some t') × Taken t t'
  unfolding node_alloc
  node_alloc-Taken t h = alloc_node-Taken t.freelist t refl h

  insert_new :
      (x : A) (t : SmlTree A) {t' : SmlTree A}
      → (insert x t.root).0 ≡ true
      → node_alloc t ≡ some t'
      → sml_tree_insert x t ≡ some (record t' { root = (insert x t.root).1 })
  unfolding sml_tree_insert
  insert_new x t e a = rw (sml_tree_insert, e, a)

  insert_old :
      (x : A) (t : SmlTree A)
      → (insert x t.root).0 ≡ false
      → sml_tree_insert x t ≡ some (record t { root = (insert x t.root).1 })
  unfolding sml_tree_insert
  insert_old x t e = rw (sml_tree_insert, e)

  -- The account after a node has been taken, and after none has.
  accounted_new :
      (t t' : SmlTree A) (n : ℕ)
      → total t.chunk ≡ t.alloc_size * (size t.root + t.freelist)
      → Taken t t'
      → n + 0 ≡ suc (size t.root)
      → total t'.chunk ≡ t'.alloc_size * (n + t'.freelist)
  accounted_new t t' n acc k e =
      let size' : n ≡ suc (size t.root) = omega arith in
      rw (k.same_size, size') (omega (arith, k.taken))

  accounted_old :
      (t : SmlTree A) (n : ℕ)
      → total t.chunk ≡ t.alloc_size * (size t.root + t.freelist)
      → n + 1 ≡ suc (size t.root)
      → total t.chunk ≡ t.alloc_size * (n + t.freelist)
  accounted_old t n acc e = let size' : n ≡ size t.root = omega arith in rw size' acc

  accounted_same :
      (t : SmlTree A) (n : ℕ)
      → total t.chunk ≡ t.alloc_size * (size t.root + t.freelist)
      → n + 0 ≡ size t.root
      → total t.chunk ≡ t.alloc_size * (n + t.freelist)
  accounted_same t n acc e = let size' : n ≡ size t.root = omega arith in rw size' acc

  accounted_less :
      (t : SmlTree A) (n : ℕ)
      → total t.chunk ≡ t.alloc_size * (size t.root + t.freelist)
      → n + 1 ≡ size t.root
      → total t.chunk ≡ t.alloc_size * (n + suc t.freelist)
  accounted_less t n acc e = rw (← e) at acc ∙ omega arith

  -- `sml_tree_insert` never fails; it keeps the invariant, and puts the item in its place or over an
  -- equal one.
  pub sml_tree_insert-IsSound :
      (x : A) (t : SmlTree A)
      → IsSound t
      → (t' : SmlTree A) × (sml_tree_insert x t ≡ some t')
        × IsSound t'
        × (inorder t'.root ≡ Sequence.insert x (inorder t.root))
  sml_tree_insert-IsSound x t h =
      let (items, flag) = insert_lem x t.root h.ordered in
      let count = size-insert x t.root h.ordered in
      let n = size (insert x t.root).1 in
      elim (Option-cases (lookup x (inorder t.root))) [
        | inl absent ↦
            let (t', allocated, k) = node_alloc-Taken t h.fits in
            (
              record t' { root = (insert x t.root).1 },
              insert_new x t (rw absent at flag) allocated,
              record {
                ordered = insert-IsOrdered x t.root h.ordered;
                accounted = accounted_new t t' n h.accounted k (rw absent at count);
                fits = rw k.same_size h.fits;
              },
              items,
            )
        | inr (a, present) ↦ (
          record t { root = (insert x t.root).1 },
          insert_old x t (rw present at flag),
          record {
            ordered = insert-IsOrdered x t.root h.ordered;
            accounted = accounted_old t n h.accounted (rw present at count);
            fits = h.fits;
          },
          items,
        )
      ]

  delete_absent :
      (x : A) (t : SmlTree A)
      → (delete x t.root).0 ≡ none
      → sml_tree_delete x t ≡ (none, record t { root = (delete x t.root).1 })
  unfolding sml_tree_delete
  delete_absent x t e = rw (sml_tree_delete, e)

  delete_present :
      (x : A) (t : SmlTree A) {a : A}
      → (delete x t.root).0 ≡ some a
      → sml_tree_delete x t
        ≡ (some a, record t { root = (delete x t.root).1; freelist = suc t.freelist })
  unfolding sml_tree_delete
  delete_present x t e = rw (sml_tree_delete, e)

  -- `sml_tree_delete` keeps the invariant: the node of the item that it takes out is in the free list.
  -- It returns that item, or NULL where there is none equal to the given one.
  pub sml_tree_delete-IsSound :
      (x : A) (t : SmlTree A)
      → IsSound t
      → IsSound (sml_tree_delete x t).1
        × ((sml_tree_delete x t).0 ≡ lookup x (inorder t.root))
        × (inorder (sml_tree_delete x t).1.root ≡ Sequence.remove x (inorder t.root))
  sml_tree_delete-IsSound x t h =
      let (item, items) = delete-eq-remove x t.root h.ordered in
      let count = size-delete x t.root h.ordered in
      let n = size (delete x t.root).1 in
      elim (Option-cases (lookup x (inorder t.root))) [
        | inl absent ↦
            rw (delete_absent x t (item ∙ absent), absent)
              (
                record {
                  ordered = delete-IsOrdered x t.root h.ordered;
                  accounted = accounted_same t n h.accounted (rw absent at count);
                  fits = h.fits;
                },
                refl,
                items,
              )
        | inr (a, present) ↦
            rw (delete_present x t (item ∙ present), present)
              (
                record {
                  ordered = delete-IsOrdered x t.root h.ordered;
                  accounted = accounted_less t n h.accounted (rw present at count);
                  fits = h.fits;
                },
                refl,
                items,
              )
      ]
