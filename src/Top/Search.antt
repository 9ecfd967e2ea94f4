-- ===== src/Top/Search.antt =====
-- `binary_search` and `sml_lookup_frametable` (smlsharp/src/runtime/top.c, lines 235 to 266) find what
-- the tables hold.
use smlsharp_completions_gen.Base.{
  ℕ, zero, suc, ◌+◌, ◌/◌, ◌≤◌, ◌<◌, ◌≡◌, ◌≢◌, Option, none, some, List, [], ◌∷◌, arith, refl, ap,
  ◌∙◌, ◌⊎◌, inl, inr, same_or_not, less_or_not,
}
use smlsharp_completions_gen.Base.Predicates.{All}
use smlsharp_completions_gen.Top.{
  SafePoint, Gcroot, search_loop, binary_search, found_in, sml_lookup_frametable,
}

-- The first `len` entries are sorted by address; an address may stand in several.
abbrev pub IsSorted : (ℕ → SafePoint) → ℕ → Type 0
IsSorted begin len = (i j : ℕ) → i ≤ j → j < len → (begin i).addr ≤ (begin j).addr

-- A result of a search between l and r: an entry with the address, or NULL if there is none.
abbrev pub Finds : ℕ → (ℕ → SafePoint) → ℕ → ℕ → Option ℕ → Type 0
Finds key begin l r none = (i : ℕ) → l ≤ i → i < r → (begin i).addr ≢ key
Finds key begin l r (some j) = (j < r) × ((begin j).addr ≡ key)

module _ (key : ℕ) (begin : ℕ → SafePoint) (len : ℕ) (sorted : IsSorted begin len) where
  at_or_below : (i j : ℕ) → j < len → (j < i) ⊎ ((begin i).addr ≤ (begin j).addr)
  at_or_below i j h = elim (less_or_not j i) [
    | inl (k, _) ↦ inl k
    | inr (k, _) ↦ inr (sorted i j k h)
  ]

  -- What is found on one side of c is found in all; what is not there is not in the other side.
  widen_right :
      (l c r : ℕ) (o : Option ℕ)
      → c < len
      → (begin c).addr < key
      → Finds key begin (c + 1) r o
      → Finds key begin l r o
  widen_right l c r (some j) h k f = f
  widen_right l c r none h k f = λ i a b e. elim (at_or_below i c h) [
    | inl m ↦ f i (omega arith) b e
    | inr m ↦ absurd (omega (arith, m, k, e))
  ]

  widen_left :
      (l c r : ℕ) (o : Option ℕ)
      → c < r
      → r ≤ len
      → key < (begin c).addr
      → Finds key begin l c o
      → Finds key begin l r o
  widen_left l c r (some j) h n k (a, e) = (omega arith, e)
  widen_left l c r none h n k f = λ i a b e. elim (at_or_below c i (omega arith)) [
    | inl m ↦ f i a m e
    | inr m ↦ absurd (omega (arith, m, k, e))
  ]

  search_loop-Finds :
      (fuel l r : ℕ)
      → l ≤ r
      → r ≤ len
      → r + 1 ≤ l + fuel
      → (o : Option ℕ) × ((search_loop fuel key begin l r ≡ some o) × Finds key begin l r o)
  unfolding search_loop
  search_loop-Finds zero l r g h k = absurd (omega arith)
  search_loop-Finds (suc fuel) l r g h k = elim (less_or_not l r) [
    | inr (m, b) ↦ rw b (none, (refl, λ i a d. absurd (omega arith)))
    | inl (m, b) ↦ rw b (elim (same_or_not (begin ((l + r) / 2)).addr key) [
      | inl (e, c) ↦ rw c (some ((l + r) / 2), (refl, (omega arith, e)))
      | inr (n, c) ↦ rw c (elim (less_or_not (begin ((l + r) / 2)).addr key) [
        | inl (a, d) ↦ rw d (
            let (o, (e, f)) =
              search_loop-Finds fuel ((l + r) / 2 + 1) r (omega arith) h (omega arith) in
            (o, (e, widen_right l ((l + r) / 2) r o (omega arith) a f)))
        | inr (a, d) ↦ rw d (
            let (o, (e, f)) =
              search_loop-Finds fuel l ((l + r) / 2) (omega arith) (omega arith) (omega arith) in
            (o, (e, widen_left l ((l + r) / 2) r o (omega arith) h (omega (arith, a, n)) f)))
      ])
    ])
  ]

  -- In a table sorted by address the search ends within its fuel: with the index of an entry that
  -- has the address, or with NULL if no entry has it.
  pub binary_search-Finds :
      (o : Option ℕ) × ((binary_search key begin len ≡ some o) × Finds key begin 0 len o)
  unfolding binary_search
  binary_search-Finds = search_loop-Finds (len + 1) 0 len (omega arith) (omega arith) (omega arith)

-- The entries of a table with a given address, up to `num_points`.
abbrev pub HasPoint : ℕ → Option ℕ → Gcroot → Type 0
HasPoint key layout g =
    (i : ℕ) × ((i < g.num_points) × (((g.item i).addr ≡ key) × ((g.item i).layout ≡ layout)))

-- Every table is sorted, and the address is in all of them only with the layout.
abbrev pub IsTable : ℕ → Option ℕ → Gcroot → Type 0
IsTable key layout g =
    IsSorted g.item g.num_points
    × ((i : ℕ) → i < g.num_points → (g.item i).addr ≡ key → (g.item i).layout ≡ layout)

-- The list has a table with the address.
abbrev pub Listed : ℕ → Option ℕ → List Gcroot → Type 0
Listed key layout [] = ⊥
Listed key layout (g ∷ gs) = HasPoint key layout g ⊎ Listed key layout gs

found_lem :
    (key : ℕ) (layout : Option ℕ) (g : Gcroot) (gs : List Gcroot) (o : Option ℕ)
    → ((i : ℕ) → i < g.num_points → (g.item i).addr ≡ key → (g.item i).layout ≡ layout)
    → Finds key g.item 0 g.num_points o
    → HasPoint key layout g ⊎ Listed key layout gs
    → (Listed key layout gs → sml_lookup_frametable key gs ≡ some layout)
    → found_in g (some o) (sml_lookup_frametable key gs) ≡ some layout
found_lem key layout g gs (some j) u (k, e) h rest = ap some (u j k e)
found_lem key layout g gs none u f (inr h) rest = rest h
found_lem key layout g gs none u f (inl (i, (k, (e, _)))) rest = absurd (f i (omega arith) k e)

-- An address that is in some of the tables, with one layout wherever it is, is found with that
-- layout, if all the tables are sorted: `sml_lookup_frametable` does not stop the program.
pub lookup_frametable-Listed :
    (key : ℕ) (layout : Option ℕ) (gs : List Gcroot)
    → All (IsTable key layout) gs
    → Listed key layout gs
    → sml_lookup_frametable key gs ≡ some layout
unfolding sml_lookup_frametable
lookup_frametable-Listed key layout [] a h = absurd h
lookup_frametable-Listed key layout (g ∷ gs) ((s, u), a) h =
    let (o, (e, f)) = binary_search-Finds key g.item g.num_points s in
    ap (λ x. found_in g x (sml_lookup_frametable key gs)) e
    ∙ found_lem key layout g gs o u f h (λ k. lookup_frametable-Listed key layout gs a k)
