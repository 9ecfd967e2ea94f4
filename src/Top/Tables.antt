-- ===== src/Top/Tables.antt =====
-- `sml_gcroot` and `register_gcroot` (smlsharp/src/runtime/top.c, lines 92 to 211): the tables have
-- room for what is put in them, and the order in which they are listed.
use smlsharp_completions_gen.Base.{
  ℕ, ◌+◌, ◌*◌, ◌≤◌, ◌<◌, ◌≡◌, Option, none, some, List, [], ◌∷◌, inl, inr, append_assoc, append-nil,
  ◌++◌, foldl, length, arith, refl, ap, ◌∙◌, sym, less_or_not,
}
use mathlib.Core.List.{reverse, reverse-cons}
use smlsharp_completions_gen.Splay.Memory.{ceiling, ceiling_bounds}
use smlsharp_completions_gen.Top.{
  SafePoint, Gcroot, FrameLayout, sizeof_gcroot, sizeof_safe_point, page_size, rest_safe_points,
  enlarge, new_gcroot, alloc_safe_points, num_safe_points, put_points, put_layouts, one_top,
  sml_gcroot, register_gcroot,
}

-- The entries are within the memory of the table.
abbrev pub IsStored : Gcroot → Type 0
IsStored g = sizeof_gcroot + (g.num_points + g.num_tops) * sizeof_safe_point ≤ g.allocsize

new_gcroot-IsStored : (memory : ℕ → SafePoint) → IsStored (new_gcroot memory)
unfolding new_gcroot page_size ceiling
new_gcroot-IsStored memory = omega arith

page_size_positive : 0 < page_size
unfolding page_size ceiling
page_size_positive = omega arith

alloc_safe_points-IsStored :
    (inc : ℕ) (g : Gcroot) → IsStored g → IsStored (alloc_safe_points inc g)
unfolding alloc_safe_points rest_safe_points enlarge
alloc_safe_points-IsStored inc g h = ground (
  arith,
  ceiling_bounds (sizeof_gcroot + (g.num_points + g.num_tops + inc) * sizeof_safe_point) page_size
      page_size_positive,
)

alloc_counts :
    (inc : ℕ) (g : Gcroot)
    → ((alloc_safe_points inc g).num_points ≡ g.num_points + inc)
      × (((alloc_safe_points inc g).num_tops ≡ g.num_tops)
          × ((alloc_safe_points inc g).item ≡ g.item))
unfolding alloc_safe_points enlarge
alloc_counts inc g = elim (less_or_not (rest_safe_points g) inc) [
  | inl (a, b) ↦ rw b (refl, (refl, refl))
  | inr (a, b) ↦ rw b (refl, (refl, refl))
]

put_points_end :
    (base t : ℕ) (os : List ℕ) (dst : ℕ) (item : ℕ → SafePoint)
    → (put_points base t os dst item).1 ≡ dst + length os
unfolding put_points
put_points_end base t [] dst item = omega arith
put_points_end base t (o ∷ os) dst item = omega (arith, put_points_end base t os (dst + 1) _)

put_points_below :
    (base t : ℕ) (os : List ℕ) (dst : ℕ) (item : ℕ → SafePoint) (i : ℕ)
    → i < dst
    → (put_points base t os dst item).0 i ≡ item i
unfolding put_points
put_points_below base t [] dst item i h = refl
put_points_below base t (o ∷ os) dst item i h =
    put_points_below base t os (dst + 1) _ i (omega arith) ∙ ground arith

put_layouts_end :
    (base : ℕ) (ts : List FrameLayout) (dst : ℕ) (item : ℕ → SafePoint)
    → (put_layouts base ts dst item).1 ≡ dst + num_safe_points ts
unfolding put_layouts num_safe_points
put_layouts_end base [] dst item = omega arith
put_layouts_end base (t ∷ ts) dst item = omega (
  arith,
  put_points_end base t.address t.safe_points dst item,
  put_layouts_end base ts (put_points base t.address t.safe_points dst item).1
      (put_points base t.address t.safe_points dst item).0,
)

put_layouts_below :
    (base : ℕ) (ts : List FrameLayout) (dst : ℕ) (item : ℕ → SafePoint) (i : ℕ)
    → i < dst
    → (put_layouts base ts dst item).0 i ≡ item i
unfolding put_layouts
put_layouts_below base [] dst item i h = refl
put_layouts_below base (t ∷ ts) dst item i h =
    put_layouts_below base ts (put_points base t.address t.safe_points dst item).1
      (put_points base t.address t.safe_points dst item).0 i
      (omega (arith, put_points_end base t.address t.safe_points dst item))
    ∙ put_points_below base t.address t.safe_points dst item i h

-- What `sml_gcroot` is to leave of a table.
pub record IsExtended (base : ℕ) (ftab : List FrameLayout) (root : Option ℕ) (g : Gcroot)
    : Type 0 where
  pub stored : IsStored (sml_gcroot base ftab root g).0
  pub points : (sml_gcroot base ftab root g).0.num_points ≡ g.num_points + num_safe_points ftab
  pub tops : (sml_gcroot base ftab root g).0.num_tops ≡ g.num_tops + one_top root
  pub filled :
      (sml_gcroot base ftab root g).1
      ≡ (sml_gcroot base ftab root g).0.num_points + (sml_gcroot base ftab root g).0.num_tops

-- Extending a table whose entries are within its memory leaves such a table: it counts the new
-- safe points and the new toplevel objects, and the writing has ended just behind the last entry
-- that is counted.
pub sml_gcroot-IsExtended :
    (base : ℕ) (ftab : List FrameLayout) (root : Option ℕ) (g : Gcroot)
    → IsStored g
    → IsExtended base ftab root g
unfolding sml_gcroot
sml_gcroot-IsExtended base ftab none g h =
    let inc = num_safe_points ftab + 0 in
    let end' =
      put_layouts_end base ftab (g.num_points + g.num_tops) (alloc_safe_points inc g).item in
    let (np, (nt, _)) = alloc_counts inc g in
    record {
      stored = alloc_safe_points-IsStored inc g h;
      points = omega (arith, np);
      tops = omega (arith, nt);
      filled = omega (arith, end', np, nt);
    }
sml_gcroot-IsExtended base ftab (some tops) g h =
    let inc = num_safe_points ftab + 1 in
    let end' =
      put_layouts_end base ftab (g.num_points + g.num_tops) (alloc_safe_points inc g).item in
    let (np, (nt, _)) = alloc_counts inc g in
    record {
      stored = omega (arith, alloc_safe_points-IsStored inc g h, np, nt);
      points = omega (arith, np);
      tops = omega (arith, nt);
      filled = omega (arith, end', np, nt);
    }

-- The entries that a table had before it is extended are kept.
pub sml_gcroot_below :
    (base : ℕ) (ftab : List FrameLayout) (root : Option ℕ) (g : Gcroot) (i : ℕ)
    → i < g.num_points + g.num_tops
    → (sml_gcroot base ftab root g).0.item i ≡ g.item i
unfolding sml_gcroot
sml_gcroot_below base ftab none g i h =
    put_layouts_below base ftab (g.num_points + g.num_tops) _ i h
    ∙ ap (λ f. f i) (alloc_counts (num_safe_points ftab + 0) g).1.1
sml_gcroot_below base ftab (some tops) g i h =
    ground (
      arith,
      put_layouts_end base ftab (g.num_points + g.num_tops)
          (alloc_safe_points (num_safe_points ftab + 1) g).item,
    )
    ∙ put_layouts_below base ftab (g.num_points + g.num_tops)
        (alloc_safe_points (num_safe_points ftab + 1) g).item i h
    ∙ ap (λ f. f i) (alloc_counts (num_safe_points ftab + 1) g).1.1

register_after {ℓ} :
    {A : Type ℓ} (first : A) (rest gs : List A)
    → foldl register_gcroot (first ∷ rest) gs ≡ first ∷ (reverse gs ++ rest)
unfolding register_gcroot
register_after first rest [] = refl
register_after first rest (g ∷ gs) =
    register_after first (g ∷ rest) gs
    ∙ ap (λ l. first ∷ l) (sym (append_assoc (reverse gs) (g ∷ []) rest))
    ∙ ap (λ l. first ∷ (l ++ rest)) (sym (reverse-cons g gs))

-- Registering tables one after the other lists the first one first, then the others from the last
-- to the second.
pub register_gcroot_order {ℓ} :
    {A : Type ℓ} (g : A) (gs : List A) → foldl register_gcroot [] (g ∷ gs) ≡ g ∷ reverse gs
unfolding register_gcroot
register_gcroot_order g gs = register_after g [] gs ∙ ap (λ l. g ∷ l) (append-nil (reverse gs))
