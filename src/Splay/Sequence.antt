-- ===== src/Splay/Sequence.antt =====
-- The abstract view of a tree: its items as a strictly increasing list, with the operations of a
-- set of items that overwrites equal ones. It models no code; the operations of
-- smlsharp/src/runtime/splay.c are proved to implement it.
pub mod Unique
use smlsharp_completions_gen.Base.{
  ◌≡◌, refl, ap, ◌∙◌, lt, eq, gt, Option, none, some, List, [], ◌∷◌, ◌++◌, arith, ℕ, suc, ◌+◌,
  length, true, false, inl, inr, sym, is_none, Ordering-cases,
}
use smlsharp_completions_gen.Base.Predicates.{
  All, All-imp, All-append, All-append_left, All-append_right,
}
use smlsharp_completions_gen.Splay.Order.{
  Comparison, ◌≺◌, IsSorted, lt_asymm, eq_symm, lt_of_lt_eq, lt_of_eq_lt,
}

module _ {ℓ} {A : Type ℓ} ⦃c : Comparison A⦄ where
  unfoldable pub lookup : A → List A → Option A
  lookup x [] = none
  lookup x (y ∷ ys) = elim (c.cmp x y) [ eq ↦ some y | _ ↦ lookup x ys ]

  unfoldable pub insert : A → List A → List A
  insert x [] = x ∷ []
  insert x (y ∷ ys) = elim (c.cmp x y) [ lt ↦ x ∷ y ∷ ys | eq ↦ x ∷ ys | gt ↦ y ∷ insert x ys ]

  unfoldable pub remove : A → List A → List A
  remove x [] = []
  remove x (y ∷ ys) = elim (c.cmp x y) [ eq ↦ ys | _ ↦ y ∷ remove x ys ]

  -- `x` is greater, or less, than all the elements.
  abbrev pub Below : A → List A → Type 0
  Below x ys = All (λ y. c.cmp x y ≡ gt) ys

  abbrev pub Above : A → List A → Type 0
  Above x ys = All (λ y. c.cmp x y ≡ lt) ys

  pub lookup-Below : (x : A) (xs ys : List A) → Below x xs → lookup x (xs ++ ys) ≡ lookup x ys
  unfolding lookup
  lookup-Below x [] ys b = refl
  lookup-Below x (y ∷ xs) ys (h, b) = rw (h, lookup) (lookup-Below x xs ys b)

  pub lookup-Above : (x : A) (ys : List A) → Above x ys → lookup x ys ≡ none
  unfolding lookup
  lookup-Above x [] a = refl
  lookup-Above x (y ∷ ys) (h, a) = rw (h, lookup) (lookup-Above x ys a)

  pub lookup_here : (x y : A) (ys : List A) → c.cmp x y ≡ eq → lookup x (y ∷ ys) ≡ some y
  unfolding lookup
  lookup_here x y ys h = rw (h, lookup)

  pub insert-Below : (x : A) (xs ys : List A) → Below x xs → insert x (xs ++ ys) ≡ xs ++ insert x ys
  unfolding insert
  insert-Below x [] ys b = refl
  insert-Below x (y ∷ xs) ys (h, b) = rw (h, insert) (rw (insert-Below x xs ys b))

  pub insert-Above : (x : A) (ys : List A) → Above x ys → insert x ys ≡ x ∷ ys
  unfolding insert
  insert-Above x [] a = refl
  insert-Above x (y ∷ ys) (h, a) = rw (h, insert)

  pub insert_here : (x y : A) (ys : List A) → c.cmp x y ≡ eq → insert x (y ∷ ys) ≡ x ∷ ys
  unfolding insert
  insert_here x y ys h = rw (h, insert)

  pub remove-Below : (x : A) (xs ys : List A) → Below x xs → remove x (xs ++ ys) ≡ xs ++ remove x ys
  unfolding remove
  remove-Below x [] ys b = refl
  remove-Below x (y ∷ xs) ys (h, b) = rw (h, remove) (rw (remove-Below x xs ys b))

  pub remove-Above : (x : A) (ys : List A) → Above x ys → remove x ys ≡ ys
  unfolding remove
  remove-Above x [] a = refl
  remove-Above x (y ∷ ys) (h, a) = rw (h, remove) (rw (remove-Above x ys a))

  pub remove_here : (x y : A) (ys : List A) → c.cmp x y ≡ eq → remove x (y ∷ ys) ≡ ys
  unfolding remove
  remove_here x y ys h = rw (h, remove)

  lookup_head :
      (x k : A) (ys : List A)
      → Above x ys
      → lookup x (k ∷ ys) ≡ elim (c.cmp x k) [ eq ↦ some k | _ ↦ none ]
  unfolding lookup
  lookup_head x k ys a = ground (arith, lookup-Above x ys a)

  insert_head :
      (x k : A) (ys : List A)
      → Above x ys
      → insert x (k ∷ ys) ≡ elim (c.cmp x k) [ lt ↦ x ∷ k ∷ ys | eq ↦ x ∷ ys | gt ↦ k ∷ x ∷ ys ]
  unfolding insert
  insert_head x k ys a = ground (arith, insert-Above x ys a)

  remove_head :
      (x k : A) (ys : List A)
      → Above x ys
      → remove x (k ∷ ys) ≡ elim (c.cmp x k) [ eq ↦ ys | _ ↦ k ∷ ys ]
  unfolding remove
  remove_head x k ys a = ground (arith, remove-Above x ys a)

  -- The operations at a list that is split around an element next to the place of `x`.
  pub lookup_middle :
      (x : A) (xs : List A) (k : A) (ys : List A)
      → Below x xs
      → Above x ys
      → lookup x (xs ++ k ∷ ys) ≡ elim (c.cmp x k) [ eq ↦ some k | _ ↦ none ]
  lookup_middle x xs k ys b a = lookup-Below x xs (k ∷ ys) b ∙ lookup_head x k ys a

  pub insert_middle :
      (x : A) (xs : List A) (k : A) (ys : List A)
      → Below x xs
      → Above x ys
      → insert x (xs ++ k ∷ ys)
        ≡ xs ++ elim (c.cmp x k) [ lt ↦ x ∷ k ∷ ys | eq ↦ x ∷ ys | gt ↦ k ∷ x ∷ ys ]
  insert_middle x xs k ys b a =
      insert-Below x xs (k ∷ ys) b ∙ ap (λ zs. xs ++ zs) (insert_head x k ys a)

  pub remove_middle :
      (x : A) (xs : List A) (k : A) (ys : List A)
      → Below x xs
      → Above x ys
      → remove x (xs ++ k ∷ ys) ≡ xs ++ elim (c.cmp x k) [ eq ↦ ys | _ ↦ k ∷ ys ]
  remove_middle x xs k ys b a =
      remove-Below x xs (k ∷ ys) b ∙ ap (λ zs. xs ++ zs) (remove_head x k ys a)

  -- A sorted list around one of its elements.
  pub record SortedAround (xs : List A) (y : A) (ys : List A) : Type 0 where
    pub lower : All (λ z. z ≺ y) xs
    pub lower_sorted : IsSorted xs
    pub upper : All (λ z. y ≺ z) ys
    pub upper_sorted : IsSorted ys

  pub sorted_around :
      (xs : List A) (y : A) (ys : List A) → IsSorted (xs ++ y ∷ ys) → SortedAround xs y ys
  sorted_around [] y ys (a, s) = record {
    lower = tt;
    lower_sorted = tt;
    upper = a;
    upper_sorted = s;
  }
  sorted_around (x ∷ xs) y ys (a, s) =
      let rest = sorted_around xs y ys s in
      record {
        lower = ((All-append_right _ xs (y ∷ ys) a).0, rest.lower);
        lower_sorted = (All-append_left _ xs (y ∷ ys) a, rest.lower_sorted);
        upper = rest.upper;
        upper_sorted = rest.upper_sorted;
      }

  pub IsSorted-of_around :
      (xs : List A) (y : A) (ys : List A) → SortedAround xs y ys → IsSorted (xs ++ y ∷ ys)
  IsSorted-of_around [] y ys h = (h.upper, h.upper_sorted)
  IsSorted-of_around (x ∷ xs) y ys h =
      let below = h.lower.0 in
      (
        All-append _ xs (y ∷ ys) h.lower_sorted.0
            (below, All-imp (λ z k. c.lt_trans x y z below k) ys h.upper),
        IsSorted-of_around xs y ys (record {
          lower = h.lower.1;
          lower_sorted = h.lower_sorted.1;
          upper = h.upper;
          upper_sorted = h.upper_sorted;
        }),
      )

  -- An element of a sorted list may be exchanged for an equal one.
  pub IsSorted-exchange :
      (xs : List A) (y x : A) (ys : List A)
      → c.cmp x y ≡ eq
      → IsSorted (xs ++ y ∷ ys)
      → IsSorted (xs ++ x ∷ ys)
  IsSorted-exchange xs y x ys e s =
      let h = sorted_around xs y ys s in
      IsSorted-of_around xs x ys (record {
        lower = All-imp (λ z k. lt_of_lt_eq z y x k (eq_symm x y e)) xs h.lower;
        lower_sorted = h.lower_sorted;
        upper = All-imp (λ z k. lt_of_eq_lt x y z e k) ys h.upper;
        upper_sorted = h.upper_sorted;
      })

  pub IsSorted-append_left : (xs ys : List A) → IsSorted (xs ++ ys) → IsSorted xs
  IsSorted-append_left [] ys s = tt
  IsSorted-append_left (x ∷ xs) ys (a, s) =
      (All-append_left _ xs ys a, IsSorted-append_left xs ys s)

  pub IsSorted-append_right : (xs ys : List A) → IsSorted (xs ++ ys) → IsSorted ys
  IsSorted-append_right [] ys s = s
  IsSorted-append_right (x ∷ xs) ys (a, s) = IsSorted-append_right xs ys s

  All-insert : (P : A → Type 0) (x : A) (xs : List A) → P x → All P xs → All P (insert x xs)
  unfolding insert
  All-insert P x [] p a = (p, tt)
  All-insert P x (y ∷ ys) p a = ground (arith, All-insert P x ys p a.1)

  All-remove : (P : A → Type 0) (x : A) (xs : List A) → All P xs → All P (remove x xs)
  unfolding remove
  All-remove P x [] a = tt
  All-remove P x (y ∷ ys) a = ground (arith, All-remove P x ys a.1)

  pub insert-IsSorted : (x : A) (xs : List A) → IsSorted xs → IsSorted (insert x xs)
  unfolding insert
  insert-IsSorted x [] s = (tt, tt)
  insert-IsSorted x (y ∷ ys) (a, s) = elim (Ordering-cases (c.cmp x y)) [
    | inl e ↦ rw (e, insert) ((e, All-imp (λ z q. c.lt_trans x y z e q) ys a), (a, s))
    | inr (inl e) ↦ rw (e, insert) (All-imp (λ z q. lt_of_eq_lt x y z e q) ys a, s)
    | inr (inr e) ↦ rw (e, insert) (All-insert _ x ys (c.lt_of_gt x y e) a, insert-IsSorted x ys s)
  ]

  pub remove-IsSorted : (x : A) (xs : List A) → IsSorted xs → IsSorted (remove x xs)
  unfolding remove
  remove-IsSorted x [] s = tt
  remove-IsSorted x (y ∷ ys) (a, s) =
      ground (arith, All-remove (λ z. y ≺ z) x ys a, remove-IsSorted x ys s)

  -- Two equal items are on the same side of a third, seen from it.
  pub same_side : (y x z : A) → c.cmp x z ≡ eq → c.cmp y x ≡ c.cmp y z
  same_side y x z e = elim (Ordering-cases (c.cmp y z)) [
    | inl h ↦ lt_of_lt_eq y z x h (eq_symm x z e) ∙ sym h
    | inr (inl h) ↦ eq_symm x y (c.cmp_congr x z y e ∙ eq_symm y z h) ∙ sym h
    | inr (inr h) ↦ c.gt_of_lt x y (c.cmp_congr x z y e ∙ c.lt_of_gt y z h) ∙ sym h
  ]

  -- The list with `x` put in only where it holds no equal item.
  unfoldable pub add : A → List A → List A
  add x xs = elim (lookup x xs) [ none ↦ insert x xs | some _ ↦ xs ]

  pub add-IsSorted : (x : A) (xs : List A) → IsSorted xs → IsSorted (add x xs)
  unfolding add
  add-IsSorted x xs s = ground (arith, insert-IsSorted x xs s)

  pub add_absent : (x : A) (xs : List A) → is_none (lookup x xs) ≡ true → add x xs ≡ insert x xs
  unfolding add
  add_absent x xs h = ground arith

  pub add_present : (x : A) (xs : List A) → is_none (lookup x xs) ≡ false → add x xs ≡ xs
  unfolding add
  add_present x xs h = ground arith

  -- A lookup after an insertion finds the new item for whatever is equal to it, and else what was there.
  pub lookup-insert :
      (y x : A) (xs : List A)
      → IsSorted xs
      → lookup y (insert x xs) ≡ elim (c.cmp y x) [ eq ↦ some x | _ ↦ lookup y xs ]
  unfolding insert lookup
  lookup-insert y x [] s = refl
  lookup-insert y x (z ∷ zs) (a, s) = elim (Ordering-cases (c.cmp x z)) [
    | inl e ↦ rw (e, insert, lookup) (ground arith)
    | inr (inl e) ↦ rw (e, insert, lookup) (ground (arith, c.cmp_congr x z y e, same_side y x z e))
    | inr (inr e) ↦
        rw (e, insert, lookup)
          (ground (
            arith,
            lookup-insert y x zs s,
            c.cmp_congr y z x,
            lt_asymm y x,
            c.gt_of_lt z x,
            c.lt_of_gt x z,
            eq_symm y x,
          ))
  ]

  pub lookup_tail :
      (y z : A) (zs : List A)
      → All (λ w. z ≺ w) zs
      → lookup y zs ≡ elim (c.cmp y z) [ eq ↦ none | _ ↦ lookup y (z ∷ zs) ]
  unfolding lookup
  lookup_tail y z zs a = elim (Ordering-cases (c.cmp y z)) [
    | inl h ↦ rw h (rw (h, lookup))
    | inr (inl h) ↦ rw h (lookup-Above y zs (All-imp (λ w q. lt_of_eq_lt y z w h q) zs a))
    | inr (inr h) ↦ rw h (rw (h, lookup))
  ]

  -- After a removal nothing is found for what is equal to the item removed, and else what was there.
  pub lookup-remove :
      (y x : A) (xs : List A)
      → IsSorted xs
      → lookup y (remove x xs) ≡ elim (c.cmp y x) [ eq ↦ none | _ ↦ lookup y xs ]
  unfolding remove lookup
  lookup-remove y x [] s = ground arith
  lookup-remove y x (z ∷ zs) (a, s) = elim (Ordering-cases (c.cmp x z)) [
    | inl e ↦ rw (e, remove, lookup) (ground (arith, lookup-remove y x zs s, c.cmp_congr y x z))
    | inr (inl e) ↦ rw (e, remove, same_side y x z e) (lookup_tail y z zs a)
    | inr (inr e) ↦
        rw (e, remove, lookup) (ground (arith, lookup-remove y x zs s, c.cmp_congr y x z))
  ]

  abbrev pub found : Option A → ℕ
  found none = 0
  found (some a) = 1

  lookup_before : (x y : A) (ys : List A) → x ≺ y → All (λ z. y ≺ z) ys → lookup x ys ≡ none
  lookup_before x y ys e a = lookup-Above x ys (All-imp (λ z q. c.lt_trans x y z e q) ys a)

  pub length-insert :
      (x : A) (xs : List A)
      → IsSorted xs
      → length (insert x xs) + found (lookup x xs) ≡ suc (length xs)
  unfolding insert lookup
  length-insert x [] h = refl
  length-insert x (y ∷ ys) (a, h) =
      ground (arith, length-insert x ys h, λ (e : x ≺ y). lookup_before x y ys e a)

  pub length-remove : (x : A) (xs : List A) → length (remove x xs) + found (lookup x xs) ≡ length xs
  unfolding remove lookup
  length-remove x [] = refl
  length-remove x (y ∷ ys) = ground (arith, length-remove x ys)
