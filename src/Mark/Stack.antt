-- ===== src/Mark/Stack.antt =====
-- `push` (smlsharp/src/runtime/heap_concurrent.c, lines 1147 to 1162) onto the stack that is linked
-- through the slots.
use mathlib.Core.List.{Memᴰ}
use mathlib.Core.List.Memᴰ
use mathlib.Core.Bool.{true≢false}
use smlsharp_completions_gen.Base.{
  ℕ, ◌+◌, ◌≤◌, ◌<◌, ◌≡◌, ◌≢◌, ◌⊎◌, inl, inr, ◌||◌, ◌&&◌, not, true, false, if◌then◌else◌, arith,
  refl, ap, sym, ◌∙◌, subst, Bool-cases, same_or_not, List, [], ◌∷◌, length, foldl,
}
use smlsharp_completions_gen.Object.{obj_type}
use smlsharp_completions_gen.Object.Enum.Pointers.{IsUsed}
use smlsharp_completions_gen.Object.Enum.Fold.{pointers}
use smlsharp_completions_gen.Mark.{
  Heap, Marks, link, push, is_alive, set_collect, set_malloc_collect,
}
use smlsharp_completions_gen.Mark.Visit.{
  is_target, is_marked, same_bit, set_mark, is_alive_lem, visit_lem, set_mark_lem,
}

-- The stack has the objects of a list, from the top on.
abbrev pub Linked : Marks → ℕ → List ℕ → Type 0
Linked m top [] = top ≡ 0
Linked m top (x ∷ xs) = (top ≡ x) × ((x ≢ 0) × Linked m (m.next x) xs)

chain_unchanged :
    (m m' : Marks) (top : ℕ) (xs : List ℕ)
    → ((z : ℕ) → Memᴰ z xs → m'.next z ≡ m.next z)
    → Linked m top xs
    → Linked m' top xs
chain_unchanged m m' top [] e l = l
chain_unchanged m m' top (x ∷ xs) e (a, (n, l)) = (
  a,
  (
    n,
    subst (λ t. Linked m' t xs) (sym (e x (Memᴰ.head refl)))
        (chain_unchanged m m' (m.next x) xs (λ z k. e z (Memᴰ.tail k)) l),
  ),
)

-- The objects that there are: each has a type and collect bits of its own, and what an object points
-- to is one of them, if the collector is to find out about it.
pub record IsArena (h : Heap) (objects : List ℕ) : Type 0 where
  pub typed : (x : ℕ) → Memᴰ x objects → IsUsed (obj_type (h.object x))
  pub apart : (x y : ℕ) → Memᴰ x objects → Memᴰ y objects → same_bit h x y ≡ true → x ≡ y
  pub closed :
      (x y : ℕ)
      → Memᴰ x objects
      → Memᴰ y (pointers (h.object x))
      → is_target h y ≡ true
      → Memᴰ y objects

module _ (h : Heap) where
  -- How many of some objects are not marked.
  abbrev pub unmarked : Marks → List ℕ → ℕ
  unmarked m [] = 0
  unmarked m (x ∷ xs) = (if is_marked h m x then 0 else 1) + unmarked m xs

  unmarked_le :
      (m m' : Marks) (xs : List ℕ)
      → ((z : ℕ) → is_marked h m z ≡ true → is_marked h m' z ≡ true)
      → unmarked m' xs ≤ unmarked m xs
  unmarked_le m m' [] k = omega arith
  unmarked_le m m' (x ∷ xs) k = elim (Bool-cases (is_marked h m x)) [
    | inl b ↦ rw (b, k x b) (omega (arith, unmarked_le m m' xs k))
    | inr b ↦ rw b (elim (Bool-cases (is_marked h m' x)) [
      | inl c ↦ rw c (omega (arith, unmarked_le m m' xs k))
      | inr c ↦ rw c (omega (arith, unmarked_le m m' xs k))
    ])
  ]

  unmarked_lt :
      (m m' : Marks) (y : ℕ) (xs : List ℕ)
      → ((z : ℕ) → is_marked h m z ≡ true → is_marked h m' z ≡ true)
      → is_marked h m y ≡ false
      → is_marked h m' y ≡ true
      → Memᴰ y xs
      → unmarked m' xs < unmarked m xs
  unmarked_lt m m' y [] k a b t = absurd (Memᴰ.not-nil t)
  unmarked_lt m m' y (x ∷ xs) k a b (Memᴰ.head e) =
      let was = subst (λ z. is_marked h m z ≡ false) e a in
      let now = subst (λ z. is_marked h m' z ≡ true) e b in
      rw (was, now) (omega (arith, unmarked_le m m' xs k))
  unmarked_lt m m' y (x ∷ xs) k a b (Memᴰ.tail t) = elim (Bool-cases (is_marked h m x)) [
    | inl c ↦ rw (c, k x c) (omega (arith, unmarked_lt m m' y xs k a b t))
    | inr c ↦ rw c (elim (Bool-cases (is_marked h m' x)) [
      | inl d ↦ rw d (omega (arith, unmarked_lt m m' y xs k a b t))
      | inr d ↦ rw d (omega (arith, unmarked_lt m m' y xs k a b t))
    ])
  ]

  -- `push` as one test.
  push_lem :
      (m : Marks) (top y : ℕ)
      → push h (m, top) y ≡ (
          if is_target h y && not (is_marked h m y)
          then (link h y top (set_mark h y m), y)
          else (m, top))
  unfolding push
  push_lem m top y = elim (Bool-cases (is_target h y && not (is_marked h m y))) [
    | inl b ↦ rw (visit_lem h y m, b) refl
    | inr b ↦ rw (visit_lem h y m, b) refl
  ]

  set_mark_next : (y : ℕ) (m : Marks) (z : ℕ) → (set_mark h y m).next z ≡ m.next z
  unfolding set_mark set_collect set_malloc_collect
  set_mark_next y m z = ground arith

  target_not_null : (y : ℕ) → is_target h y ≡ true → y ≢ 0
  target_not_null y t = ground arith

  marked_here : (y : ℕ) (m : Marks) → is_marked h (set_mark h y m) y ≡ true
  marked_here y m = rw (set_mark_lem h y y m) (ground arith)

  marked_still :
      (y : ℕ) (m : Marks) (z : ℕ) → is_marked h m z ≡ true → is_marked h (set_mark h y m) z ≡ true
  marked_still y m z e = rw (set_mark_lem h y z m, e) (ground arith)

-- What pushing does to a stack: from one state and list to another, with what it pushed from.
pub record Pushed (h : Heap) (objects from : List ℕ) (m : Marks) (xs : List ℕ) (m' : Marks)
    (top' : ℕ) (xs' : List ℕ) : Type 0 where
  pub linked : Linked m' top' xs'
  pub keeps : (z : ℕ) → is_marked h m z ≡ true → is_marked h m' z ≡ true
  pub stays : (z : ℕ) → Memᴰ z xs → Memᴰ z xs'
  pub origin : (z : ℕ) → Memᴰ z xs' → Memᴰ z xs ⊎ Memᴰ z from
  pub grey : (z : ℕ) → Memᴰ z xs' → Memᴰ z objects × (is_marked h m' z ≡ true)
  pub fresh :
      (z : ℕ) → Memᴰ z objects → is_marked h m' z ≡ true → (is_marked h m z ≡ true) ⊎ Memᴰ z xs'
  pub alive : (z : ℕ) → Memᴰ z from → is_alive h z m' ≡ true
  pub work : unmarked h m' objects + length xs' ≤ unmarked h m objects + length xs

module _ (h : Heap) (objects : List ℕ) (arena : IsArena h objects) where
  abbrev pub IsGrey : Marks → List ℕ → Type 0
  IsGrey m xs = (z : ℕ) → Memᴰ z xs → Memᴰ z objects × (is_marked h m z ≡ true)

  next_other :
      (m : Marks) (top y z : ℕ)
      → is_marked h m y ≡ false
      → is_marked h m z ≡ true
      → (link h y top (set_mark h y m)).next z ≡ m.next z
  next_other m top y z u v = elim (same_or_not z y) [
    | inl (e, _) ↦ absurd (true≢false (sym v ∙ ap (is_marked h m) e ∙ u))
    | inr (_, b) ↦ rw b (set_mark_next h y m z)
  ]

  pub alive_marked : (z : ℕ) (m : Marks) → is_marked h m z ≡ true → is_alive h z m ≡ true
  alive_marked z m e = rw (is_alive_lem h z m, e) (ground arith)

  alive_other : (z : ℕ) (m : Marks) → is_target h z ≡ false → is_alive h z m ≡ true
  alive_other z m e = rw (is_alive_lem h z m, e) refl

  -- One push.
  push_new :
      (m : Marks) (top y : ℕ) (xs : List ℕ)
      → Memᴰ y objects
      → is_target h y ≡ true
      → is_marked h m y ≡ false
      → Linked m top xs
      → IsGrey m xs
      → Pushed h objects (y ∷ []) m xs (link h y top (set_mark h y m)) y (y ∷ xs)
  push_new m top y xs o t u l g = record {
    linked = (
      refl,
      (
        target_not_null h y t,
        subst (λ a. Linked (link h y top (set_mark h y m)) a xs) {x = top} (ground arith)
            (chain_unchanged m (link h y top (set_mark h y m)) top xs
              (λ z k. next_other m top y z u (g z k).1) l),
      ),
    );
    keeps = λ z e. marked_still h y m z e;
    stays = λ z k. Memᴰ.tail k;
    origin = λ z k. elim (Memᴰ.cases_cons k) [ inl e ↦ inr (Memᴰ.head e) | inr k' ↦ inl k' ];
    grey = λ z k. elim (Memᴰ.cases_cons k) [
      | inl e ↦
          subst (λ x. Memᴰ x objects × (is_marked h (set_mark h y m) x ≡ true)) (sym e)
            (o, marked_here h y m)
      | inr k' ↦ ((g z k').0, marked_still h y m z (g z k').1)
    ];
    fresh = λ z a b. elim (Bool-cases (same_bit h y z)) [
      | inl e ↦ inr (Memᴰ.head (sym (arena.apart y z o a e)))
      | inr e ↦ inl (sym (set_mark_lem h y z m ∙ ap (λ c. c || is_marked h m z) e) ∙ b)
    ];
    alive = λ z k. alive_marked z (link h y top (set_mark h y m)) (
        subst (λ x. is_marked h (set_mark h y m) x ≡ true) (sym (Memᴰ.eq_of_singleton k))
          (marked_here h y m));
    work = omega (
      arith,
      unmarked_lt h m (set_mark h y m) y objects (marked_still h y m) u (marked_here h y m) o,
    );
  }

  push_old :
      (m : Marks) (top y : ℕ) (xs : List ℕ)
      → is_alive h y m ≡ true
      → Linked m top xs
      → IsGrey m xs
      → Pushed h objects (y ∷ []) m xs m top xs
  push_old m top y xs a l g = record {
    linked = l;
    keeps = λ z e. e;
    stays = λ z k. k;
    origin = λ z k. inl k;
    grey = g;
    fresh = λ z o e. inl e;
    alive = λ z k. subst (λ x. is_alive h x m ≡ true) (sym (Memᴰ.eq_of_singleton k)) a;
    work = omega arith;
  }

  push-Pushed :
      (m : Marks) (top y : ℕ) (xs : List ℕ)
      → (is_target h y ≡ true → Memᴰ y objects)
      → Linked m top xs
      → IsGrey m xs
      → (xs' : List ℕ) × Pushed h objects
          (y ∷ [])
          m
          xs
          (push h (m, top) y).0
          (push h (m, top) y).1
          xs'
  push-Pushed m top y xs o l g = elim (Bool-cases (is_target h y)) [
    | inr t ↦ rw (push_lem h m top y, t) (xs, push_old m top y xs (alive_other y m t) l g)
    | inl t ↦ elim (Bool-cases (is_marked h m y)) [
      | inl u ↦ rw (push_lem h m top y, t, u) (xs, push_old m top y xs (alive_marked y m u) l g)
      | inr u ↦ rw (push_lem h m top y, t, u) (y ∷ xs, push_new m top y xs (o t) t u l g)
    ]
  ]

  -- Alive objects stay alive.
  pub alive_still :
      (m m' : Marks) (z : ℕ)
      → ((x : ℕ) → is_marked h m x ≡ true → is_marked h m' x ≡ true)
      → is_alive h z m ≡ true
      → is_alive h z m' ≡ true
  alive_still m m' z k a = elim (Bool-cases (is_target h z)) [
    | inr t ↦ alive_other z m' t
    | inl t ↦
        alive_marked z m'
          (k z (sym (is_alive_lem h z m ∙ ap (λ b. not b || is_marked h m z) t) ∙ a))
  ]

  -- The pushes of all the pointers of an object.
  pub pushes-Pushed :
      (ps : List ℕ) (m : Marks) (top : ℕ) (xs : List ℕ)
      → ((y : ℕ) → Memᴰ y ps → is_target h y ≡ true → Memᴰ y objects)
      → Linked m top xs
      → IsGrey m xs
      → (xs' : List ℕ) × Pushed h objects ps m xs
          (foldl (push h) (m, top) ps).0
          (foldl (push h) (m, top) ps).1
          xs'
  pushes-Pushed [] m top xs o l g = (
    xs,
    record {
      linked = l;
      keeps = λ z e. e;
      stays = λ z k. k;
      origin = λ z k. inl k;
      grey = g;
      fresh = λ z a e. inl e;
      alive = λ z k. absurd (Memᴰ.not-nil k);
      work = omega arith;
    },
  )
  pushes-Pushed (y ∷ ps) m top xs o l g =
      let s = push h (m, top) y in
      let (ys, one) = push-Pushed m top y xs (o y (Memᴰ.head refl)) l g in
      let (zs, rest) = pushes-Pushed ps s.0 s.1 ys (λ z k. o z (Memᴰ.tail k)) one.linked one.grey in
      (
        zs,
        record {
          linked = rest.linked;
          keeps = λ z e. rest.keeps z (one.keeps z e);
          stays = λ z k. rest.stays z (one.stays z k);
          origin = λ z k. elim (rest.origin z k) [
            | inr p ↦ inr (Memᴰ.tail p)
            | inl p ↦ elim (one.origin z p) [
              | inl q ↦ inl q
              | inr q ↦ inr (Memᴰ.head (Memᴰ.eq_of_singleton q))
            ]
          ];
          grey = rest.grey;
          fresh = λ z a e. elim (rest.fresh z a e) [
            | inr p ↦ inr p
            | inl p ↦ elim (one.fresh z a p) [ inl q ↦ inl q | inr q ↦ inr (rest.stays z q) ]
          ];
          alive = λ z k. elim (Memᴰ.cases_cons k) [
            | inl e ↦ alive_still s.0 _ z rest.keeps (one.alive z (Memᴰ.head e))
            | inr p ↦ rest.alive z p
          ];
          work = omega (arith, rest.work, one.work);
        },
      )
