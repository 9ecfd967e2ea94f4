-- ===== src/Mark/Trace.antt =====
-- `trace` (smlsharp/src/runtime/heap_concurrent.c, lines 1175 to 1188) marks what is reachable.
use mathlib.Core.List.{Memᴰ}
use mathlib.Core.List.Memᴰ
use smlsharp_completions_gen.Base.{
  ℕ, zero, suc, ◌+◌, ◌≤◌, ◌≡◌, ◌≢◌, ◌⊎◌, inl, inr, not, ◌||◌, true, arith, refl, ap, sym, ◌∙◌,
  subst, same_or_not, Option, some, List, [], ◌∷◌, length, foldl,
}
use smlsharp_completions_gen.Object.Enum.Fold.{pointers, enum_ptr-foldl}
use smlsharp_completions_gen.Mark.{Heap, Marks, push, continue_with, trace, is_alive}
use smlsharp_completions_gen.Mark.Visit.{is_target, is_marked, is_alive_lem}
use smlsharp_completions_gen.Mark.Stack.{
  Linked, IsArena, Pushed, unmarked, pushes-Pushed, alive_still, alive_marked,
}

-- Reachable from some objects over pointers.
pub data Reach (h : Heap) (roots : List ℕ) : ℕ → Type 0 where
  root : {x : ℕ} → Memᴰ x roots → Reach h roots x
  child : {x y : ℕ} → Reach h roots x → Memᴰ y (pointers (h.object x)) → Reach h roots y

-- What an object points to is alive.
abbrev pub HasAliveChildren : Heap → Marks → ℕ → Type 0
HasAliveChildren h m x = (y : ℕ) → Memᴰ y (pointers (h.object x)) → is_alive h y m ≡ true

-- The invariant of the three colours: a marked object is on the stack, or all that it points to is
-- alive.
abbrev pub IsTricolour : Heap → List ℕ → Marks → List ℕ → Type 0
IsTricolour h objects m xs =
    (x : ℕ) → Memᴰ x objects → is_marked h m x ≡ true → Memᴰ x xs ⊎ HasAliveChildren h m x

-- A stack of marked objects, and marks in three colours.
pub record IsTracing (h : Heap) (objects : List ℕ) (m : Marks) (top : ℕ) (xs : List ℕ)
    : Type 0 where
  pub linked : Linked m top xs
  pub grey : (z : ℕ) → Memᴰ z xs → Memᴰ z objects × (is_marked h m z ≡ true)
  pub tricolour : IsTricolour h objects m xs

-- The marks at the end: nothing is unmarked, what a marked object points to is alive, and what is
-- marked was before or is reachable from the stack.
pub record IsTraced (h : Heap) (objects : List ℕ) (m : Marks) (xs : List ℕ) (m' : Marks)
    : Type 0 where
  pub keeps : (z : ℕ) → is_marked h m z ≡ true → is_marked h m' z ≡ true
  pub closed : (x : ℕ) → Memᴰ x objects → is_marked h m' x ≡ true → HasAliveChildren h m' x
  pub sound :
      (x : ℕ) → Memᴰ x objects → is_marked h m' x ≡ true → (is_marked h m x ≡ true) ⊎ Reach h xs x

marked_of_alive :
    (h : Heap) (x : ℕ) (m : Marks)
    → is_target h x ≡ true
    → is_alive h x m ≡ true
    → is_marked h m x ≡ true
marked_of_alive h x m t a = sym (is_alive_lem h x m ∙ ap (λ b. not b || is_marked h m x) t) ∙ a

some-injective : {x y : Marks} → ◌≡◌ {A = Option Marks} (some x) (some y) → x ≡ y
some-injective e = cc e

module _ (h : Heap) (objects : List ℕ) (arena : IsArena h objects) where
  done-IsTraced : (m : Marks) → IsTricolour h objects m [] → IsTraced h objects m [] m
  done-IsTraced m t = record {
    keeps = λ z e. e;
    closed = λ x o e. elim (t x o e) [ inl k ↦ absurd (Memᴰ.not-nil k) | inr a ↦ a ];
    sound = λ x o e. inl e;
  }

  -- From the stack after an object has been traced.
  path_from_stack :
      (x : ℕ) (rest ys : List ℕ) {z : ℕ}
      → ((w : ℕ) → Memᴰ w ys → Memᴰ w rest ⊎ Memᴰ w (pointers (h.object x)))
      → Reach h ys z
      → Reach h (x ∷ rest) z
  path_from_stack x rest ys {z} o (root k) = elim (o z k) [
    | inl r ↦ root (Memᴰ.tail r)
    | inr c ↦ child (root (Memᴰ.head refl)) c
  ]
  path_from_stack x rest ys o (child r k) = child (path_from_stack x rest ys o r) k

  turn-IsTracing :
      (m : Marks) (x : ℕ) (rest : List ℕ) (m' : Marks) (top' : ℕ) (ys : List ℕ)
      → IsTricolour h objects m (x ∷ rest)
      → Pushed h objects (pointers (h.object x)) m rest m' top' ys
      → IsTracing h objects m' top' ys
  turn-IsTracing m x rest m' top' ys t p = record {
    linked = p.linked;
    grey = p.grey;
    tricolour = λ z o e. elim (p.fresh z o e) [
      | inr k ↦ inl k
      | inl was ↦ elim (t z o was) [
        | inr a ↦ inr (λ y k. alive_still h objects arena m m' y p.keeps (a y k))
        | inl k ↦ elim (Memᴰ.cases_cons k) [
          | inl same ↦ inr (λ y c. p.alive y (subst (λ w. Memᴰ y (pointers (h.object w))) same c))
          | inr r ↦ inl (p.stays z r)
        ]
      ]
    ];
  }

  turn-IsTraced :
      (m : Marks) (x : ℕ) (rest : List ℕ) (m' : Marks) (top' : ℕ) (ys : List ℕ) (end : Marks)
      → Pushed h objects (pointers (h.object x)) m rest m' top' ys
      → IsTraced h objects m' ys end
      → IsTraced h objects m (x ∷ rest) end
  turn-IsTraced m x rest m' top' ys end p d = record {
    keeps = λ z e. d.keeps z (p.keeps z e);
    closed = d.closed;
    sound = λ z o e. elim (d.sound z o e) [
      | inr r ↦ inr (path_from_stack x rest ys p.origin r)
      | inl k ↦ elim (p.fresh z o k) [
        | inl was ↦ inl was
        | inr q ↦ inr (path_from_stack x rest ys p.origin (root q))
      ]
    ];
  }

  -- One turn of the loop.
  trace_turn :
      (fuel x : ℕ) (m : Marks)
      → x ≢ 0
      → Memᴰ x objects
      → trace h (suc fuel) x m
        ≡ trace h fuel
            (foldl (push h) (m, m.next x) (pointers (h.object x))).1
            (foldl (push h) (m, m.next x) (pointers (h.object x))).0
  unfolding trace
  trace_turn fuel x m n o = elim (same_or_not x 0) [
    | inl (e, _) ↦ absurd (n e)
    | inr (_, b) ↦ rw b (
        ap (continue_with h (trace h fuel))
          (enum_ptr-foldl (push h) (m, m.next x) (h.object x) (arena.typed x o)))
  ]

  -- With fuel for the objects that are on the stack or not yet marked, `trace` ends. Where each
  -- marked object was on the stack or pointed to nothing but what is alive, afterwards all that a
  -- marked object points to is alive; no object has lost its mark, and those that have got one are
  -- reachable from the stack.
  pub trace-IsTraced :
      (fuel : ℕ) (m : Marks) (top : ℕ) (xs : List ℕ)
      → IsTracing h objects m top xs
      → unmarked h m objects + length xs ≤ fuel
      → (m' : Marks) × ((trace h fuel top m ≡ some m') × IsTraced h objects m xs m')
  unfolding trace
  trace-IsTraced zero m top [] t w = (m, (rw t.linked refl, done-IsTraced m t.tricolour))
  trace-IsTraced zero m top (x ∷ xs) t w = absurd (omega arith)
  trace-IsTraced (suc fuel) m top [] t w = (m, (rw t.linked refl, done-IsTraced m t.tricolour))
  trace-IsTraced (suc fuel) m top (x ∷ rest) t w =
      let (o, _) = t.grey x (Memᴰ.head refl) in
      let (e, (n, l)) = t.linked in
      let (ys, p) =
        pushes-Pushed h objects arena (pointers (h.object x)) m (m.next x) rest
          (λ y k. arena.closed x y o k) l (λ z k. t.grey z (Memᴰ.tail k)) in
      let (end, (ends, traced)) =
        trace-IsTraced fuel _ _ ys (turn-IsTracing m x rest _ _ ys t.tricolour p)
          (omega (arith, p.work)) in
      (
        end,
        (
          ap (λ a. trace h (suc fuel) a m) e ∙ trace_turn fuel x m n o ∙ ends,
          turn-IsTraced m x rest _ _ ys end p traced,
        ),
      )

-- Reachable over objects that the collector is to find out about.
pub data LiveFrom (h : Heap) (roots : List ℕ) : ℕ → Type 0 where
  live_root : {x : ℕ} → Memᴰ x roots → LiveFrom h roots x
  live_child :
      {x y : ℕ}
      → LiveFrom h roots x
      → is_target h x ≡ true
      → Memᴰ y (pointers (h.object x))
      → LiveFrom h roots y

module _ (h : Heap) (objects : List ℕ) (arena : IsArena h objects) where
  -- The objects that are found: alive, and marked if they are to be.
  abbrev IsFound : Marks → ℕ → Type 0
  IsFound m x =
      (is_alive h x m ≡ true) × (is_target h x ≡ true → Memᴰ x objects × (is_marked h m x ≡ true))

  live-IsFound :
      (m : Marks) (xs : List ℕ) (m' : Marks)
      → ((z : ℕ) → Memᴰ z xs → Memᴰ z objects × (is_marked h m z ≡ true))
      → IsTraced h objects m xs m'
      → {x : ℕ} → LiveFrom h xs x
      → IsFound m' x
  live-IsFound m xs m' g d {x} (live_root k) =
      let (o, e) = g x k in
      let marked = d.keeps x e in (alive_marked h objects arena x m' marked, λ t. (o, marked))
  live-IsFound m xs m' g d {x = y} (live_child {x} r t k) =
      let (o, marked) = (live-IsFound m xs m' g d r).1 t in
      let alive = d.closed x o marked y k in
      (alive, λ u. (arena.closed x y o k u, marked_of_alive h y m' u alive))

  -- After `trace` every object that is reachable from the stack over objects that were there at the
  -- snapshot is alive, as `is_alive` tells.
  pub trace-live :
      (m : Marks) (top : ℕ) (xs : List ℕ) (m' : Marks) (x : ℕ)
      → IsTracing h objects m top xs
      → trace h (unmarked h m objects + length xs) top m ≡ some m'
      → LiveFrom h xs x
      → is_alive h x m' ≡ true
  trace-live m top xs m' x t e r =
      let (end, (ends, traced)) =
        trace-IsTraced h objects arena (unmarked h m objects + length xs) m top xs t
          (omega arith) in
      let same : end ≡ m' = some-injective (sym ends ∙ e) in
      subst (λ w. is_alive h x w ≡ true) same (live-IsFound m xs end t.grey traced r).0
