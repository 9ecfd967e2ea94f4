-- ===== src/Splay/Loop.antt =====
-- The loop of `splay` (smlsharp/src/runtime/splay.c, lines 257 to 289): one rule for invariants, and
-- where it stops.
use smlsharp_completions_gen.Base.{
  ◌≡◌, refl, Ordering, lt, eq, gt, true, false, ◌∷◌, inl, inr, Ordering-cases, Bool-cases,
}
use smlsharp_completions_gen.Splay.{
  Tree, leaf, node, Spine, Splayed, Next, is_null, turn_left, turn_right, splay,
}
use smlsharp_completions_gen.Splay.Order.{Comparison}

module _ {ℓ} {A : Type ℓ} ⦃c : Comparison A⦄ where
  -- What the steps "rotate" and "link" keep, in both directions, under the tests that lead to them.
  pub record IsInvariant {κ} (x : A) (P : Tree A → Spine A → Spine A → Type κ) : Type (ℓ ⊔ κ) where
    pub rotate_right :
        (ll : Tree A) (lk : A) (lr : Tree A) (k : A) (r : Tree A) (ls gs : Spine A)
        → c.cmp x lk ≡ lt
        → P (node (node ll lk lr) k r) ls gs
        → P (node ll lk (node lr k r)) ls gs
    pub link_right :
        (l : Tree A) (k : A) (r : Tree A) (ls gs : Spine A)
        → c.cmp x k ≡ lt
        → P (node l k r) ls gs
        → P l ls ((k, r) ∷ gs)
    pub rotate_left :
        (l : Tree A) (k : A) (rl : Tree A) (rk : A) (rr : Tree A) (ls gs : Spine A)
        → c.cmp x rk ≡ gt
        → P (node l k (node rl rk rr)) ls gs
        → P (node (node l k rl) rk rr) ls gs
    pub link_left :
        (l : Tree A) (k : A) (r : Tree A) (ls gs : Spine A)
        → c.cmp x k ≡ gt
        → P (node l k r) ls gs
        → P r ((k, l) ∷ ls) gs

  module _ {κ} (x : A) (P : Tree A → Spine A → Spine A → Type κ) (inv : IsInvariant x P) where
    -- The invariant at what the loop leaves.
    abbrev Leaves : Splayed A → Type κ
    Leaves s = P s.tree s.lesser s.greater

    -- What the loop does from a subtree keeps the invariant.
    abbrev Keeps : Next A → Tree A → Type (ℓ ⊔ κ)
    Keeps next t = (ls gs : Spine A) → P t ls gs → Leaves (next ls gs)

    turn_left_inv :
        (ll : Tree A) (lk : A) (lr : Tree A) (k : A) (r : Tree A) (deep next : Next A)
        → Keeps deep ll
        → Keeps next (node ll lk lr)
        → c.cmp x k ≡ lt
        → Keeps (turn_left x ll lk lr k r deep next) (node (node ll lk lr) k r)
    unfolding turn_left
    turn_left_inv ll lk lr k r deep next d n h ls gs p = elim (Ordering-cases (c.cmp x lk)) [
      | inl e ↦ elim (Bool-cases (is_null ll)) [
        | inl b ↦ rw (e, turn_left, b) (inv.rotate_right ll lk lr k r ls gs e p)
        | inr b ↦
            rw (e, turn_left, b)
              (d _ _ (inv.link_right ll lk _ ls gs e (inv.rotate_right ll lk lr k r ls gs e p)))
      ]
      | inr (inl e) ↦ rw (e, turn_left) (n _ _ (inv.link_right _ k r ls gs h p))
      | inr (inr e) ↦ rw (e, turn_left) (n _ _ (inv.link_right _ k r ls gs h p))
    ]

    turn_right_inv :
        (l : Tree A) (k : A) (rl : Tree A) (rk : A) (rr : Tree A) (deep next : Next A)
        → Keeps deep rr
        → Keeps next (node rl rk rr)
        → c.cmp x k ≡ gt
        → Keeps (turn_right x l k rl rk rr deep next) (node l k (node rl rk rr))
    unfolding turn_right
    turn_right_inv l k rl rk rr deep next d n h ls gs p = elim (Ordering-cases (c.cmp x rk)) [
      | inr (inr e) ↦ elim (Bool-cases (is_null rr)) [
        | inl b ↦ rw (e, turn_right, b) (inv.rotate_left l k rl rk rr ls gs e p)
        | inr b ↦
            rw (e, turn_right, b)
              (d _ _ (inv.link_left _ rk rr ls gs e (inv.rotate_left l k rl rk rr ls gs e p)))
      ]
      | inl e ↦ rw (e, turn_right) (n _ _ (inv.link_left l k _ ls gs h p))
      | inr (inl e) ↦ rw (e, turn_right) (n _ _ (inv.link_left l k _ ls gs h p))
    ]

    -- An invariant of the steps holds of the result.
    pub splay_inv : (t : Tree A) → Keeps (splay x t) t
    unfolding splay
    splay_inv leaf ls gs p = p
    splay_inv (node leaf k leaf) ls gs p = p
    splay_inv (node leaf k (node rl rk rr)) ls gs p = elim (Ordering-cases (c.cmp x k)) [
      | inl e ↦ rw (e, splay) p
      | inr (inl e) ↦ rw (e, splay) p
      | inr (inr e) ↦
          rw (e, splay)
            (turn_right_inv leaf k rl rk rr (splay x rr) (splay x (node rl rk rr)) (splay_inv rr)
              (splay_inv (node rl rk rr)) e ls gs p)
    ]
    splay_inv (node (node ll lk lr) k leaf) ls gs p = elim (Ordering-cases (c.cmp x k)) [
      | inl e ↦
          rw (e, splay)
            (turn_left_inv ll lk lr k leaf (splay x ll) (splay x (node ll lk lr)) (splay_inv ll)
              (splay_inv (node ll lk lr)) e ls gs p)
      | inr (inl e) ↦ rw (e, splay) p
      | inr (inr e) ↦ rw (e, splay) p
    ]
    splay_inv (node (node ll lk lr) k (node rl rk rr)) ls gs p = elim (Ordering-cases (c.cmp x k)) [
      | inl e ↦
          rw (e, splay)
            (turn_left_inv ll lk lr k (node rl rk rr) (splay x ll) (splay x (node ll lk lr))
              (splay_inv ll) (splay_inv (node ll lk lr)) e ls gs p)
      | inr (inl e) ↦ rw (e, splay) p
      | inr (inr e) ↦
          rw (e, splay)
            (turn_right_inv _ k rl rk rr (splay x rr) (splay x (node rl rk rr)) (splay_inv rr)
              (splay_inv (node rl rk rr)) e ls gs p)
    ]

  -- The loop ends at an equal item, or beside an empty child on the side of `x`.
  pub record StopsAt (x : A) (s : Splayed A) : Type ℓ where
    pub left : Tree A
    pub item : A
    pub right : Tree A
    pub at_node : s.tree ≡ node left item right
    pub compared : c.cmp x item ≡ s.n
    pub left_null : s.n ≡ lt → left ≡ leaf
    pub right_null : s.n ≡ gt → right ≡ leaf

  leaf_of_null : (t : Tree A) → is_null t ≡ true → t ≡ leaf
  leaf_of_null leaf h = refl
  leaf_of_null (node l k r) h = cc

  turn_left_stops :
      (x : A) (ll : Tree A) (lk : A) (lr : Tree A) (k : A) (r : Tree A) (deep next : Next A)
      → (is_null ll ≡ false → (ls gs : Spine A) → StopsAt x (deep ls gs))
      → ((ls gs : Spine A) → StopsAt x (next ls gs))
      → (ls gs : Spine A) → StopsAt x (turn_left x ll lk lr k r deep next ls gs)
  unfolding turn_left
  turn_left_stops x ll lk lr k r deep next d n ls gs = elim (Ordering-cases (c.cmp x lk)) [
    | inl e ↦ elim (Bool-cases (is_null ll)) [
      | inl b ↦
          rw (e, turn_left, b)
            (record {
              left = ll;
              item = lk;
              right = node lr k r;
              at_node = refl;
              compared = e;
              left_null = λ _. leaf_of_null ll b;
              right_null = λ h. cc;
            })
      | inr b ↦ rw (e, turn_left, b) (d b _ _)
    ]
    | inr (inl e) ↦ rw (e, turn_left) (n _ _)
    | inr (inr e) ↦ rw (e, turn_left) (n _ _)
  ]

  turn_right_stops :
      (x : A) (l : Tree A) (k : A) (rl : Tree A) (rk : A) (rr : Tree A) (deep next : Next A)
      → (is_null rr ≡ false → (ls gs : Spine A) → StopsAt x (deep ls gs))
      → ((ls gs : Spine A) → StopsAt x (next ls gs))
      → (ls gs : Spine A) → StopsAt x (turn_right x l k rl rk rr deep next ls gs)
  unfolding turn_right
  turn_right_stops x l k rl rk rr deep next d n ls gs = elim (Ordering-cases (c.cmp x rk)) [
    | inr (inr e) ↦ elim (Bool-cases (is_null rr)) [
      | inl b ↦
          rw (e, turn_right, b)
            (record {
              left = node l k rl;
              item = rk;
              right = rr;
              at_node = refl;
              compared = e;
              left_null = λ h. cc;
              right_null = λ _. leaf_of_null rr b;
            })
      | inr b ↦ rw (e, turn_right, b) (d b _ _)
    ]
    | inl e ↦ rw (e, turn_right) (n _ _)
    | inr (inl e) ↦ rw (e, turn_right) (n _ _)
  ]

  -- The loop at a node where it stops at once.
  stops_here :
      (x : A) (l : Tree A) (k : A) (r : Tree A) (n : Ordering) (ls gs : Spine A)
      → c.cmp x k ≡ n
      → (n ≡ lt → l ≡ leaf)
      → (n ≡ gt → r ≡ leaf)
      → StopsAt x (record { n = n; tree = node l k r; lesser = ls; greater = gs })
  stops_here x l k r n ls gs e ln rn = record {
    left = l;
    item = k;
    right = r;
    at_node = refl;
    compared = e;
    left_null = ln;
    right_null = rn;
  }

  pub splay_stops :
      (x : A) (t : Tree A) → is_null t ≡ false → (ls gs : Spine A) → StopsAt x (splay x t ls gs)
  unfolding splay
  splay_stops x leaf h ls gs = cc
  splay_stops x (node leaf k leaf) h ls gs =
      stops_here x leaf k leaf (c.cmp x k) ls gs refl (λ _. refl) (λ _. refl)
  splay_stops x (node leaf k (node rl rk rr)) h ls gs = elim (Ordering-cases (c.cmp x k)) [
    | inl e ↦ rw (e, splay) (stops_here x leaf k _ lt ls gs e (λ _. refl) (λ g. cc))
    | inr (inl e) ↦ rw (e, splay) (stops_here x leaf k _ eq ls gs e (λ g. cc) (λ g. cc))
    | inr (inr e) ↦
        rw (e, splay)
          (turn_right_stops x leaf k rl rk rr (splay x rr) (splay x (node rl rk rr))
            (splay_stops x rr) (splay_stops x (node rl rk rr) refl) ls gs)
  ]
  splay_stops x (node (node ll lk lr) k leaf) h ls gs = elim (Ordering-cases (c.cmp x k)) [
    | inl e ↦
        rw (e, splay)
          (turn_left_stops x ll lk lr k leaf (splay x ll) (splay x (node ll lk lr))
            (splay_stops x ll) (splay_stops x (node ll lk lr) refl) ls gs)
    | inr (inl e) ↦ rw (e, splay) (stops_here x _ k leaf eq ls gs e (λ g. cc) (λ g. cc))
    | inr (inr e) ↦ rw (e, splay) (stops_here x _ k leaf gt ls gs e (λ g. cc) (λ _. refl))
  ]
  splay_stops x (node (node ll lk lr) k (node rl rk rr)) h ls gs =
      elim (Ordering-cases (c.cmp x k)) [
        | inl e ↦
            rw (e, splay)
              (turn_left_stops x ll lk lr k (node rl rk rr) (splay x ll) (splay x (node ll lk lr))
                (splay_stops x ll) (splay_stops x (node ll lk lr) refl) ls gs)
        | inr (inl e) ↦ rw (e, splay) (stops_here x _ k _ eq ls gs e (λ g. cc) (λ g. cc))
        | inr (inr e) ↦
            rw (e, splay)
              (turn_right_stops x _ k rl rk rr (splay x rr) (splay x (node rl rk rr))
                (splay_stops x rr) (splay_stops x (node rl rk rr) refl) ls gs)
      ]
