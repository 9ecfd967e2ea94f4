-- ===== src/Control/Steps/Sound.antt =====
-- Every step keeps the invariant of the handshakes (smlsharp/src/runtime/control.c).
use mathlib.Core.Bool.{true≢false}
use smlsharp_completions_gen.Base.{
  ℕ, zero, suc, ◌%◌, ◌^◌, ◌≤◌, ◌<◌, ◌≡◌, inl, inr, ◌||◌, true, false, arith, refl, ap, sym, ◌∙◌,
  subst, lt_or_eq, Bool-cases,
}
use smlsharp_completions_gen.Pool.{
  SyncPhase, preasync, async, presync1, sync1, presync2, sync2, premark, mark, dummy_phase,
}
use smlsharp_completions_gen.Control.{
  active, is_pre, accepted, Signal, to_sync1, to_sync2, to_mark, mark_again, to_async, old_phase,
  goal, Worker, Turn, waiting, beginning, telling, System, set_worker, register_worker,
  global_phase, add_count, begin_gc,
}
use smlsharp_completions_gen.Control.Sums.{total, total_same, total_zero}
use smlsharp_completions_gen.Control.Steps.Invariant.{
  pending, sum_pending, IsQuiet, IsTold, IsStill, IsGoal, IsUniform, IsCounted, IsResting, IsSound,
  put_same, put_other, put_each,
}

pub pending_le : (w : Worker) → pending w ≤ 1
pending_le w = elim (Bool-cases (is_pre w.phase || w.acting)) [
  | inl b ↦ rw b (omega arith)
  | inr b ↦ rw b (omega arith)
]

pub sum_le : (f : ℕ → Worker) (n : ℕ) → total (λ i. pending (f i)) n ≤ n
sum_le f zero = omega arith
sum_le f (suc n) = omega (arith, sum_le f n, pending_le (f n))

goal-IsGoal : (sg : Signal) → IsGoal (goal sg)
goal-IsGoal to_sync1 = tt
goal-IsGoal to_sync2 = tt
goal-IsGoal to_mark = tt
goal-IsGoal mark_again = tt
goal-IsGoal to_async = tt

pub target_lem : (p : SyncPhase) → IsGoal p → (accepted p ≡ p) × (is_pre p ≡ false)
target_lem async t = (refl, refl)
target_lem sync1 t = (refl, refl)
target_lem sync2 t = (refl, refl)
target_lem mark t = (refl, refl)
target_lem preasync t = absurd t
target_lem presync1 t = absurd t
target_lem presync2 t = absurd t
target_lem premark t = absurd t
target_lem dummy_phase t = absurd t

pub pending_of_pre : (w : Worker) → is_pre w.phase ≡ true → pending w ≡ 1
pending_of_pre w e = rw e refl

pub pending_of_acting : (w : Worker) → w.acting ≡ true → pending w ≡ 1
pending_of_acting w e = elim (Bool-cases (is_pre w.phase)) [
  | inl b ↦ rw b refl
  | inr b ↦ rw (b, e) refl
]

pub pending_of_none : (w : Worker) → is_pre w.phase ≡ false → w.acting ≡ false → pending w ≡ 0
pending_of_none w e f = rw (e, f) refl

pub none_of_pending : (w : Worker) → pending w ≡ 0 → (is_pre w.phase ≡ false) × (w.acting ≡ false)
none_of_pending w e = elim (Bool-cases (is_pre w.phase)) [
  | inl b ↦ absurd (omega (arith, e, pending_of_pre w b))
  | inr b ↦ elim (Bool-cases w.acting) [
    | inl c ↦ absurd (omega (arith, e, pending_of_acting w c))
    | inr c ↦ (b, c)
  ]
]

-- `global_phase`
pub begin-IsSound :
    (sg : Signal) (by : ℕ) (s : System)
    → s.turn ≡ beginning sg by
    → IsSound s
    → IsSound (global_phase sg by s)
unfolding global_phase
begin-IsSound sg by s e n =
    let (flag, sum) = subst (IsCounted s.workers s.check_flag (sum_pending s)) e n.counted in
    let (g, u) = subst (IsUniform s) e n.uniform in
    let r = subst (IsResting s) e n.resting in
    record {
      few = n.few;
      small = n.small;
      counted = (omega (arith, flag, sum), (omega (arith, sum), omega arith));
      uniform = (refl, (u, λ i h k. absurd (omega (arith, h, k))));
      resting = r;
      still = n.still;
      target = goal-IsGoal sg;
    }

pub not_pre : (p : SyncPhase) → is_pre p ≡ false → accepted p ≡ p
not_pre async e = refl
not_pre sync1 e = refl
not_pre sync2 e = refl
not_pre mark e = refl
not_pre dummy_phase e = refl
not_pre preasync e = absurd (true≢false e)
not_pre presync1 e = absurd (true≢false e)
not_pre presync2 e = absurd (true≢false e)
not_pre premark e = absurd (true≢false e)

-- A worker that has got the signal and has answered.
pub IsQuiet-of_told : (g : SyncPhase) (w : Worker) → IsTold g w → pending w ≡ 0 → IsQuiet g w
IsQuiet-of_told g w t e d =
    let (pre, acting) = none_of_pending w e in (sym (not_pre w.phase pre) ∙ (t d).0, acting)

waiting_of_even : (s : System) (t : Turn) → IsResting s t → s.gc_count % 2 ≡ 0 → t ≡ waiting
waiting_of_even s waiting r e = refl
waiting_of_even s (beginning sg by) r e = absurd (omega (arith, r, e))
waiting_of_even s (telling sg by left count) r e = absurd (omega (arith, r, e))

-- `sml_gc`
pub begin_gc-IsSound :
    (by : ℕ) (s : System) → s.gc_count % 2 ≡ 0 → IsSound s → IsSound (begin_gc by s)
unfolding begin_gc
begin_gc-IsSound by s e n =
    let t = waiting_of_even s s.turn n.resting e in
    let flag : s.check_flag ≡ sum_pending s =
      subst (IsCounted s.workers s.check_flag (sum_pending s)) t n.counted in
    let u : IsUniform s waiting = subst (IsUniform s) t n.uniform in
    let (sum, g) = subst (IsResting s) t n.resting e in
    record {
      few = n.few;
      small = n.small;
      counted = (omega (arith, flag, sum), sum);
      uniform = (
        g,
        λ i h.
            IsQuiet-of_told async (s.worker i) (subst (λ p. IsTold p (s.worker i)) g (u i h))
              (total_zero (λ j. pending (s.worker j)) s.workers i sum h),
      );
      resting = omega (arith, e);
      still = n.still;
      target = n.target;
    }

-- The addition after `change_phase`.
pub add_count-IsSound :
    (sg : Signal) (by count : ℕ) (s : System)
    → s.turn ≡ telling sg by 0 count
    → IsSound s
    → IsSound (add_count count s)
unfolding add_count
add_count-IsSound sg by count s e n =
    let (c, _) = subst (IsCounted s.workers s.check_flag (sum_pending s)) e n.counted in
    let (g, (_, u)) = subst (IsUniform s) e n.uniform in
    let odd : s.gc_count % 2 ≡ 1 = subst (IsResting s) e n.resting in
    record {
      few = n.few;
      small = omega arith;
      counted = c;
      uniform = λ i h. subst (λ p. IsTold p (s.worker i)) (sym g) (u i (omega arith) h);
      resting = λ f. absurd (omega (arith, f, odd));
      still = n.still;
      target = n.target;
    }

-- `register_worker`
abbrev newcomer : System → Worker
newcomer s = record {
  mode = active;
  phase = s.global;
  acting = false;
  quitting = false;
  dead = false;
}

pub register_sum : (s : System) → IsSound s → sum_pending (register_worker s) ≡ sum_pending s
unfolding register_worker
register_sum s n =
    let s' = set_worker s.workers (newcomer s) s in
    omega (
      arith,
      total_same (λ i. pending (s.worker i)) (λ i. pending (s'.worker i)) s.workers
          (λ j l. ap pending (put_other s s.workers (newcomer s) j (omega arith))),
      ap pending (put_same s s.workers (newcomer s)),
      pending_of_none (newcomer s) (target_lem s.global n.target).1 refl,
    )

pub register-IsSound :
    (s : System) → suc (suc s.workers) < 2 ^ 32 → IsSound s → IsSound (register_worker s)
unfolding register_worker
register-IsSound s h n = record {
  few = omega arith;
  small = n.small;
  counted = registered_count s.turn n.counted;
  uniform = registered_uniform s.turn n.counted n.uniform;
  resting = registered_resting s.turn n.resting;
  still = λ i k. each (λ j. IsStill) i k n.still (λ d. absurd (true≢false (sym d)));
  target = n.target;
}
  where
    s' : System
    s' = set_worker s.workers (newcomer s) s

    each :
        (P : ℕ → Worker → Type 0) (i : ℕ)
        → i < suc s.workers
        → ((j : ℕ) → j < s.workers → P j (s.worker j))
        → P s.workers (newcomer s)
        → P i (s'.worker i)
    each P i k f new = elim (lt_or_eq i s.workers k) [
      | inl l ↦ put_each P s s.workers (newcomer s) (λ p. new) i (f i l)
      | inr e ↦
          subst (λ j. P j (s'.worker j)) (sym e)
            (subst (P s.workers) (sym (put_same s s.workers (newcomer s))) new)
    ]

    same : total (λ i. pending (s'.worker i)) (suc s.workers) ≡ sum_pending s
    same = register_sum s n

    registered_count :
        (t : Turn)
        → IsCounted s.workers s.check_flag (sum_pending s) t
        → IsCounted
            (suc s.workers)
            s.check_flag
            (total (λ i. pending (s'.worker i)) (suc s.workers))
            t
    registered_count waiting c = omega (arith, c, same)
    registered_count (beginning sg by) (c, d) = (c, omega (arith, d, same))
    registered_count (telling sg by left count) (c, (d, e)) =
        (omega (arith, c, same), (omega (arith, d, same), omega (arith, e)))

    new_told : (g : SyncPhase) → s.global ≡ g → IsTold g (newcomer s)
    new_told g e d = ((target_lem s.global n.target).0 ∙ e, λ a. e)

    registered_uniform :
        (t : Turn)
        → IsCounted s.workers s.check_flag (sum_pending s) t
        → IsUniform s t
        → IsUniform (record s' { workers = suc s.workers }) t
    registered_uniform waiting c u =
        λ i k. each (λ j. IsTold s.global) i k u (new_told s.global refl)
    registered_uniform (beginning sg by) c (g, u) =
        (g, λ i k. each (λ j. IsQuiet (old_phase sg)) i k u (λ d. (g, refl)))
    registered_uniform (telling sg by left count) (_, (_, c)) (g, (q, u)) = (
      g,
      (
        λ i k.
            put_each (λ j w. j < left → IsQuiet (old_phase sg) w) s s.workers (newcomer s)
              (λ p l. absurd (omega (arith, l, c))) i (λ l. q i l) k,
        λ i a k.
            each (λ j w. left ≤ j → IsTold (goal sg) w) i k (λ j l b. u j b l)
              (λ b. new_told (goal sg) g) a,
      ),
    )

    registered_resting :
        (t : Turn) → IsResting s t → IsResting (record s' { workers = suc s.workers }) t
    registered_resting waiting r = λ e. (same ∙ (r e).0, (r e).1)
    registered_resting (beginning sg by) r = r
    registered_resting (telling sg by left count) r = r
