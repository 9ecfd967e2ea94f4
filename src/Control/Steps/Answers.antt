-- ===== src/Control/Steps/Answers.antt =====
-- A turn of the loop of `change_phase`, and the end of an action, keep the invariant of the handshakes
-- (smlsharp/src/runtime/control.c, lines 1188 to 1244 and 1441 to 1768).
use mathlib.Core.Bool.{true≢false}
use smlsharp_completions_gen.Base.{
  ℕ, suc, ◌+◌, ◌-◌, ◌%◌, ◌^◌, ◌≤◌, ◌<◌, ◌≡◌, ◌≢◌, inl, inr, ◌==◌, ◌&&◌, Bool, true, false, arith,
  refl, ap, sym, ◌∙◌, subst, same_or_not, less_or_not, Bool-cases, either_result,
}
use smlsharp_completions_gen.Pool.{
  SyncPhase, preasync, async, presync1, sync1, presync2, sync2, premark, mark, dummy_phase,
  phase_number,
}
use smlsharp_completions_gen.Control.{
  is_pre, accepted, Signal, to_sync1, to_sync2, to_mark, mark_again, to_async, old_phase, new_phase,
  goal, Worker, Turn, waiting, beginning, telling, System, set_worker, change_one, next_turn,
  gc_done, end_action,
}
use smlsharp_completions_gen.Control.Sums.{total_others}
use smlsharp_completions_gen.Control.Steps.Invariant.{
  pending, sum_pending, IsQuiet, IsTold, IsStill, IsGoal, IsUniform, IsCounted, IsResting, IsSound,
  put_same, put_other, put_each, put_uniform, sum_change, accepted_old,
}
use smlsharp_completions_gen.Control.Steps.Sound.{
  sum_le, target_lem, pending_of_pre, pending_of_acting, pending_of_none, IsQuiet-of_told,
}

new_lem : (sg : Signal) → (accepted (new_phase sg) ≡ goal sg) × (is_pre (new_phase sg) ≡ true)
new_lem to_sync1 = (refl, refl)
new_lem to_sync2 = (refl, refl)
new_lem to_mark = (refl, refl)
new_lem mark_again = (refl, refl)
new_lem to_async = (refl, refl)

module _ (sg : Signal) (by k count : ℕ) (s : System) (e : s.turn ≡ telling sg by (suc k) count)
    (n : IsSound s) where
  abbrev u : IsUniform s (telling sg by (suc k) count)
  u = subst (IsUniform s) e n.uniform

  abbrev c : IsCounted s.workers s.check_flag (sum_pending s) (telling sg by (suc k) count)
  c = subst (IsCounted s.workers s.check_flag (sum_pending s)) e n.counted

  inside : k < s.workers
  inside = omega (arith, c)

  IsQuiet-here : IsQuiet (old_phase sg) (s.worker k)
  IsQuiet-here = u.1.0 k (omega arith)

  odd : s.gc_count % 2 ≡ 1
  odd = subst (IsResting s) e n.resting

  -- The workers from k on have got the signal, if the new worker k has.
  told_from :
      (w : Worker)
      → IsTold (goal sg) w
      → (i : ℕ) → k ≤ i
      → i < s.workers
      → IsTold (goal sg) ((set_worker k w s).worker i)
  told_from w t i h l = elim (same_or_not i k) [
    | inl (e', _) ↦
        subst (λ j. IsTold (goal sg) ((set_worker k w s).worker j)) (sym e')
          (subst (IsTold (goal sg)) (sym (put_same s k w)) t)
    | inr (e', _) ↦
        subst (IsTold (goal sg)) (sym (put_other s k w i e')) (u.1.1 i (omega (arith, h, e')) l)
  ]

  IsQuiet-below :
      (w : Worker) (i : ℕ) → i < k → IsQuiet (old_phase sg) ((set_worker k w s).worker i)
  IsQuiet-below w i h =
      subst (IsQuiet (old_phase sg)) (sym (put_other s k w i (omega arith))) (u.1.0 i (omega arith))

  -- With a new worker k, that has `more` signals to answer than before.
  told-IsSound :
      (w : Worker) (more : ℕ)
      → IsTold (goal sg) w
      → IsStill w
      → pending w ≡ pending (s.worker k) + more
      → more ≤ 1
      → IsSound (record (set_worker k w s) { turn = telling sg by k (count + more) })
  told-IsSound w more t st p m =
      let sum : sum_pending (set_worker k w s) ≡ sum_pending s + more =
        omega (arith, sum_change s k w inside, p) in
      let most = sum_le (set_worker k w s).worker s.workers in
      record {
        few = n.few;
        small = n.small;
        counted = (omega (arith, sum, c, n.few, most), (omega (arith, sum, c), omega (arith, c)));
        uniform = (u.0, (IsQuiet-below w, told_from w t));
        resting = odd;
        still = λ i h. put_each (λ j. IsStill) s k w (λ x. st) i (n.still i h);
        target = n.target;
      }

  skipped-IsSound : (s.worker k).dead ≡ true → IsSound (record s { turn = telling sg by k count })
  skipped-IsSound d = record {
    few = n.few;
    small = n.small;
    counted = (c.0, (c.1.0, omega (arith, c)));
    uniform = (u.0, (λ i h. u.1.0 i (omega arith), λ i h l. after i h l));
    resting = odd;
    still = n.still;
    target = n.target;
  }
    where
      after : (i : ℕ) → k ≤ i → i < s.workers → IsTold (goal sg) (s.worker i)
      after i h l = elim (same_or_not i k) [
        | inl (e', _) ↦
            subst (λ j. IsTold (goal sg) (s.worker j)) (sym e')
              (λ f. absurd (true≢false (sym d ∙ f)))
        | inr (e', _) ↦ u.1.1 i (omega (arith, h, e')) l
      ]

  pub change_one-IsSound : IsSound (change_one sg by k count s)
  unfolding change_one
  change_one-IsSound =
      let w = s.worker k in
      either_result IsSound w.dead _ _ skipped-IsSound (λ b.
        let (phase, acting) = IsQuiet-here b in
        let (_, pre) = accepted_old sg w.phase phase in
        let none = pending_of_none w pre acting in
        either_result IsSound (phase_number (old_phase sg) == 1 && w.quitting) _ _
          (λ d.
            subst
              (λ x.
                IsSound
                  (record (set_worker k (record w { dead = true }) s) { turn = telling sg by k x }))
              {x = count + 0} (omega arith)
              (told-IsSound (record w { dead = true }) 0 (λ f. absurd (true≢false f))
                (λ f. (acting, pre))
                (omega (arith, pending_of_none (record w { dead = true }) pre acting, none))
                (omega arith)))
          (λ d.
            told-IsSound (record w { phase = new_phase sg }) 1
              (λ f. ((new_lem sg).0, λ a. absurd (true≢false (sym a ∙ acting))))
              (λ f. absurd (true≢false (sym f ∙ b)))
              (omega
                (arith, pending_of_pre (record w { phase = new_phase sg }) (new_lem sg).1, none))
              (omega arith)))

-- The end of an action.
module _ (i : ℕ) (s : System) (inside : i < s.workers) (acting : (s.worker i).acting ≡ true)
    (n : IsSound s) where
  abbrev w : Worker
  w = s.worker i

  alive : w.dead ≡ false
  alive = elim (Bool-cases w.dead) [
    | inl d ↦ absurd (true≢false (sym acting ∙ (n.still i inside d).0))
    | inr d ↦ d
  ]

  -- It has got the signal, since it is about to answer.
  pub in_phase : (t : Turn) → IsUniform s t → w.phase ≡ s.global
  in_phase waiting u = (u i inside alive).1 acting
  in_phase (beginning sg by) (g, u) = absurd (true≢false (sym acting ∙ (u i inside alive).1))
  in_phase (telling sg by left count) (g, (q, u)) = elim (less_or_not i left) [
    | inl (l, _) ↦ absurd (true≢false (sym acting ∙ (q i l alive).1))
    | inr (l, _) ↦ (u i l inside alive).1 acting ∙ sym g
  ]

  phase : w.phase ≡ s.global
  phase = in_phase s.turn n.uniform

  pre : is_pre w.phase ≡ false
  pre = ap is_pre phase ∙ (target_lem s.global n.target).1

  abbrev answered : Worker
  answered = record w { acting = false }

  one : pending w ≡ 1
  one = pending_of_acting w acting

  pub sum : sum_pending (set_worker i answered s) + 1 ≡ sum_pending s
  sum = omega (arith, sum_change s i answered inside, one, pending_of_none answered pre refl)

  odd_at : (t : Turn) → IsResting s t → s.gc_count % 2 ≡ 1
  odd_at waiting r = elim (same_or_not (s.gc_count % 2) 0) [
    | inl (e, _) ↦ absurd (omega (arith, sum, (r e).0))
    | inr (e, _) ↦ omega (arith, e)
  ]
  odd_at (beginning sg by) r = r
  odd_at (telling sg by left count) r = r

  pub odd_count : s.gc_count % 2 ≡ 1
  odd_count = odd_at s.turn n.resting

  abbrev flag : ℕ
  flag = (s.check_flag + 2 ^ 32 - 1) % 2 ^ 32

  -- It is not the last one.
  not_last_count :
      (t : Turn)
      → s.check_flag ≢ 1
      → IsCounted s.workers s.check_flag (sum_pending s) t
      → IsCounted s.workers flag (sum_pending (set_worker i answered s)) t
  not_last_count waiting h c = omega (arith, c, sum, n.small)
  not_last_count (beginning sg by) h (_, c) = absurd (omega (arith, c, sum))
  not_last_count (telling sg by left count) h (c, (d, e)) =
      (omega (arith, c, sum), (omega (arith, d, sum), e))

  not_last-IsResting :
      (t : Turn) → IsResting (record (set_worker i answered s) { check_flag = flag }) t
  not_last-IsResting waiting = λ e. absurd (omega (arith, e, odd_count))
  not_last-IsResting (beginning sg by) = odd_count
  not_last-IsResting (telling sg by left count) = odd_count

  each-IsStill : (j : ℕ) → j < s.workers → IsStill ((set_worker i answered s).worker j)
  each-IsStill j h = put_each (λ k. IsStill) s i answered (λ t d. (refl, (t d).1)) j (n.still j h)

  not_last : s.check_flag ≢ 1 → IsSound (record (set_worker i answered s) { check_flag = flag })
  not_last h = record {
    few = n.few;
    small = omega arith;
    counted = not_last_count s.turn h n.counted;
    uniform =
        put_uniform s i answered (λ sg q d. ((q d).0, refl))
          (λ g t d. ((t d).0, λ a. absurd (true≢false (sym a)))) s.turn n.uniform;
    resting = not_last-IsResting s.turn;
    still = each-IsStill;
    target = n.target;
  }

  -- It is the last one.
  last_waits :
      (t : Turn)
      → s.check_flag ≡ 1
      → IsCounted s.workers s.check_flag (sum_pending s) t
      → t ≡ waiting
  last_waits waiting h c = refl
  last_waits (beginning sg by) h (c, _) = absurd (omega (arith, c, h))
  last_waits (telling sg by left count) h (c, (d, e)) = absurd (omega (arith, c, d, e, h, n.few))

  module _ (one_left : s.check_flag ≡ 1) where
    pub no_change : s.turn ≡ waiting
    no_change = last_waits s.turn one_left n.counted

    single : sum_pending s ≡ 1
    single =
        let c : s.check_flag ≡ sum_pending s =
          subst (IsCounted s.workers s.check_flag (sum_pending s)) no_change n.counted in
        omega (arith, c, one_left)

    -- All the others have answered.
    pub all-IsQuiet :
        (j : ℕ) → j < s.workers → IsQuiet s.global ((set_worker i answered s).worker j)
    all-IsQuiet j h =
        let told : IsUniform s waiting = subst (IsUniform s) no_change n.uniform in
        elim (same_or_not j i) [
          | inl (e, _) ↦
              subst (λ k. IsQuiet s.global ((set_worker i answered s).worker k)) (sym e)
                (subst (IsQuiet s.global) (sym (put_same s i answered)) (λ d. (phase, refl)))
          | inr (e, _) ↦ subst (IsQuiet s.global) (sym (put_other s i answered j e)) (
              IsQuiet-of_told s.global (s.worker j) (told j h) (
                omega (
                  arith,
                  total_others (λ k. pending (s.worker k)) s.workers i j inside h e,
                  single,
                  one,
                )))
        ]

    none_left : sum_pending (set_worker i answered s) ≡ 0
    none_left = omega (arith, sum, single)

    next-IsSound :
        (sg : Signal)
        → s.global ≡ old_phase sg
        → IsSound (record (set_worker i answered s) {
          check_flag = flag;
          turn = beginning sg i;
          gc_count = s.gc_count + 0;
        })
    next-IsSound sg g = record {
      few = n.few;
      small = omega arith;
      counted = (omega (arith, one_left), none_left);
      uniform = (
        g,
        λ j h. subst (λ p. IsQuiet p ((set_worker i answered s).worker j)) g (all-IsQuiet j h),
      );
      resting = omega (arith, odd_count);
      still = each-IsStill;
      target = n.target;
    }

    end-IsSound :
        s.global ≡ async
        → IsSound (record (set_worker i answered s) {
          check_flag = flag;
          turn = waiting;
          gc_count = s.gc_count + 1;
        })
    end-IsSound g = record {
      few = n.few;
      small = omega arith;
      counted = omega (arith, one_left, none_left);
      uniform = λ j h d.
          let (p, a) = all-IsQuiet j h d in
          (ap accepted p ∙ (target_lem s.global n.target).0, λ b. absurd (true≢false (sym b ∙ a)));
      resting = λ e. (none_left, g);
      still = each-IsStill;
      target = n.target;
    }

    last_at :
        (p : SyncPhase) (marked : Bool)
        → s.global ≡ p
        → IsGoal p
        → IsSound (record (set_worker i answered s) {
          check_flag = flag;
          turn = next_turn p i marked;
          gc_count = s.gc_count + gc_done p;
        })
    last_at sync1 marked g t = next-IsSound to_sync2 g
    last_at sync2 marked g t = next-IsSound to_mark g
    last_at mark true g t = next-IsSound to_async g
    last_at mark false g t = next-IsSound mark_again g
    last_at async marked g t = end-IsSound g
    last_at preasync marked g t = absurd t
    last_at presync1 marked g t = absurd t
    last_at presync2 marked g t = absurd t
    last_at premark marked g t = absurd t
    last_at dummy_phase marked g t = absurd t

  pub end_action-IsSound : (marked : Bool) → IsSound (end_action i marked s)
  unfolding end_action
  end_action-IsSound marked = elim (same_or_not s.check_flag 1) [
    | inl (e, b) ↦ rw b (
        subst
          (λ p. IsSound (record (set_worker i answered s) {
            check_flag = flag;
            turn = next_turn p i marked;
            gc_count = s.gc_count + gc_done p;
          }))
          (sym phase) (last_at e s.global marked refl n.target))
    | inr (e, b) ↦ rw b (not_last e)
  ]

-- A worker that has not accepted its signal does no action.
pub idle :
    (s : System) (i : ℕ)
    → i < s.workers
    → is_pre (s.worker i).phase ≡ true
    → IsSound s
    → (s.worker i).acting ≡ false
idle s i h p n = elim (Bool-cases (s.worker i).acting) [
  | inl a ↦ absurd (true≢false (sym p ∙ pre i s h a n))
  | inr a ↦ a
]
