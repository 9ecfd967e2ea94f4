-- ===== src/Control/Steps/Invariant.antt =====
-- The invariant of the handshakes (smlsharp/src/runtime/control.c): the counter and the phases of the
-- workers.
use mathlib.Core.Bool.{true≢false}
use smlsharp_completions_gen.Base.{
  ℕ, ◌+◌, ◌%◌, ◌^◌, ◌≤◌, ◌<◌, ◌≡◌, ◌≢◌, inl, inr, ◌||◌, Bool, true, false, if◌then◌else◌, arith,
  refl, ap, sym, ◌∙◌, subst, same_or_not,
}
use smlsharp_completions_gen.Pool.{
  SyncPhase, preasync, async, presync1, sync1, presync2, sync2, premark, mark, dummy_phase,
}
use smlsharp_completions_gen.Control.{
  Mode, is_pre, accepted, Signal, to_sync1, to_sync2, to_mark, mark_again, to_async, old_phase,
  goal, Worker, Turn, waiting, beginning, telling, System, set_worker, with_mode, accept,
}
use smlsharp_completions_gen.Control.Sums.{total, total_change}

-- A worker that has to answer, or whose action goes on.
abbrev pub pending : Worker → ℕ
pending w = if is_pre w.phase || w.acting then 1 else 0

abbrev pub sum_pending : System → ℕ
sum_pending s = total (λ i. pending (s.worker i)) s.workers

-- A living worker in a phase, with nothing to do.
abbrev pub IsQuiet : SyncPhase → Worker → Type 0
IsQuiet p w = w.dead ≡ false → (w.phase ≡ p) × (w.acting ≡ false)

-- A living worker that has got the signal for a phase.
abbrev pub IsTold : SyncPhase → Worker → Type 0
IsTold g w = w.dead ≡ false → (accepted w.phase ≡ g) × (w.acting ≡ true → w.phase ≡ g)

abbrev pub IsStill : Worker → Type 0
IsStill w = w.dead ≡ true → (w.acting ≡ false) × (is_pre w.phase ≡ false)

abbrev pub IsGoal : SyncPhase → Type 0
IsGoal async = Unit
IsGoal sync1 = Unit
IsGoal sync2 = Unit
IsGoal mark = Unit
IsGoal preasync = ⊥
IsGoal presync1 = ⊥
IsGoal presync2 = ⊥
IsGoal premark = ⊥
IsGoal dummy_phase = ⊥

-- The phases of the workers, by what the thread that changes them is about.
abbrev pub IsUniform : System → Turn → Type 0
IsUniform s waiting = (i : ℕ) → i < s.workers → IsTold s.global (s.worker i)
IsUniform s (beginning sg by) =
    (s.global ≡ old_phase sg) × ((i : ℕ) → i < s.workers → IsQuiet (old_phase sg) (s.worker i))
IsUniform s (telling sg by left count) =
    (s.global ≡ goal sg)
    × (((i : ℕ) → i < left → IsQuiet (old_phase sg) (s.worker i))
        × ((i : ℕ) → left ≤ i → i < s.workers → IsTold (goal sg) (s.worker i)))

-- The counter, with the count that is still to be added, is the number of pending workers.
abbrev pub IsCounted : ℕ → ℕ → ℕ → Turn → Type 0
IsCounted workers flag sum waiting = flag ≡ sum
IsCounted workers flag sum (beginning sg by) = (flag ≡ 0) × (sum ≡ 0)
IsCounted workers flag sum (telling sg by left count) =
    ((flag + count) % 2 ^ 32 ≡ sum) × ((sum ≤ count) × (count + left ≤ workers))

-- The collector is at work, or there is nothing to do.
abbrev pub IsResting : System → Turn → Type 0
IsResting s waiting = s.gc_count % 2 ≡ 0 → (sum_pending s ≡ 0) × (s.global ≡ async)
IsResting s (beginning sg by) = s.gc_count % 2 ≡ 1
IsResting s (telling sg by left count) = s.gc_count % 2 ≡ 1

pub record IsSound (s : System) : Type 0 where
  pub few : s.workers + 1 < 2 ^ 32
  pub small : s.check_flag < 2 ^ 32
  pub counted : IsCounted s.workers s.check_flag (sum_pending s) s.turn
  pub uniform : IsUniform s s.turn
  pub resting : IsResting s s.turn
  pub still : (i : ℕ) → i < s.workers → IsStill (s.worker i)
  pub target : IsGoal s.global

pub put_same : (s : System) (i : ℕ) (w : Worker) → (set_worker i w s).worker i ≡ w
put_same s i w = elim (same_or_not i i) [ inl (_, b) ↦ rw b refl | inr (e, _) ↦ absurd (e refl) ]

pub put_other :
    (s : System) (i : ℕ) (w : Worker) (j : ℕ) → j ≢ i → (set_worker i w s).worker j ≡ s.worker j
put_other s i w j h = elim (same_or_not j i) [ inl (e, _) ↦ absurd (h e) | inr (_, b) ↦ rw b refl ]

pub put_each :
    (P : ℕ → Worker → Type 0) (s : System) (i : ℕ) (w : Worker)
    → (P i (s.worker i) → P i w)
    → (j : ℕ) → P j (s.worker j)
    → P j ((set_worker i w s).worker j)
put_each P s i w f j p = elim (same_or_not j i) [
  | inl (e, _) ↦
      subst (λ k. P k ((set_worker i w s).worker k)) (sym e)
        (subst (P i) (sym (put_same s i w)) (f (subst (λ k. P k (s.worker k)) e p)))
  | inr (n, _) ↦ subst (P j) (sym (put_other s i w j n)) p
]

pub sum_change :
    (s : System) (i : ℕ) (w : Worker)
    → i < s.workers
    → sum_pending (set_worker i w s) + pending (s.worker i) ≡ sum_pending s + pending w
sum_change s i w h =
    total_change (λ j. pending (s.worker j)) (λ j. pending ((set_worker i w s).worker j)) s.workers
      i h (λ j n. ap pending (put_other s i w j n))
    ∙ ap (λ x. sum_pending s + pending x) (put_same s i w)

-- The phases, where one worker is replaced.
module _ (s : System) (i : ℕ) (w : Worker)
    (quiet : (sg : Signal) → IsQuiet (old_phase sg) (s.worker i) → IsQuiet (old_phase sg) w)
    (told : (g : SyncPhase) → IsTold g (s.worker i) → IsTold g w) where
  pub put_uniform : (t : Turn) → IsUniform s t → IsUniform (set_worker i w s) t
  put_uniform waiting u = λ j h. put_each (λ k. IsTold s.global) s i w (told s.global) j (u j h)
  put_uniform (beginning sg by) (g, u) =
      (g, λ j h. put_each (λ k. IsQuiet (old_phase sg)) s i w (quiet sg) j (u j h))
  put_uniform (telling sg by left count) (g, (q, u)) = (
    g,
    (
      λ j h. put_each (λ k. IsQuiet (old_phase sg)) s i w (quiet sg) j (q j h),
      λ j h k. put_each (λ k. IsTold (goal sg)) s i w (told (goal sg)) j (u j h k),
    ),
  )

-- A change of one worker that is no event for the handshake.
pub record IsInvisible (old new : Worker) : Type 0 where
  pub quiet : (sg : Signal) → IsQuiet (old_phase sg) old → IsQuiet (old_phase sg) new
  pub told : (g : SyncPhase) → IsTold g old → IsTold g new
  pub still : IsStill old → IsStill new
  pub same : pending new ≡ pending old

module _ (s : System) (i : ℕ) (w : Worker) (inside : i < s.workers)
    (v : IsInvisible (s.worker i) w) where
  pub same_sum : sum_pending (set_worker i w s) ≡ sum_pending s
  same_sum = omega (arith, sum_change s i w inside, v.same)

  same-IsResting : (t : Turn) → IsResting s t → IsResting (set_worker i w s) t
  same-IsResting waiting r = λ e. (same_sum ∙ (r e).0, (r e).1)
  same-IsResting (beginning sg by) r = r
  same-IsResting (telling sg by left count) r = r

  pub set-IsSound : IsSound s → IsSound (set_worker i w s)
  set-IsSound n = record {
    few = n.few;
    small = n.small;
    counted = subst (λ x. IsCounted s.workers s.check_flag x s.turn) (sym same_sum) n.counted;
    uniform = put_uniform s i w v.quiet v.told s.turn n.uniform;
    resting = same-IsResting s.turn n.resting;
    still = λ j h. put_each (λ k. IsStill) s i w v.still j (n.still j h);
    target = n.target;
  }

-- Changes of the mode, and canceling.
pub mode-IsInvisible : (m : Mode) (w : Worker) → IsInvisible w (with_mode m w)
mode-IsInvisible m w = record { quiet = λ sg q. q; told = λ g t. t; still = λ s. s; same = refl }

pub quit-IsInvisible : (w : Worker) → IsInvisible w (record w { quitting = true })
quit-IsInvisible w = record { quiet = λ sg q. q; told = λ g t. t; still = λ s. s; same = refl }

old_lem : (sg : Signal) → (accepted (old_phase sg) ≡ old_phase sg) × (is_pre (old_phase sg) ≡ false)
old_lem to_sync1 = (refl, refl)
old_lem to_sync2 = (refl, refl)
old_lem to_mark = (refl, refl)
old_lem mark_again = (refl, refl)
old_lem to_async = (refl, refl)

pub accepted_old :
    (sg : Signal) (p : SyncPhase)
    → p ≡ old_phase sg
    → (accepted p ≡ old_phase sg) × (is_pre p ≡ false)
accepted_old sg p e = (ap accepted e ∙ (old_lem sg).0, ap is_pre e ∙ (old_lem sg).1)

accepted_lem :
    (p : SyncPhase) → (accepted (accepted p) ≡ accepted p) × (is_pre (accepted p) ≡ false)
accepted_lem preasync = (refl, refl)
accepted_lem async = (refl, refl)
accepted_lem presync1 = (refl, refl)
accepted_lem sync1 = (refl, refl)
accepted_lem presync2 = (refl, refl)
accepted_lem sync2 = (refl, refl)
accepted_lem premark = (refl, refl)
accepted_lem mark = (refl, refl)
accepted_lem dummy_phase = (refl, refl)

one_or_other :
    (a b c : Bool)
    → a ≡ false
    → c ≡ false
    → ◌≡◌ {A = ℕ} (if a || b then 1 else 0) (if b || c then 1 else 0)
one_or_other false true c e f = refl
one_or_other false false false e f = refl
one_or_other true b c e f = absurd (true≢false e)
one_or_other false false true e f = absurd (true≢false f)

-- A worker with nothing to do accepts a signal.
pub accept-IsInvisible : (m : Mode) (w : Worker) → w.acting ≡ false → IsInvisible w (accept m w)
accept-IsInvisible m w e = record {
  quiet = λ sg q d. accepted_old sg w.phase (q d).0;
  told = λ g t d. ((accepted_lem w.phase).0 ∙ (t d).0, λ a. (t d).0);
  still = λ s d. ((s d).1, (accepted_lem w.phase).1);
  same =
      one_or_other (is_pre (accepted w.phase)) (is_pre w.phase) w.acting (accepted_lem w.phase).1 e;
}
