-- ===== src/Control/Steps/Progress.antt =====
-- The handshakes of the collector (smlsharp/src/runtime/control.c) can always go on while the counter
-- is not 0.
use mathlib.Core.Bool.{true≢false}
use smlsharp_completions_gen.Base.{
  ℕ, zero, suc, ◌+◌, ◌%◌, ◌≤◌, ◌<◌, ◌≡◌, ◌≢◌, ◌⊎◌, inl, inr, true, false, arith, refl, ap, sym, ◌∙◌,
  subst, same_or_not, Bool-cases, either_result, ◌==◌,
}
use smlsharp_completions_gen.Pool.{
  SyncPhase, preasync, async, presync1, sync1, presync2, sync2, premark, mark, dummy_phase,
}
use smlsharp_completions_gen.Control.{
  Worker, Mode, active, inactive, helped, is_pre, Signal, to_sync2, to_mark, to_async, Turn,
  waiting, beginning, System, set_worker, accept, next_turn, gc_done, end_action,
}
use smlsharp_completions_gen.Control.Sums.{total_positive}
use smlsharp_completions_gen.Control.Steps.{
  Step, check, help, help_again, finish, Steps, here, next, Reach, IsElsewhere, IsHelper,
}
use smlsharp_completions_gen.Control.Steps.Invariant.{
  pending, sum_pending, IsGoal, IsCounted, IsSound, put_same, sum_change, accept-IsInvisible,
}
use smlsharp_completions_gen.Control.Steps.Sound.{pending_of_none}
use smlsharp_completions_gen.Control.Steps.Answers.{idle, in_phase, sum, odd_count}
use smlsharp_completions_gen.Control.Steps.Safety.{Step-IsSound, Steps-IsSound, initial-IsSound}

pub Steps-append : {s t u : System} → Steps s t → Steps t u → Steps s u
Steps-append r here = r
Steps-append r (next q st) = next (Steps-append r q) st

-- The next handshake begins, or the collection is over.
abbrev pub IsNext : System → Type 0
IsNext t = ((sg : Signal) × ((by : ℕ) × (t.turn ≡ beginning sg by))) ⊎ (t.gc_count % 2 ≡ 0)

next_at :
    (p : SyncPhase) (i : ℕ) (count : ℕ)
    → IsGoal p
    → count % 2 ≡ 1
    → ((sg : Signal) × ((by : ℕ) × (next_turn p i true ≡ beginning sg by)))
      ⊎ ((count + gc_done p) % 2 ≡ 0)
next_at sync1 i count t odd = inl (to_sync2, (i, refl))
next_at sync2 i count t odd = inl (to_mark, (i, refl))
next_at mark i count t odd = inl (to_async, (i, refl))
next_at async i count t odd = inr (omega arith)
next_at preasync i count t odd = absurd t
next_at presync1 i count t odd = absurd t
next_at presync2 i count t odd = absurd t
next_at premark i count t odd = absurd t
next_at dummy_phase i count t odd = absurd t

-- An action ends the handshake, or brings it nearer to its end.
abbrev IsNearer : System → System → Type 0
IsNearer s t =
    IsNext t ⊎ ((t.turn ≡ waiting) × ((t.check_flag ≢ 0) × (sum_pending t + 1 ≡ sum_pending s)))

waiting_count : (s : System) → s.turn ≡ waiting → IsSound s → s.check_flag ≡ sum_pending s
waiting_count s e n = subst (IsCounted s.workers s.check_flag (sum_pending s)) e n.counted

end-IsNearer :
    (s : System) (i : ℕ)
    → s.turn ≡ waiting
    → IsSound s
    → i < s.workers
    → (s.worker i).acting ≡ true
    → IsNearer s (end_action i true s)
unfolding end_action
end-IsNearer s i e n h a = elim (same_or_not s.check_flag 1) [
  | inl (f, b) ↦ rw b (
      inl (
        next_at (s.worker i).phase i s.gc_count
          (subst IsGoal (sym (in_phase i s h a n s.turn n.uniform)) n.target)
          (odd_count i s h a n)))
  | inr (f, b) ↦
      rw b (inr (e, (omega (arith, f, waiting_count s e n, sum i s h a n, n.small), sum i s h a n)))
]

after_accept :
    (s : System) (i : ℕ) (m : Mode)
    → i < s.workers
    → is_pre (s.worker i).phase ≡ true
    → ((set_worker i (accept m (s.worker i)) s).worker i).acting ≡ true
after_accept s i m h p = ap (λ w. w.acting) (put_same s i (accept m (s.worker i))) ∙ p

accept_sum :
    (s : System) (i : ℕ) (m : Mode)
    → i < s.workers
    → is_pre (s.worker i).phase ≡ true
    → IsSound s
    → sum_pending (set_worker i (accept m (s.worker i)) s) ≡ sum_pending s
accept_sum s i m h p n = omega (
  arith,
  sum_change s i (accept m (s.worker i)) h,
  (accept-IsInvisible m (s.worker i) (idle s i h p n)).same,
)

elsewhere : (t : Turn) (i : ℕ) → t ≡ waiting → IsElsewhere i t
elsewhere t i e = subst (IsElsewhere i) (sym e) tt

-- Who may help worker i, if that is needed.
abbrev Helps : System → ℕ → Type 0
Helps s i = (s.worker i).mode ≡ inactive → (j : ℕ) × IsHelper s j

-- Worker i accepts its signal, whoever has its lock.
accept_step :
    (s : System) (i : ℕ)
    → s.turn ≡ waiting
    → IsSound s
    → i < s.workers
    → is_pre (s.worker i).phase ≡ true
    → Helps s i
    → (m : Mode) × (Step s (set_worker i (accept m (s.worker i)) s)
        × ((s.worker i).mode ≡ active → m ≡ active))
accept_step s i e n h p helps = by_mode (s.worker i).mode refl
  where
    free : (i < s.workers) × (((s.worker i).acting ≡ false) × IsElsewhere i s.turn)
    free = (h, (idle s i h p n, elsewhere s.turn i e))

    alive : (s.worker i).dead ≡ false
    alive = elim (Bool-cases (s.worker i).dead) [
      | inl d ↦ absurd (true≢false (sym p ∙ (n.still i h d).1))
      | inr d ↦ d
    ]

    by_mode :
        (m : Mode)
        → (s.worker i).mode ≡ m
        → (m' : Mode) × (Step s (set_worker i (accept m' (s.worker i)) s)
            × (m ≡ active → m' ≡ active))
    by_mode active f = (active, (check i free (h, p) f, λ g. refl))
    by_mode inactive f = let (j, k) = helps f in (helped, (help i j (h, p) k f alive, λ g. cc))
    by_mode helped f = (helped, (help_again i (idle s i h p n) (h, p) f, λ g. g))

-- Worker `by` stays active when worker i does.
still_active :
    (s : System) (i by : ℕ) (w : Worker)
    → ((s.worker i).mode ≡ active → w.mode ≡ active)
    → (s.worker by).mode ≡ active
    → ((set_worker i w s).worker by).mode ≡ active
still_active s i by w keeps a = elim (same_or_not by i) [
  | inl (f, b) ↦ rw b (keeps (subst (λ x. (s.worker x).mode ≡ active) f a))
  | inr (f, b) ↦ rw b a
]

-- There is a worker that is active.
abbrev pub IsActive : System → ℕ → Type 0
IsActive s by = (by < s.workers) × ((s.worker by).mode ≡ active)

end-IsActive : (s : System) (i by : ℕ) → IsActive s by → IsActive (end_action i true s) by
unfolding end_action
end-IsActive s i by (h, a) =
    either_result (λ (t : System). IsActive t by) (s.check_flag == 1) _ _
      (λ b. (h, still_active s i by _ (λ f. f) a)) (λ b. (h, still_active s i by _ (λ f. f) a))

abbrev Progresses : System → ℕ → Type 0
Progresses s by = (t : System) × (Steps s t × (IsNearer s t × IsActive t by))

acted :
    (s : System) (i by : ℕ)
    → s.turn ≡ waiting
    → IsSound s
    → i < s.workers
    → (s.worker i).acting ≡ true
    → IsActive s by
    → Progresses s by
acted s i by e n h a k = (
  end_action i true s,
  (next here (finish i true h a), (end-IsNearer s i e n h a, end-IsActive s i by k)),
)

accepted_answer :
    (s : System) (i by : ℕ)
    → s.turn ≡ waiting
    → IsSound s
    → i < s.workers
    → is_pre (s.worker i).phase ≡ true
    → Helps s i
    → IsActive s by
    → Progresses s by
accepted_answer s i by e n h p helps (b, k) =
    let (m, (st, keeps)) = accept_step s i e n h p helps in
    let s' = set_worker i (accept m (s.worker i)) s in
    let a = after_accept s i m h p in
    let (t, (r, (near, k'))) =
      acted s' i by e (Step-IsSound st n) h a
        (b, still_active s i by (accept m (s.worker i)) keeps k) in
    (
      t,
      (
        Steps-append (next here st) r,
        (
          subst
              (λ x.
                IsNext t ⊎ ((t.turn ≡ waiting) × ((t.check_flag ≢ 0) × (sum_pending t + 1 ≡ x))))
              (accept_sum s i m h p n) near,
          k',
        ),
      ),
    )

no_help : (s : System) (i : ℕ) → (s.worker i).mode ≡ active → Helps s i
no_help s i a f = absurd (active≢inactive (s.worker i).mode a f)
  where
    active≢inactive : (m : Mode) → m ≡ active → m ≡ inactive → ⊥
    active≢inactive m a f = cc

-- The active worker answers for itself first, and then helps.
one_answer :
    (s : System) (by : ℕ)
    → s.turn ≡ waiting
    → s.check_flag ≢ 0
    → IsSound s
    → IsActive s by
    → Progresses s by
one_answer s by e f n (b, k) = elim (Bool-cases (is_pre (s.worker by).phase)) [
  | inl p ↦ accepted_answer s by by e n b p (no_help s by k) (b, k)
  | inr p ↦ elim (Bool-cases (s.worker by).acting) [
    | inl a ↦ acted s by by e n b a (b, k)
    | inr a ↦
        let (i, (h, positive)) =
          total_positive (λ j. pending (s.worker j)) s.workers
            (omega (arith, f, waiting_count s e n)) in
        elim (Bool-cases (is_pre (s.worker i).phase)) [
          | inl q ↦
              accepted_answer s i by e n h q (λ g. (by, ((b, (a, elsewhere s.turn by e)), (k, p))))
                (b, k)
          | inr q ↦ elim (Bool-cases (s.worker i).acting) [
            | inl c ↦ acted s i by e n h c (b, k)
            | inr c ↦ absurd (omega (arith, positive, pending_of_none (s.worker i) q c))
          ]
        ]
  ]
]

answers :
    (k : ℕ) (s : System) (by : ℕ)
    → sum_pending s ≤ k
    → s.turn ≡ waiting
    → s.check_flag ≢ 0
    → IsSound s
    → IsActive s by
    → (t : System) × (Steps s t × IsNext t)
answers zero s by h e f n a = absurd (omega (arith, h, f, waiting_count s e n))
answers (suc k) s by h e f n a =
    let (t, (r, (near, a'))) = one_answer s by e f n a in
    elim near [
      | inl end ↦ (t, (r, end))
      | inr (e', (f', less)) ↦
          let (u, (q, end)) =
            answers k t by (omega (arith, less, h)) e' f' (Steps-IsSound r n) a' in
          (u, (Steps-append r q, end))
    ]

-- In every state that can be reached, while workers wait for the end of a handshake, the counter is
-- not 0, and some worker is active, there are steps of the workers after which the next handshake
-- begins or the collection is over, whoever has the locks of the other workers.
pub handshake_ends :
    (s : System) (by : ℕ)
    → Reach s
    → s.turn ≡ waiting
    → s.check_flag ≢ 0
    → IsActive s by
    → (t : System) × (Steps s t × IsNext t)
handshake_ends s by r e f a =
    answers (sum_pending s) s by (omega arith) e f (Steps-IsSound r initial-IsSound) a
