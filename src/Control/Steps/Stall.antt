-- ===== src/Control/Steps/Stall.antt =====
-- A handshake of the collector (smlsharp/src/runtime/control.c) may stop for ever.
use smlsharp_completions_gen.Base.{ℕ, suc, ◌%◌, ◌<◌, ◌≡◌, arith, refl, ◌∙◌, subst}
use smlsharp_completions_gen.Control.{
  Signal, Worker, Turn, waiting, beginning, telling, System, set_worker, register_worker, add_count,
}
use smlsharp_completions_gen.Control.Sums.{total_at_least}
use smlsharp_completions_gen.Control.Steps.{
  Step, register, enter, leave, check, help, help_again, help_end, quit, finish, gc, begin, tell,
  add, Steps, here, next, Reach,
}
use smlsharp_completions_gen.Control.Steps.Invariant.{
  pending, sum_pending, IsResting, IsSound, IsInvisible, same_sum, mode-IsInvisible,
  quit-IsInvisible, accept-IsInvisible,
}
use smlsharp_completions_gen.Control.Steps.Sound.{pending_of_acting, register_sum}
use smlsharp_completions_gen.Control.Steps.Answers.{idle}
use smlsharp_completions_gen.Control.Steps.Safety.{Step-IsSound, Steps-IsSound, initial-IsSound}

-- A collection goes on, but nobody has to answer or is about to change phases.
pub record IsStalled (s : System) : Type 0 where
  pub waits : s.turn ≡ waiting
  pub collecting : s.gc_count % 2 ≡ 1
  pub nobody : sum_pending s ≡ 0

waiting≢beginning : (t : Turn) (sg : Signal) (by : ℕ) → t ≡ waiting → t ≡ beginning sg by → ⊥
waiting≢beginning t sg by e f = cc

waiting≢telling :
    (t : Turn) (sg : Signal) (by left count : ℕ) → t ≡ waiting → t ≡ telling sg by left count → ⊥
waiting≢telling t sg by left count e f = cc

unseen :
    (s : System) (i : ℕ) (w : Worker)
    → i < s.workers
    → IsInvisible (s.worker i) w
    → IsStalled s
    → IsStalled (set_worker i w s) × (s.gc_count ≡ s.gc_count)
unseen s i w h v k = (
  record { waits = k.waits; collecting = k.collecting; nobody = same_sum s i w h v ∙ k.nobody },
  refl,
)

registered :
    (s : System)
    → IsSound s
    → IsStalled s
    → IsStalled (register_worker s) × ((register_worker s).gc_count ≡ s.gc_count)
unfolding register_worker
registered s n k = (
  record { waits = k.waits; collecting = k.collecting; nobody = register_sum s n ∙ k.nobody },
  refl,
)

Step-IsStalled :
    {s t : System} → Step s t → IsSound s → IsStalled s → IsStalled t × (t.gc_count ≡ s.gc_count)
Step-IsStalled {s} (register h) n k = registered s n k
Step-IsStalled {s} (enter i (h, f) m q) n k = unseen s i _ h (mode-IsInvisible _ (s.worker i)) k
Step-IsStalled {s} (leave i (h, (a, _)) m) n k =
    unseen s i _ h (accept-IsInvisible _ (s.worker i) a) k
Step-IsStalled {s} (check i (h, (a, _)) p m) n k =
    unseen s i _ h (accept-IsInvisible _ (s.worker i) a) k
Step-IsStalled {s} (help i j (h, p) k' m d) n k =
    unseen s i _ h (accept-IsInvisible _ (s.worker i) (idle s i h p n)) k
Step-IsStalled {s} (help_again i a (h, p) m) n k =
    unseen s i _ h (accept-IsInvisible _ (s.worker i) a) k
Step-IsStalled {s} (help_end i h a m p) n k = unseen s i _ h (mode-IsInvisible _ (s.worker i)) k
Step-IsStalled {s} (quit i h m) n k = unseen s i _ h (quit-IsInvisible (s.worker i)) k
Step-IsStalled {s} (finish i marked h a) n k = absurd (
    omega (
      arith,
      k.nobody,
      pending_of_acting (s.worker i) a,
      total_at_least (λ j. pending (s.worker j)) s.workers i h,
    ))
Step-IsStalled {s} (gc by f m q e) n k = absurd (omega (arith, e, k.collecting))
Step-IsStalled {s} (begin sg by e) n k = absurd (waiting≢beginning s.turn sg by k.waits e)
Step-IsStalled {s} (tell sg by j count e) n k =
    absurd (waiting≢telling s.turn sg by (suc j) count k.waits e)
Step-IsStalled {s} (add sg by count e) n k = absurd (waiting≢telling s.turn sg by 0 count k.waits e)

Steps-IsStalled :
    {s t : System} → Steps s t → IsSound s → IsStalled s → IsStalled t × (t.gc_count ≡ s.gc_count)
Steps-IsStalled here n k = (k, refl)
Steps-IsStalled (next r st) n k =
    let (k', e) = Steps-IsStalled r n k in
    let (k2, e') = Step-IsStalled st (Steps-IsSound r n) k' in (k2, e' ∙ e)

-- The count is added to the counter after the workers have got their signals. If all of them have
-- answered by then, no worker finds itself the last one, and the collection never ends: whatever
-- the workers do, `gc_count` stays as it is.
pub never_ends :
    (s t : System) (sg : Signal) (by count : ℕ)
    → Reach s
    → s.turn ≡ telling sg by 0 count
    → sum_pending s ≡ 0
    → Steps (add_count count s) t
    → t.gc_count ≡ s.gc_count
unfolding add_count
never_ends s t sg by count r e z q =
    let n = Steps-IsSound r initial-IsSound in
    let k : IsStalled (add_count count s) = record {
      waits = refl;
      collecting = subst (IsResting s) e n.resting;
      nobody = z;
    } in
    (Steps-IsStalled q (Step-IsSound (add sg by count e) n) k).1
