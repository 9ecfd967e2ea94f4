-- ===== src/Control/Steps/Safety.antt =====
-- The handshakes of the collector (smlsharp/src/runtime/control.c): a phase begins when all workers
-- have answered to the one before.
use smlsharp_completions_gen.Base.{ℕ, ◌<◌, ◌≡◌, true, false, arith, refl}
use smlsharp_completions_gen.Control.{System, waiting, set_worker}
use smlsharp_completions_gen.Control.Steps.{
  Step, register, enter, leave, check, help, help_again, help_end, quit, finish, gc, begin, tell,
  add, Steps, here, next, initial, Reach,
}
use smlsharp_completions_gen.Control.Steps.Invariant.{
  IsSound, IsQuiet, set-IsSound, mode-IsInvisible, quit-IsInvisible, accept-IsInvisible,
}
use smlsharp_completions_gen.Control.Steps.Sound.{
  begin-IsSound, begin_gc-IsSound, add_count-IsSound, register-IsSound,
}
use smlsharp_completions_gen.Control.Steps.Answers.{
  idle, change_one-IsSound, end_action-IsSound, no_change, all-IsQuiet,
}

pub initial-IsSound : IsSound initial
initial-IsSound = record {
  few = omega arith;
  small = omega arith;
  counted = refl;
  uniform = λ i h. absurd (omega arith);
  resting = λ e. (refl, refl);
  still = λ i h. absurd (omega arith);
  target = tt;
}

pub Step-IsSound : {s t : System} → Step s t → IsSound s → IsSound t
Step-IsSound {s} (register h) n = register-IsSound s h n
Step-IsSound {s} (enter i (h, f) m q) n = set-IsSound s i _ h (mode-IsInvisible _ (s.worker i)) n
Step-IsSound {s} (leave i (h, (a, _)) m) n =
    set-IsSound s i _ h (accept-IsInvisible _ (s.worker i) a) n
Step-IsSound {s} (check i (h, (a, _)) p m) n =
    set-IsSound s i _ h (accept-IsInvisible _ (s.worker i) a) n
Step-IsSound {s} (help i j (h, p) k' m d) n =
    set-IsSound s i _ h (accept-IsInvisible _ (s.worker i) (idle s i h p n)) n
Step-IsSound {s} (help_again i a (h, p) m) n =
    set-IsSound s i _ h (accept-IsInvisible _ (s.worker i) a) n
Step-IsSound {s} (help_end i h a m p) n = set-IsSound s i _ h (mode-IsInvisible _ (s.worker i)) n
Step-IsSound {s} (quit i h m) n = set-IsSound s i _ h (quit-IsInvisible (s.worker i)) n
Step-IsSound {s} (finish i marked h a) n = end_action-IsSound i s h a n marked
Step-IsSound {s} (gc by f m q e) n = begin_gc-IsSound by s e n
Step-IsSound {s} (begin sg by e) n = begin-IsSound sg by s e n
Step-IsSound {s} (tell sg by k count e) n = change_one-IsSound sg by k count s e n
Step-IsSound {s} (add sg by count e) n = add_count-IsSound sg by count s e n

pub Steps-IsSound : {s t : System} → Steps s t → IsSound s → IsSound t
Steps-IsSound here n = n
Steps-IsSound (next r st) n = Step-IsSound st (Steps-IsSound r n)

-- In every state that can be reached: when a worker finds at the end of its action that the counter
-- was 1, no thread is about to change phases, and every living worker has the phase of this
-- handshake, with its action done. So the next handshake begins when all have answered, and when
-- no other thread is about to change phases.
pub last_answer :
    (s : System) (i : ℕ)
    → Reach s
    → i < s.workers
    → (s.worker i).acting ≡ true
    → s.check_flag ≡ 1
    → (s.turn ≡ waiting)
      × ((j : ℕ)
          → j < s.workers
          → IsQuiet s.global ((set_worker i (record (s.worker i) { acting = false }) s).worker j))
last_answer s i r h a e =
    let n = Steps-IsSound r initial-IsSound in (no_change i s h a n e, all-IsQuiet i s h a n e)
