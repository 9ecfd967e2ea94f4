-- ===== src/Control/Steps/Tests.antt =====
-- Runs of the handshakes of the collector (smlsharp/src/runtime/control.c) with two workers, and the
-- theorems on them.
use smlsharp_completions_gen.Base.{ℕ, ◌<◌, ◌≡◌, true, false, arith, refl}
use smlsharp_completions_gen.Pool.{presync2, phase_number}
use smlsharp_completions_gen.Control.{
  inactive, active, helped, to_sync1, to_sync2, to_mark, waiting, System, set_worker,
  register_worker, accept, global_phase, change_one, add_count, end_action, begin_gc, state_word,
  signal_word, old_phase, new_phase,
}
use smlsharp_completions_gen.Control.Words.{IsWord, state_word-IsWord}
use smlsharp_completions_gen.Control.Steps.{
  register, leave, check, help, finish, gc, begin, tell, add, Steps, here, next, initial, Reach,
}
use smlsharp_completions_gen.Control.Steps.Invariant.{IsQuiet}
use smlsharp_completions_gen.Control.Steps.Safety.{last_answer}
use smlsharp_completions_gen.Control.Steps.Progress.{handshake_ends, IsNext}
use smlsharp_completions_gen.Control.Steps.Stall.{never_ends}

-- Two workers; worker 1 begins a collection and has told both of them.
abbrev told : System
told = change_one to_sync1 1 0 1 (
    change_one to_sync1 1 1 0
      (global_phase to_sync1 1 (begin_gc 1 (register_worker (register_worker initial)))))

told-Reach : Reach told
unfolding register_worker begin_gc global_phase change_one
told-Reach =
    next
      (next
        (next
          (next (next (next here (register (omega arith))) (register (omega arith)))
            (gc 1 (omega arith, (refl, tt)) refl refl refl))
          (begin to_sync1 1 refl))
        (tell to_sync1 1 1 0 refl))
      (tell to_sync1 1 0 1 refl)

-- Both have to answer.
abbrev asked : System
asked = add_count 2 told

asked-Reach : Reach asked
unfolding register_worker begin_gc global_phase change_one add_count
asked-Reach = next told-Reach (add to_sync1 1 2 refl)

-- Worker 1 has answered; worker 0 has left, and is about to.
abbrev answered : System
answered =
    let s = set_worker 1 (accept active (asked.worker 1)) asked in
    let s' = end_action 1 true s in set_worker 0 (accept inactive (s'.worker 0)) s'

answered-Reach : Reach answered
unfolding register_worker begin_gc global_phase change_one add_count end_action
answered-Reach =
    next
      (next (next asked-Reach (check 1 (omega arith, (refl, tt)) (omega arith, refl) refl))
        (finish 1 true (omega arith) refl))
      (leave 0 (omega arith, (refl, tt)) refl)

last_answer_example :
    (answered.turn ≡ waiting)
    × ((j : ℕ)
        → j < answered.workers
        → IsQuiet answered.global
            ((set_worker 0 (record (answered.worker 0) { acting = false }) answered).worker j))
unfolding register_worker begin_gc global_phase change_one add_count end_action
last_answer_example = last_answer answered 0 answered-Reach (omega arith) refl refl

handshake_ends_example : (t : System) × (Steps asked t × IsNext t)
unfolding register_worker begin_gc global_phase change_one add_count end_action
handshake_ends_example = handshake_ends asked 0 asked-Reach refl (omega arith) (omega arith, refl)

-- Worker 0 has told all to go on to SYNC2; worker 1 has answered for itself and for worker 0.
abbrev told_again : System
told_again =
    change_one to_sync2 0 0 1
      (change_one to_sync2 0 1 0 (global_phase to_sync2 0 (end_action 0 true answered)))

told_again-Reach : Reach told_again
unfolding register_worker begin_gc global_phase change_one add_count end_action
told_again-Reach =
    next
      (next (next (next answered-Reach (finish 0 true (omega arith) refl)) (begin to_sync2 0 refl))
        (tell to_sync2 0 1 0 refl))
      (tell to_sync2 0 0 1 refl)

abbrev stalled : System
stalled =
    let s = set_worker 1 (accept active (told_again.worker 1)) told_again in
    let s' = end_action 1 true s in
    let t = set_worker 0 (accept helped (s'.worker 0)) s' in end_action 0 true t

stalled-Reach : Reach stalled
unfolding register_worker begin_gc global_phase change_one add_count end_action
stalled-Reach =
    next
      (next
        (next
          (next told_again-Reach (
            check 1 (omega arith, (refl, λ e. absurd (omega (arith, e)))) (omega arith, refl) refl))
          (finish 1 true (omega arith) refl))
        (help 0 1 (omega arith, refl)
          ((omega arith, (refl, λ e. absurd (omega (arith, e)))), (refl, refl)) refl refl))
      (finish 0 true (omega arith) refl)

never_ends_example : (add_count 2 stalled).gc_count ≡ stalled.gc_count
unfolding register_worker begin_gc global_phase change_one add_count end_action
never_ends_example =
    never_ends stalled (add_count 2 stalled) to_sync2 0 2 stalled-Reach refl refl here

state_word-IsWord_example :
    IsWord inactive presync2
    × (signal_word
          (phase_number (old_phase to_mark))
          (phase_number (new_phase to_mark))
          (state_word inactive (old_phase to_mark))
        ≡ state_word inactive (new_phase to_mark))
state_word-IsWord_example = state_word-IsWord inactive presync2 to_mark tt
