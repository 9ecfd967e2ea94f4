-- ===== src/Control/Steps.antt =====
-- The steps of the workers and of the collector (smlsharp/src/runtime/control.c). Each atomic operation
-- is a step; steps of different threads follow each other in any order.
pub mod Invariant
pub mod Sound
pub mod Answers
pub mod Safety
pub mod Progress
pub mod Stall
mod Tests
use smlsharp_completions_gen.Base.{
  ℕ, zero, suc, ◌+◌, ◌-◌, ◌%◌, ◌^◌, ◌<◌, ◌≡◌, ◌≢◌, Bool, true, false,
}
use smlsharp_completions_gen.Pool.{SyncPhase, async}
use smlsharp_completions_gen.Control.{
  Mode, active, inactive, helped, is_pre, Signal, Worker, Turn, waiting, beginning, telling, System,
  set_worker, register_worker, with_mode, accept, global_phase, change_one, add_count, end_action,
  begin_gc,
}

-- The thread of worker i is not about to change the phases.
abbrev pub IsElsewhere : ℕ → Turn → Type 0
IsElsewhere i waiting = Unit
IsElsewhere i (beginning sg by) = i ≢ by
IsElsewhere i (telling sg by left count) = i ≢ by

-- Nor does it do an action.
abbrev pub IsFree : System → ℕ → Type 0
IsFree s i = (i < s.workers) × (((s.worker i).acting ≡ false) × IsElsewhere i s.turn)

abbrev pub IsPending : System → ℕ → Type 0
IsPending s i = (i < s.workers) × (is_pre (s.worker i).phase ≡ true)

-- The worker is one for which `sml_check_internal` calls `help_inactive`: active, with its own action done.
abbrev pub IsHelper : System → ℕ → Type 0
IsHelper s j = IsFree s j × (((s.worker j).mode ≡ active) × (is_pre (s.worker j).phase ≡ false))

pub data Step (s : System) : System → Type 0 where
  -- `enter_worker`, for a thread that has no worker yet. The workers are fewer than an unsigned int
  -- counts.
  register : suc (suc s.workers) < 2 ^ 32 → Step s (register_worker s)
  -- `enter_worker`, for one that has a worker and is not canceled.
  enter :
      (i : ℕ)
      → IsFree s i
      → (s.worker i).mode ≡ inactive
      → (s.worker i).quitting ≡ false
      → Step s (set_worker i (with_mode active (s.worker i)) s)
  -- The `fetch_or` in `leave_worker`.
  leave :
      (i : ℕ)
      → IsFree s i
      → (s.worker i).mode ≡ active
      → Step s (set_worker i (accept inactive (s.worker i)) s)
  -- The store in `sml_check_internal`, and the same in `sml_gc`.
  check :
      (i : ℕ)
      → IsFree s i
      → IsPending s i
      → (s.worker i).mode ≡ active
      → Step s (set_worker i (accept active (s.worker i)) s)
  -- The `cmpswap` in `help_inactive` by which another worker j takes the lock.
  help :
      (i j : ℕ)
      → IsPending s i
      → IsHelper s j
      → (s.worker i).mode ≡ inactive
      → (s.worker i).dead ≡ false
      → Step s (set_worker i (accept helped (s.worker i)) s)
  -- The one that gives the lock back, where it fails, and where it does not, after the action. The
  -- thread that worker i belongs to may be about anything then.
  help_again :
      (i : ℕ)
      → (s.worker i).acting ≡ false
      → IsPending s i
      → (s.worker i).mode ≡ helped
      → Step s (set_worker i (accept helped (s.worker i)) s)
  help_end :
      (i : ℕ)
      → i < s.workers
      → (s.worker i).acting ≡ false
      → (s.worker i).mode ≡ helped
      → is_pre (s.worker i).phase ≡ false
      → Step s (set_worker i (with_mode inactive (s.worker i)) s)
  -- `cancel_worker`, when all the users of the worker are gone.
  quit :
      (i : ℕ)
      → i < s.workers
      → (s.worker i).mode ≢ active
      → Step s (set_worker i (record (s.worker i) { quitting = true }) s)
  finish :
      (i : ℕ) (marked : Bool)
      → i < s.workers
      → (s.worker i).acting ≡ true
      → Step s (end_action i marked s)
  gc :
      (by : ℕ)
      → IsFree s by
      → (s.worker by).mode ≡ active
      → (s.worker by).quitting ≡ false
      → s.gc_count % 2 ≡ 0
      → Step s (begin_gc by s)
  begin : (sg : Signal) (by : ℕ) → s.turn ≡ beginning sg by → Step s (global_phase sg by s)
  tell :
      (sg : Signal) (by k count : ℕ)
      → s.turn ≡ telling sg by (suc k) count
      → Step s (change_one sg by k count s)
  add : (sg : Signal) (by count : ℕ) → s.turn ≡ telling sg by 0 count → Step s (add_count count s)

-- Any number of steps.
pub data Steps (s : System) : System → Type 0 where
  here : Steps s s
  next : {t u : System} → Steps s t → Step t u → Steps s u

-- At the start of the program there is no worker.
abbrev pub initial : System
initial = record {
  workers = 0;
  worker = λ i. record {
    mode = inactive;
    phase = async;
    acting = false;
    quitting = false;
    dead = false;
  };
  check_flag = 0;
  global = async;
  gc_count = 0;
  turn = waiting;
}

abbrev pub Reach : System → Type 0
Reach s = Steps initial s
