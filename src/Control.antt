-- ===== src/Control.antt =====
-- The handshakes of the collector with the workers (smlsharp/src/runtime/control.c).
--
-- A worker is its state word, as a mode and a phase, with what is of interest of the rest: whether its
-- action goes on, whether it has been canceled and has no users, and `DEAD_FLAG`. Workers are numbered
-- in the order in which they are registered, so that the list `workers_available` goes from the last
-- one down.
pub mod Words
pub mod Sums
pub mod Steps
use Prim.Native.Nat.{bit_and, bit_or, bit_xor}
use smlsharp_completions_gen.Base.{
  ℕ, zero, suc, ◌+◌, ◌-◌, ◌%◌, ◌^◌, ◌==◌, ◌&&◌, ◌||◌, not, Bool, true, false, if◌then◌else◌,
}
use smlsharp_completions_gen.Pool.{
  SyncPhase, preasync, async, presync1, sync1, presync2, sync2, premark, mark, dummy_phase,
  phase_number,
}

pub data Mode : Type 0 where
  active inactive helped : Mode

-- `ACTIVE`, `INACTIVE`, and `HELPER_STATE`.
abbrev pub state_word : Mode → SyncPhase → ℕ
state_word active p = phase_number p
state_word inactive p = phase_number p + 16
state_word helped p = phase_number p + 32

-- `PHASE`
unfoldable pub phase_bits : ℕ → ℕ
phase_bits state = bit_and state 7

-- `acquire_unbit(&worker->state, INACTIVE_STATE)`: the new word, if the bit was set.
unfoldable pub unbit_inactive : ℕ → ℕ
unbit_inactive state = bit_and state (2 ^ 32 - 1 - 16)

-- The `fetch_or` in `leave_worker`.
unfoldable pub leave_word : ℕ → ℕ
leave_word state = bit_or state (bit_or 16 1)

-- The `fetch_xor` in `change_phase`.
unfoldable pub signal_word : ℕ → ℕ → ℕ → ℕ
signal_word old_phase new_phase state = bit_xor state (bit_xor old_phase new_phase)

-- The test in `help_inactive`, and the words that it writes.
unfoldable pub needs_help : ℕ → Bool
needs_help state = state == bit_or (bit_and state (2 ^ 32 - 2)) 16

unfoldable pub help_word : ℕ → ℕ
help_word state = bit_or (bit_or (phase_bits state) 1) 32

unfoldable pub help_end_word : ℕ → ℕ
help_end_word state = bit_xor state (bit_or 16 32)

unfoldable pub help_again_word : ℕ → ℕ
help_again_word state = bit_or state 1

-- A phase with PRE, and the phase without it.
abbrev pub is_pre : SyncPhase → Bool
is_pre preasync = true
is_pre presync1 = true
is_pre presync2 = true
is_pre premark = true
is_pre async = false
is_pre sync1 = false
is_pre sync2 = false
is_pre mark = false
is_pre dummy_phase = false

abbrev pub accepted : SyncPhase → SyncPhase
accepted preasync = async
accepted presync1 = sync1
accepted presync2 = sync2
accepted premark = mark
accepted async = async
accepted sync1 = sync1
accepted sync2 = sync2
accepted mark = mark
accepted dummy_phase = dummy_phase

-- The handshakes: by the phases that `change_phase` is called with and the one of `global_phase`.
pub data Signal : Type 0 where
  to_sync1 to_sync2 to_mark mark_again to_async : Signal

abbrev pub old_phase : Signal → SyncPhase
old_phase to_sync1 = async
old_phase to_sync2 = sync1
old_phase to_mark = sync2
old_phase mark_again = mark
old_phase to_async = mark

abbrev pub new_phase : Signal → SyncPhase
new_phase to_sync1 = presync1
new_phase to_sync2 = presync2
new_phase to_mark = premark
new_phase mark_again = premark
new_phase to_async = preasync

abbrev pub goal : Signal → SyncPhase
goal to_sync1 = sync1
goal to_sync2 = sync2
goal to_mark = mark
goal mark_again = mark
goal to_async = async

pub record Worker : Type 0 where
  pub mode : Mode
  pub phase : SyncPhase
  pub acting : Bool
  pub quitting : Bool
  pub dead : Bool

-- What the thread that changes the phases is about: nothing; `global_phase`; or the loop of
-- `change_phase`, with the number of workers left and the count. `by` is its worker.
pub data Turn : Type 0 where
  waiting : Turn
  beginning : Signal → ℕ → Turn
  telling : Signal → ℕ → ℕ → ℕ → Turn

pub record System : Type 0 where
  pub workers : ℕ
  pub worker : ℕ → Worker
  pub check_flag : ℕ
  pub global : SyncPhase
  pub gc_count : ℕ
  pub turn : Turn

abbrev pub set_worker : ℕ → Worker → System → System
set_worker i w s = record s { worker = λ j. if j == i then w else s.worker j }

-- `register_worker`, in `enter_worker`.
unfoldable pub register_worker : System → System
register_worker s =
    let new : Worker = record {
      mode = active;
      phase = s.global;
      acting = false;
      quitting = false;
      dead = false;
    } in
    record (set_worker s.workers new s) { workers = suc s.workers }

abbrev pub with_mode : Mode → Worker → Worker
with_mode m w = record w { mode = m }

-- The worker goes on to the phase without PRE; if it was in one with PRE, its action begins.
abbrev pub accept : Mode → Worker → Worker
accept m w = record w { mode = m; phase = accepted w.phase; acting = is_pre w.phase }

-- `global_phase`
unfoldable pub global_phase : Signal → ℕ → System → System
global_phase sg by s = record s { global = goal sg; turn = telling sg by s.workers 0 }

-- A turn of the loop of `change_phase`, for worker k. The `fetch_xor` on the state word takes the old
-- phase to the new one, whatever the mode (Control/Words.antt).
unfoldable pub change_one : Signal → ℕ → ℕ → ℕ → System → System
change_one sg by k count s =
    let w = s.worker k in
    if w.dead
    then record s { turn = telling sg by k count }
    else if phase_number (old_phase sg) == 1 && w.quitting
    then record (set_worker k (record w { dead = true }) s) { turn = telling sg by k count }
    else record (set_worker k (record w { phase = new_phase sg }) s) {
      turn = telling sg by k (count + 1);
    }

-- `fetch_add(relaxed, &sml_check_flag, count)`
unfoldable pub add_count : ℕ → System → System
add_count count s = record s { check_flag = (s.check_flag + count) % 2 ^ 32; turn = waiting }

-- What the last worker does, by the action that it has done; `marked` is the result of
-- `sml_heap_mark_finish`.
abbrev pub next_turn : SyncPhase → ℕ → Bool → Turn
next_turn sync1 by marked = beginning to_sync2 by
next_turn sync2 by marked = beginning to_mark by
next_turn mark by true = beginning to_async by
next_turn mark by false = beginning mark_again by
next_turn async by marked = waiting
next_turn preasync by marked = waiting
next_turn presync1 by marked = waiting
next_turn presync2 by marked = waiting
next_turn premark by marked = waiting
next_turn dummy_phase by marked = waiting

abbrev pub gc_done : SyncPhase → ℕ
gc_done async = 1
gc_done preasync = 0
gc_done presync1 = 0
gc_done sync1 = 0
gc_done presync2 = 0
gc_done sync2 = 0
gc_done premark = 0
gc_done mark = 0
gc_done dummy_phase = 0

-- The end of `worker_sync1`, `worker_sync2`, `worker_mark` and `worker_async`: `fetch_sub`, and what
-- follows if this worker is the last one. In `worker_async` the last one adds 1 to `gc_count` some time
-- after the `fetch_sub`; until then no other thread can begin a collection, and it is one step here.
unfoldable pub end_action : ℕ → Bool → System → System
end_action i marked s =
    let w = s.worker i in
    let s' =
      set_worker i (record w { acting = false })
        (record s { check_flag = (s.check_flag + 2 ^ 32 - 1) % 2 ^ 32 }) in
    if s.check_flag == 1
    then record s' { turn = next_turn w.phase i marked; gc_count = s.gc_count + gc_done w.phase }
    else s'

-- `sml_gc`, from the atomic `fetch_or` on.
unfoldable pub begin_gc : ℕ → System → System
begin_gc by s = record s { gc_count = s.gc_count + 1; turn = beginning to_sync1 by }
