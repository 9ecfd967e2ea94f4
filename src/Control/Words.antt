-- ===== src/Control/Words.antt =====
-- The state words of workers (smlsharp/src/runtime/control.c, lines 150 to 223): what the
-- bit operations do to modes and phases.
use smlsharp_completions_gen.Base.{◌≡◌, ◌&&◌, Bool, true, false, refl}
use smlsharp_completions_gen.Pool.{
  SyncPhase, preasync, async, presync1, sync1, presync2, sync2, premark, mark, dummy_phase,
  phase_number,
}
use smlsharp_completions_gen.Control.{
  Mode, active, inactive, helped, state_word, phase_bits, unbit_inactive, leave_word, signal_word,
  needs_help, help_word, help_end_word, help_again_word, is_pre, accepted, Signal, to_sync1,
  to_sync2, to_mark, mark_again, to_async, old_phase, new_phase,
}

abbrev is_inactive : Mode → Bool
is_inactive active = false
is_inactive inactive = true
is_inactive helped = false

-- The operations on the state word of a worker in a phase.
pub record IsWord (m : Mode) (p : SyncPhase) : Type 0 where
  pub phase_lem : phase_bits (state_word m p) ≡ phase_number p
  pub enter_lem : unbit_inactive (state_word inactive p) ≡ state_word active p
  pub leave_lem : leave_word (state_word active p) ≡ state_word inactive (accepted p)
  pub help_test : needs_help (state_word m p) ≡ (is_inactive m && is_pre p)
  pub help_lem : help_word (state_word inactive p) ≡ state_word helped (accepted p)
  pub end_lem : help_end_word (state_word helped p) ≡ state_word inactive p
  pub again_lem : help_again_word (state_word helped p) ≡ state_word helped (accepted p)

abbrev pub IsCyclic : SyncPhase → Type 0
IsCyclic dummy_phase = ⊥
IsCyclic _ = Unit

-- A statement for each of the eight phases.
abbrev EachPhase : (SyncPhase → Type 0) → Type 0
EachPhase P =
    P preasync
    × (P async × (P presync1 × (P sync1 × (P presync2 × (P sync2 × (P premark × P mark))))))

in_phase : (P : SyncPhase → Type 0) → EachPhase P → (p : SyncPhase) → IsCyclic p → P p
in_phase P (a, (b, (c, (d, (e, (f, (g, h))))))) preasync t = a
in_phase P (a, (b, (c, (d, (e, (f, (g, h))))))) async t = b
in_phase P (a, (b, (c, (d, (e, (f, (g, h))))))) presync1 t = c
in_phase P (a, (b, (c, (d, (e, (f, (g, h))))))) sync1 t = d
in_phase P (a, (b, (c, (d, (e, (f, (g, h))))))) presync2 t = e
in_phase P (a, (b, (c, (d, (e, (f, (g, h))))))) sync2 t = f
in_phase P (a, (b, (c, (d, (e, (f, (g, h))))))) premark t = g
in_phase P (a, (b, (c, (d, (e, (f, (g, h))))))) mark t = h
in_phase P a dummy_phase t = absurd t

bits_of_mode : (m : Mode) → EachPhase (λ p. phase_bits (state_word m p) ≡ phase_number p)
unfolding phase_bits
bits_of_mode active = (refl, (refl, (refl, (refl, (refl, (refl, (refl, refl)))))))
bits_of_mode inactive = (refl, (refl, (refl, (refl, (refl, (refl, (refl, refl)))))))
bits_of_mode helped = (refl, (refl, (refl, (refl, (refl, (refl, (refl, refl)))))))

help_of_mode :
    (m : Mode) → EachPhase (λ p. needs_help (state_word m p) ≡ (is_inactive m && is_pre p))
unfolding needs_help
help_of_mode active = (refl, (refl, (refl, (refl, (refl, (refl, (refl, refl)))))))
help_of_mode inactive = (refl, (refl, (refl, (refl, (refl, (refl, (refl, refl)))))))
help_of_mode helped = (refl, (refl, (refl, (refl, (refl, (refl, (refl, refl)))))))

signal_of_mode :
    (m : Mode) (sg : Signal)
    → signal_word
        (phase_number (old_phase sg))
        (phase_number (new_phase sg))
        (state_word m (old_phase sg))
      ≡ state_word m (new_phase sg)
unfolding signal_word
signal_of_mode active to_sync1 = refl
signal_of_mode active to_sync2 = refl
signal_of_mode active to_mark = refl
signal_of_mode active mark_again = refl
signal_of_mode active to_async = refl
signal_of_mode inactive to_sync1 = refl
signal_of_mode inactive to_sync2 = refl
signal_of_mode inactive to_mark = refl
signal_of_mode inactive mark_again = refl
signal_of_mode inactive to_async = refl
signal_of_mode helped to_sync1 = refl
signal_of_mode helped to_sync2 = refl
signal_of_mode helped to_mark = refl
signal_of_mode helped mark_again = refl
signal_of_mode helped to_async = refl

-- In each of the eight phases the operations on state words do what they are for: entering takes the
-- lock, `leave_worker` gives it back and accepts a signal that is pending, `help_inactive` finds
-- the workers that nobody has locked and whose signal is pending, and takes the lock and the signal.
-- The `fetch_xor` in `change_phase` sends each of the signals whatever the mode is.
pub state_word-IsWord :
    (m : Mode) (p : SyncPhase) (sg : Signal)
    → IsCyclic p
    → IsWord m p
      × (signal_word
            (phase_number (old_phase sg))
            (phase_number (new_phase sg))
            (state_word m (old_phase sg))
          ≡ state_word m (new_phase sg))
unfolding unbit_inactive leave_word phase_bits help_word help_end_word help_again_word
state_word-IsWord m p sg c = (
  record {
    phase_lem = in_phase (λ p. phase_bits (state_word m p) ≡ phase_number p) (bits_of_mode m) p c;
    enter_lem =
        in_phase (λ p. unbit_inactive (state_word inactive p) ≡ state_word active p)
          (refl, (refl, (refl, (refl, (refl, (refl, (refl, refl))))))) p c;
    leave_lem =
        in_phase (λ p. leave_word (state_word active p) ≡ state_word inactive (accepted p))
          (refl, (refl, (refl, (refl, (refl, (refl, (refl, refl))))))) p c;
    help_test =
        in_phase (λ p. needs_help (state_word m p) ≡ (is_inactive m && is_pre p)) (help_of_mode m) p
          c;
    help_lem =
        in_phase (λ p. help_word (state_word inactive p) ≡ state_word helped (accepted p))
          (refl, (refl, (refl, (refl, (refl, (refl, (refl, refl))))))) p c;
    end_lem =
        in_phase (λ p. help_end_word (state_word helped p) ≡ state_word inactive p)
          (refl, (refl, (refl, (refl, (refl, (refl, (refl, refl))))))) p c;
    again_lem =
        in_phase (λ p. help_again_word (state_word helped p) ≡ state_word helped (accepted p))
          (refl, (refl, (refl, (refl, (refl, (refl, (refl, refl))))))) p c;
  },
  signal_of_mode m sg,
)
