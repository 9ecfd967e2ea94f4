-- ===== src/Exception/Personality.antt =====
-- `sml_personality` (smlsharp/src/runtime/exn.c), which libgcc calls for each frame in the two phases of
-- unwinding.
use smlsharp_completions_gen.Base.{
  ℕ, ◌+◌, ◌-◌, ◌/◌, ◌%◌, ◌^◌, ◌==◌, ◌&&◌, not, Bool, true, false, if◌then◌else◌, Option, none, some,
  ◌>>=◌,
}
use smlsharp_completions_gen.Exception.{LandingPad, Context, search_lpad}

-- The fields of `struct exception` that unwinding changes.
pub record Unwinding : Type 0 where
  pub handler_addr : ℕ
  pub num_cleanup : ℕ

-- The bits _UA_SEARCH_PHASE, _UA_CLEANUP_PHASE and _UA_HANDLER_FRAME.
pub record Actions : Type 0 where
  pub search_phase : Bool
  pub cleanup_phase : Bool
  pub handler_frame : Bool

-- The results; with `install_context` the new instruction pointer, and whether `ret1` is `ue` and
-- `ret2` is the exception, which are NULL otherwise.
pub data Reason : Type 0 where
  fatal_phase1_error fatal_phase2_error handler_found continue_unwind : Reason
  install_context : ℕ → Bool → Bool → Reason

abbrev pub has_catch : LandingPad → Bool
has_catch pad = pad.type % 2 == 1

abbrev pub has_cleanup : LandingPad → Bool
has_cleanup pad = pad.type / 2 % 2 == 1

-- The branch of the search phase. `native` is `exnclass == EXNCLASS_SMLSHARP`.
unfoldable pub search_frame : Bool → Unwinding → LandingPad → Reason × Unwinding
search_frame native e pad =
    if has_catch pad
    then (handler_found, if native then record e { handler_addr = pad.addr } else e)
    else if has_cleanup pad && native
    then (continue_unwind, record e { num_cleanup = (e.num_cleanup + 1) % 2 ^ 32 })
    else (continue_unwind, e)

-- The end of the function; `none` is `terminate`.
unfoldable pub install : ℕ → Bool → Bool → Unwinding → Option (Reason × Unwinding)
install addr ret1 ret2 e = if addr == 0 then none else some (install_context addr ret1 ret2, e)

unfoldable pub cleanup_frame : Bool → Unwinding → LandingPad → Option (Reason × Unwinding)
cleanup_frame native e pad =
    if not (has_cleanup pad)
    then if pad.type == 0 then some (continue_unwind, e) else none
    else if native
    then install pad.addr true true
        (record e { num_cleanup = (e.num_cleanup + 2 ^ 32 - 1) % 2 ^ 32 })
    else install pad.addr true false e

-- `none` is `terminate`, a failed `assert`, or what `search_lpad` says.
unfoldable pub sml_personality :
    (ℕ → ℕ) → ℕ → Actions → Bool → Unwinding → Context → Option (Reason × Unwinding)
sml_personality byte version actions native e context =
    if not (version == 1)
    then some (fatal_phase1_error, e)
    else if actions.search_phase
    then (search_lpad byte context >>= λ pad. some (search_frame native e pad))
    else if not actions.cleanup_phase
    then some (fatal_phase2_error, e)
    else if actions.handler_frame
    then if native
      then install e.handler_addr false true e
      else (search_lpad byte context >>= λ pad. install pad.addr false false e)
    else if native && e.num_cleanup == 0
    then some (continue_unwind, e)
    else (search_lpad byte context >>= λ pad. cleanup_frame native e pad)
