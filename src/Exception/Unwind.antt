-- ===== src/Exception/Unwind.antt =====
-- The two phases of unwinding for an exception of SML# (smlsharp/src/runtime/exn.c, `sml_personality`): the
-- calls for the frames up to the handler, in the order in which the ABI has them.
use smlsharp_completions_gen.Base.{
  ℕ, suc, ◌+◌, ◌-◌, ◌%◌, ◌^◌, ◌<◌, ◌≤◌, ◌≡◌, ◌≢◌, ◌⊎◌, ◌==◌, refl, ap, ◌∙◌, true, false,
  if◌then◌else◌, Option, none, some, ◌>>=◌, List, [], ◌∷◌, length, arith, inl, inr, same_or_not,
}
use smlsharp_completions_gen.Base.Predicates.{All}
use smlsharp_completions_gen.Exception.{LandingPad, Context, search_lpad}
use smlsharp_completions_gen.Exception.Personality.{
  Unwinding, Actions, Reason, handler_found, continue_unwind, install_context, search_frame,
  install, cleanup_frame, sml_personality,
}

abbrev pub searching : Actions
searching = record { search_phase = true; cleanup_phase = false; handler_frame = false }

abbrev pub cleaning : Actions
cleaning = record { search_phase = false; cleanup_phase = true; handler_frame = false }

abbrev pub handling : Actions
handling = record { search_phase = false; cleanup_phase = true; handler_frame = true }

module _ (byte : ℕ → ℕ) (pad : Context → LandingPad) where
  -- A frame without a handler: nothing is done for it, or a cleanup.
  abbrev pub IsPassed : Context → Type 0
  IsPassed c =
      (search_lpad byte c ≡ some (pad c))
      × (((pad c).type ≡ 0) ⊎ (((pad c).type ≡ 2) × ((pad c).addr ≢ 0)))

  -- The landing pads of the cleanups.
  abbrev pub cleanups : List Context → List ℕ
  cleanups [] = []
  cleanups (c ∷ cs) = if (pad c).type == 2 then (pad c).addr ∷ cleanups cs else cleanups cs

  cleanups-le : (cs : List Context) → length (cleanups cs) ≤ length cs
  cleanups-le [] = omega arith
  cleanups-le (c ∷ cs) = ground (arith, cleanups-le cs)

  abbrev pub go_on : Reason × Unwinding → Option Unwinding
  go_on (continue_unwind, e) = some e
  go_on _ = none

  -- The calls of the first phase for the frames before the handler, which go on.
  abbrev pub search_frames : List Context → Unwinding → Option Unwinding
  search_frames [] e = some e
  search_frames (c ∷ cs) e =
      sml_personality byte 1 searching true e c >>= go_on >>= search_frames cs

  abbrev pub landed : Reason × Unwinding → Option (List ℕ × Unwinding)
  landed (continue_unwind, e) = some ([], e)
  landed (install_context addr ret1 ret2, e) = some (addr ∷ [], e)
  landed _ = none

  abbrev pub before : List ℕ → List ℕ × Unwinding → Option (List ℕ × Unwinding)
  before [] r = some r
  before (a ∷ more) (addrs, e) = some (a ∷ addrs, e)

  -- Those of the second phase, with the landing pads at which it stops.
  abbrev pub clean_frames : List Context → Unwinding → Option (List ℕ × Unwinding)
  clean_frames [] e = some ([], e)
  clean_frames (c ∷ cs) e =
      sml_personality byte 1 cleaning true e c >>= landed >>= λ (r : List ℕ × Unwinding).
      clean_frames cs r.1 >>= before r.0

  abbrev pub with_count : ℕ → Unwinding → Unwinding
  with_count n e = record e { num_cleanup = n }

  searched :
      (cs : List Context) (e : Unwinding)
      → All IsPassed cs
      → e.num_cleanup + length cs < 2 ^ 32
      → search_frames cs e ≡ some (with_count (e.num_cleanup + length (cleanups cs)) e)
  unfolding sml_personality search_frame
  searched [] e a h =
      ap (λ n. some (with_count n e)) {x = e.num_cleanup} {y = e.num_cleanup + 0} (omega arith)
  searched (c ∷ cs) e ((f, inl t), a) h = rw (f, t) (searched cs e a (omega arith))
  searched (c ∷ cs) e ((f, inr (t, _)), a) h =
      let small : (e.num_cleanup + 1) % 2 ^ 32 ≡ e.num_cleanup + 1 = omega arith in
      rw (f, t, small)
        (searched cs (with_count (e.num_cleanup + 1) e) a (omega arith)
          ∙ ap (λ n. some (with_count n e)) {x = e.num_cleanup + 1 + length (cleanups cs)}
              {y = e.num_cleanup + suc (length (cleanups cs))} (omega arith))

  cleaned :
      (cs : List Context) (e : Unwinding)
      → All IsPassed cs
      → length cs < 2 ^ 32
      → clean_frames cs (with_count (length (cleanups cs)) e) ≡ some (cleanups cs, with_count 0 e)
  unfolding sml_personality cleanup_frame install
  cleaned [] e a h = refl
  cleaned (c ∷ cs) e ((f, inl t), a) h =
      let rest = cleaned cs e a (omega arith) in
      elim (same_or_not (length (cleanups cs)) 0) [
        | inl (n, b) ↦ rw (t, b) (rw rest refl)
        | inr (n, b) ↦ rw (t, b) (rw (f, t) (rw rest refl))
      ]
  cleaned (c ∷ cs) e ((f, inr (t, placed)), a) h =
      let n = length (cleanups cs) in
      let some_left : (suc n == 0) ≡ false = ground arith in
      let there : ((pad c).addr == 0) ≡ false = ground (arith, placed) in
      let less : (suc n + 2 ^ 32 - 1) % 2 ^ 32 ≡ n = omega (arith, cleanups-le cs, h) in
      let rest = cleaned cs e a (omega arith) in
      rw (t, some_left) (rw (f, t, there, less) (rw rest refl))

  -- For an exception of SML#, frames without a handler, with their landing pads, and then one with a
  -- handler: the first phase goes on at each of the frames and finds the handler. In the second one
  -- the control goes to each cleanup of the frames once, in order, and to nothing else, and then to
  -- the handler that was found, with the exception; `num_cleanup` is 0 again.
  pub sml_personality-unwinds :
      (cs : List Context) (handler : Context) (e : Unwinding)
      → All IsPassed cs
      → length cs < 2 ^ 32
      → e.num_cleanup ≡ 0
      → search_lpad byte handler ≡ some (pad handler)
      → (pad handler).type % 2 ≡ 1
      → (pad handler).addr ≢ 0
      → (e1 : Unwinding) × (e2 : Unwinding) × (e3 : Unwinding) × (search_frames cs e ≡ some e1)
        × (sml_personality byte 1 searching true e1 handler ≡ some (handler_found, e2))
        × (clean_frames cs e2 ≡ some (cleanups cs, e3))
        × (sml_personality byte 1 handling true e3 handler
            ≡ some (install_context (pad handler).addr false true, e3))
        × (e3.num_cleanup ≡ 0)
  unfolding sml_personality search_frame install
  sml_personality-unwinds cs handler e a h z f catch placed =
      let found : Unwinding = record { handler_addr = (pad handler).addr; num_cleanup = 0 } in
      let there : ((pad handler).addr == 0) ≡ false = ground (arith, placed) in
      (
        with_count (length (cleanups cs)) e,
        with_count (length (cleanups cs)) found,
        found,
        searched cs e a (omega (arith, z, h))
            ∙ ap (λ n. some (with_count n e)) {x = e.num_cleanup + length (cleanups cs)}
                {y = length (cleanups cs)} (omega (arith, z)),
        rw (f, catch) refl,
        cleaned cs found a h,
        rw there refl,
        refl,
      )
