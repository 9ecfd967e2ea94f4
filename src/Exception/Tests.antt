-- ===== src/Exception/Tests.antt =====
-- A table of three call sites (smlsharp/src/runtime/exn.c), for a function at 4096.
use mathlib.Core.List.{Memᴰ}
use smlsharp_completions_gen.Base.{
  ℕ, ◌+◌, ◌-◌, ◌^◌, ◌<◌, ◌≡◌, ◌≢◌, ◌==◌, if◌then◌else◌, true, false, inl, inr, refl, Option, none,
  some, List, [], ◌∷◌, length, get_elem?, arith,
}
use smlsharp_completions_gen.Exception.{
  LandingPad, CallSite, Context, read_uleb128, pad_of, search_lpad,
}
use smlsharp_completions_gen.Exception.Numbers.{uleb128_bytes, read_uleb128-uleb128_bytes}
use smlsharp_completions_gen.Exception.Personality.{
  Unwinding, handler_found, install_context, sml_personality,
}
use smlsharp_completions_gen.Exception.Unwind.{
  searching, handling, search_frames, clean_frames, cleanups, sml_personality-unwinds,
}
use smlsharp_completions_gen.Exception.Pads.{IsPadOf}
use smlsharp_completions_gen.Exception.Search.{
  IsTable, action_table, search_lpad-pad_of, search_lpad-Covers, search_lpad-none,
}

abbrev handled : CallSite
handled = record { start = 0; len = 16; lpad = 200; action = 1 }

abbrev passed : CallSite
passed = record { start = 16; len = 8; lpad = 0; action = 0 }

abbrev cleaned_up : CallSite
cleaned_up = record { start = 24; len = 8; lpad = 100; action = 0 }

abbrev sites : List CallSite
sites = handled ∷ passed ∷ cleaned_up ∷ []

abbrev or_zero : Option ℕ → ℕ
or_zero none = 0
or_zero (some b) = b

-- The bytes from 1000 on; the action of `handled` is one of two.
abbrev memory : ℕ → ℕ
memory a = or_zero (
    get_elem?
      (255 ∷ 255 ∷ 1 ∷ 13 ∷ 0 ∷ 16 ∷ 200 ∷ 1 ∷ 1 ∷ 16 ∷ 8 ∷ 0 ∷ 0 ∷ 24 ∷ 8 ∷ 100 ∷ 0 ∷ 1 ∷ 125 ∷ [])
      (a - 1000))

abbrev at : ℕ → Context
at ip = record { lsda = 1000; region_start = 4096; ip = ip }

abbrev IsFrame : ℕ → Type 0
IsFrame ip = IsTable memory (at ip) none 1 sites

frame : (ip : ℕ) → ip ≢ 0 → ip < 2 ^ 64 → IsFrame ip
unfolding uleb128_bytes
frame ip positive small = record {
  lsda_not_null = omega arith;
  held = (
    refl,
    (
      refl,
      (
        refl,
        (
          refl,
          (
            refl,
            (
              refl,
              (
                refl,
                (refl, (refl, (refl, (refl, (refl, (refl, (refl, (refl, (refl, (refl, tt)))))))))),
              ),
            ),
          ),
        ),
      ),
    ),
  );
  typed = tt;
  encoded = inl refl;
  fits = (
    record {
      start_lt = omega arith;
      len_lt = omega arith;
      lpad_lt = omega arith;
      action_lt = omega arith;
    },
    (
      record {
        start_lt = omega arith;
        len_lt = omega arith;
        lpad_lt = omega arith;
        action_lt = omega arith;
      },
      (
        record {
          start_lt = omega arith;
          len_lt = omega arith;
          lpad_lt = omega arith;
          action_lt = omega arith;
        },
        tt,
      ),
    ),
  );
  table_lt = omega arith;
  follow = (
    omega arith,
    ((omega arith, (omega arith, tt)), (omega arith, ((omega arith, tt), (omega arith, (tt, tt))))),
  );
  ip_positive = positive;
  ip_lt = small;
}

search_lpad-Covers_example :
    (pad : LandingPad) × ((search_lpad memory (at 4108) ≡ some pad)
      × IsPadOf memory 4096 (action_table (at 4108) none 1 sites) handled pad)
search_lpad-Covers_example =
    search_lpad-Covers memory (at 4108) none 1 sites handled
      (frame 4108 (omega arith) (omega arith)) (Memᴰ.head refl) (omega arith, omega arith)

search_lpad-none_example : search_lpad memory (at 5000) ≡ some (record { type = 1; addr = 0 })
search_lpad-none_example =
    search_lpad-none memory (at 5000) none 1 sites (frame 5000 (omega arith) (omega arith))
      (λ e. cc)
      ((λ c. omega (arith, c.1)), ((λ c. omega (arith, c.1)), ((λ c. omega (arith, c.1)), tt)))

read_uleb128-uleb128_bytes_example :
    read_uleb128 memory 1006 ≡ some (200, 1006 + length (uleb128_bytes 200))
unfolding uleb128_bytes
read_uleb128-uleb128_bytes_example =
    read_uleb128-uleb128_bytes memory 1006 200 (omega arith) (refl, (refl, tt))

-- Two frames with a cleanup and one with nothing between, and one with a handler.
abbrev pad : Context → LandingPad
pad c =
    if c.ip == 4108
    then record { type = 3; addr = 4296 }
    else if c.ip == 4114
    then record { type = 0; addr = 4096 }
    else record { type = 2; addr = 4196 }

abbrev frames : List Context
frames = at 4121 ∷ at 4114 ∷ at 4122 ∷ []

abbrev thrown : Unwinding
thrown = record { handler_addr = 0; num_cleanup = 0 }

sml_personality-unwinds_example :
    (e1 : Unwinding) × (e2 : Unwinding) × (e3 : Unwinding) × (search_frames memory pad frames thrown
      ≡ some e1)
    × (sml_personality memory 1 searching true e1 (at 4108) ≡ some (handler_found, e2))
    × (clean_frames memory pad frames e2 ≡ some (cleanups memory pad frames, e3))
    × (sml_personality memory 1 handling true e3 (at 4108)
        ≡ some (install_context 4296 false true, e3))
    × (e3.num_cleanup ≡ 0)
unfolding uleb128_bytes pad_of
sml_personality-unwinds_example =
    sml_personality-unwinds memory pad frames (at 4108) thrown
      (
        (
          search_lpad-pad_of memory (at 4121) none 1 sites cleaned_up
              (frame 4121 (omega arith) (omega arith)) (Memᴰ.tail (Memᴰ.tail (Memᴰ.head refl)))
              (omega arith, omega arith),
          inr (refl, omega arith),
        ),
        (
          (
            search_lpad-pad_of memory (at 4114) none 1 sites passed
                (frame 4114 (omega arith) (omega arith)) (Memᴰ.tail (Memᴰ.head refl))
                (omega arith, omega arith),
            inl refl,
          ),
          (
            (
              search_lpad-pad_of memory (at 4122) none 1 sites cleaned_up
                  (frame 4122 (omega arith) (omega arith)) (Memᴰ.tail (Memᴰ.tail (Memᴰ.head refl)))
                  (omega arith, omega arith),
              inr (refl, omega arith),
            ),
            tt,
          ),
        ),
      )
      (omega arith) refl
      (search_lpad-pad_of memory (at 4108) none 1 sites handled
        (frame 4108 (omega arith) (omega arith)) (Memᴰ.head refl) (omega arith, omega arith))
      refl (omega arith)
