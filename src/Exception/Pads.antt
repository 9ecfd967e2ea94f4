-- ===== src/Exception/Pads.antt =====
-- What `search_lpad` (smlsharp/src/runtime/exn.c) says of the landing pad of a call site.
use smlsharp_completions_gen.Base.{ℕ, ◌+◌, ◌%◌, ◌^◌, ◌≡◌, ◌≢◌, refl, arith, inl, inr, same_or_not}
use smlsharp_completions_gen.Exception.{LandingPad, CallSite, pad_of}

-- The landing pad of a call site, by what its fields stand for: no landing pad; a cleanup, 2; a handler,
-- 1, where the action is the last one; and both, 3. `actions` is the address of the table of actions.
-- Landing pads are counted from the beginning of the function.
pub data IsPadOf (byte : ℕ → ℕ) (region_start actions : ℕ) (site : CallSite) (pad : LandingPad)
    : Type 0 where
  nothing : site.lpad ≡ 0 → pad.type ≡ 0 → IsPadOf byte region_start actions site pad
  cleans :
      site.lpad ≢ 0
      → site.action ≡ 0
      → pad ≡ record { type = 2; addr = (region_start + site.lpad) % 2 ^ 64 }
      → IsPadOf byte region_start actions site pad
  handles :
      site.lpad ≢ 0
      → site.action ≢ 0
      → byte (actions + site.action) ≡ 0
      → pad ≡ record { type = 1; addr = (region_start + site.lpad) % 2 ^ 64 }
      → IsPadOf byte region_start actions site pad
  cleans_and_handles :
      site.lpad ≢ 0
      → site.action ≢ 0
      → byte (actions + site.action) ≢ 0
      → pad ≡ record { type = 3; addr = (region_start + site.lpad) % 2 ^ 64 }
      → IsPadOf byte region_start actions site pad

pub pad_of-IsPadOf :
    (byte : ℕ → ℕ) (region_start actions : ℕ) (site : CallSite)
    → IsPadOf byte region_start actions site (pad_of byte region_start actions site)
unfolding pad_of
pad_of-IsPadOf byte region_start actions site =
    let addr : (site.lpad + region_start) % 2 ^ 64 ≡ (region_start + site.lpad) % 2 ^ 64 =
      omega arith in
    elim (same_or_not site.lpad 0) [
      | inl (e, b) ↦ rw b (nothing e refl)
      | inr (n, b) ↦ elim (same_or_not site.action 0) [
        | inl (f, c) ↦ rw (b, c, addr) (cleans n f refl)
        | inr (m, c) ↦ elim (same_or_not (byte (actions + site.action)) 0) [
          | inl (g, d) ↦ rw (b, c, d, addr) (handles n m g refl)
          | inr (k, d) ↦ rw (b, c, d, addr) (cleans_and_handles n m k refl)
        ]
      ]
    ]
