-- ===== src/Exception.antt =====
-- Landing pads for exceptions (smlsharp/src/runtime/exn.c): how the tables of call sites are read, which
-- LLVM makes for each function.
--
-- Memory is a function from addresses to bytes. A `sml_fatal` is `none`, and so is a shift by 64 or more,
-- whose result C leaves undefined; it comes with the eleventh byte of a number.
pub mod Numbers
pub mod Table
pub mod Sites
pub mod Pads
pub mod Search
pub mod Personality
pub mod Unwind
mod Tests
use Prim.Native.Nat.{bit_or}
use smlsharp_completions_gen.Base.{
  ℕ, zero, suc, ◌+◌, ◌-◌, ◌*◌, ◌/◌, ◌%◌, ◌^◌, ◌==◌, ltb, leb, ◌&&◌, ◌||◌, not, Bool, true, false,
  if◌then◌else◌, Option, none, some, ◌>>=◌,
}

-- `type` has the bits CATCH, 1, and CLEANUP, 2.
pub record LandingPad : Type 0 where
  pub type : ℕ
  pub addr : ℕ

-- A call site as it is read; `action` is a byte.
pub record CallSite : Type 0 where
  pub start : ℕ
  pub len : ℕ
  pub lpad : ℕ
  pub action : ℕ

-- What `search_lpad` asks libgcc about a frame. The language-specific data is at `lsda`, or `lsda` is 0.
pub record Context : Type 0 where
  pub lsda : ℕ
  pub region_start : ℕ
  pub ip : ℕ

-- `ret` where the address is not found.
abbrev pub not_found : LandingPad
not_found = record { type = 1; addr = 0 }

abbrev pub no_landing_pad : LandingPad
no_landing_pad = record { type = 0; addr = 0 }

module _ (byte : ℕ → ℕ) where
  -- `none` where the fuel runs out, which is when the shift is too large.
  unfoldable pub read_uleb128_loop : ℕ → ℕ → ℕ → ℕ → Option (ℕ × ℕ)
  read_uleb128_loop zero src result shift = none
  read_uleb128_loop (suc fuel) src result shift =
      let c = byte src in
      let result' = bit_or result (c % 128 * 2 ^ shift % 2 ^ 64) in
      let rest = read_uleb128_loop fuel (src + 1) result' (shift + 7) in
      if c / 128 % 2 == 0 then some (result', src + 1) else rest

  -- The number, and the new `*src_p`.
  unfoldable pub read_uleb128 : ℕ → Option (ℕ × ℕ)
  unfolding read_uleb128_loop
  read_uleb128 src = read_uleb128_loop 10 src 0 0

  -- On a machine whose words begin with the lowest byte.
  unfoldable pub read_udata4 : ℕ → ℕ × ℕ
  read_udata4 src = (
    byte src + 2 ^ 8 * byte (src + 1) + 2 ^ 16 * byte (src + 2) + 2 ^ 24 * byte (src + 3),
    src + 4,
  )

  abbrev pub read_uleb128_site : ℕ → Option (CallSite × ℕ)
  read_uleb128_site src = do
    (start, src1) ← read_uleb128 src
    (len, src2) ← read_uleb128 src1
    (lpad, src3) ← read_uleb128 src2
    some (record { start = start; len = len; lpad = lpad; action = byte src3 }, src3 + 1)

  abbrev pub read_udata4_site : ℕ → CallSite × ℕ
  read_udata4_site src =
      let (start, src1) = read_udata4 src in
      let (len, src2) = read_udata4 src1 in
      let (lpad, src3) = read_udata4 src2 in
      (record { start = start; len = len; lpad = lpad; action = byte src3 }, src3 + 1)

  -- The first half of a turn of the loop; DW_EH_PE_uleb128 is 1.
  unfoldable pub read_site : ℕ → ℕ → Option (CallSite × ℕ)
  read_site encoding src =
      if encoding == 1 then read_uleb128_site src else some (read_udata4_site src)

  -- What a call site says of its landing pad.
  unfoldable pub pad_of : ℕ → ℕ → CallSite → LandingPad
  pad_of lpstart actiontab site =
      let type =
        if site.lpad == 0
        then 0
        else if site.action == 0
        then 2
        else if byte (actiontab + site.action) == 0
        then 1
        else 3 in
      record { type = type; addr = (site.lpad + lpstart) % 2 ^ 64 }

  -- The second half of a turn, given what the other turns come to.
  abbrev pub site_turn : ℕ → ℕ → ℕ → CallSite → Option LandingPad → Option LandingPad
  site_turn lpstart actiontab ip site rest =
      let start = (site.start + lpstart) % 2 ^ 64 in
      if leb 128 site.action
      then none
      else if ltb ip start
      then some not_found
      else if ltb ip ((start + site.len) % 2 ^ 64)
      then some (pad_of lpstart actiontab site)
      else rest

  unfoldable pub search_loop : ℕ → ℕ → ℕ → ℕ → ℕ → ℕ → Option LandingPad
  search_loop zero encoding lpstart actiontab ip src = none
  search_loop (suc fuel) encoding lpstart actiontab ip src =
      if leb actiontab src then some not_found else elim (read_site encoding src) [
        | none ↦ none
        | some (site, src') ↦
            site_turn lpstart actiontab ip site
              (search_loop fuel encoding lpstart actiontab ip src')
      ]

  -- The type table is skipped; DW_EH_PE_omit is 255.
  unfoldable pub skip_types : ℕ → Option ℕ
  skip_types src =
      if byte src == 255
      then some (src + 1)
      else elim (read_uleb128 (src + 1)) [ none ↦ none | some (offset, src') ↦ some src' ]

  -- From the length of the table on; DW_EH_PE_udata4 is 3. Each turn takes a byte of the table at least.
  unfoldable pub search_sites : ℕ → Context → ℕ → Option LandingPad
  search_sites encoding context src =
      if not (encoding == 3) && not (encoding == 1) then none else elim (read_uleb128 src) [
        | none ↦ none
        | some (tablen, src') ↦
            if tablen == 0
            then some no_landing_pad
            else search_loop (suc tablen) encoding context.region_start (src' + tablen)
                ((context.ip + 2 ^ 64 - 1) % 2 ^ 64) src'
      ]

  unfoldable pub search_lpad : Context → Option LandingPad
  search_lpad context =
      if context.lsda == 0
      then some no_landing_pad
      else if not (byte context.lsda == 255)
      then none
      else elim (skip_types (context.lsda + 1)) [
        | none ↦ none
        | some src ↦ search_sites (byte src) context (src + 1)
      ]
