-- ===== src/Primitives.antt =====
-- Formatting of integers and comparison of bytes in the basis library (smlsharp/src/runtime/prim.c, lines
-- 282 to 329). Characters are their codes. The buffer, which is filled from its end, is the list of
-- what it holds from `index` on.
pub mod Format
pub mod Memcmp
mod Tests
use smlsharp_completions_gen.Base.{
  ℕ, zero, suc, ◌+◌, ◌-◌, ◌*◌, ◌/◌, ◌%◌, ◌^◌, ◌==◌, ltb, leb, Bool, true, false, if◌then◌else◌,
  Option, none, some, List, [], ◌∷◌, length,
}

-- `digit[d]`
unfoldable pub digit : ℕ → ℕ
digit d = if ltb d 10 then 48 + d else 55 + d

-- The loop of `fmt`; `none` where the fuel runs out.
unfoldable pub fmt_loop : ℕ → ℕ → ℕ → List ℕ → Option (List ℕ)
fmt_loop zero value radix buf = none
fmt_loop (suc fuel) value radix buf =
    let rest = fmt_loop fuel (value / radix) radix (digit (value % radix) ∷ buf) in
    if value == 0 then some buf else rest

-- A number of 32 bits has at most 32 digits; the last turn finds 0.
unfoldable pub fmt : ℕ → ℕ → List ℕ → Option (List ℕ)
fmt value radix buf = if value == 0 then some (48 ∷ buf) else fmt_loop 33 value radix buf

-- `value < 0`, for the word that an `int` is.
unfoldable pub is_negative : ℕ → Bool
is_negative value = leb (2 ^ 31) value

-- `(value < 0) ? 0U - (unsigned int)value : (unsigned int)value`
unfoldable pub magnitude : ℕ → ℕ
magnitude value = if is_negative value then (2 ^ 32 - value) % 2 ^ 32 else value

abbrev pub with_sign : Bool → Option (List ℕ) → Option (List ℕ)
with_sign negative none = none
with_sign true (some buf) = some (126 ∷ buf)
with_sign false (some buf) = some buf

-- `fmt_int`: the text that the string is made of.
unfoldable pub fmt_int : ℕ → ℕ → Option (List ℕ)
fmt_int value radix = with_sign (is_negative value) (fmt (magnitude value) radix [])

-- `sizeof(buf)` in `fmt_int`
abbrev pub sizeof_buf : ℕ
sizeof_buf = 4 * 8 + 2

-- The loop of `sml_memcmp`, over bytes in memory. The `int` that is returned is the difference of the
-- two numbers of the result.
unfoldable pub memcmp_loop : (ℕ → ℕ) → ℕ → ℕ → ℕ → ℕ × ℕ
memcmp_loop memory s1 s2 zero = (0, 0)
memcmp_loop memory s1 s2 (suc len) =
    let rest = memcmp_loop memory (s1 + 1) (s2 + 1) len in
    if memory s1 == memory s2 then rest else (memory s1, memory s2)

-- A negative `len` is as 0.
unfoldable pub sml_memcmp : (ℕ → ℕ) → ℕ → ℕ → ℕ → ℕ → ℕ → ℕ × ℕ
sml_memcmp memory s1 i1 s2 i2 len =
    if s1 + i1 == s2 + i2 then (0, 0) else memcmp_loop memory (s1 + i1) (s2 + i2) len
