-- ===== src/Primitives/Tests.antt =====
-- Runs of the models of the primitives.
use smlsharp_completions_gen.Base.{◌%◌, ℕ, ◌-◌, ◌^◌, ◌≡◌, some, [], ◌∷◌, refl}
use smlsharp_completions_gen.Primitives.{
  sml_memcmp, memcmp_loop, digit, fmt_loop, fmt, is_negative, magnitude, fmt_int,
}

-- "~2F"
minus_47 : fmt_int (2 ^ 32 - 47) 16 ≡ some (126 ∷ 50 ∷ 70 ∷ [])
unfolding fmt_int fmt fmt_loop is_negative magnitude digit
minus_47 = refl

-- "0"
zero_text : fmt_int 0 10 ≡ some (48 ∷ [])
unfolding fmt_int fmt fmt_loop is_negative magnitude digit
zero_text = refl

-- Bytes that repeat after four.
abbrev bytes : ℕ → ℕ
bytes p = p % 4

differs : sml_memcmp bytes 8 1 20 2 5 ≡ (1, 2)
unfolding sml_memcmp memcmp_loop
differs = refl
