-- ===== src/Primitives/Format.antt =====
-- `fmt_int` (smlsharp/src/runtime/prim.c, lines 300 to 327) writes a text that denotes the number, and
-- its buffer is large enough.
use smlsharp_completions_gen.Base.{
  ℕ, zero, suc, ◌+◌, ◌-◌, ◌*◌, ◌^◌, ◌≤◌, ◌<◌, ◌≡◌, ◌≢◌, ltb, if◌then◌else◌, Option, some, List, [],
  ◌∷◌, ◌++◌, foldl, length, ◌⊎◌,
}
use smlsharp_completions_gen.Base.Predicates.{All}
use smlsharp_completions_gen.Primitives.{sizeof_buf}

-- The number that a digit denotes, and a text of digits.
abbrev digit_value : ℕ → ℕ
digit_value c = if ltb c 65 then c - 48 else c - 55

abbrev add_digit : ℕ → ℕ → ℕ → ℕ
add_digit radix n c = n * radix + digit_value c

abbrev pub number : ℕ → List ℕ → ℕ
number radix text = foldl (add_digit radix) 0 text

double : ℕ → ℕ
double zero = 1
double (suc k) = double k + double k

-- 0 to 9, and A to F.
abbrev pub IsDigit : ℕ → Type 0
IsDigit c = ((47 < c) × (c < 58)) ⊎ ((64 < c) × (c < 71))

-- What the loop puts in front of the buffer: digits, no sign.
abbrev Writes : ℕ → ℕ → ℕ → List ℕ → Option (List ℕ) → Type 0
Writes k value radix buf o =
    (text : List ℕ) × ((o ≡ some (text ++ buf))
      × ((number radix text ≡ value) × ((length text ≤ k) × All IsDigit text)))

-- What `fmt` makes: at least one digit, and no more than the buffer has place for.
record Shows (value radix : ℕ) (o : Option (List ℕ)) : Type 0 where
  text : List ℕ
  result : o ≡ some text
  some_digit : text ≢ []
  denotes : number radix text ≡ value
  short : length text ≤ 32
  digits : All IsDigit text

-- The integers; `negsuc n` is the negative number below it by one, as in the library.
pub data ℤ : Type 0 where
  pos negsuc : ℕ → ℤ

abbrev pub negate : ℕ → ℤ
negate zero = pos zero
negate (suc n) = negsuc n

-- The number that an `int` of 32 bits has, by its word.
abbrev pub int_value : ℕ → ℤ
int_value value = if ltb value (2 ^ 31) then pos value else negate (2 ^ 32 - value)

-- A text that denotes an integer: digits, one at least, with a "~" in front for a negative number.
pub data IsNumeral (radix : ℕ) (text : List ℕ) : ℤ → Type 0 where
  plain : text ≢ [] → All IsDigit text → IsNumeral radix text (pos (number radix text))
  signed :
      (digits : List ℕ)
      → text ≡ 126 ∷ digits
      → digits ≢ []
      → All IsDigit digits
      → IsNumeral radix text (negate (number radix digits))

-- A text of the number of a 32-bit word as an `int`, which is in the buffer.
abbrev pub IsTextOf : ℕ → ℕ → List ℕ → Type 0
IsTextOf value radix text = IsNumeral radix text (int_value value) × (length text ≤ sizeof_buf)
