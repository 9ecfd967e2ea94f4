-- ===== src/Bitptr.antt =====
-- Bit pointers into arrays of 32-bit words, and the bit counts that go with them
-- (smlsharp/src/runtime/smlsharp.h, lines 493 to 561).
--
-- An array of words is a function from the index of a word; `ptr` is such an index. The results of
-- the compiler's `__builtin_ctz`, `__builtin_clz` and `__builtin_popcount` are counted bit by bit.
pub mod Words
pub mod Next
pub mod Counts
use Prim.Native.Nat.{bit_and, bit_or}
use smlsharp_completions_gen.Base.{
  ℕ, zero, suc, ◌+◌, ◌-◌, ◌*◌, ◌/◌, ◌%◌, ◌^◌, ◌==◌, Bool, true, false, not, if◌then◌else◌,
}

pub record Bitptr : Type 0 where
  pub ptr : ℕ
  pub mask : ℕ

-- `BITPTR`; the C macro shifts a 1.
unfoldable pub bitptr : ℕ → ℕ → Bitptr
bitptr p n = record { ptr = p + n / 32; mask = 2 ^ (n % 32) }

-- `BITPTR_TEST`, `BITPTRA_TEST`
unfoldable pub bitptr_test : (ℕ → ℕ) → Bitptr → Bool
bitptr_test memory b = not (bit_and (memory b.ptr) b.mask == 0)

-- `BITPTRA_TEST_AND_SET`, where no other thread comes in between: whether the bit was set, and the
-- words with the bit set.
unfoldable pub bitptra_test_and_set : (ℕ → ℕ) → Bitptr → Bool × (ℕ → ℕ)
bitptra_test_and_set memory b =
    if bitptr_test memory b
    then (true, memory)
    else (false, λ i. if i == b.ptr then bit_or (memory b.ptr) b.mask else memory i)

-- `~w`
abbrev pub complement : ℕ → ℕ
complement w = 2 ^ 32 - 1 - w

-- The new mask of `BITPTR_NEXT0`.
unfoldable pub next0_mask : ℕ → ℕ → ℕ
next0_mask word mask =
    let tmp = bit_or word ((mask + 2 ^ 32 - 1) % 2 ^ 32) in
    bit_and ((tmp + 1) % 2 ^ 32) (complement tmp)

unfoldable pub bitptr_next0 : (ℕ → ℕ) → Bitptr → Bitptr
bitptr_next0 memory b = record b { mask = next0_mask (memory b.ptr) b.mask }

unfoldable pub bitptr_next_failed : Bitptr → Bool
bitptr_next_failed b = b.mask == 0

unfoldable pub bitptr_inc : Bitptr → Bitptr
bitptr_inc b = record {
  ptr = b.ptr + b.mask / 2 ^ 31;
  mask = bit_or (b.mask * 2 % 2 ^ 32) (b.mask / 2 ^ 31);
}

-- `__builtin_ctz`, over the bits of a word.
unfoldable pub count_trailing_zeros : ℕ → ℕ → ℕ
count_trailing_zeros zero w = 0
count_trailing_zeros (suc bits) w =
    if w % 2 == 1 then 0 else suc (count_trailing_zeros bits (w / 2))

unfoldable pub bitptr_maskindex : Bitptr → ℕ
bitptr_maskindex b = count_trailing_zeros 32 b.mask

unfoldable pub bitptr_wordindex : Bitptr → ℕ → ℕ
bitptr_wordindex b begin = b.ptr - begin

unfoldable pub bitptr_index : Bitptr → ℕ → ℕ
bitptr_index b p = bitptr_wordindex b p * 32 + bitptr_maskindex b

-- `32 - __builtin_clz`: how many bits a number takes.
unfoldable pub num_bits : ℕ → ℕ → ℕ
num_bits zero w = 0
num_bits (suc bits) w = if w == 0 then 0 else suc (num_bits bits (w / 2))

-- `CEIL_LOG2`
unfoldable pub ceil_log2 : ℕ → ℕ
ceil_log2 x = num_bits 32 ((x + 2 ^ 32 - 1) % 2 ^ 32)

-- `__builtin_popcount`
unfoldable pub popcount : ℕ → ℕ → ℕ
popcount zero w = 0
popcount (suc bits) w = w % 2 + popcount bits (w / 2)
