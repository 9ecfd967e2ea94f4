-- ===== src/Object.antt =====
-- Heap objects (smlsharp/src/runtime/object.h and object.c) on a machine with 8-byte pointers.
--
-- An object is its header word, the words of its payload and its bitmap words; what stands beyond
-- its size is in the model whatever happens to be in memory there. A heap gives the object at each
-- address, where NULL is 0. Bytes are numbered from the low end of a word.
pub mod Copy
mod Tests
pub mod Enum
pub mod Equal
use smlsharp_completions_gen.Base.{
  ℕ, zero, suc, ◌+◌, ◌-◌, ◌*◌, ◌/◌, ◌%◌, ◌^◌, ◌==◌, if◌then◌else◌, Bool, true, false, ◌&&◌, ◌||◌,
  not, Option, none, some, List, [], ◌∷◌, foldl, Ordering,
}

pub record Obj : Type 0 where
  pub header : ℕ
  pub word : ℕ → ℕ
  pub bitmap : ℕ → ℕ

-- The values of TYPE.
pub data ObjType : Type 0 where
  unboxed_vector boxed_vector unboxed_array boxed_array : ObjType
  unused record_type intinf forwarded : ObjType

unfoldable pub type_of_bits : ℕ → ObjType
type_of_bits n =
    if n == 0
    then unboxed_vector
    else if n == 1
    then boxed_vector
    else if n == 2
    then unboxed_array
    else if n == 3
    then boxed_array
    else if n == 4
    then unused
    else if n == 5
    then record_type
    else if n == 6
    then intinf
    else forwarded

-- `OBJ_TYPE`, `OBJ_SIZE`
unfoldable pub obj_type : Obj → ObjType
obj_type o = type_of_bits (o.header / 2 ^ 28 % 8)

unfoldable pub obj_size : Obj → ℕ
obj_size o = o.header % 2 ^ 28

-- `OBJ_SIZE(obj) / sizeof(void*)`
unfoldable pub num_words : Obj → ℕ
num_words o = obj_size o / 8

-- `BITMAP_BIT`
unfoldable pub bitmap_bit : (ℕ → ℕ) → ℕ → ℕ
bitmap_bit bitmaps index = bitmaps (index / 32) / 2 ^ (index % 32) % 2

-- `OBJ_BITMAPS_LEN`
unfoldable pub bitmaps_len : ℕ → ℕ
bitmaps_len payload_size = (payload_size / 8 + 32 - 1) / 32

abbrev pub byte_at : (ℕ → ℕ) → ℕ → ℕ
byte_at words i = words (i / 8) / 256 ^ (i % 8) % 256

-- `OBJ_TOTAL_SIZE`
unfoldable pub bitmaps_size : ObjType → ℕ → ℕ
bitmaps_size record_type size = bitmaps_len size * 4
bitmaps_size _ size = 0

unfoldable pub obj_total_size : Obj → ℕ
obj_total_size o = 4 + obj_size o + bitmaps_size (obj_type o) (obj_size o)

-- `OBJ_HEADER(obj) & OBJ_FLAG_SKIP`
unfoldable pub obj_flag_skip : Obj → Bool
obj_flag_skip o = o.header / 2 ^ 31 % 2 == 1
