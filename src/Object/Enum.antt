-- ===== src/Object/Enum.antt =====
-- `sml_obj_enum_ptr` (smlsharp/src/runtime/object.c, lines 179 to 214), which calls the collector's
-- function with each pointer of an object and its place; the function may replace the pointer. The
-- result is `none` where the program stops at an object that is none of the known types.
pub mod Pointers
pub mod Fold
use smlsharp_completions_gen.Base.{
  ℕ, zero, suc, ◌==◌, Bool, true, false, not, if◌then◌else◌, Option, none, some,
}
use smlsharp_completions_gen.Object.{
  Obj, ObjType, unboxed_vector, boxed_vector, unboxed_array, boxed_array, unused, record_type,
  intinf, forwarded, obj_type, num_words, bitmap_bit,
}

module _ {κ} {S : Type κ} (trace : S → ℕ → ℕ → S × ℕ) where
  -- A call with the i-th word.
  abbrev pub trace_word : ℕ → S × (ℕ → ℕ) → S × (ℕ → ℕ)
  trace_word i (s, word) =
      let (s', pointer) = trace s i (word i) in (s', λ j. if j == i then pointer else word j)

  -- The loops up to a word; `visited` is the test in the loop for records.
  unfoldable pub trace_words : (ℕ → Bool) → ℕ → S × (ℕ → ℕ) → S × (ℕ → ℕ)
  trace_words visited zero w = w
  trace_words visited (suc n) w =
      let before = trace_words visited n w in if visited n then trace_word n before else before

  abbrev pub put_words : Obj → S × (ℕ → ℕ) → S × Obj
  put_words o (s, word) = (s, record o { word = word })

  abbrev pub enum_words : (ℕ → Bool) → S → Obj → Option (S × Obj)
  enum_words visited s o = some (put_words o (trace_words visited (num_words o) (s, o.word)))

  -- The `switch`.
  abbrev pub enum_typed : ObjType → S → Obj → Option (S × Obj)
  enum_typed unboxed_array s o = some (s, o)
  enum_typed unboxed_vector s o = some (s, o)
  enum_typed intinf s o = some (s, o)
  enum_typed boxed_array s o = enum_words (λ i. true) s o
  enum_typed boxed_vector s o = enum_words (λ i. true) s o
  enum_typed record_type s o = enum_words (λ i. not (bitmap_bit o.bitmap i == 0)) s o
  enum_typed unused s o = none
  enum_typed forwarded s o = none

  unfoldable pub sml_obj_enum_ptr : S → Obj → Option (S × Obj)
  sml_obj_enum_ptr s o = enum_typed (obj_type o) s o
