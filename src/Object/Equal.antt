-- ===== src/Object/Equal.antt =====
-- `sml_obj_equal` (smlsharp/src/runtime/object.c, lines 84 to 168).
--
-- The result is `none` where the fuel, which bounds the depth of the recursion, runs out, and where
-- the program stops: at an object that is none of the known types, and at a payload of pointers that
-- is not a multiple of their size. `intinf_cmp` stands for `sml_intinf_cmp`, which is the library of
-- multiple precision arithmetic.
pub mod Finite
pub mod Fuel
pub mod Symmetric
use smlsharp_completions_gen.Base.{
  ℕ, zero, suc, ◌%◌, ◌==◌, if◌then◌else◌, Bool, true, false, ◌&&◌, ◌||◌, Option, none, some,
  Ordering, lt, eq, gt,
}
use smlsharp_completions_gen.Object.{
  Obj, ObjType, unboxed_vector, boxed_vector, unboxed_array, boxed_array, unused, record_type,
  intinf, forwarded, obj_type, obj_size, num_words, bitmap_bit, bitmaps_len, byte_at,
}

-- The number of a type.
abbrev pub type_code : ObjType → ℕ
type_code unboxed_vector = 0
type_code boxed_vector = 1
type_code unboxed_array = 2
type_code boxed_array = 3
type_code unused = 4
type_code record_type = 5
type_code intinf = 6
type_code forwarded = 7

unfoldable pub same_type : ObjType → ObjType → Bool
same_type t u = type_code t == type_code u

-- The loops with `return 0` in them: over tests, and over tests that may not return.
unfoldable pub all_below : ℕ → (ℕ → Bool) → Bool
all_below zero test = true
all_below (suc n) test = all_below n test && test n

abbrev pub and_then : Option Bool → Option Bool → Option Bool
and_then none b = none
and_then (some false) b = some false
and_then (some true) b = b

unfoldable pub all_fields : ℕ → (ℕ → Option Bool) → Option Bool
all_fields zero test = some true
all_fields (suc n) test = and_then (all_fields n test) (test n)

-- `assert`
abbrev pub assert : Bool → Option Bool → Option Bool
assert true b = b
assert false b = none

abbrev pub is_eq_cmp : Ordering → Bool
is_eq_cmp lt = false
is_eq_cmp eq = true
is_eq_cmp gt = false

-- `memcmp(obj1, obj2, OBJ_SIZE(obj1)) == 0`
unfoldable pub same_bytes : Obj → Obj → Bool
same_bytes o1 o2 = all_below (obj_size o1) (λ i. byte_at o1.word i == byte_at o2.word i)

-- The type that the record on the other side must be made of.
abbrev pub tag_of : ObjType → Option ℕ
tag_of unboxed_vector = some 0
tag_of boxed_vector = some 1
tag_of _ = none

unfoldable pub tagged : ℕ → Obj → Bool
tagged tag o = all_below (num_words o) (λ i. bitmap_bit o.bitmap i == tag)

unfoldable pub same_bitmaps : Obj → Obj → Bool
same_bitmaps o1 o2 = all_below (bitmaps_len (obj_size o1)) (λ i. o1.bitmap i == o2.bitmap i)

-- `test` is the recursive call.
module _ (intinf_cmp : ℕ → ℕ → Ordering) (heap : ℕ → Obj) (test : ℕ → ℕ → Option Bool) where
  abbrev pub field_equal : Obj → Obj → ℕ → Option Bool
  field_equal o1 o2 i =
      if bitmap_bit o1.bitmap i == 0
      then some (o1.word i == o2.word i)
      else test (o1.word i) (o2.word i)

  unfoldable pub vectors_equal : Obj → Obj → Option Bool
  vectors_equal o1 o2 =
      assert (obj_size o1 % 8 == 0) (all_fields (num_words o1) (λ i. test (o1.word i) (o2.word i)))

  unfoldable pub records_equal : Obj → Obj → Option Bool
  records_equal o1 o2 =
      assert (obj_size o1 % 8 == 0)
        (and_then (some (same_bitmaps o1 o2)) (all_fields (num_words o1) (field_equal o1 o2)))

  -- The `switch`.
  unfoldable pub contents_equal : ObjType → ℕ → ℕ → Option Bool
  contents_equal unboxed_array p q = some false
  contents_equal boxed_array p q = some false
  contents_equal unboxed_vector p q = some (same_bytes (heap p) (heap q))
  contents_equal boxed_vector p q = vectors_equal (heap p) (heap q)
  contents_equal intinf p q = some (is_eq_cmp (intinf_cmp p q))
  contents_equal record_type p q = records_equal (heap p) (heap q)
  contents_equal unused p q = none
  contents_equal forwarded p q = none

  -- A vector or something else against a record, with the tag that the fields must have.
  unfoldable pub against_record : Option ℕ → ℕ → ℕ → Option Bool
  against_record none p r = some false
  against_record (some tag) p r =
      assert (obj_size (heap r) % 8 == 0)
        (and_then (some (tagged tag (heap r))) (contents_equal (obj_type (heap p)) p r))

  -- The types are different; a record is put second.
  unfoldable pub mixed_equal : ObjType → ObjType → ℕ → ℕ → Option Bool
  mixed_equal t u p q =
      if same_type t record_type
      then against_record (tag_of u) q p
      else if same_type u record_type
      then against_record (tag_of t) p q
      else some false

  unfoldable pub objects_equal : ℕ → ℕ → Option Bool
  objects_equal p q =
      if obj_size (heap p) == obj_size (heap q)
      then (if same_type (obj_type (heap p)) (obj_type (heap q))
          then contents_equal (obj_type (heap p)) p q
          else mixed_equal (obj_type (heap p)) (obj_type (heap q)) p q)
      else some false

module _ (intinf_cmp : ℕ → ℕ → Ordering) (heap : ℕ → Obj) where
  unfoldable pub sml_obj_equal : ℕ → ℕ → ℕ → Option Bool
  sml_obj_equal zero p q = none
  sml_obj_equal (suc fuel) p q =
      if p == q
      then some true
      else if p == 0 || q == 0
      then some false
      else objects_equal intinf_cmp heap (sml_obj_equal fuel) p q
