-- ===== src/Object/Equal/Symmetric.antt =====
-- `sml_obj_equal` does not depend on the order of its arguments.
use smlsharp_completions_gen.Base.{
  ℕ, zero, suc, ◌/◌, ◌%◌, ◌^◌, lt_or_eq, both_true, ◌<◌, ◌≡◌, ◌==◌, if◌then◌else◌, Bool, true,
  false, Option, some, Ordering, inl, inr, refl, ap, ◌∙◌, sym, arith, Bool-cases,
}
use smlsharp_completions_gen.Object.{
  Obj, ObjType, unboxed_vector, boxed_vector, unboxed_array, boxed_array, unused, record_type,
  intinf, forwarded, type_of_bits, obj_type, obj_size, num_words, bitmap_bit, bitmaps_len, byte_at,
}
use smlsharp_completions_gen.Object.Equal.{
  type_code, same_type, all_below, and_then, all_fields, assert, is_eq_cmp, same_bytes,
  same_bitmaps, vectors_equal, records_equal, field_equal, contents_equal, mixed_equal,
  objects_equal, sml_obj_equal,
}

all_below_ext : (n : ℕ) (f g : ℕ → Bool) → ((i : ℕ) → f i ≡ g i) → all_below n f ≡ all_below n g
unfolding all_below
all_below_ext zero f g h = refl
all_below_ext (suc n) f g h = rw (all_below_ext n f g h, h n) refl

pub all_below_at : (n : ℕ) (f : ℕ → Bool) → all_below n f ≡ true → (i : ℕ) → i < n → f i ≡ true
unfolding all_below
all_below_at zero f h i k = absurd (omega arith)
all_below_at (suc n) f h i k = elim (lt_or_eq i n k) [
  | inl k' ↦ all_below_at n f (both_true (all_below n f) (f n) h).0 i k'
  | inr e ↦ ap f e ∙ (both_true (all_below n f) (f n) h).1
]

all_fields_ext :
    (n : ℕ) (f g : ℕ → Option Bool)
    → ((i : ℕ) → i < n → f i ≡ g i)
    → all_fields n f ≡ all_fields n g
unfolding all_fields
all_fields_ext zero f g h = refl
all_fields_ext (suc n) f g h =
    rw (all_fields_ext n f g (λ i k. h i (omega arith)), h n (omega arith)) refl

eqb_comm : (a b : ℕ) → a == b ≡ (b == a)
eqb_comm a b = ground arith

pub eqb→eq : (a b : ℕ) → a == b ≡ true → a ≡ b
eqb→eq a b h = ground arith

same_type_comm : (t u : ObjType) → same_type t u ≡ same_type u t
unfolding same_type
same_type_comm t u = eqb_comm (type_code t) (type_code u)

type_of_code : (t : ObjType) → type_of_bits (type_code t) ≡ t
unfolding type_of_bits
type_of_code unboxed_vector = refl
type_of_code boxed_vector = refl
type_of_code unboxed_array = refl
type_of_code boxed_array = refl
type_of_code unused = refl
type_of_code record_type = refl
type_of_code intinf = refl
type_of_code forwarded = refl

pub same_type→eq : (t u : ObjType) → same_type t u ≡ true → t ≡ u
unfolding same_type
same_type→eq t u h =
    sym (type_of_code t) ∙ ap type_of_bits (eqb→eq (type_code t) (type_code u) h) ∙ type_of_code u

same_bytes_comm : (o1 o2 : Obj) → obj_size o1 ≡ obj_size o2 → same_bytes o1 o2 ≡ same_bytes o2 o1
unfolding same_bytes
same_bytes_comm o1 o2 e =
    ap (λ n. all_below n (λ i. byte_at o1.word i == byte_at o2.word i)) e
    ∙ all_below_ext (obj_size o2) _ _ (λ i. eqb_comm (byte_at o1.word i) (byte_at o2.word i))

same_bitmaps_comm :
    (o1 o2 : Obj) → obj_size o1 ≡ obj_size o2 → same_bitmaps o1 o2 ≡ same_bitmaps o2 o1
unfolding same_bitmaps
same_bitmaps_comm o1 o2 e =
    ap (λ n. all_below (bitmaps_len n) (λ i. o1.bitmap i == o2.bitmap i)) e
    ∙ all_below_ext (bitmaps_len (obj_size o2)) _ _ (λ i. eqb_comm (o1.bitmap i) (o2.bitmap i))

guarded :
    (b : Bool) (x y : Option Bool) → (b ≡ true → x ≡ y) → and_then (some b) x ≡ and_then (some b) y
guarded true x y h = h refl
guarded false x y h = refl

-- Every word of the payload has its bit in the bitmap words that are compared.
pub same_bit :
    (o1 o2 : Obj)
    → same_bitmaps o1 o2 ≡ true
    → (i : ℕ) → i < num_words o1
    → bitmap_bit o1.bitmap i ≡ bitmap_bit o2.bitmap i
unfolding same_bitmaps num_words bitmaps_len bitmap_bit
same_bit o1 o2 h i k =
    ap (λ w. w / 2 ^ (i % 32) % 2)
      (eqb→eq (o1.bitmap (i / 32)) (o2.bitmap (i / 32))
        (all_below_at (bitmaps_len (obj_size o1)) _ h (i / 32) (omega arith)))

module _ (intinf_cmp : ℕ → ℕ → Ordering) (heap : ℕ → Obj) (test : ℕ → ℕ → Option Bool)
    (cmp_comm : (p q : ℕ) → is_eq_cmp (intinf_cmp p q) ≡ is_eq_cmp (intinf_cmp q p))
    (test_comm : (p q : ℕ) → test p q ≡ test q p) where
  vectors_equal_comm :
      (o1 o2 : Obj)
      → obj_size o1 ≡ obj_size o2
      → vectors_equal intinf_cmp heap test o1 o2 ≡ vectors_equal intinf_cmp heap test o2 o1
  unfolding vectors_equal num_words
  vectors_equal_comm o1 o2 e =
      ap (λ n. assert (n % 8 == 0) (all_fields (n / 8) (λ i. test (o1.word i) (o2.word i)))) e
      ∙ ap (assert (obj_size o2 % 8 == 0))
          (all_fields_ext (obj_size o2 / 8) _ _ (λ i k. test_comm (o1.word i) (o2.word i)))

  field_equal_comm :
      (o1 o2 : Obj) (i : ℕ)
      → bitmap_bit o1.bitmap i ≡ bitmap_bit o2.bitmap i
      → field_equal intinf_cmp heap test o1 o2 i ≡ field_equal intinf_cmp heap test o2 o1 i
  field_equal_comm o1 o2 i e =
      ap (λ b. if b == 0 then some (o1.word i == o2.word i) else test (o1.word i) (o2.word i)) e
      ∙ ap (λ b. if bitmap_bit o2.bitmap i == 0 then some b else test (o1.word i) (o2.word i))
          (eqb_comm (o1.word i) (o2.word i))
      ∙ ap (λ b. if bitmap_bit o2.bitmap i == 0 then some (o2.word i == o1.word i) else b)
          (test_comm (o1.word i) (o2.word i))

  records_equal_comm :
      (o1 o2 : Obj)
      → obj_size o1 ≡ obj_size o2
      → records_equal intinf_cmp heap test o1 o2 ≡ records_equal intinf_cmp heap test o2 o1
  unfolding records_equal num_words
  records_equal_comm o1 o2 e =
      ap (assert (obj_size o1 % 8 == 0)) (
        guarded (same_bitmaps o1 o2) _
          (all_fields (obj_size o1 / 8) (field_equal intinf_cmp heap test o2 o1))
          (λ s.
            all_fields_ext (obj_size o1 / 8) _ _
              (λ i k. field_equal_comm o1 o2 i (same_bit o1 o2 s i k))))
      ∙ ap
          (λ b. assert (obj_size o1 % 8 == 0) (
            and_then (some b)
              (all_fields (obj_size o1 / 8) (field_equal intinf_cmp heap test o2 o1))))
          (same_bitmaps_comm o1 o2 e)
      ∙ ap
          (λ n. assert (n % 8 == 0) (
            and_then (some (same_bitmaps o2 o1))
              (all_fields (n / 8) (field_equal intinf_cmp heap test o2 o1))))
          e

  contents_equal_comm :
      (t : ObjType) (p q : ℕ)
      → obj_size (heap p) ≡ obj_size (heap q)
      → contents_equal intinf_cmp heap test t p q ≡ contents_equal intinf_cmp heap test t q p
  unfolding contents_equal
  contents_equal_comm unboxed_vector p q e = ap some (same_bytes_comm (heap p) (heap q) e)
  contents_equal_comm boxed_vector p q e = vectors_equal_comm (heap p) (heap q) e
  contents_equal_comm unboxed_array p q e = refl
  contents_equal_comm boxed_array p q e = refl
  contents_equal_comm unused p q e = refl
  contents_equal_comm record_type p q e = records_equal_comm (heap p) (heap q) e
  contents_equal_comm intinf p q e = ap some (cmp_comm p q)
  contents_equal_comm forwarded p q e = refl

  mixed_equal_comm :
      (t u : ObjType) (p q : ℕ)
      → same_type t u ≡ false
      → mixed_equal intinf_cmp heap test t u p q ≡ mixed_equal intinf_cmp heap test u t q p
  unfolding mixed_equal same_type
  mixed_equal_comm t u p q h = ground arith

  typed_comm :
      (t u : ObjType) (p q : ℕ)
      → obj_size (heap p) ≡ obj_size (heap q)
      → (if same_type t u
          then contents_equal intinf_cmp heap test t p q
          else mixed_equal intinf_cmp heap test t u p q)
        ≡ (if same_type u t
            then contents_equal intinf_cmp heap test u q p
            else mixed_equal intinf_cmp heap test u t q p)
  typed_comm t u p q e = elim (Bool-cases (same_type t u)) [
    | inl h ↦
        rw (sym (same_type_comm t u), h)
          (contents_equal_comm t p q e
            ∙ ap (λ v. contents_equal intinf_cmp heap test v q p) (same_type→eq t u h))
    | inr h ↦ rw (sym (same_type_comm t u), h) (mixed_equal_comm t u p q h)
  ]

  pub objects_equal_comm :
      (p q : ℕ) → objects_equal intinf_cmp heap test p q ≡ objects_equal intinf_cmp heap test q p
  unfolding objects_equal
  objects_equal_comm p q = ground (arith, typed_comm (obj_type (heap p)) (obj_type (heap q)) p q)

module _ (intinf_cmp : ℕ → ℕ → Ordering) (heap : ℕ → Obj)
    (cmp_comm : (p q : ℕ) → is_eq_cmp (intinf_cmp p q) ≡ is_eq_cmp (intinf_cmp q p)) where
  -- The order of the arguments of `sml_obj_equal` does not matter: for every amount of fuel the results are the same,
  -- the case that there is none included, if `sml_intinf_cmp` is symmetric in what it calls equal.
  pub sml_obj_equal_comm :
      (fuel p q : ℕ)
      → sml_obj_equal intinf_cmp heap fuel p q ≡ sml_obj_equal intinf_cmp heap fuel q p
  unfolding sml_obj_equal
  sml_obj_equal_comm zero p q = refl
  sml_obj_equal_comm (suc fuel) p q = ground (
    arith,
    objects_equal_comm intinf_cmp heap (sml_obj_equal intinf_cmp heap fuel) cmp_comm
        (sml_obj_equal_comm fuel) p q,
  )
