-- ===== src/Object/Equal/Fuel.antt =====
-- A result of `sml_obj_equal` does not depend on the fuel.
use smlsharp_completions_gen.Base.{
  ℕ, zero, suc, ◌+◌, ◌%◌, ◌≡◌, ◌≢◌, ◌==◌, if◌then◌else◌, Bool, true, false, Option, none, some,
  Ordering, ◌⊎◌, inl, inr, refl, ap, ◌∙◌, arith,
}
use smlsharp_completions_gen.Object.{
  Obj, ObjType, unboxed_vector, boxed_vector, unboxed_array, boxed_array, unused, record_type,
  intinf, forwarded, obj_type, obj_size, num_words,
}
use smlsharp_completions_gen.Object.Equal.{
  same_type, and_then, all_fields, assert, tag_of, tagged, same_bitmaps, vectors_equal,
  records_equal, field_equal, contents_equal, against_record, mixed_equal, objects_equal,
  sml_obj_equal,
}

-- The second gives at least the first's result.
abbrev Extends : Option Bool → Option Bool → Type 0
Extends x y = (b : Bool) → x ≡ some b → y ≡ some b

and_then-Extends :
    (a b c d : Option Bool) → Extends a c → Extends b d → Extends (and_then a b) (and_then c d)
and_then-Extends none b c d h k x e = absurd (cc e)
and_then-Extends (some true) b c d h k x e = rw (h true refl) (k x e)
and_then-Extends (some false) b c d h k x e = rw (h false refl) e

assert-Extends : (t : Bool) (a b : Option Bool) → Extends a b → Extends (assert t a) (assert t b)
assert-Extends true a b h x e = h x e
assert-Extends false a b h x e = e

all_fields-Extends :
    (n : ℕ) (f g : ℕ → Option Bool)
    → ((i : ℕ) → Extends (f i) (g i))
    → Extends (all_fields n f) (all_fields n g)
unfolding all_fields
all_fields-Extends zero f g h x e = e
all_fields-Extends (suc n) f g h x e =
    and_then-Extends (all_fields n f) (f n) (all_fields n g) (g n) (all_fields-Extends n f g h)
      (h n) x e

module _ (intinf_cmp : ℕ → ℕ → Ordering) (heap : ℕ → Obj) (test more : ℕ → ℕ → Option Bool)
    (more-Extends : (p q : ℕ) → Extends (test p q) (more p q)) where
  field_equal-Extends :
      (o1 o2 : Obj) (i : ℕ)
      → Extends
          (field_equal intinf_cmp heap test o1 o2 i)
          (field_equal intinf_cmp heap more o1 o2 i)
  field_equal-Extends o1 o2 i x e = ground (arith, more-Extends (o1.word i) (o2.word i) x)

  contents_equal-Extends :
      (t : ObjType) (p q : ℕ)
      → Extends
          (contents_equal intinf_cmp heap test t p q)
          (contents_equal intinf_cmp heap more t p q)
  unfolding contents_equal vectors_equal records_equal
  contents_equal-Extends unboxed_vector p q x e = e
  contents_equal-Extends boxed_vector p q x e =
      assert-Extends (obj_size (heap p) % 8 == 0) _ _
        (all_fields-Extends (num_words (heap p)) _ _
          (λ i. more-Extends ((heap p).word i) ((heap q).word i)))
        x e
  contents_equal-Extends unboxed_array p q x e = e
  contents_equal-Extends boxed_array p q x e = e
  contents_equal-Extends unused p q x e = e
  contents_equal-Extends record_type p q x e =
      assert-Extends (obj_size (heap p) % 8 == 0) _ _
        (and_then-Extends (some (same_bitmaps (heap p) (heap q))) _ _ _ (λ y f. f)
          (all_fields-Extends (num_words (heap p)) _ _ (field_equal-Extends (heap p) (heap q))))
        x e
  contents_equal-Extends intinf p q x e = e
  contents_equal-Extends forwarded p q x e = e

  against_record-Extends :
      (tag : Option ℕ) (p q : ℕ)
      → Extends
          (against_record intinf_cmp heap test tag p q)
          (against_record intinf_cmp heap more tag p q)
  unfolding against_record
  against_record-Extends none p q x e = e
  against_record-Extends (some tag) p q x e =
      assert-Extends (obj_size (heap q) % 8 == 0) _ _
        (and_then-Extends (some (tagged tag (heap q))) _ _ _ (λ y f. f)
          (contents_equal-Extends (obj_type (heap p)) p q))
        x e

  objects_equal-Extends :
      (p q : ℕ)
      → Extends (objects_equal intinf_cmp heap test p q) (objects_equal intinf_cmp heap more p q)
  unfolding objects_equal mixed_equal
  objects_equal-Extends p q x e = ground (
    arith,
    contents_equal-Extends (obj_type (heap p)) p q x,
    against_record-Extends (tag_of (obj_type (heap q))) q p x,
    against_record-Extends (tag_of (obj_type (heap p))) p q x,
  )

module _ (intinf_cmp : ℕ → ℕ → Ordering) (heap : ℕ → Obj) where
  one_more :
      (fuel p q : ℕ)
      → Extends
          (sml_obj_equal intinf_cmp heap fuel p q)
          (sml_obj_equal intinf_cmp heap (suc fuel) p q)
  unfolding sml_obj_equal
  one_more zero p q x e = absurd (cc e)
  one_more (suc fuel) p q x e = ground (
    arith,
    objects_equal-Extends intinf_cmp heap (sml_obj_equal intinf_cmp heap fuel)
        (sml_obj_equal intinf_cmp heap (suc fuel)) (one_more fuel) p q x,
  )

  -- A result that some amount of fuel gives is the result with every larger amount.
  pub sml_obj_equal_more_fuel :
      (more fuel p q : ℕ) (b : Bool)
      → sml_obj_equal intinf_cmp heap fuel p q ≡ some b
      → sml_obj_equal intinf_cmp heap (fuel + more) p q ≡ some b
  sml_obj_equal_more_fuel zero fuel p q b e =
      ap (λ n. sml_obj_equal intinf_cmp heap n p q) (omega arith) ∙ e
  sml_obj_equal_more_fuel (suc more) fuel p q b e =
      ap (λ n. sml_obj_equal intinf_cmp heap n p q) (omega arith)
      ∙ one_more (fuel + more) p q b (sml_obj_equal_more_fuel more fuel p q b e)

  array_typed :
      (t u : ObjType) (test : ℕ → ℕ → Option Bool) (p q : ℕ)
      → (t ≡ unboxed_array) ⊎ (t ≡ boxed_array)
      → (if same_type t u
          then contents_equal intinf_cmp heap test t p q
          else mixed_equal intinf_cmp heap test t u p q)
        ≡ some false
  unfolding contents_equal mixed_equal against_record same_type
  array_typed t u test p q (inl e) = rw e (ground arith)
  array_typed t u test p q (inr e) = rw e (ground arith)

  -- Arrays are equal only by identity: an array and anything else at another address are unequal,
  -- whatever their contents and whatever the recursion would give.
  pub arrays_equal_by_identity :
      (fuel p q : ℕ)
      → p ≢ q
      → (obj_type (heap p) ≡ unboxed_array) ⊎ (obj_type (heap p) ≡ boxed_array)
      → sml_obj_equal intinf_cmp heap (suc fuel) p q ≡ some false
  unfolding sml_obj_equal objects_equal
  arrays_equal_by_identity fuel p q n t = ground (
    arith,
    array_typed (obj_type (heap p)) (obj_type (heap q)) (sml_obj_equal intinf_cmp heap fuel) p q t,
  )
