-- ===== src/Object/Equal/Finite.antt =====
-- The recursion of `sml_obj_equal` ends on objects whose immutable parts are not cyclic.
use smlsharp_completions_gen.Base.{
  ℕ, zero, suc, same_or_not, ◌/◌, ◌%◌, ◌<◌, ◌≡◌, ◌≢◌, ◌==◌, if◌then◌else◌, Bool, true, false,
  Option, none, some, Ordering, inl, inr, refl, ap, subst, ◌∙◌, sym, arith, Bool-cases,
}
use smlsharp_completions_gen.Object.{
  Obj, ObjType, unboxed_vector, boxed_vector, unboxed_array, boxed_array, unused, record_type,
  intinf, forwarded, obj_type, obj_size, num_words, bitmap_bit,
}
use smlsharp_completions_gen.Object.Equal.{
  same_type, and_then, all_fields, assert, tag_of, tagged, same_bitmaps, vectors_equal,
  records_equal, field_equal, contents_equal, against_record, mixed_equal, objects_equal,
  sml_obj_equal,
}
use smlsharp_completions_gen.Object.Equal.Symmetric.{all_below_at, same_bit, same_type→eq}

-- The words that `sml_obj_equal` follows: arrays are equal only by identity.
abbrev pub Followed : ObjType → Obj → ℕ → Type 0
Followed boxed_vector o i = Unit
Followed record_type o i = bitmap_bit o.bitmap i ≢ 0
Followed _ o i = ⊥

-- A known type, and a payload of whole words where it has pointers.
abbrev pub IsKnown : ObjType → Obj → Type 0
IsKnown boxed_vector o = obj_size o % 8 ≡ 0
IsKnown record_type o = obj_size o % 8 ≡ 0
IsKnown unused o = ⊥
IsKnown forwarded o = ⊥
IsKnown _ o = Unit

-- Every object is known and `rank` decreases along what is followed.
pub record IsFinite (heap : ℕ → Obj) (rank : ℕ → ℕ) : Type 0 where
  pub known : (p : ℕ) → p ≢ 0 → IsKnown (obj_type (heap p)) (heap p)
  pub decreases :
      (p : ℕ)
      → p ≢ 0
      → (i : ℕ) → i < num_words (heap p)
      → Followed (obj_type (heap p)) (heap p) i
      → rank ((heap p).word i) < rank p

abbrev pub Ends : Option Bool → Type 0
Ends o = (b : Bool) × (o ≡ some b)

and_then-Ends : (a b : Option Bool) → Ends a → (a ≡ some true → Ends b) → Ends (and_then a b)
and_then-Ends none b (x, e) k = absurd (cc e)
and_then-Ends (some true) b e k = k refl
and_then-Ends (some false) b e k = (false, refl)

guarded-Ends : (a : Bool) (b : Option Bool) → (a ≡ true → Ends b) → Ends (and_then (some a) b)
guarded-Ends true b k = k refl
guarded-Ends false b k = (false, refl)

all_fields-Ends :
    (n : ℕ) (f : ℕ → Option Bool) → ((i : ℕ) → i < n → Ends (f i)) → Ends (all_fields n f)
unfolding all_fields
all_fields-Ends zero f h = (true, refl)
all_fields-Ends (suc n) f h =
    and_then-Ends (all_fields n f) (f n) (all_fields-Ends n f (λ i k. h i (omega arith)))
      (λ _. h n (omega arith))

assert-Ends : (n : ℕ) (a : Option Bool) → n ≡ 0 → Ends a → Ends (assert (n == 0) a)
assert-Ends n a h e = rw h e

module _ (intinf_cmp : ℕ → ℕ → Ordering) (heap : ℕ → Obj) (rank : ℕ → ℕ)
    (finite : IsFinite heap rank) (bound : ℕ) (test : ℕ → ℕ → Option Bool)
    (test-Ends : (x y : ℕ) → rank x < bound → rank y < bound → Ends (test x y)) where
  vectors_equal-Ends :
      (o1 o2 : Obj)
      → obj_size o1 % 8 ≡ 0
      → ((i : ℕ) → i < num_words o1 → rank (o1.word i) < bound)
      → ((i : ℕ) → i < num_words o1 → rank (o2.word i) < bound)
      → Ends (vectors_equal intinf_cmp heap test o1 o2)
  unfolding vectors_equal
  vectors_equal-Ends o1 o2 w h k =
      assert-Ends (obj_size o1 % 8) _ w (
        all_fields-Ends (num_words o1) _ (λ i l. test-Ends (o1.word i) (o2.word i) (h i l) (k i l)))

  field_equal-Ends :
      (o1 o2 : Obj) (i : ℕ)
      → (bitmap_bit o1.bitmap i ≢ 0 → rank (o1.word i) < bound)
      → (bitmap_bit o1.bitmap i ≢ 0 → rank (o2.word i) < bound)
      → Ends (field_equal intinf_cmp heap test o1 o2 i)
  field_equal-Ends o1 o2 i h k = elim (same_or_not (bitmap_bit o1.bitmap i) 0) [
    | inl (e, b) ↦ rw b (o1.word i == o2.word i, refl)
    | inr (n, b) ↦ rw b (test-Ends (o1.word i) (o2.word i) (h n) (k n))
  ]

  records_equal-Ends :
      (o1 o2 : Obj)
      → obj_size o1 % 8 ≡ 0
      → ((i : ℕ) → i < num_words o1 → bitmap_bit o1.bitmap i ≢ 0 → rank (o1.word i) < bound)
      → ((i : ℕ) → i < num_words o1 → bitmap_bit o2.bitmap i ≢ 0 → rank (o2.word i) < bound)
      → Ends (records_equal intinf_cmp heap test o1 o2)
  unfolding records_equal
  records_equal-Ends o1 o2 w h k = assert-Ends (obj_size o1 % 8) _ w (
      guarded-Ends (same_bitmaps o1 o2) _ (λ s.
        all_fields-Ends (num_words o1) _ (λ i l.
          field_equal-Ends o1 o2 i (h i l) (λ n. k i l (λ z. n (same_bit o1 o2 s i l ∙ z))))))

  -- Two objects of one type, which are not NULL.
  same_type-Ends :
      (t : ObjType) (p q : ℕ)
      → IsKnown t (heap p)
      → ((i : ℕ) → i < num_words (heap p) → Followed t (heap p) i → rank ((heap p).word i) < bound)
      → ((i : ℕ) → i < num_words (heap p) → Followed t (heap q) i → rank ((heap q).word i) < bound)
      → Ends (contents_equal intinf_cmp heap test t p q)
  unfolding contents_equal
  same_type-Ends unboxed_vector p q w h k = (_, refl)
  same_type-Ends boxed_vector p q w h k =
      vectors_equal-Ends (heap p) (heap q) w (λ i l. h i l tt) (λ i l. k i l tt)
  same_type-Ends unboxed_array p q w h k = (_, refl)
  same_type-Ends boxed_array p q w h k = (_, refl)
  same_type-Ends unused p q w h k = absurd w
  same_type-Ends record_type p q w h k = records_equal-Ends (heap p) (heap q) w h k
  same_type-Ends intinf p q w h k = (_, refl)
  same_type-Ends forwarded p q w h k = absurd w

  -- What an object gives for the words that are followed.
  below_bound :
      (p : ℕ)
      → p ≢ 0
      → rank p < suc bound
      → (t : ObjType) → obj_type (heap p) ≡ t
      → (i : ℕ) → i < num_words (heap p)
      → Followed t (heap p) i
      → rank ((heap p).word i) < bound
  below_bound p n l t e i k f =
      omega (arith, finite.decreases p n i k (subst (λ u. Followed u (heap p) i) (sym e) f), l)

  IsKnown-as : (p : ℕ) → p ≢ 0 → (t : ObjType) → obj_type (heap p) ≡ t → IsKnown t (heap p)
  IsKnown-as p n t e = subst (λ u. IsKnown u (heap p)) e (finite.known p n)

  all_pointers :
      (r : ℕ)
      → tagged 1 (heap r) ≡ true
      → (i : ℕ) → i < num_words (heap r)
      → bitmap_bit (heap r).bitmap i ≢ 0
  unfolding tagged
  all_pointers r g i l = ground (arith, all_below_at (num_words (heap r)) _ g i l)

  -- A vector against a record.
  against_record-Ends :
      (t : ObjType) (p r : ℕ)
      → p ≢ 0
      → r ≢ 0
      → rank p < suc bound
      → rank r < suc bound
      → num_words (heap p) ≡ num_words (heap r)
      → obj_type (heap p) ≡ t
      → obj_type (heap r) ≡ record_type
      → Ends (against_record intinf_cmp heap test (tag_of t) p r)
  unfolding against_record contents_equal
  against_record-Ends unboxed_vector p r n m lp lr s e f =
      assert-Ends (obj_size (heap r) % 8) _ (IsKnown-as r m record_type f)
        (guarded-Ends (tagged 0 (heap r)) _ (λ _. rw e (_, refl)))
  against_record-Ends boxed_vector p r n m lp lr s e f =
      assert-Ends (obj_size (heap r) % 8) _ (IsKnown-as r m record_type f) (
        guarded-Ends (tagged 1 (heap r)) _ (λ g. rw e (
          vectors_equal-Ends (heap p) (heap r) (IsKnown-as p n boxed_vector e)
            (λ i l. below_bound p n lp boxed_vector e i l tt)
            (λ i l.
              below_bound r m lr record_type f i (omega arith)
                (all_pointers r g i (omega arith))))))
  against_record-Ends unboxed_array p r n m lp lr s e f = (_, refl)
  against_record-Ends boxed_array p r n m lp lr s e f = (_, refl)
  against_record-Ends unused p r n m lp lr s e f = (_, refl)
  against_record-Ends record_type p r n m lp lr s e f = (_, refl)
  against_record-Ends intinf p r n m lp lr s e f = (_, refl)
  against_record-Ends forwarded p r n m lp lr s e f = (_, refl)

  mixed_equal-Ends :
      (p q : ℕ)
      → p ≢ 0
      → q ≢ 0
      → rank p < suc bound
      → rank q < suc bound
      → num_words (heap p) ≡ num_words (heap q)
      → Ends (mixed_equal intinf_cmp heap test (obj_type (heap p)) (obj_type (heap q)) p q)
  unfolding mixed_equal
  mixed_equal-Ends p q n m lp lq s = elim (Bool-cases (same_type (obj_type (heap p)) record_type)) [
    | inl b ↦ rw b (
        against_record-Ends (obj_type (heap q)) q p m n lq lp (sym s) refl
          (same_type→eq _ record_type b))
    | inr b ↦ rw b (elim (Bool-cases (same_type (obj_type (heap q)) record_type)) [
      | inl c ↦ rw c (
          against_record-Ends (obj_type (heap p)) p q n m lp lq s refl
            (same_type→eq _ record_type c))
      | inr c ↦ rw c (false, refl)
    ])
  ]

  typed-Ends :
      (p q : ℕ)
      → p ≢ 0
      → q ≢ 0
      → rank p < suc bound
      → rank q < suc bound
      → num_words (heap p) ≡ num_words (heap q)
      → Ends (
          if same_type (obj_type (heap p)) (obj_type (heap q))
          then contents_equal intinf_cmp heap test (obj_type (heap p)) p q
          else mixed_equal intinf_cmp heap test (obj_type (heap p)) (obj_type (heap q)) p q)
  typed-Ends p q n m lp lq s =
      elim (Bool-cases (same_type (obj_type (heap p)) (obj_type (heap q)))) [
        | inl b ↦ rw b (
            same_type-Ends (obj_type (heap p)) p q (finite.known p n) (below_bound p n lp _ refl)
              (λ i l. below_bound q m lq _ (sym (same_type→eq _ _ b)) i (omega arith)))
        | inr b ↦ rw b (mixed_equal-Ends p q n m lp lq s)
      ]

  objects_equal-Ends :
      (p q : ℕ)
      → p ≢ 0
      → q ≢ 0
      → rank p < suc bound
      → rank q < suc bound
      → Ends (objects_equal intinf_cmp heap test p q)
  unfolding objects_equal num_words
  objects_equal-Ends p q n m lp lq = elim (same_or_not (obj_size (heap p)) (obj_size (heap q))) [
    | inl (e, b) ↦ rw b (typed-Ends p q n m lp lq (ap (λ k. k / 8) e))
    | inr (e, b) ↦ rw b (false, refl)
  ]

module _ (intinf_cmp : ℕ → ℕ → Ordering) (heap : ℕ → Obj) (rank : ℕ → ℕ)
    (finite : IsFinite heap rank) where
  -- On objects of known types whose payloads of pointers are whole words, and whose rank decreases
  -- along the pointers in vectors and records, fuel greater than the ranks of the arguments is
  -- enough: there is a result, and the program does not stop at an assertion or a bad type. Arrays
  -- may be cyclic.
  pub sml_obj_equal-Ends :
      (fuel p q : ℕ)
      → rank p < fuel
      → rank q < fuel
      → (b : Bool) × (sml_obj_equal intinf_cmp heap fuel p q ≡ some b)
  unfolding sml_obj_equal
  sml_obj_equal-Ends zero p q h k = absurd (omega arith)
  sml_obj_equal-Ends (suc fuel) p q h k = elim (same_or_not p q) [
    | inl (e, b) ↦ rw b (true, refl)
    | inr (e, b) ↦ rw b (elim (same_or_not p 0) [
      | inl (f, c) ↦ rw c (false, refl)
      | inr (f, c) ↦ rw c (elim (same_or_not q 0) [
        | inl (g, d) ↦ rw d (false, refl)
        | inr (g, d) ↦ rw d (
            objects_equal-Ends intinf_cmp heap rank finite fuel (sml_obj_equal intinf_cmp heap fuel)
              (sml_obj_equal-Ends fuel) p q f g h k)
      ])
    ])
  ]
