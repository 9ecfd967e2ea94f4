-- ===== src/Object/Tests.antt =====
-- Runs of the models of heap objects.
use smlsharp_completions_gen.Base.{
  List, [], ℕ, zero, suc, ◌+◌, ◌*◌, ◌^◌, ◌<◌, ◌≡◌, ◌≢◌, ◌==◌, if◌then◌else◌, ◌||◌, Bool, true, some,
  compare, inl, inr, refl, arith,
}
use smlsharp_completions_gen.Object.{Obj, obj_type, type_of_bits, obj_size, num_words, boxed_array}
use smlsharp_completions_gen.Object.Enum.{sml_obj_enum_ptr}
use smlsharp_completions_gen.Object.Enum.Pointers.{
  record_places, Visits, IsUsed, sml_obj_enum_ptr-Visits,
}
use smlsharp_completions_gen.Object.Copy.{sml_copyary, copyary-moved, moved, copy_down, sml_write}
use smlsharp_completions_gen.Object.Copy.Overlap.{copyary_back_one}
use smlsharp_completions_gen.Object.Equal.{
  is_eq_cmp, sml_obj_equal, objects_equal, same_type, contents_equal, vectors_equal, all_fields,
  same_bytes, all_below,
}
use smlsharp_completions_gen.Object.Equal.Finite.{IsFinite, IsKnown, Followed, sml_obj_equal-Ends}
use smlsharp_completions_gen.Object.Equal.Symmetric.{sml_obj_equal_comm}

-- Array 1 holds 10, 11, 12 and so on.
abbrev counting : ℕ → ℕ → ℕ
counting a i = i + 10

copyary-moved_example : sml_copyary 1 0 1 1 3 counting 1 2 ≡ moved 1 0 1 1 3 counting 1 2
copyary-moved_example =
    copyary-moved 1 0 1 1 3 counting (omega arith) (omega arith) (inr (inl (omega arith))) 1 2

copyary_back_one_example : sml_copyary 1 (0 + 1) 1 0 3 counting 1 (0 + 0) ≡ counting 1 (0 + 3)
copyary_back_one_example = copyary_back_one 1 0 3 counting (omega arith) 0 (omega arith)

-- The first word should become 11; it becomes 13.
shift_left : sml_copyary 1 1 1 0 3 counting 1 0 ≡ 13
unfolding sml_copyary copy_down sml_write
shift_left = refl

-- Two boxed vectors of two words, each with a string and NULL, and strings elsewhere; 3 is an array.
abbrev pair : ℕ → Obj
pair p = record { header = 2 ^ 28 + 16; word = λ i. if i == 0 then p else 0; bitmap = λ i. 0 }

abbrev string : Obj
string = record { header = 3; word = λ i. 37; bitmap = λ i. 0 }

abbrev array : Obj
array = record { header = 3 * 2 ^ 28 + 16; word = λ i. 3; bitmap = λ i. 0 }

abbrev sample : ℕ → Obj
sample zero = string
sample (suc zero) = pair 4
sample (suc (suc zero)) = pair 5
sample (suc (suc (suc zero))) = array
sample (suc (suc (suc (suc p)))) = string

abbrev sample_rank : ℕ → ℕ
sample_rank p = if p == 1 || p == 2 then 1 else 0

equal_pairs : sml_obj_equal compare sample 2 1 2 ≡ some true
unfolding sml_obj_equal objects_equal same_type contents_equal vectors_equal all_fields same_bytes
    all_below obj_type type_of_bits obj_size num_words
equal_pairs = refl

sample_array : obj_type (sample 3) ≡ boxed_array
unfolding obj_type type_of_bits
sample_array = refl

compare_comm : (p q : ℕ) → is_eq_cmp (compare p q) ≡ is_eq_cmp (compare q p)
compare_comm p q = ground arith

sample-IsKnown : (p : ℕ) → p ≢ 0 → IsKnown (obj_type (sample p)) (sample p)
unfolding obj_type type_of_bits obj_size num_words
sample-IsKnown zero n = absurd (n refl)
sample-IsKnown (suc zero) n = refl
sample-IsKnown (suc (suc zero)) n = refl
sample-IsKnown (suc (suc (suc zero))) n = tt
sample-IsKnown (suc (suc (suc (suc p)))) n = tt

sample_decreases :
    (p : ℕ)
    → p ≢ 0
    → (i : ℕ) → i < num_words (sample p)
    → Followed (obj_type (sample p)) (sample p) i
    → sample_rank ((sample p).word i) < sample_rank p
unfolding obj_type type_of_bits obj_size num_words
sample_decreases zero n i k f = absurd (n refl)
sample_decreases (suc zero) n i k f = ground arith
sample_decreases (suc (suc zero)) n i k f = ground arith
sample_decreases (suc (suc (suc zero))) n i k f = absurd f
sample_decreases (suc (suc (suc (suc p)))) n i k f = absurd f

sample-IsFinite : IsFinite sample sample_rank
sample-IsFinite = record { known = sample-IsKnown; decreases = sample_decreases }

sml_obj_equal-Ends_example : (b : Bool) × (sml_obj_equal compare sample 2 1 2 ≡ some b)
sml_obj_equal-Ends_example =
    sml_obj_equal-Ends compare sample sample_rank sample-IsFinite 2 1 2 (omega arith) (omega arith)

sml_obj_equal_comm_example : sml_obj_equal compare sample 2 1 2 ≡ sml_obj_equal compare sample 2 2 1
sml_obj_equal_comm_example = sml_obj_equal_comm compare sample compare_comm 2 1 2

-- A record of three words, of which the first and the third are pointers.
abbrev mixed : Obj
mixed = record { header = 5 * 2 ^ 28 + 24; word = λ i. 40 + i; bitmap = λ i. 5 }

abbrev forward : ℕ → ℕ
forward p = p + 1000

mixed-IsUsed : IsUsed (obj_type mixed)
unfolding obj_type type_of_bits
mixed-IsUsed = tt

sml_obj_enum_ptr-Visits_example :
    (r : List ℕ × Obj) × ((sml_obj_enum_ptr (record_places forward) [] mixed ≡ some r)
      × Visits forward (obj_type mixed) mixed 2 r)
sml_obj_enum_ptr-Visits_example = sml_obj_enum_ptr-Visits forward mixed 2 mixed-IsUsed
