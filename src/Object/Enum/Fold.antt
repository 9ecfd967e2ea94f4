-- ===== src/Object/Enum/Fold.antt =====
-- `sml_obj_enum_ptr` with a function that leaves the pointers as they are is a loop over the list of
-- the pointers of the object.
use smlsharp_completions_gen.Base.{
  ℕ, zero, suc, ◌≡◌, ◌==◌, ltb, Bool, true, false, not, ◌&&◌, if◌then◌else◌, Option, some, List, [],
  ◌∷◌, ◌++◌, map, foldl, arith, refl, ap, ◌∙◌, sym, inl, inr, Bool-cases, same_or_not, append-nil,
}
use smlsharp_completions_gen.Object.{
  Obj, ObjType, unboxed_vector, boxed_vector, unboxed_array, boxed_array, unused, record_type,
  intinf, forwarded, obj_type, num_words, bitmap_bit,
}
use smlsharp_completions_gen.Object.Enum.{
  trace_words, put_words, enum_words, enum_typed, sml_obj_enum_ptr,
}
use smlsharp_completions_gen.Object.Enum.Pointers.{
  selected, selected_ext, selected_none, is_pointer, IsUsed,
}

-- The pointers of an object, by its type.
abbrev pub pointers_by : ObjType → Obj → List ℕ
pointers_by t o = map o.word (selected (is_pointer t o) (num_words o))

unfoldable pub pointers : Obj → List ℕ
pointers o = pointers_by (obj_type o) o

last_pointer {κ} :
    {S : Type κ} (visit : S → ℕ → S) (s : S) (word : ℕ → ℕ) (l : List ℕ) (n : ℕ)
    → foldl visit s (map word (l ++ (n ∷ []))) ≡ visit (foldl visit s (map word l)) (word n)
last_pointer visit s word [] n = refl
last_pointer visit s word (x ∷ l) n = last_pointer visit (visit s (word x)) word l n

module _ {κ} {S : Type κ} (visit : S → ℕ → S) where
  abbrev pub keeping : S → ℕ → ℕ → S × ℕ
  keeping s i pointer = (visit s pointer, pointer)

  same_word : (word : ℕ → ℕ) (n : ℕ) → (λ j. if j == n then word n else word j) ≡ word
  same_word word n = λ i j. at_word j i
    where
      at_word : (j : ℕ) → (if j == n then word n else word j) ≡ word j
      at_word j = elim (same_or_not j n) [
        | inl (e, b) ↦ rw b (ap word (sym e))
        | inr (e, b) ↦ rw b refl
      ]

  trace_words-foldl :
      (visited : ℕ → Bool) (n : ℕ) (s : S) (word : ℕ → ℕ)
      → trace_words keeping visited n (s, word)
        ≡ (foldl visit s (map word (selected visited n)), word)
  unfolding trace_words
  trace_words-foldl visited zero s word = refl
  trace_words-foldl visited (suc n) s word = elim (Bool-cases (visited n)) [
    | inl b ↦
        rw (b, trace_words-foldl visited n s word)
          (ap (λ w. (visit (foldl visit s (map word (selected visited n))) (word n), w))
              (same_word word n)
            ∙ ap (λ x. (x, word)) (sym (last_pointer visit s word (selected visited n) n)))
    | inr b ↦
        rw (b, trace_words-foldl visited n s word)
          (ap (λ l. (foldl visit s (map word l), word)) (sym (append-nil (selected visited n))))
  ]

  words-foldl :
      (t : ObjType) (visited : ℕ → Bool) (s : S) (o : Obj)
      → ((i : ℕ) → is_pointer t o i ≡ (ltb i (num_words o) && visited i))
      → enum_words keeping visited s o ≡ some (foldl visit s (pointers_by t o), o)
  words-foldl t visited s o h =
      ap (λ w. some (put_words keeping o w))
        (trace_words-foldl visited (num_words o) s o.word
          ∙ ap (λ l. (foldl visit s (map o.word l), o.word))
              (selected_ext visited (is_pointer t o) (num_words o)
                (λ i k. ground arith ∙ sym (h i))))

  none-foldl :
      (t : ObjType) (s : S) (o : Obj)
      → is_pointer t o ≡ (λ i. false)
      → ◌≡◌ {A = Option (S × Obj)} (some (s, o)) (some (foldl visit s (pointers_by t o), o))
  none-foldl t s o h =
      ap (λ l. some (foldl visit s (map o.word l), o))
        (sym (ap (λ f. selected f (num_words o)) h ∙ selected_none (num_words o)))

  typed-foldl :
      (t : ObjType) (s : S) (o : Obj)
      → IsUsed t
      → enum_typed keeping t s o ≡ some (foldl visit s (pointers_by t o), o)
  typed-foldl unboxed_vector s o u = none-foldl unboxed_vector s o refl
  typed-foldl boxed_vector s o u = words-foldl boxed_vector (λ i. true) s o (λ i. ground arith)
  typed-foldl unboxed_array s o u = none-foldl unboxed_array s o refl
  typed-foldl boxed_array s o u = words-foldl boxed_array (λ i. true) s o (λ i. ground arith)
  typed-foldl unused s o u = absurd u
  typed-foldl record_type s o u =
      words-foldl record_type (λ i. not (bitmap_bit o.bitmap i == 0)) s o (λ i. refl)
  typed-foldl intinf s o u = none-foldl intinf s o refl
  typed-foldl forwarded s o u = absurd u

  pub enum_ptr-foldl :
      (s : S) (o : Obj)
      → IsUsed (obj_type o)
      → sml_obj_enum_ptr keeping s o ≡ some (foldl visit s (pointers o), o)
  unfolding sml_obj_enum_ptr pointers
  enum_ptr-foldl s o u = typed-foldl (obj_type o) s o u
