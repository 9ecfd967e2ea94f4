-- ===== src/Object/Enum/Pointers.antt =====
-- `sml_obj_enum_ptr` visits the pointers of an object and nothing else.
use smlsharp_completions_gen.Base.{
  ℕ, zero, suc, ◌<◌, ◌≡◌, ◌==◌, ltb, Bool, true, false, not, ◌&&◌, if◌then◌else◌, some, List, [],
  ◌∷◌, ◌++◌, arith, refl, ap, ◌∙◌, sym, inl, inr, Bool-cases, same_or_not, append-nil,
}
use smlsharp_completions_gen.Object.{
  Obj, ObjType, unboxed_vector, boxed_vector, unboxed_array, boxed_array, unused, record_type,
  intinf, forwarded, obj_type, num_words, bitmap_bit,
}
use smlsharp_completions_gen.Object.Enum.{
  trace_word, trace_words, put_words, enum_typed, sml_obj_enum_ptr,
}

-- The words of an object that are pointers, by its type.
abbrev pub is_pointer : ObjType → Obj → ℕ → Bool
is_pointer boxed_vector o i = ltb i (num_words o)
is_pointer boxed_array o i = ltb i (num_words o)
is_pointer record_type o i = ltb i (num_words o) && not (bitmap_bit o.bitmap i == 0)
is_pointer _ o i = false

-- The numbers below n that pass a test, in increasing order.
abbrev pub selected : (ℕ → Bool) → ℕ → List ℕ
selected test zero = []
selected test (suc n) = selected test n ++ (if test n then n ∷ [] else [])

-- A visitor that replaces pointers by `forward` and keeps a list of the places that it is called for.
abbrev pub record_places : (ℕ → ℕ) → List ℕ → ℕ → ℕ → List ℕ × ℕ
record_places forward places i pointer = (places ++ (i ∷ []), forward pointer)

pub selected_ext :
    (f g : ℕ → Bool) (n : ℕ) → ((i : ℕ) → i < n → f i ≡ g i) → selected f n ≡ selected g n
selected_ext f g zero h = refl
selected_ext f g (suc n) h =
    ap (λ l. l ++ (if f n then n ∷ [] else [])) (selected_ext f g n (λ i k. h i (omega arith)))
    ∙ ap (λ b. selected g n ++ (if b then n ∷ [] else [])) (h n (omega arith))

pub selected_none : (n : ℕ) → selected (λ i. false) n ≡ []
selected_none zero = refl
selected_none (suc n) = ap (λ l. l ++ []) (selected_none n)

-- A type that has been given an object.
abbrev pub IsUsed : ObjType → Type 0
IsUsed unused = ⊥
IsUsed forwarded = ⊥
IsUsed _ = Unit

module _ (forward : ℕ → ℕ) (visited : ℕ → Bool) where
  places_lem :
      (n : ℕ) (word : ℕ → ℕ)
      → (trace_words (record_places forward) visited n ([], word)).0 ≡ selected visited n
  unfolding trace_words
  places_lem zero word = refl
  places_lem (suc n) word = elim (Bool-cases (visited n)) [
    | inl b ↦ rw b (ap (λ l. l ++ (n ∷ [])) (places_lem n word))
    | inr b ↦ rw b (places_lem n word ∙ sym (append-nil (selected visited n)))
  ]

  -- A visit of the n-th word, and the other words.
  last_word :
      (n : ℕ) (word : ℕ → ℕ) (w : List ℕ × (ℕ → ℕ)) (j : ℕ)
      → j ≡ n
      → w.1 n ≡ word n
      → (if visited n then trace_word (record_places forward) n w else w).1 j
        ≡ (if visited j then forward (word j) else word j)
  last_word n word w j e h =
      ap (λ k. (if visited n then trace_word (record_places forward) n w else w).1 k) e
      ∙ ground (arith, h)
      ∙ sym (ap (λ k. if visited k then forward (word k) else word k) e)

  other_word :
      (n : ℕ) (w : List ℕ × (ℕ → ℕ)) (j : ℕ)
      → j == n ≡ false
      → (if visited n then trace_word (record_places forward) n w else w).1 j ≡ w.1 j
  other_word n w j e = elim (Bool-cases (visited n)) [
    | inl b ↦ rw b (rw e refl)
    | inr b ↦ rw b refl
  ]

  words_lem :
      (n : ℕ) (word : ℕ → ℕ) (j : ℕ)
      → (trace_words (record_places forward) visited n ([], word)).1 j
        ≡ (if ltb j n && visited j then forward (word j) else word j)
  unfolding trace_words
  words_lem zero word j = ground arith
  words_lem (suc n) word j = elim (same_or_not j n) [
    | inl (e, b) ↦
        last_word n word (trace_words (record_places forward) visited n ([], word)) j e
          (words_lem n word n ∙ ground arith)
        ∙ ground arith
    | inr (e, b) ↦
        other_word n (trace_words (record_places forward) visited n ([], word)) j b
        ∙ words_lem n word j
        ∙ ground arith
  ]

-- What a visit of all the pointers of an object has done: to its j-th word, to the rest of the
-- object, and in which order.
abbrev pub Visits : (ℕ → ℕ) → ObjType → Obj → ℕ → List ℕ × Obj → Type 0
Visits forward t o j (places, o') =
    (places ≡ selected (is_pointer t o) (num_words o))
    × ((o'.word j ≡ (if is_pointer t o j then forward (o.word j) else o.word j))
        × ((o'.header ≡ o.header) × (o'.bitmap ≡ o.bitmap)))

module _ (forward : ℕ → ℕ) (o : Obj) (j : ℕ) where
  all-Visits :
      (t : ObjType) (visited : ℕ → Bool)
      → ((i : ℕ) → is_pointer t o i ≡ (ltb i (num_words o) && visited i))
      → Visits forward t o j (
          put_words
            (record_places forward)
            o
            (trace_words (record_places forward) visited (num_words o) ([], o.word)))
  all-Visits t visited h = (
    places_lem forward visited (num_words o) o.word
        ∙ selected_ext visited (is_pointer t o) (num_words o) (λ i k. ground arith ∙ sym (h i)),
    (
      words_lem forward visited (num_words o) o.word j
          ∙ ap (λ b. if b then forward (o.word j) else o.word j) (sym (h j)),
      (refl, refl),
    ),
  )

  no-Visits : (t : ObjType) → is_pointer t o ≡ (λ i. false) → Visits forward t o j ([], o)
  no-Visits t h = (
    sym (ap (λ f. selected f (num_words o)) h ∙ selected_none (num_words o)),
    (sym (ap (λ f. if f j then forward (o.word j) else o.word j) h), (refl, refl)),
  )

  typed-Visits :
      (t : ObjType)
      → IsUsed t
      → (r : List ℕ × Obj) × ((enum_typed (record_places forward) t [] o ≡ some r)
          × Visits forward t o j r)
  typed-Visits unboxed_vector u = (([], o), (refl, no-Visits unboxed_vector refl))
  typed-Visits boxed_vector u = (_, (refl, all-Visits boxed_vector (λ i. true) (λ i. ground arith)))
  typed-Visits unboxed_array u = (([], o), (refl, no-Visits unboxed_array refl))
  typed-Visits boxed_array u = (_, (refl, all-Visits boxed_array (λ i. true) (λ i. ground arith)))
  typed-Visits unused u = absurd u
  typed-Visits record_type u =
      (_, (refl, all-Visits record_type (λ i. not (bitmap_bit o.bitmap i == 0)) (λ i. refl)))
  typed-Visits intinf u = (([], o), (refl, no-Visits intinf refl))
  typed-Visits forwarded u = absurd u

  -- With a visitor that replaces pointers, `sml_obj_enum_ptr` ends on every object of a known type:
  -- it calls the visitor for the pointers of the object in increasing order, each once and nothing
  -- else, replaces them and leaves the other words, the header and the bitmap as they are.
  pub sml_obj_enum_ptr-Visits :
      IsUsed (obj_type o)
      → (r : List ℕ × Obj) × ((sml_obj_enum_ptr (record_places forward) [] o ≡ some r)
          × Visits forward (obj_type o) o j r)
  unfolding sml_obj_enum_ptr
  sml_obj_enum_ptr-Visits u = typed-Visits (obj_type o) u
