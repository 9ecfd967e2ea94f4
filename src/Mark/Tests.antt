-- ===== src/Mark/Tests.antt =====
-- A run of the model of marking.
use mathlib.Core.List.{Memᴰ}
use mathlib.Core.List.Memᴰ
use smlsharp_completions_gen.Base.{
  ℕ, ◌+◌, ◌*◌, ◌^◌, ◌≡◌, ◌⊎◌, inl, inr, ◌==◌, true, false, if◌then◌else◌, arith, refl, ap, sym, ◌∙◌,
  subst, some, List, [], ◌∷◌, length,
}
use smlsharp_completions_gen.Object.{
  Obj, obj_type, type_of_bits, obj_size, num_words, obj_total_size, bitmaps_size, obj_flag_skip,
}
use mathlib.Core.Bool.{true≢false}
use smlsharp_completions_gen.Object.Enum.Pointers.{IsUsed}
use smlsharp_completions_gen.Object.Enum.Fold.{pointers}
use smlsharp_completions_gen.Segment.{SegmentLayout, segment_addr, object_index}
use smlsharp_completions_gen.Mark.{Heap, Marks, trace, is_alive}
use smlsharp_completions_gen.Mark.Visit.{is_marked, is_target, same_bit}
use smlsharp_completions_gen.Pool.{sync1}
use smlsharp_completions_gen.Mark.Barrier.{barrier, told, barrier-Pushed}
use smlsharp_completions_gen.Mark.Stack.{Pushed, IsArena, unmarked}
use smlsharp_completions_gen.Mark.Trace.{
  IsTracing, IsTraced, trace-IsTraced, trace-live, live_root, live_child,
}

-- Two arrays of two words at 32768 + 20000 and 32 bytes on, which point to each other and to NULL.
abbrev first : ℕ
first = 52768

abbrev second : ℕ
second = 52800

abbrev pair_to : ℕ → Obj
pair_to p = record {
  header = 3 * 2 ^ 28 + 16;
  word = λ i. if i == 0 then p else 0;
  bitmap = λ i. 0;
}

abbrev some_layout : SegmentLayout
some_layout = record {
  blocksize_log2 = 5;
  blocksize_bytes = 32;
  bitmap_offset1 = 80;
  bitmap_offset2 = 84;
  bitmap_sentinel0 = 0;
  bitmap_sentinel1 = 0;
  bitmap_length = 52;
  bitmap0_length = 48;
  zerofill_limit = 132;
  stack_offset = 136;
  block_offset = 20000;
  num_blocks = 350;
  block_limit = 31200;
}

abbrev heap : Heap
heap = record {
  object = λ p. if p == first then pair_to second else pair_to first;
  layout = λ s. some_layout;
  used = λ s i. true;
  snapshot = λ s. 0;
  malloc_bit = λ s. true;
}

abbrev two : List ℕ
two = first ∷ second ∷ []

two_cases : (x : ℕ) → Memᴰ x two → (x ≡ first) ⊎ (x ≡ second)
two_cases x k = elim (Memᴰ.cases_cons k) [ inl e ↦ inl e | inr l ↦ inr (Memᴰ.eq_of_singleton l) ]

-- The first is on the stack.
abbrev start : Marks
start = record { collect = λ s i. i == 0; malloc_collect = λ s. false; next = λ p. 0 }

first_apart : (same_bit heap first second ≡ false) × (same_bit heap second first ≡ false)
unfolding obj_total_size obj_type type_of_bits obj_size bitmaps_size obj_flag_skip object_index
    segment_addr num_words pointers
first_apart = (refl, refl)

arena_apart : (x y : ℕ) → Memᴰ x two → Memᴰ y two → same_bit heap x y ≡ true → x ≡ y
arena_apart x y k l s = elim (two_cases x k) [
  | inl e ↦ elim (two_cases y l) [
    | inl f ↦ e ∙ sym f
    | inr f ↦ absurd (
        true≢false (
          sym s
          ∙ ap (λ z. same_bit heap z y) e
          ∙ ap (λ z. same_bit heap first z) f
          ∙ first_apart.0))
  ]
  | inr e ↦ elim (two_cases y l) [
    | inr f ↦ e ∙ sym f
    | inl f ↦ absurd (
        true≢false (
          sym s
          ∙ ap (λ z. same_bit heap z y) e
          ∙ ap (λ z. same_bit heap second z) f
          ∙ first_apart.1))
  ]
]

first_typed : IsUsed (obj_type (heap.object first)) × IsUsed (obj_type (heap.object second))
unfolding obj_total_size obj_type type_of_bits obj_size bitmaps_size obj_flag_skip object_index
    segment_addr num_words pointers
first_typed = (tt, tt)

pointers_lem :
    (pointers (heap.object first) ≡ second ∷ 0 ∷ [])
    × (pointers (heap.object second) ≡ first ∷ 0 ∷ [])
unfolding obj_total_size obj_type type_of_bits obj_size bitmaps_size obj_flag_skip object_index
    segment_addr num_words pointers
pointers_lem = (refl, refl)

null_no_target : is_target heap 0 ≡ false
null_no_target = refl

pointed_to : (p y : ℕ) → Memᴰ p two → Memᴰ y (p ∷ 0 ∷ []) → is_target heap y ≡ true → Memᴰ y two
pointed_to p y k l t = elim (Memᴰ.cases_cons l) [
  | inl e ↦ subst (λ z. Memᴰ z two) (sym e) k
  | inr r ↦
      absurd (true≢false (sym t ∙ ap (is_target heap) (Memᴰ.eq_of_singleton r) ∙ null_no_target))
]

arena : IsArena heap two
arena = record {
  typed = λ x k. elim (two_cases x k) [
    | inl e ↦ subst (λ z. IsUsed (obj_type (heap.object z))) (sym e) first_typed.0
    | inr e ↦ subst (λ z. IsUsed (obj_type (heap.object z))) (sym e) first_typed.1
  ];
  apart = arena_apart;
  closed = λ x y k l t. elim (two_cases x k) [
    | inl e ↦
        pointed_to second y (Memᴰ.tail (Memᴰ.head refl))
          (subst (λ z. Memᴰ y z) (ap (λ z. pointers (heap.object z)) e ∙ pointers_lem.0) l) t
    | inr e ↦
        pointed_to first y (Memᴰ.head refl)
          (subst (λ z. Memᴰ y z) (ap (λ z. pointers (heap.object z)) e ∙ pointers_lem.1) l) t
  ];
}

start_marked : (is_marked heap start first ≡ true) × (is_marked heap start second ≡ false)
unfolding obj_total_size obj_type type_of_bits obj_size bitmaps_size obj_flag_skip object_index
    segment_addr num_words pointers
start_marked = (refl, refl)

start-IsTracing : IsTracing heap two start first (first ∷ [])
start-IsTracing = record {
  linked = (refl, (omega arith, refl));
  grey = λ z k. (
    Memᴰ.head (Memᴰ.eq_of_singleton k),
    ap (is_marked heap start) (Memᴰ.eq_of_singleton k) ∙ start_marked.0,
  );
  tricolour = λ x k e. elim (two_cases x k) [
    | inl f ↦ inl (Memᴰ.head f)
    | inr f ↦ absurd (true≢false (sym e ∙ ap (is_marked heap start) f ∙ start_marked.1))
  ];
}

run_lem :
    (m' : Marks) × ((trace heap (unmarked heap start two + length {A = ℕ} (first ∷ [])) first start
        ≡ some m')
      × IsTraced heap two start (first ∷ []) m')
run_lem =
    trace-IsTraced heap two arena (unmarked heap start two + length {A = ℕ} (first ∷ [])) start
      first (first ∷ []) start-IsTracing (omega arith)

trace-IsTraced_example :
    (m' : Marks) × ((trace heap (unmarked heap start two + length {A = ℕ} (first ∷ [])) first start
        ≡ some m')
      × IsTraced heap two start (first ∷ []) m')
unfolding obj_total_size obj_type type_of_bits obj_size bitmaps_size obj_flag_skip object_index
    segment_addr num_words pointers
trace-IsTraced_example =
    trace-IsTraced heap two arena (unmarked heap start two + length {A = ℕ} (first ∷ [])) start
      first (first ∷ []) start-IsTracing (omega arith)

-- Where the trace ends, by the result above.
abbrev end : Marks
end = run_lem.0

trace-live_example : is_alive heap second end ≡ true
unfolding obj_total_size obj_type type_of_bits obj_size bitmaps_size obj_flag_skip object_index
    segment_addr num_words pointers
trace-live_example =
    trace-live heap two arena start first (first ∷ []) end second start-IsTracing run_lem.1.0
      (live_child (live_root (Memᴰ.head refl)) refl (Memᴰ.head refl))

barrier-Pushed_example :
    (xs' : List ℕ) × Pushed heap two
      (told sync1 0 second)
      start
      (first ∷ [])
      (barrier heap sync1 0 second (start, first)).0
      (barrier heap sync1 0 second (start, first)).1
      xs'
barrier-Pushed_example =
    barrier-Pushed heap two arena sync1 0 second start first (first ∷ []) start-IsTracing.linked
      start-IsTracing.grey (λ y k t. pointed_to second y (Memᴰ.tail (Memᴰ.head refl)) k t)
