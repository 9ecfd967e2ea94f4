-- ===== src/Mark.antt =====
-- Marking in the concurrent collector (smlsharp/src/runtime/heap_concurrent.c, lines 492 to 508 and
-- 1049 to 1245): which objects are visited, and the stack of the objects to be traced, which is
-- linked through slots beside the objects.
--
-- The bits of the bitmaps are Booleans, by the address of the segment and the number of the bit; what
-- the bit pointers do to words of bits is in Bitptr/Counts.antt. A large object has its bits in its
-- malloc segment. A slot is named by its object.
pub mod Visit
pub mod Stack
pub mod Trace
pub mod Barrier
mod Tests
use smlsharp_completions_gen.Base.{
  ℕ, zero, suc, ◌+◌, ◌-◌, ◌==◌, ltb, leb, ◌||◌, ◌&&◌, not, Bool, true, false, if◌then◌else◌, Option,
  none, some,
}
use smlsharp_completions_gen.Object.{Obj, obj_total_size, obj_flag_skip}
use smlsharp_completions_gen.Object.Enum.{sml_obj_enum_ptr}
use smlsharp_completions_gen.Segment.{SegmentLayout, blocksize_max, segment_addr, object_index}

-- What does not change while objects are marked: the objects, and by the address of a segment its
-- layout, bitmap[0] and the snapshot of its allocation pointer; by the address of a malloc segment
-- its bit.
pub record Heap : Type 0 where
  pub object : ℕ → Obj
  pub layout : ℕ → SegmentLayout
  pub used : ℕ → ℕ → Bool
  pub snapshot : ℕ → ℕ
  pub malloc_bit : ℕ → Bool

-- The collect bits, and the slots of the stack.
pub record Marks : Type 0 where
  pub collect : ℕ → ℕ → Bool
  pub malloc_collect : ℕ → Bool
  pub next : ℕ → ℕ

-- `OBJ_TO_MALLOC_SEGMENT`; `MALLOC_OBJECT_OFFSET` is 32.
abbrev pub obj_to_malloc_segment : ℕ → ℕ
obj_to_malloc_segment obj = obj - 32

-- A test-and-set of a collect bit.
unfoldable pub set_collect : ℕ → ℕ → Marks → Marks
set_collect seg index m = record m {
  collect = λ s i. if s == seg && i == index then true else m.collect s i;
}

unfoldable pub set_malloc_collect : ℕ → Marks → Marks
set_malloc_collect mseg m = record m {
  malloc_collect = λ s. if s == mseg then true else m.malloc_collect s;
}

module _ (h : Heap) where
  abbrev pub skipped : ℕ → Bool
  skipped obj = obj == 0 || obj_flag_skip (h.object obj)

  abbrev pub is_large : ℕ → Bool
  is_large obj = ltb blocksize_max (obj_total_size (h.object obj))

  abbrev pub index_of : ℕ → ℕ
  index_of obj = object_index (h.layout (segment_addr obj)) (segment_addr obj) obj

  unfoldable pub visit_large : ℕ → Marks → Bool × Marks
  visit_large obj m =
      let mseg = obj_to_malloc_segment obj in
      if not (h.malloc_bit mseg)
      then (false, m)
      else if m.malloc_collect mseg
      then (false, m)
      else (true, set_malloc_collect mseg m)

  unfoldable pub visit_block : ℕ → Marks → Bool × Marks
  visit_block obj m =
      let seg = segment_addr obj in
      let index = index_of obj in
      if not (h.used seg index) && leb (h.snapshot seg) obj
      then (false, m)
      else if m.collect seg index
      then (false, m)
      else (true, set_collect seg index m)

  -- `visit`: whether the slot of the object is returned, and not NULL.
  unfoldable pub visit : ℕ → Marks → Bool × Marks
  visit obj m =
      if skipped obj
      then (false, m)
      else if is_large obj
      then visit_large obj m
      else visit_block obj m

  unfoldable pub is_alive_large : ℕ → Marks → Bool
  is_alive_large obj m =
      let mseg = obj_to_malloc_segment obj in
      if not (h.malloc_bit mseg) then true else if m.malloc_collect mseg then true else false

  unfoldable pub is_alive_block : ℕ → Marks → Bool
  is_alive_block obj m =
      let seg = segment_addr obj in
      let index = index_of obj in
      if leb (h.snapshot seg) obj && not (h.used seg index)
      then true
      else if m.collect seg index
      then true
      else false

  unfoldable pub is_alive : ℕ → Marks → Bool
  is_alive obj m =
      if skipped obj
      then true
      else if is_large obj
      then is_alive_large obj m
      else is_alive_block obj m

  -- `slot->next = ...`
  abbrev pub link : ℕ → ℕ → Marks → Marks
  link obj top m = record m { next = λ x. if x == obj then top else m.next x }

  -- `push`, with the top of the stack.
  unfoldable pub push : Marks × ℕ → ℕ → Marks × ℕ
  push (m, top) obj =
      let (slot, m') = visit obj m in if slot then (link obj top m', obj) else (m', top)

  -- `push_enum`
  abbrev pub push_enum : Marks × ℕ → ℕ → ℕ → (Marks × ℕ) × ℕ
  push_enum s place obj = (push s obj, obj)

  abbrev pub continue_with : (ℕ → Marks → Option Marks) → Option ((Marks × ℕ) × Obj) → Option Marks
  continue_with rest none = none
  continue_with rest (some ((m, top), o)) = rest top m

  -- `trace`, by the number of objects that it traces; `none` also where an object has no known type.
  unfoldable pub trace : ℕ → ℕ → Marks → Option Marks
  trace zero top m = if top == 0 then some m else none
  trace (suc fuel) top m =
      if top == 0
      then some m
      else continue_with (trace fuel) (sml_obj_enum_ptr push_enum (m, m.next top) (h.object top))
