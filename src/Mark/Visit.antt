-- ===== src/Mark/Visit.antt =====
-- What `visit` and `is_alive` (smlsharp/src/runtime/heap_concurrent.c, lines 1070 to 1145) have to do
-- with each other.
use smlsharp_completions_gen.Base.{
  ℕ, ◌≡◌, ◌==◌, leb, ◌||◌, ◌&&◌, not, Bool, true, false, if◌then◌else◌, arith,
}
use smlsharp_completions_gen.Segment.{segment_addr}
use smlsharp_completions_gen.Mark.{
  Heap, Marks, obj_to_malloc_segment, set_collect, set_malloc_collect, skipped, is_large, index_of,
  visit_large, visit_block, visit, is_alive_large, is_alive_block, is_alive,
}

module _ (h : Heap) where
  -- What the collector is to find out about: an object that it manages and that was there when the
  -- snapshot was taken.
  abbrev pub is_target : ℕ → Bool
  is_target x =
      not (skipped h x)
      && (if is_large h x
          then h.malloc_bit (obj_to_malloc_segment x)
          else (h.used (segment_addr x) (index_of h x)
              || not (leb (h.snapshot (segment_addr x)) x)))

  abbrev pub is_marked : Marks → ℕ → Bool
  is_marked m x =
      if is_large h x
      then m.malloc_collect (obj_to_malloc_segment x)
      else m.collect (segment_addr x) (index_of h x)

  -- The collect bit of an object is that of the other.
  abbrev pub same_bit : ℕ → ℕ → Bool
  same_bit x y =
      if is_large h x
      then (is_large h y && obj_to_malloc_segment y == obj_to_malloc_segment x)
      else (not (is_large h y)
          && (segment_addr y == segment_addr x && index_of h y == index_of h x))

  unfoldable pub set_mark : ℕ → Marks → Marks
  set_mark x m =
      if is_large h x
      then set_malloc_collect (obj_to_malloc_segment x) m
      else set_collect (segment_addr x) (index_of h x) m

  pub is_alive_lem : (x : ℕ) (m : Marks) → is_alive h x m ≡ (not (is_target x) || is_marked m x)
  unfolding is_alive is_alive_large is_alive_block
  is_alive_lem x m = ground arith

  pub visit_lem :
      (x : ℕ) (m : Marks)
      → visit h x m
        ≡ (if is_target x && not (is_marked m x) then (true, set_mark x m) else (false, m))
  unfolding visit visit_large visit_block set_mark
  visit_lem x m = ground arith

  pub set_mark_lem :
      (x y : ℕ) (m : Marks) → is_marked (set_mark x m) y ≡ (same_bit x y || is_marked m y)
  unfolding set_mark set_collect set_malloc_collect
  set_mark_lem x y m = ground arith
