-- ===== src/Pool/Taken.antt =====
-- `get_segment_from_pool` (smlsharp/src/runtime/heap_concurrent.c, lines 620 to 681) takes a segment
-- out of the pool, or fails.
use smlsharp_completions_gen.Base.{
  ℕ, ◌+◌, ◌*◌, ◌≤◌, ◌<◌, ◌≡◌, ◌≢◌, ◌⊎◌, subst, leb, ltb, if◌then◌else◌, true, false, inl, inr,
  arith, refl, ap, less_or_not, same_or_not, Option, none, some, List, [], ◌∷◌,
}
use smlsharp_completions_gen.Segment.{SegmentLayout, segment_size}
use smlsharp_completions_gen.Allocator.{Segment}
use smlsharp_completions_gen.Reclaim.{copy_collect_bitmap, clear_collect_bitmap}
use smlsharp_completions_gen.Pool.{
  SyncPhase, preasync, async, presync1, sync1, presync2, sync2, premark, mark, dummy_phase, Subpool,
  SegmentPool, init_segment, init_new, Memory, allocate_segment, set_subpool, sees_marked,
  from_marked, extend_heap, from_freelist, from_partial_marked, from_partial, get_segment_from_pool,
}

-- MARK, ASYNC and PREASYNC, in which the list `partial_marked` is in use.
abbrev pub IsLate : SyncPhase → Type 0
IsLate mark = Unit
IsLate async = Unit
IsLate preasync = Unit
IsLate _ = ⊥

-- There is nothing to take from the list, or it is not in use.
abbrev pub NoMarked : SyncPhase → List Segment → Type 0
NoMarked phase marked = (IsLate phase × (marked ≡ [])) ⊎ (IsLate phase → ⊥)

-- What a thread makes of a segment with marks: in ASYNC the marks become its bitmaps and are cleared.
abbrev pub Unmarked : SyncPhase → Segment → Segment
Unmarked async seg = clear_collect_bitmap (copy_collect_bitmap seg)
Unmarked _ seg = seg

-- The pool afterwards, with the lists that subheap i takes segments from; nothing else has changed.
pub record Remains (i : ℕ) (pool pool' : SegmentPool) (partial marked free : List Segment)
    (memory : Memory) : Type 0 where
  pub partial_is : (pool'.subpool i).partial ≡ partial
  pub marked_is : (pool'.subpool i).partial_marked ≡ marked
  pub filled_same : (pool'.subpool i).filled ≡ (pool.subpool i).filled
  pub others_same : (j : ℕ) → j ≢ i → pool'.subpool j ≡ pool.subpool j
  pub freelist_is : pool'.freelist ≡ free
  pub memory_is : pool'.memory ≡ memory

-- Nothing to take; or the first segment of the first list that has one, with the layout of the subheap if it
-- comes from the free list; or new memory.
pub data Takes (segment_layout : ℕ → SegmentLayout) (i : ℕ) (phase current : SyncPhase)
    (pool : SegmentPool) : Option (Segment × SegmentPool) → Type 0 where
  exhausted :
      (pool.subpool i).partial ≡ []
      → NoMarked phase (pool.subpool i).partial_marked
      → pool.freelist ≡ []
      → pool.memory.count ≤ pool.memory.alloced
      → Takes segment_layout i phase current pool none
  took_partial :
      (seg : Segment) (rest : List Segment) (pool' : SegmentPool)
      → (pool.subpool i).partial ≡ seg ∷ rest
      → Remains i pool pool' rest (pool.subpool i).partial_marked pool.freelist pool.memory
      → Takes segment_layout i phase current pool (some (seg, pool'))
  took_marked :
      (seg : Segment) (rest : List Segment) (pool' : SegmentPool)
      → (pool.subpool i).partial ≡ []
      → IsLate phase
      → (pool.subpool i).partial_marked ≡ seg ∷ rest
      → Remains i pool pool' [] rest pool.freelist pool.memory
      → Takes segment_layout i phase current pool (some (Unmarked current seg, pool'))
  took_free :
      (seg : Segment) (rest : List Segment) (pool' : SegmentPool)
      → (pool.subpool i).partial ≡ []
      → NoMarked phase (pool.subpool i).partial_marked
      → pool.freelist ≡ seg ∷ rest
      → Remains i pool pool' [] (pool.subpool i).partial_marked rest pool.memory
      → Takes segment_layout i phase current pool
          (some (init_segment seg (segment_layout i), pool'))
  extended :
      (pool' : SegmentPool)
      → (pool.subpool i).partial ≡ []
      → NoMarked phase (pool.subpool i).partial_marked
      → pool.freelist ≡ []
      → pool.memory.alloced < pool.memory.count
      → Remains i pool pool' []
          (pool.subpool i).partial_marked
          []
          (record pool.memory { alloced = pool.memory.alloced + 1 })
      → Takes segment_layout i phase current pool (
          some (
            init_new (pool.memory.begin + pool.memory.alloced * segment_size) (segment_layout i),
            pool',
          ))

marked_as : (current : SyncPhase) (seg : Segment) → from_marked current seg ≡ Unmarked current seg
marked_as async seg = refl
marked_as mark seg = refl
marked_as preasync seg = refl
marked_as presync1 seg = refl
marked_as sync1 seg = refl
marked_as presync2 seg = refl
marked_as sync2 seg = refl
marked_as premark seg = refl
marked_as dummy_phase seg = refl

sees_marked-IsLate :
    (phase : SyncPhase)
    → ((sees_marked phase ≡ true) × IsLate phase)
      ⊎ ((sees_marked phase ≡ false) × (IsLate phase → ⊥))
sees_marked-IsLate mark = inl (refl, tt)
sees_marked-IsLate async = inl (refl, tt)
sees_marked-IsLate preasync = inl (refl, tt)
sees_marked-IsLate presync1 = inr (refl, λ k. k)
sees_marked-IsLate sync1 = inr (refl, λ k. k)
sees_marked-IsLate presync2 = inr (refl, λ k. k)
sees_marked-IsLate sync2 = inr (refl, λ k. k)
sees_marked-IsLate premark = inr (refl, λ k. k)
sees_marked-IsLate dummy_phase = inr (refl, λ k. k)

set_same : (i : ℕ) (s : Subpool) (pool : SegmentPool) → (set_subpool i s pool).subpool i ≡ s
unfolding set_subpool
set_same i s pool = elim (same_or_not i i) [ inl (_, b) ↦ rw b refl | inr (e, _) ↦ absurd (e refl) ]

set_other :
    (i : ℕ) (s : Subpool) (pool : SegmentPool) (j : ℕ)
    → j ≢ i
    → (set_subpool i s pool).subpool j ≡ pool.subpool j
unfolding set_subpool
set_other i s pool j h = elim (same_or_not j i) [
  | inl (e, _) ↦ absurd (h e)
  | inr (_, b) ↦ rw b refl
]

set_rest :
    (i : ℕ) (s : Subpool) (pool : SegmentPool)
    → ((set_subpool i s pool).freelist ≡ pool.freelist)
      × ((set_subpool i s pool).memory ≡ pool.memory)
unfolding set_subpool
set_rest i s pool = (refl, refl)

module _ (segment_layout : ℕ → SegmentLayout) (i : ℕ) (phase current : SyncPhase)
    (pool : SegmentPool) where
  -- Without a change of the subpool.
  same_subpool :
      (free : List Segment) (memory : Memory)
      → (pool.subpool i).partial ≡ []
      → Remains i pool
          (record pool { freelist = free; memory = memory })
          []
          (pool.subpool i).partial_marked
          free
          memory
  same_subpool free memory p = record {
    partial_is = p;
    marked_is = refl;
    filled_same = refl;
    others_same = λ j h. refl;
    freelist_is = refl;
    memory_is = refl;
  }

  new_subpool :
      (partial marked : List Segment)
      → let s = record (pool.subpool i) { partial = partial; partial_marked = marked } in
        Remains i pool (set_subpool i s pool) partial marked pool.freelist pool.memory
  new_subpool partial marked =
      let s = record (pool.subpool i) { partial = partial; partial_marked = marked } in
      let same = set_same i s pool in
      record {
        partial_is = ap (λ (t : Subpool). t.partial) same;
        marked_is = ap (λ (t : Subpool). t.partial_marked) same;
        filled_same = ap (λ (t : Subpool). t.filled) same;
        others_same = set_other i s pool;
        freelist_is = (set_rest i s pool).0;
        memory_is = (set_rest i s pool).1;
      }

  extend-Takes :
      (pool.subpool i).partial ≡ []
      → NoMarked phase (pool.subpool i).partial_marked
      → pool.freelist ≡ []
      → Takes segment_layout i phase current pool
          (extend_heap segment_layout i pool (allocate_segment pool.memory pool.memory.count))
  unfolding allocate_segment
  extend-Takes p m f = elim (less_or_not pool.memory.alloced pool.memory.count) [
    | inl (h, _) ↦
        let room : leb
              (if ltb pool.memory.count pool.memory.count
                then pool.memory.count
                else pool.memory.count)
              pool.memory.alloced
            ≡ false =
          ground (arith, h) in
        rw room (
          extended _ p m f h (record {
            partial_is = p;
            marked_is = refl;
            filled_same = refl;
            others_same = λ j h. refl;
            freelist_is = f;
            memory_is = refl;
          }))
    | inr (h, _) ↦
        let full : leb
              (if ltb pool.memory.count pool.memory.count
                then pool.memory.count
                else pool.memory.count)
              pool.memory.alloced
            ≡ true =
          ground (arith, h) in
        rw full (exhausted p m f h)
  ]

  freelist-Takes :
      (free : List Segment)
      → (pool.subpool i).partial ≡ []
      → NoMarked phase (pool.subpool i).partial_marked
      → pool.freelist ≡ free
      → Takes segment_layout i phase current pool (from_freelist segment_layout i pool free)
  freelist-Takes [] p m f = extend-Takes p m f
  freelist-Takes (seg ∷ rest) p m f = took_free seg rest _ p m f (same_subpool rest pool.memory p)

  marked-Takes :
      (marked : List Segment)
      → (pool.subpool i).partial ≡ []
      → IsLate phase
      → (pool.subpool i).partial_marked ≡ marked
      → Takes segment_layout i phase current pool
          (from_partial_marked segment_layout i current pool marked)
  marked-Takes [] p l m = freelist-Takes pool.freelist p (inl (l, m)) refl
  marked-Takes (seg ∷ rest) p l m = rw (marked_as current seg) (
      took_marked seg rest _ p l m (
        subst
          (λ xs.
            Remains i pool (set_subpool i (record (pool.subpool i) { partial_marked = rest }) pool)
              xs rest pool.freelist pool.memory)
          p (new_subpool (pool.subpool i).partial rest)))

  partial-Takes :
      (partial : List Segment)
      → (pool.subpool i).partial ≡ partial
      → Takes segment_layout i phase current pool
          (from_partial segment_layout i phase current pool partial)
  partial-Takes [] p = elim (sees_marked-IsLate phase) [
    | inl (b, l) ↦ rw b (marked-Takes (pool.subpool i).partial_marked p l refl)
    | inr (b, l) ↦ rw b (freelist-Takes pool.freelist p (inr l) refl)
  ]
  partial-Takes (seg ∷ rest) p =
      took_partial seg rest _ p (new_subpool rest (pool.subpool i).partial_marked)

  -- `get_segment_from_pool` takes the first segment of `partial`; if that is empty and the phase is MARK,
  -- ASYNC or PREASYNC, of `partial_marked`, in ASYNC with its marks copied to its bitmaps and cleared; then of the
  -- free list, with the layout of the subheap; and then the next segment of the memory that is not yet taken, with that layout.
  -- If all these are empty it fails. The rest of the list, all other lists and the other subheaps stay as they are.
  pub get_segment_from_pool-Takes :
      Takes segment_layout i phase current pool
        (get_segment_from_pool segment_layout i phase current pool)
  unfolding get_segment_from_pool
  get_segment_from_pool-Takes = partial-Takes (pool.subpool i).partial refl
