-- ===== src/Subheap/Lists.antt =====
-- `reclaim_subheap` (smlsharp/src/runtime/heap_concurrent.c, lines 1336 to 1418) puts each segment,
-- in order and without marks, in one of three lists.
use mathlib.Core.List.{Memᴰ}
use smlsharp_completions_gen.Base.{
  ℕ, ◌+◌, ◌≡◌, ◌==◌, ◌||◌, ltb, if◌then◌else◌, inl, inr, arith, refl, ap, ◌∙◌, same_or_not,
  Bool-cases, Option, none, some, List, [], ◌∷◌, ◌++◌, foldl,
}
use smlsharp_completions_gen.Base.Predicates.{All, All-append}
use smlsharp_completions_gen.Allocator.{Segment, block_base, block_limit}
use smlsharp_completions_gen.Reclaim.{copy_collect_bitmap, clear_collect_bitmap}
use smlsharp_completions_gen.Subheap.{
  Subheap, Reclaimed, free_count, reclaim_partial, reclaim_filled, reclaim_current, count_current,
  no_segments, with_current, reclaim_subheap,
}
use smlsharp_completions_gen.Subheap.Clean.{
  IsMarked, IsReclaimed, IsEmpty, cleared-IsReclaimed, unused-IsReclaimed,
}

-- How often a segment is in a list, by its address.
abbrev pub occurrences : ℕ → List Segment → ℕ
occurrences a [] = 0
occurrences a (seg ∷ segs) = (if seg.address == a then 1 else 0) + occurrences a segs

occurrences-append :
    (a : ℕ) (xs ys : List Segment) → occurrences a (xs ++ ys) ≡ occurrences a xs + occurrences a ys
occurrences-append a [] ys = omega arith
occurrences-append a (x ∷ xs) ys = omega (arith, occurrences-append a xs ys)

abbrev at_address : ℕ → ℕ → ℕ
at_address a x = if x == a then 1 else 0

-- Three lists of reclaimed segments, the last one of segments without a block in use, in which each
-- segment is as often as `count` tells.
pub record Sorts (before : List Segment) (count : ℕ → ℕ) (partial filled free : List Segment)
    : Type 0 where
  pub each : (a : ℕ) → occurrences a partial + occurrences a filled + occurrences a free ≡ count a
  pub partial_ok : All (IsReclaimed before) partial
  pub filled_ok : All (IsReclaimed before) filled
  pub free_ok : All (λ seg. IsReclaimed before seg × IsEmpty seg) free

abbrev SortsTo : List Segment → (ℕ → ℕ) → Reclaimed → Type 0
SortsTo before count r = Sorts before count r.partial r.filled r.free

same_place : (seg : Segment) → (copy_collect_bitmap seg).address ≡ seg.address
unfolding copy_collect_bitmap
same_place seg = refl

same_place_cleared :
    (seg : Segment) → (clear_collect_bitmap (copy_collect_bitmap seg)).address ≡ seg.address
unfolding copy_collect_bitmap clear_collect_bitmap
same_place_cleared seg = refl

-- The segment of the allocation pointer, if it has one.
abbrev pub listed : Option Segment → List Segment
listed none = []
listed (some seg) = seg ∷ []

module _ (before : List Segment) where
  -- A segment that is to be reclaimed.
  abbrev pub IsListed : Segment → Type 0
  IsListed seg = Memᴰ seg before × IsMarked seg

  with_segment : (ℕ → ℕ) → Segment → ℕ → ℕ
  with_segment count seg a = count a + (if seg.address == a then 1 else 0)

  module _ (count : ℕ → ℕ) (partial filled free : List Segment)
      (s : Sorts before count partial filled free) (old seg : Segment)
      (same : seg.address ≡ old.address) (ok : IsReclaimed before seg) where
    to_partial : Sorts before (with_segment count old) (partial ++ (seg ∷ [])) filled free
    unfolding with_segment
    to_partial = record {
      each = λ a.
          omega (arith, occurrences-append a partial (seg ∷ []), s.each a, ap (at_address a) same);
      partial_ok = All-append (IsReclaimed before) partial (seg ∷ []) s.partial_ok (ok, tt);
      filled_ok = s.filled_ok;
      free_ok = s.free_ok;
    }

    to_filled : Sorts before (with_segment count old) partial (filled ++ (seg ∷ [])) free
    unfolding with_segment
    to_filled = record {
      each = λ a.
          omega (arith, occurrences-append a filled (seg ∷ []), s.each a, ap (at_address a) same);
      partial_ok = s.partial_ok;
      filled_ok = All-append (IsReclaimed before) filled (seg ∷ []) s.filled_ok (ok, tt);
      free_ok = s.free_ok;
    }

    to_free :
        IsEmpty seg → Sorts before (with_segment count old) partial filled (free ++ (seg ∷ []))
    unfolding with_segment
    to_free e = record {
      each = λ a.
          omega (arith, occurrences-append a free (seg ∷ []), s.each a, ap (at_address a) same);
      partial_ok = s.partial_ok;
      filled_ok = s.filled_ok;
      free_ok = All-append _ free (seg ∷ []) s.free_ok ((ok, e), tt);
    }

  partial-Sorts :
      (count : ℕ → ℕ) (r : Reclaimed) (seg : Segment)
      → SortsTo before count r
      → IsListed seg
      → SortsTo before (with_segment count seg) (reclaim_partial r seg)
  unfolding reclaim_partial clear_collect_bitmap
  partial-Sorts count r seg s (k, m) =
      let copied = copy_collect_bitmap seg in
      let n = free_count copied 0 in
      elim (same_or_not n copied.layout.num_blocks) [
        | inl (e, b) ↦ rw b (
            let (ok, empty) = unused-IsReclaimed before seg k m e copied.allocptr_snapshot n in
            to_free count r.partial r.filled r.free s seg _ (same_place seg) ok empty)
        | inr (_, b) ↦ rw b (
            to_partial count r.partial r.filled r.free s seg _ (same_place seg)
              (cleared-IsReclaimed before seg k m copied.allocptr_snapshot n))
      ]

  filled-Sorts :
      (count : ℕ → ℕ) (r : Reclaimed) (seg : Segment)
      → SortsTo before count r
      → IsListed seg
      → SortsTo before (with_segment count seg) (reclaim_filled r seg)
  unfolding reclaim_filled clear_collect_bitmap
  filled-Sorts count r seg s (k, m) =
      let copied = copy_collect_bitmap seg in
      let n = free_count copied 0 in
      elim (Bool-cases (ltb seg.allocptr_snapshot (block_limit seg) || n == 0)) [
        | inl b ↦ rw b (
            to_filled count r.partial r.filled r.free s seg _ (same_place seg)
              (cleared-IsReclaimed before seg k m (block_limit seg) n))
        | inr b ↦ elim (same_or_not n copied.layout.num_blocks) [
          | inl (e, c) ↦
              rw (b, c)
                (let (ok, empty) = unused-IsReclaimed before seg k m e (block_base seg) n in
                  to_free count r.partial r.filled r.free s seg _ (same_place seg) ok empty)
          | inr (_, c) ↦
              rw (b, c)
                (to_partial count r.partial r.filled r.free s seg _ (same_place seg)
                  (cleared-IsReclaimed before seg k m (block_base seg) n))
        ]
      ]

  recounted :
      (count count' : ℕ → ℕ) (r : Reclaimed)
      → ((a : ℕ) → count a ≡ count' a)
      → SortsTo before count r
      → SortsTo before count' r
  recounted count count' r h s = record {
    each = λ a. s.each a ∙ h a;
    partial_ok = s.partial_ok;
    filled_ok = s.filled_ok;
    free_ok = s.free_ok;
  }

  -- A loop over a list whose body sorts one segment.
  loop-Sorts :
      (body : Reclaimed → Segment → Reclaimed)
      → ((count : ℕ → ℕ) (r : Reclaimed) (seg : Segment)
          → SortsTo before count r
          → IsListed seg
          → SortsTo before (with_segment count seg) (body r seg))
      → (segs : List Segment) (count : ℕ → ℕ) (r : Reclaimed) → SortsTo before count r
      → All IsListed segs
      → SortsTo before (λ a. count a + occurrences a segs) (foldl body r segs)
  unfolding with_segment
  loop-Sorts body turn [] count r s tt = recounted count _ r (λ a. omega arith) s
  loop-Sorts body turn (seg ∷ segs) count r s (k, ks) =
      recounted _ _ (foldl body (body r seg) segs) (λ a. omega arith)
        (loop-Sorts body turn segs (with_segment count seg) (body r seg) (turn count r seg s k) ks)

  current-Sorts :
      (s : Subheap) (current : Option Segment) (count : ℕ → ℕ) (r : Reclaimed)
      → SortsTo before count r
      → SortsTo before count (with_current s r current).0
  unfolding count_current
  current-Sorts s none count r h = h
  current-Sorts s (some seg) count r h = record {
    each = h.each;
    partial_ok = h.partial_ok;
    filled_ok = h.filled_ok;
    free_ok = h.free_ok;
  }

  current-IsReclaimed :
      (s : Subheap) (current : Option Segment) (r : Reclaimed)
      → All IsListed (listed current)
      → All (IsReclaimed before) (listed (with_current s r current).1)
        × ((a : ℕ)
            → occurrences a (listed (with_current s r current).1) ≡ occurrences a (listed current))
  unfolding reclaim_current
  current-IsReclaimed s none r tt = (tt, λ a. refl)
  current-IsReclaimed s (some seg) r ((k, m), tt) = (
    (cleared-IsReclaimed before seg k m _ _, tt),
    λ a. ap (λ x. at_address a x + 0) (same_place_cleared seg),
  )

  -- `reclaim_subheap` puts each of the partial and of the filled segments in exactly one of the new
  -- lists of partial, filled and free segments, and keeps the segment of the allocation pointer. All
  -- of them are in order afterwards, without marks, and have in use the blocks that were marked; in a
  -- free segment no block is in use.
  pub reclaim_subheap-Sorts :
      (s : Subheap) (free : List Segment)
      → All IsListed s.partial
      → All IsListed s.filled
      → All IsListed (listed s.current)
      → All (λ seg. IsReclaimed before seg × IsEmpty seg) free
      → Sorts before
          (λ a. occurrences a free + occurrences a s.partial + occurrences a s.filled)
          (reclaim_subheap s free).1.partial
          (reclaim_subheap s free).1.filled
          (reclaim_subheap s free).0.free
        × (All (IsReclaimed before) (listed (reclaim_subheap s free).1.current)
            × ((a : ℕ)
                → occurrences a (listed (reclaim_subheap s free).1.current)
                  ≡ occurrences a (listed s.current)))
  unfolding reclaim_subheap
  reclaim_subheap-Sorts s free ps fs cs f =
      let first : SortsTo before (λ a. occurrences a free) (no_segments free) = record {
        each = λ a. omega arith;
        partial_ok = tt;
        filled_ok = tt;
        free_ok = f;
      } in
      let r = foldl reclaim_partial (no_segments free) s.partial in
      let after =
        loop-Sorts reclaim_partial partial-Sorts s.partial (λ a. occurrences a free)
          (no_segments free) first ps in
      (
        loop-Sorts reclaim_filled filled-Sorts s.filled _ _ (current-Sorts s s.current _ r after)
            fs,
        current-IsReclaimed s s.current r cs,
      )
