-- ===== src/Mark/Barrier.antt =====
-- The write barrier (smlsharp/src/runtime/heap_concurrent.c, lines 1164 to 1173 and 1681 to 1692).
use mathlib.Core.List.{Memᴰ}
use smlsharp_completions_gen.Base.{
  ℕ, ◌≡◌, leb, true, if◌then◌else◌, inl, inr, Bool-cases, List, [], ◌∷◌,
}
use smlsharp_completions_gen.Pool.{SyncPhase, sync1, sync2, phase_number}
use smlsharp_completions_gen.Mark.{Heap, Marks, visit, link, push}
use smlsharp_completions_gen.Mark.Visit.{is_target}
use smlsharp_completions_gen.Mark.Stack.{Linked, IsArena, IsGrey, Pushed, pushes-Pushed}

-- `remember`, with the remembered set, which is linked through the slots of its objects.
unfoldable pub remember : Heap → Marks × ℕ → ℕ → Marks × ℕ
remember h (m, set) obj =
    let (slot, m') = visit h obj m in if slot then (link h obj set m', obj) else (m', set)

unfoldable pub barrier : Heap → SyncPhase → ℕ → ℕ → Marks × ℕ → Marks × ℕ
barrier h phase old_value new_value s =
    if leb (phase_number sync1) (phase_number phase)
    then (let s' =
          if leb (phase_number phase) (phase_number sync2) then remember h s new_value else s in
        remember h s' old_value)
    else s

-- What a write has to tell the collector.
abbrev pub told : SyncPhase → ℕ → ℕ → List ℕ
told phase old_value new_value =
    if leb (phase_number sync1) (phase_number phase)
    then (if leb (phase_number phase) (phase_number sync2)
        then new_value ∷ (old_value ∷ [])
        else old_value ∷ [])
    else []

module _ (h : Heap) (objects : List ℕ) (arena : IsArena h objects) where
  -- From SYNC1 on the barrier leaves the value that is overwritten alive, and up to SYNC2 the new
  -- value, too. Those that were not marked are marked then and in the remembered set, which is a
  -- list of marked objects as before; no other object is added, and none loses its mark.
  pub barrier-Pushed :
      (phase : SyncPhase) (old_value new_value : ℕ) (m : Marks) (set : ℕ) (xs : List ℕ)
      → Linked m set xs
      → IsGrey h objects arena m xs
      → ((y : ℕ) → Memᴰ y (told phase old_value new_value) → is_target h y ≡ true → Memᴰ y objects)
      → (xs' : List ℕ) × Pushed h objects
          (told phase old_value new_value)
          m
          xs
          (barrier h phase old_value new_value (m, set)).0
          (barrier h phase old_value new_value (m, set)).1
          xs'
  unfolding barrier remember push
  barrier-Pushed phase old_value new_value m set xs l g =
      elim (Bool-cases (leb (phase_number sync1) (phase_number phase))) [
        | inr b ↦ rw b (λ o. pushes-Pushed h objects arena [] m set xs o l g)
        | inl b ↦ elim (Bool-cases (leb (phase_number phase) (phase_number sync2))) [
          | inl c ↦
              rw (b, c)
                (λ o. pushes-Pushed h objects arena (new_value ∷ (old_value ∷ [])) m set xs o l g)
          | inr c ↦ rw (b, c) (λ o. pushes-Pushed h objects arena (old_value ∷ []) m set xs o l g)
        ]
      ]
