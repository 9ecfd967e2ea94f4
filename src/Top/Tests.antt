-- ===== src/Top/Tests.antt =====
-- Runs of the models of the safe point tables.
use smlsharp_completions_gen.Base.{
  ℕ, ◌+◌, ◌*◌, ◌≡◌, Option, none, some, List, [], ◌∷◌, arith, refl, inl,
}
use smlsharp_completions_gen.Top.{
  SafePoint, Gcroot, FrameLayout, binary_search, search_loop, sml_lookup_frametable,
}
use smlsharp_completions_gen.Top.Search.{
  IsSorted, IsTable, Finds, binary_search-Finds, lookup_frametable-Listed,
}
use smlsharp_completions_gen.Top.Tables.{IsStored, IsExtended, sml_gcroot-IsExtended}

-- Safe points at 100, 102, 104 and so on, whose layout is at 7.
abbrev evens : ℕ → SafePoint
evens i = record { addr = 100 + 2 * i; layout = some 7 }

evens-IsSorted : IsSorted evens 5
evens-IsSorted i j h k = omega arith

binary_search-Finds_example :
    (o : Option ℕ) × ((binary_search 106 evens 5 ≡ some o) × Finds 106 evens 0 5 o)
binary_search-Finds_example = binary_search-Finds 106 evens 5 evens-IsSorted

found : binary_search 106 evens 5 ≡ some (some 3)
unfolding binary_search search_loop
found = refl

not_found : binary_search 107 evens 5 ≡ some none
unfolding binary_search search_loop
not_found = refl

abbrev table : Gcroot
table = record { num_points = 5; num_tops = 0; allocsize = 4096; item = evens }

table-IsTable : IsTable 106 (some 7) table
table-IsTable = (evens-IsSorted, λ i h e. refl)

lookup_frametable-Listed_example : sml_lookup_frametable 106 (table ∷ []) ≡ some (some 7)
lookup_frametable-Listed_example =
    lookup_frametable-Listed 106 (some 7) (table ∷ []) (table-IsTable, tt)
      (inl (3, (omega arith, (refl, refl))))

abbrev layouts : List FrameLayout
layouts =
    record { address = 7; safe_points = 8 ∷ 24 ∷ [] }
    ∷ record { address = 9; safe_points = 40 ∷ [] }
    ∷ []

table-IsStored : IsStored table
table-IsStored = omega arith

sml_gcroot-IsExtended_example : IsExtended 1000 layouts (some 5) table
sml_gcroot-IsExtended_example = sml_gcroot-IsExtended 1000 layouts (some 5) table table-IsStored

abbrev later : List ℕ
later = 2 ∷ 3 ∷ 4 ∷ []
