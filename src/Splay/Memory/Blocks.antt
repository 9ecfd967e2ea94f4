-- ===== src/Splay/Memory/Blocks.antt =====
-- Blocks from `chunk_alloc` (smlsharp/src/runtime/splay.c, lines 64 to 79) never overlap.
use smlsharp_completions_gen.Base.{
  ℕ, ◌+◌, ◌-◌, ◌≤◌, ◌<◌, ◌≡◌, ◌≢◌, ◌⊎◌, inl, inr, ltb, ◌==◌, if◌then◌else◌, Bool-cases, ap, ltb→lt,
  lt→ltb, some, List, [], ◌∷◌, length, arith,
}
use mathlib.Core.Option.{some-injective, none-ne-some}
use smlsharp_completions_gen.Base.Predicates.{All, All-imp}
use smlsharp_completions_gen.Splay.Memory.{Block, chunk_size, chunk_cut, chunk_alloc}

-- `foot.free - begin` of the chunk with the given number.
abbrev pub free_of : ℕ → List ℕ → ℕ
free_of i [] = 0
free_of i (free ∷ rest) = if i == length rest then free else free_of i rest

pub chunk_alloc_lem :
    (chunks : List ℕ) (len : ℕ)
    → len < chunk_size
    → chunk_alloc chunks len ≡ some (chunk_cut len chunks)
unfolding chunk_alloc
chunk_alloc_lem chunks len h = rw (lt→ltb len chunk_size h)

module _ (len : ℕ) where
  -- The block ends before the free part of its chunk.
  abbrev pub IsCut : List ℕ → Block → Type 0
  IsCut chunks b = (b.chunk < length chunks) × (b.offset + len ≤ free_of b.chunk chunks)

  abbrev pub Apart : Block → Block → Type 0
  Apart a b = (a.chunk ≢ b.chunk) ⊎ ((a.offset + len ≤ b.offset) ⊎ (b.offset + len ≤ a.offset))

  abbrev pub AllApart : List Block → Type 0
  AllApart [] = Unit
  AllApart (b ∷ blocks) = All (λ a. Apart a b) blocks × AllApart blocks

  -- The chunks, and the blocks that have been cut from them.
  pub record IsCarved (chunks : List ℕ) (blocks : List Block) : Type 0 where
    pub within : All (λ free. free ≤ chunk_size) chunks
    pub cut : All (IsCut chunks) blocks
    pub apart : AllApart blocks

  IsCut-grows : (chunks : List ℕ) (b : Block) → IsCut chunks b → IsCut (chunk_cut len chunks).0 b
  IsCut-grows [] b h = absurd (omega arith)
  IsCut-grows (free ∷ rest) b h = ground arith

  cut-Apart : (chunks : List ℕ) (b : Block) → IsCut chunks b → Apart b (chunk_cut len chunks).1
  cut-Apart [] b h = absurd (omega arith)
  cut-Apart (free ∷ rest) b h = elim (Bool-cases (ltb (chunk_size - free) len)) [
    | inl e ↦ rw e (inl (omega arith))
    | inr e ↦ rw e (elim (Bool-cases (b.chunk == length rest)) [
      | inl q ↦ inr (inl (ground arith))
      | inr q ↦ inl (ground arith)
    ])
  ]

  new_within :
      (chunks : List ℕ)
      → len < chunk_size
      → All (λ free. free ≤ chunk_size) chunks
      → All (λ free. free ≤ chunk_size) (chunk_cut len chunks).0
  new_within [] h a = (omega arith, tt)
  new_within (free ∷ rest) h a = ground arith

  new-IsCut : (chunks : List ℕ) → IsCut (chunk_cut len chunks).0 (chunk_cut len chunks).1
  new-IsCut [] = (omega arith, omega arith)
  new-IsCut (free ∷ rest) = ground arith

  new_fits :
      (chunks : List ℕ)
      → len < chunk_size
      → All (λ free. free ≤ chunk_size) chunks
      → (chunk_cut len chunks).1.offset + len ≤ chunk_size
  new_fits [] h a = omega arith
  new_fits (free ∷ rest) h a = ground arith

  -- A block that `chunk_alloc` returns lies in its chunk, apart from every block that it returned
  -- before, and those stay as they are.
  pub chunk_alloc-IsCarved :
      (chunks : List ℕ) (blocks : List Block) {chunks' : List ℕ} {b : Block}
      → IsCarved chunks blocks
      → chunk_alloc chunks len ≡ some (chunks', b)
      → IsCarved chunks' (b ∷ blocks) × (b.offset + len ≤ chunk_size)
  unfolding chunk_alloc
  chunk_alloc-IsCarved chunks blocks {chunks'} {b} h e = elim (Bool-cases (ltb len chunk_size)) [
    | inl small ↦
        let cut : chunk_cut len chunks ≡ (chunks', b) = some-injective _ _ (rw small at e) in
        rw (← ap (λ (p : List ℕ × Block). p.0) cut, ← ap (λ (p : List ℕ × Block). p.1) cut)
          (
            record {
              within = new_within chunks (ltb→lt _ _ small) h.within;
              cut = (new-IsCut chunks, All-imp (IsCut-grows chunks) blocks h.cut);
              apart = (All-imp (cut-Apart chunks) blocks h.cut, h.apart);
            },
            new_fits chunks (ltb→lt _ _ small) h.within,
          )
    | inr big ↦ absurd (none-ne-some _ (rw big at e))
  ]
