-- ===== src/Splay/Memory.antt =====
-- The node memory of smlsharp/src/runtime/splay.c, lines 28 to 79, with pointers of 8 bytes: the
-- layout of a node behind its item, and the chunks that nodes are cut from.
--
-- A list of chunks is the list of their `foot.free - begin`, `*chunk` first; a chunk is named by the
-- number of chunks behind it. `xmalloc` gives a new chunk or stops the program.
pub mod Blocks
use smlsharp_completions_gen.Base.{
  ℕ, suc, ◌+◌, ◌-◌, ◌*◌, ◌/◌, ◌%◌, ◌≤◌, ◌<◌, ◌≡◌, ◌≢◌, ◌⊎◌, refl, ltb, leb, ◌==◌, if◌then◌else◌,
  Bool, true, false, Option, none, some, List, [], ◌∷◌, length, arith,
}
use native.Mathlib.Nat.{div-add-mod, mod-lt}
use smlsharp_completions_gen.Base.Predicates.{All, All-imp}

-- `CEILING(x, y)` of smlsharp.h
unfoldable pub ceiling : ℕ → ℕ → ℕ
ceiling x y = (x + y - 1) - (x + y - 1) % y

-- `NODE_ALIGN`, `sizeof(struct node)`
abbrev pub node_align : ℕ
node_align = 8

abbrev sizeof_struct_node : ℕ
sizeof_struct_node = 24

-- `NODE_OFFSET`, `NODE_SIZE`, `SIZEOF_NODE`
unfoldable pub node_offset : ℕ → ℕ
node_offset item_size = ceiling item_size node_align

unfoldable pub node_size : ℕ → ℕ
node_size item_size = node_offset item_size + sizeof_struct_node

unfoldable pub sizeof_node : ℕ → ℕ
sizeof_node item_size = ceiling (node_size item_size) item_size

-- `CHUNK_SIZE`
abbrev pub chunk_size : ℕ
chunk_size = (4096 / 16 - 1) * 16

pub record Block : Type 0 where
  pub chunk : ℕ
  pub offset : ℕ

-- `CHUNK_REST`
abbrev chunk_rest : ℕ → ℕ
chunk_rest free = chunk_size - free

-- The body of `chunk_alloc`.
abbrev pub chunk_cut : ℕ → List ℕ → List ℕ × Block
chunk_cut len [] = (len ∷ [], record { chunk = 0; offset = 0 })
chunk_cut len (free ∷ rest) =
    if ltb (chunk_rest free) len
    then (len ∷ free ∷ rest, record { chunk = length rest + 1; offset = 0 })
    else ((free + len) ∷ rest, record { chunk = length rest; offset = free })

-- `chunk_alloc`; `none` is its failed `assert`.
unfoldable pub chunk_alloc : List ℕ → ℕ → Option (List ℕ × Block)
chunk_alloc chunks len = if ltb len chunk_size then some (chunk_cut len chunks) else none

pub ceiling_multiple : (x y : ℕ) → 0 < y → ceiling x y ≡ y * ((x + y - 1) / y)
unfolding ceiling
ceiling_multiple x y h = grind (arith, div-add-mod (x + y - 1) y)

pub ceiling_bounds : (x y : ℕ) → 0 < y → (x ≤ ceiling x y) × (ceiling x y < x + y)
unfolding ceiling
ceiling_bounds x y h = grind (arith, mod-lt (x + y - 1) h)

aligned : (n q m : ℕ) → (n * (8 * q * m) + 8 * q) % 8 ≡ 0
aligned n q m = omega arith

-- Where the size of an item is a multiple of the alignment, as it is for both trees of the runtime, a
-- block has room for the item and the node behind it, and the node is aligned in every block.
pub sizeof_node_aligned :
    (q n : ℕ)
    → 0 < q
    → (8 * q + sizeof_struct_node ≤ sizeof_node (8 * q))
      × ((n * sizeof_node (8 * q) + node_offset (8 * q)) % node_align ≡ 0)
unfolding sizeof_node node_size node_offset
sizeof_node_aligned q n h =
    let offset : ceiling (8 * q) 8 ≡ 8 * q =
      omega
        (arith, ceiling_multiple (8 * q) 8 (omega arith), ceiling_bounds (8 * q) 8 (omega arith)) in
    let x = ceiling (8 * q) 8 + 24 in
    let m : ℕ = (x + 8 * q - 1) / (8 * q) in
    let multiple : ceiling x (8 * q) ≡ 8 * q * m = ceiling_multiple x (8 * q) (omega arith) in
    (
      omega (arith, offset, ceiling_bounds x (8 * q) (omega arith)),
      rw (multiple, offset) (aligned n q _),
    )
