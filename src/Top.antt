-- ===== src/Top.antt =====
-- The tables of the safe points of the loaded programs (smlsharp/src/runtime/top.c, lines 66 to 266):
-- how they are filled, listed and searched.
--
-- Sizes and indices are of type `size_t` and count what is in memory, so that they do not reach
-- 2^64; addresses do wrap. The list of the tables is a list: the atomic operations by which several
-- threads may extend it at the same time are taken as done one after the other.
pub mod Search
pub mod Tables
mod Tests
use smlsharp_completions_gen.Base.{
  ℕ, zero, suc, ◌+◌, ◌-◌, ◌*◌, ◌/◌, ◌%◌, ◌^◌, ◌==◌, ltb, if◌then◌else◌, Option, none, some, List,
  [], ◌∷◌, ◌++◌, map, length,
}
use smlsharp_completions_gen.Splay.Memory.{ceiling}

-- `layout` is the address of the frame layout; `none` is NULL.
pub record SafePoint : Type 0 where
  pub addr : ℕ
  pub layout : Option ℕ

pub record Gcroot : Type 0 where
  pub num_points : ℕ
  pub num_tops : ℕ
  pub allocsize : ℕ
  pub item : ℕ → SafePoint

-- `sizeof(struct sml_gcroot)`, `sizeof(struct safe_point)`
abbrev pub sizeof_gcroot : ℕ
sizeof_gcroot = 32

abbrev pub sizeof_safe_point : ℕ
sizeof_safe_point = 16

unfoldable pub page_size : ℕ
page_size = ceiling sizeof_gcroot 4096

-- `REST_SAFE_POINTS`
unfoldable pub rest_safe_points : Gcroot → ℕ
rest_safe_points g = (g.allocsize - sizeof_gcroot) / sizeof_safe_point - (g.num_points + g.num_tops)

-- `memory` is what the new block of memory holds.
unfoldable pub new_gcroot : (ℕ → SafePoint) → Gcroot
new_gcroot memory = record { num_points = 0; num_tops = 0; allocsize = page_size; item = memory }

-- The branch that makes the table larger.
unfoldable pub enlarge : ℕ → Gcroot → Gcroot
enlarge inc g = record g {
  allocsize =
      ceiling (sizeof_gcroot + (g.num_points + g.num_tops + inc) * sizeof_safe_point) page_size;
}

unfoldable pub alloc_safe_points : ℕ → Gcroot → Gcroot
alloc_safe_points inc g =
    let g' = if ltb (rest_safe_points g) inc then enlarge inc g else g in
    record g' { num_points = g'.num_points + inc }

-- A frame layout (smlsharp/src/runtime/smlsharp.h, lines 333 to 338) at its address, with the offsets of the
-- safe points that follow it. The size of the frame and the roots are not looked at here.
pub record FrameLayout : Type 0 where
  pub address : ℕ
  pub safe_points : List ℕ

-- The first loop of `sml_gcroot`. A frame table is the list of the layouts before the one without
-- safe points that ends it.
unfoldable pub num_safe_points : List FrameLayout → ℕ
num_safe_points [] = 0
num_safe_points (t ∷ ts) = length t.safe_points + num_safe_points ts

-- `dst->... = ...; dst++`
abbrev pub put : ℕ → SafePoint → (ℕ → SafePoint) → ℕ → SafePoint
put dst s item i = if i == dst then s else item i

-- The inner and the outer one of the loops that fill the table, with where `dst` is in the end.
unfoldable pub put_points : ℕ → ℕ → List ℕ → ℕ → (ℕ → SafePoint) → (ℕ → SafePoint) × ℕ
put_points smltabb t [] dst item = (item, dst)
put_points smltabb t (offset ∷ offsets) dst item =
    put_points smltabb t offsets (dst + 1)
      (put dst (record { addr = (smltabb + offset) % 2 ^ 64; layout = some t }) item)

unfoldable pub put_layouts : ℕ → List FrameLayout → ℕ → (ℕ → SafePoint) → (ℕ → SafePoint) × ℕ
put_layouts smltabb [] dst item = (item, dst)
put_layouts smltabb (t ∷ ts) dst item =
    let (item', dst') = put_points smltabb t.address t.safe_points dst item in
    put_layouts smltabb ts dst' item'

-- `if (smlroot)`, at the end.
abbrev pub put_top : Option ℕ → (ℕ → SafePoint) × ℕ → Gcroot → Gcroot × ℕ
put_top none (item, dst) g = (record g { item = item }, dst)
put_top (some tops) (item, dst) g = (
  record g {
    item = put dst (record { addr = tops; layout = none }) item;
    num_tops = g.num_tops + 1;
    num_points = g.num_points - 1;
  },
  dst + 1,
)

abbrev pub one_top : Option ℕ → ℕ
one_top none = 0
one_top (some tops) = 1

-- `sml_gcroot`, with where `dst` is in the end. A table of NULL is one without layouts.
unfoldable pub sml_gcroot : ℕ → List FrameLayout → Option ℕ → Gcroot → Gcroot × ℕ
sml_gcroot smltabb ftab root g =
    let g' = alloc_safe_points (num_safe_points ftab + one_top root) g in
    put_top root (put_layouts smltabb ftab (g.num_points + g.num_tops) g'.item) g'

-- `register_gcroot`, on the list that `gcroot_list` starts.
unfoldable pub register_gcroot {ℓ} : {A : Type ℓ} → List A → A → List A
register_gcroot [] g = g ∷ []
register_gcroot (first ∷ rest) g = first ∷ g ∷ rest

-- `sml_gcroot_unload`
unfoldable pub sml_gcroot_unload : Gcroot → Gcroot
sml_gcroot_unload g = record g { num_points = 0; num_tops = 0 }

-- The loop of `binary_search`; the outer `none` is that the fuel runs out, the inner one is NULL.
unfoldable pub search_loop : ℕ → ℕ → (ℕ → SafePoint) → ℕ → ℕ → Option (Option ℕ)
search_loop zero key begin l r = none
search_loop (suc fuel) key begin l r =
    let c = (l + r) / 2 in
    let addr = (begin c).addr in
    let right = search_loop fuel key begin (c + 1) r in
    let left = search_loop fuel key begin l c in
    if ltb l r
    then (if addr == key then some (some c) else if ltb addr key then right else left)
    else some none

-- There is at most one turn for each element, and the last test.
unfoldable pub binary_search : ℕ → (ℕ → SafePoint) → ℕ → Option (Option ℕ)
binary_search key begin len = search_loop (len + 1) key begin 0 len

-- `sml_lookup_frametable` over the list of the tables; `none` is `sml_fatal`. The result is the
-- layout of the safe point.
abbrev pub found_in : Gcroot → Option (Option ℕ) → Option (Option ℕ) → Option (Option ℕ)
found_in g none rest = none
found_in g (some none) rest = rest
found_in g (some (some i)) rest = some (g.item i).layout

unfoldable pub sml_lookup_frametable : ℕ → List Gcroot → Option (Option ℕ)
sml_lookup_frametable retaddr [] = none
sml_lookup_frametable retaddr (p ∷ ps) =
    found_in p (binary_search retaddr p.item p.num_points) (sml_lookup_frametable retaddr ps)
