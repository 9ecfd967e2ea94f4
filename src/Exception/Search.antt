-- ===== src/Exception/Search.antt =====
-- `search_lpad` (smlsharp/src/runtime/exn.c) finds the landing pad of the call site of an address.
use mathlib.Core.List.{Memᴰ}
use mathlib.Core.List.Memᴰ
use smlsharp_completions_gen.Base.{
  ℕ, suc, ◌+◌, ◌-◌, ◌%◌, ◌^◌, ◌≤◌, ◌<◌, ◌≡◌, ◌≢◌, ◌==◌, ◌&&◌, not, refl, ◌∙◌, subst, true, false,
  Option, none, some, List, [], ◌∷◌, ◌++◌, length, length-append, arith, inl, inr,
}
use smlsharp_completions_gen.Base.Predicates.{All}
use smlsharp_completions_gen.Exception.{
  LandingPad, CallSite, Context, pad_of, skip_types, search_sites, search_lpad,
}
use smlsharp_completions_gen.Exception.Numbers.{
  Holds, uleb128_bytes, read_uleb128-uleb128_bytes, Holds-append,
}
use smlsharp_completions_gen.Exception.Table.{
  number_bytes, site_bytes, table_bytes, IsSite, IsEncoding, site_for, search_loop-table_bytes,
}
use smlsharp_completions_gen.Exception.Sites.{Covers, Follow, site_for-Covers, site_for-none}
use smlsharp_completions_gen.Exception.Pads.{IsPadOf, pad_of-IsPadOf}

-- Whether there is a type table, with its format and its offset.
abbrev pub type_bytes : Option (ℕ × ℕ) → List ℕ
type_bytes none = 255 ∷ []
type_bytes (some (format, offset)) = format ∷ uleb128_bytes offset

abbrev pub IsTypes : Option (ℕ × ℕ) → Type 0
IsTypes none = Unit
IsTypes (some (format, offset)) = (format ≢ 255) × (offset < 2 ^ 64)

-- The language-specific data up to the table of actions.
abbrev pub lsda_bytes : Option (ℕ × ℕ) → ℕ → List CallSite → List ℕ
lsda_bytes types encoding sites =
    255
    ∷ (type_bytes types
        ++ (encoding
            ∷ (uleb128_bytes (length (table_bytes encoding sites)) ++ table_bytes encoding sites)))

pub record IsTable (byte : ℕ → ℕ) (context : Context) (types : Option (ℕ × ℕ)) (encoding : ℕ)
    (sites : List CallSite) : Type 0 where
  pub lsda_not_null : context.lsda ≢ 0
  pub held : Holds byte context.lsda (lsda_bytes types encoding sites)
  pub typed : IsTypes types
  pub encoded : IsEncoding encoding
  pub fits : All IsSite sites
  pub table_lt : length (table_bytes encoding sites) < 2 ^ 64
  pub follow : Follow context.region_start sites
  pub ip_positive : context.ip ≢ 0
  pub ip_lt : context.ip < 2 ^ 64

length-table_bytes :
    (encoding : ℕ) (sites : List CallSite) → length sites ≤ length (table_bytes encoding sites)
length-table_bytes encoding [] = omega arith
length-table_bytes encoding (site ∷ sites) =
    let bytes = number_bytes encoding in
    omega (
      arith,
      length-table_bytes encoding sites,
      length-append (site_bytes encoding site) (table_bytes encoding sites),
      length-append (bytes site.start) (bytes site.len ++ (bytes site.lpad ++ site.action ∷ [])),
      length-append (bytes site.len) (bytes site.lpad ++ site.action ∷ []),
      length-append (bytes site.lpad) (site.action ∷ []),
    )

-- The last byte of the language-specific data that `lsda_bytes` has, and one more.
abbrev pub action_table : Context → Option (ℕ × ℕ) → ℕ → List CallSite → ℕ
action_table context types encoding sites = context.lsda + length (lsda_bytes types encoding sites)

skip_types-type_bytes :
    (byte : ℕ → ℕ) (src : ℕ) (types : Option (ℕ × ℕ))
    → IsTypes types
    → Holds byte src (type_bytes types)
    → skip_types byte src ≡ some (src + length (type_bytes types))
unfolding skip_types
skip_types-type_bytes byte src none t (b, _) =
    let omitted : (byte src == 255) ≡ true = ground (arith, b) in rw (skip_types, omitted) refl
skip_types-type_bytes byte src (some (format, offset)) (given, small) (b, held) =
    let here : (byte src == 255) ≡ false = ground (arith, b, given) in
    let end : src + 1 + length (uleb128_bytes offset) ≡ src + suc (length (uleb128_bytes offset)) =
      omega arith in
    rw (skip_types, here, read_uleb128-uleb128_bytes byte (src + 1) offset small held, end) refl

is_encoding :
    (encoding : ℕ) → IsEncoding encoding → (not (encoding == 3) && not (encoding == 1)) ≡ false
is_encoding encoding (inl e) = rw e refl
is_encoding encoding (inr e) = rw e refl

search_sites-table :
    (byte : ℕ → ℕ) (context : Context) (encoding src : ℕ) (sites : List CallSite)
    → IsEncoding encoding
    → All IsSite sites
    → length (table_bytes encoding sites) < 2 ^ 64
    → sites ≢ []
    → Holds byte src
        (uleb128_bytes (length (table_bytes encoding sites)) ++ table_bytes encoding sites)
    → search_sites byte encoding context src
      ≡ site_for byte context.region_start
          (src
            + length
                (uleb128_bytes (length (table_bytes encoding sites)) ++ table_bytes encoding sites))
          ((context.ip + 2 ^ 64 - 1) % 2 ^ 64)
          sites
unfolding search_sites
search_sites-table byte context encoding src [] v fits small some_site held =
    absurd (some_site refl)
search_sites-table byte context encoding src (site ∷ sites) v fits small some_site held =
    let tablen = length (table_bytes encoding (site ∷ sites)) in
    let (number, table) =
      Holds-append byte src (uleb128_bytes tablen) (table_bytes encoding (site ∷ sites)) held in
    let enough = length-table_bytes encoding (site ∷ sites) in
    let some_bytes : (tablen == 0) ≡ false = ground (arith, enough) in
    let end : src + length (uleb128_bytes tablen) + tablen
        ≡ src + length (uleb128_bytes tablen ++ table_bytes encoding (site ∷ sites)) =
      omega (arith, length-append (uleb128_bytes tablen) (table_bytes encoding (site ∷ sites))) in
    rw
      (
        search_sites,
        is_encoding encoding v,
        read_uleb128-uleb128_bytes byte src tablen small number,
        some_bytes,
        end,
      )
      (search_loop-table_bytes byte (suc tablen) encoding context.region_start
        (src + length (uleb128_bytes tablen ++ table_bytes encoding (site ∷ sites)))
        ((context.ip + 2 ^ 64 - 1) % 2 ^ 64) (src + length (uleb128_bytes tablen)) (site ∷ sites) v
        fits table end (omega (arith, enough)))

search_lpad-table :
    (byte : ℕ → ℕ) (context : Context) (types : Option (ℕ × ℕ)) (encoding : ℕ)
    (sites : List CallSite)
    → IsTable byte context types encoding sites
    → sites ≢ []
    → search_lpad byte context
      ≡ site_for byte context.region_start
          (action_table context types encoding sites)
          (context.ip - 1)
          sites
unfolding search_lpad
search_lpad-table byte context types encoding sites t some_site =
    let (first, held) = t.held in
    let table = uleb128_bytes (length (table_bytes encoding sites)) ++ table_bytes encoding sites in
    let (typed, (format, rest)) =
      Holds-append byte (context.lsda + 1) (type_bytes types) (encoding ∷ table) held in
    let src = context.lsda + 1 + length (type_bytes types) in
    let there : (context.lsda == 0) ≡ false = ground (arith, t.lsda_not_null) in
    let begins : (byte context.lsda == 255) ≡ true = ground (arith, first) in
    let end : src + 1 + length table ≡ action_table context types encoding sites =
      omega (arith, length-append (type_bytes types) (encoding ∷ table)) in
    let address : (context.ip + 2 ^ 64 - 1) % 2 ^ 64 ≡ context.ip - 1 =
      omega (arith, t.ip_positive, t.ip_lt) in
    rw
      (
        search_lpad,
        there,
        begins,
        skip_types-type_bytes byte (context.lsda + 1) types t.typed typed,
        format,
      )
      (search_sites-table byte context encoding (src + 1) sites t.encoded t.fits t.table_lt
          some_site rest
        ∙ rw (end, address) refl)

not_empty : (site : CallSite) (sites : List CallSite) → Memᴰ site sites → sites ≢ []
not_empty site sites k e = Memᴰ.not-nil (subst (Memᴰ site) e k)

pub search_lpad-pad_of :
    (byte : ℕ → ℕ) (context : Context) (types : Option (ℕ × ℕ)) (encoding : ℕ)
    (sites : List CallSite) (site : CallSite)
    → IsTable byte context types encoding sites
    → Memᴰ site sites
    → Covers context.region_start (context.ip - 1) site
    → search_lpad byte context
      ≡ some (pad_of byte context.region_start (action_table context types encoding sites) site)
search_lpad-pad_of byte context types encoding sites site t k c =
    search_lpad-table byte context types encoding sites t (not_empty site sites k)
    ∙ site_for-Covers byte context.region_start (action_table context types encoding sites)
        (context.ip - 1) sites site t.fits t.follow k c

-- If the language-specific data of a frame is the encoding of a list of call sites that stand in order
-- and do not overlap, in either of the two encodings, with a type table or without, `search_lpad`
-- returns the landing pad of the call site that covers the byte before the return address: none, where
-- that has 0 for it; or else its address, with CLEANUP, CATCH or both, by the table of actions.
pub search_lpad-Covers :
    (byte : ℕ → ℕ) (context : Context) (types : Option (ℕ × ℕ)) (encoding : ℕ)
    (sites : List CallSite) (site : CallSite)
    → IsTable byte context types encoding sites
    → Memᴰ site sites
    → Covers context.region_start (context.ip - 1) site
    → (pad : LandingPad) × ((search_lpad byte context ≡ some pad)
        × IsPadOf byte context.region_start (action_table context types encoding sites) site pad)
search_lpad-Covers byte context types encoding sites site t k c =
    let actions = action_table context types encoding sites in
    (
      pad_of byte context.region_start actions site,
      (
        search_lpad-pad_of byte context types encoding sites site t k c,
        pad_of-IsPadOf byte context.region_start actions site,
      ),
    )

-- If the language-specific data of a frame is the encoding of a list of call sites that stand in order
-- and do not overlap, and there are call sites but none covers the byte before the return address, the
-- result is a handler, CATCH, at NULL, which is to terminate the program.
pub search_lpad-none :
    (byte : ℕ → ℕ) (context : Context) (types : Option (ℕ × ℕ)) (encoding : ℕ)
    (sites : List CallSite)
    → IsTable byte context types encoding sites
    → sites ≢ []
    → All (λ (site : CallSite). Covers context.region_start (context.ip - 1) site → ⊥) sites
    → search_lpad byte context ≡ some (record { type = 1; addr = 0 })
search_lpad-none byte context types encoding sites t some_site none_covers =
    search_lpad-table byte context types encoding sites t some_site
    ∙ site_for-none byte context.region_start (action_table context types encoding sites)
        (context.ip - 1) sites t.fits t.follow none_covers
