-- ===== src/Exception/Table.antt =====
-- The table of call sites (smlsharp/src/runtime/exn.c, `search_lpad`) against the list of call sites that
-- it is the encoding of.
use smlsharp_completions_gen.Base.{
  ℕ, zero, suc, ◌+◌, ◌^◌, ◌<◌, ◌≡◌, ◌⊎◌, ◌==◌, leb, refl, ap, true, false, if◌then◌else◌, Option,
  some, List, [], ◌∷◌, ◌++◌, length, length-append, arith, inl, inr,
}
use smlsharp_completions_gen.Base.Predicates.{All}
use smlsharp_completions_gen.Exception.{
  LandingPad, CallSite, not_found, read_uleb128_site, read_udata4_site, read_site, site_turn,
  search_loop,
}
use smlsharp_completions_gen.Exception.Numbers.{
  Holds, uleb128_bytes, udata4, read_uleb128-uleb128_bytes, read_udata4-udata4, Holds-append,
}

-- The bytes of a call site, in each encoding.
abbrev pub number_bytes : ℕ → ℕ → List ℕ
number_bytes encoding n = if encoding == 1 then uleb128_bytes n else udata4 n

abbrev pub site_bytes : ℕ → CallSite → List ℕ
site_bytes encoding site =
    number_bytes encoding site.start
    ++ (number_bytes encoding site.len ++ (number_bytes encoding site.lpad ++ site.action ∷ []))

abbrev pub table_bytes : ℕ → List CallSite → List ℕ
table_bytes encoding [] = []
table_bytes encoding (site ∷ sites) = site_bytes encoding site ++ table_bytes encoding sites

pub record IsSite (site : CallSite) : Type 0 where
  pub start_lt : site.start < 2 ^ 64
  pub len_lt : site.len < 2 ^ 64
  pub lpad_lt : site.lpad < 2 ^ 64
  pub action_lt : site.action < 128

-- DW_EH_PE_uleb128 and DW_EH_PE_udata4.
abbrev pub IsEncoding : ℕ → Type 0
IsEncoding encoding = (encoding ≡ 1) ⊎ (encoding ≡ 3)

module _ (byte : ℕ → ℕ) where
  -- The three numbers and the action, at the addresses where they stand.
  record Placed (bytes : ℕ → List ℕ) (src : ℕ) (site : CallSite) : Type 0 where
    at_start : Holds byte src (bytes site.start)
    at_len : Holds byte (src + length (bytes site.start)) (bytes site.len)
    at_lpad :
        Holds byte (src + length (bytes site.start) + length (bytes site.len)) (bytes site.lpad)
    at_action :
        byte (src + length (bytes site.start) + length (bytes site.len) + length (bytes site.lpad))
        ≡ site.action

  placed :
      (bytes : ℕ → List ℕ) (src : ℕ) (site : CallSite)
      → Holds byte src
          (bytes site.start ++ (bytes site.len ++ (bytes site.lpad ++ site.action ∷ [])))
      → Placed bytes src site
  placed bytes src site held =
      let (a, r) = Holds-append byte src (bytes site.start) _ held in
      let (b, r2) = Holds-append byte (src + length (bytes site.start)) (bytes site.len) _ r in
      let (c, d) =
        Holds-append byte (src + length (bytes site.start) + length (bytes site.len))
          (bytes site.lpad) _ r2 in
      record { at_start = a; at_len = b; at_lpad = c; at_action = d.0 }

  length-site :
      (bytes : ℕ → List ℕ) (src : ℕ) (site : CallSite)
      → src + length (bytes site.start) + length (bytes site.len) + length (bytes site.lpad) + 1
        ≡ src
          + length (bytes site.start ++ (bytes site.len ++ (bytes site.lpad ++ site.action ∷ [])))
  length-site bytes src site = omega (
    arith,
    length-append (bytes site.start) (bytes site.len ++ (bytes site.lpad ++ site.action ∷ [])),
    length-append (bytes site.len) (bytes site.lpad ++ site.action ∷ []),
    length-append (bytes site.lpad) (site.action ∷ []),
  )

  uleb128_site :
      (src : ℕ) (site : CallSite)
      → IsSite site
      → Holds byte src (site_bytes 1 site)
      → read_uleb128_site byte src ≡ some (site, src + length (site_bytes 1 site))
  uleb128_site src site fits held =
      let p = placed (uleb128_bytes) src site held in
      rw (read_uleb128-uleb128_bytes byte src site.start fits.start_lt p.at_start) (
        rw (read_uleb128-uleb128_bytes byte _ site.len fits.len_lt p.at_len) (
          rw (read_uleb128-uleb128_bytes byte _ site.lpad fits.lpad_lt p.at_lpad)
            (rw (p.at_action, length-site (uleb128_bytes) src site) refl)))

  udata4_site :
      (src : ℕ) (site : CallSite)
      → Holds byte src (site_bytes 3 site)
      → read_udata4_site byte src ≡ (site, src + length (site_bytes 3 site))
  udata4_site src site held =
      let p = placed udata4 src site held in
      rw (read_udata4-udata4 byte src site.start p.at_start) (
        rw (read_udata4-udata4 byte _ site.len p.at_len) (
          rw (read_udata4-udata4 byte _ site.lpad p.at_lpad)
            (rw (p.at_action, length-site udata4 src site) refl)))

  read_site-site_bytes :
      (encoding src : ℕ) (site : CallSite)
      → IsEncoding encoding
      → IsSite site
      → Holds byte src (site_bytes encoding site)
      → read_site byte encoding src ≡ some (site, src + length (site_bytes encoding site))
  unfolding read_site
  read_site-site_bytes encoding src site (inl e) fits held =
      rw e (uleb128_site src site fits (rw e at held))
  read_site-site_bytes encoding src site (inr e) fits held =
      rw e (ap (λ (p : CallSite × ℕ). some p) (udata4_site src site (rw e at held)))

  -- What the loop finds in the list of the call sites.
  abbrev pub site_for : ℕ → ℕ → ℕ → List CallSite → Option LandingPad
  site_for lpstart actiontab ip [] = some not_found
  site_for lpstart actiontab ip (site ∷ sites) =
      site_turn byte lpstart actiontab ip site (site_for lpstart actiontab ip sites)

  -- The loop reads the call sites one after the other until it finds the place of the address.
  pub search_loop-table_bytes :
      (fuel encoding lpstart actiontab ip src : ℕ) (sites : List CallSite)
      → IsEncoding encoding
      → All IsSite sites
      → Holds byte src (table_bytes encoding sites)
      → src + length (table_bytes encoding sites) ≡ actiontab
      → length sites < fuel
      → search_loop byte fuel encoding lpstart actiontab ip src
        ≡ site_for lpstart actiontab ip sites
  unfolding search_loop
  search_loop-table_bytes zero encoding lpstart actiontab ip src sites v fits held at_end enough =
      absurd (omega arith)
  search_loop-table_bytes (suc fuel) encoding lpstart actiontab ip src [] v fits held at_end
        enough =
      let past : leb actiontab src ≡ true = ground (arith, at_end) in rw (search_loop, past) refl
  search_loop-table_bytes (suc fuel) encoding lpstart actiontab ip src (site ∷ sites) v (fit, fits)
        held at_end enough =
      let (first, others) =
        Holds-append byte src (site_bytes encoding site) (table_bytes encoding sites) held in
      let size = length-append (site_bytes encoding site) (table_bytes encoding sites) in
      let longer = length-site (number_bytes encoding) src site in
      let before : leb actiontab src ≡ false = ground (arith, at_end, size, longer) in
      let rest =
        search_loop-table_bytes fuel encoding lpstart actiontab ip
          (src + length (site_bytes encoding site)) sites v fits others
          (omega (arith, at_end, size)) (omega arith) in
      rw (search_loop, before, read_site-site_bytes encoding src site v fit first)
        (ap (site_turn byte lpstart actiontab ip site) rest)
