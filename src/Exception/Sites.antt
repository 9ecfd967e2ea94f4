-- ===== src/Exception/Sites.antt =====
-- The turns of the loop of `search_lpad` (smlsharp/src/runtime/exn.c) on the list of the call sites, by where
-- the address is.
use mathlib.Core.List.{Memᴰ}
use mathlib.Core.List.Memᴰ
use smlsharp_completions_gen.Base.{
  ℕ, ◌+◌, ◌%◌, ◌^◌, ◌≤◌, ◌<◌, ◌≡◌, ltb, leb, refl, sym, ◌∙◌, subst, true, false, Option, some, List,
  [], ◌∷◌, arith, inl, inr, less_or_not,
}
use smlsharp_completions_gen.Base.Predicates.{All}
use smlsharp_completions_gen.Exception.{LandingPad, CallSite, not_found, pad_of, site_turn}
use smlsharp_completions_gen.Exception.Table.{IsSite, site_for}

-- The call site is that of the address, in a function that begins at `lpstart`.
abbrev pub Covers : ℕ → ℕ → CallSite → Type 0
Covers lpstart ip site = (lpstart + site.start ≤ ip) × (ip < lpstart + site.start + site.len)

-- The call sites do not overlap, stand in order, and are in the address space.
abbrev pub Follow : ℕ → List CallSite → Type 0
Follow lpstart [] = Unit
Follow lpstart (site ∷ sites) =
    (lpstart + site.start + site.len < 2 ^ 64)
    × (All (λ (other : CallSite). site.start + site.len ≤ other.start) sites × Follow lpstart sites)

All-Memᴰ :
    (P : CallSite → Type 0) (sites : List CallSite) (site : CallSite)
    → All P sites
    → Memᴰ site sites
    → P site
All-Memᴰ P [] site a k = absurd (Memᴰ.not-nil k)
All-Memᴰ P (x ∷ xs) site (p, a) k = elim (Memᴰ.cases_cons k) [
  | inl e ↦ subst P (sym e) p
  | inr l ↦ All-Memᴰ P xs site a l
]

module _ (byte : ℕ → ℕ) (lpstart actiontab ip : ℕ) where
  covered_turn :
      (site : CallSite) (rest : Option LandingPad)
      → site.action < 128
      → lpstart + site.start + site.len < 2 ^ 64
      → Covers lpstart ip site
      → site_turn byte lpstart actiontab ip site rest ≡ some (pad_of byte lpstart actiontab site)
  covered_turn site rest small fits (from, to) =
      let a : leb 128 site.action ≡ false = ground (arith, small) in
      let b : ltb ip ((site.start + lpstart) % 2 ^ 64) ≡ false = ground (arith, from, fits) in
      let c : ltb ip (((site.start + lpstart) % 2 ^ 64 + site.len) % 2 ^ 64) ≡ true =
        ground (arith, to, fits) in
      rw (a, b, c) refl

  later_turn :
      (site : CallSite) (rest : Option LandingPad)
      → site.action < 128
      → lpstart + site.start + site.len < 2 ^ 64
      → lpstart + site.start + site.len ≤ ip
      → site_turn byte lpstart actiontab ip site rest ≡ rest
  later_turn site rest small fits after =
      let a : leb 128 site.action ≡ false = ground (arith, small) in
      let b : ltb ip ((site.start + lpstart) % 2 ^ 64) ≡ false = ground (arith, after, fits) in
      let c : ltb ip (((site.start + lpstart) % 2 ^ 64 + site.len) % 2 ^ 64) ≡ false =
        ground (arith, after, fits) in
      rw (a, b, c) refl

  earlier_turn :
      (site : CallSite) (rest : Option LandingPad)
      → site.action < 128
      → lpstart + site.start + site.len < 2 ^ 64
      → ip < lpstart + site.start
      → site_turn byte lpstart actiontab ip site rest ≡ some not_found
  earlier_turn site rest small fits before =
      let a : leb 128 site.action ≡ false = ground (arith, small) in
      let b : ltb ip ((site.start + lpstart) % 2 ^ 64) ≡ true = ground (arith, before, fits) in
      rw (a, b) refl

  pub site_for-Covers :
      (sites : List CallSite) (site : CallSite)
      → All IsSite sites
      → Follow lpstart sites
      → Memᴰ site sites
      → Covers lpstart ip site
      → site_for byte lpstart actiontab ip sites ≡ some (pad_of byte lpstart actiontab site)
  site_for-Covers [] site a f k c = absurd (Memᴰ.not-nil k)
  site_for-Covers (x ∷ xs) site (a, later) (inside, (apart, f)) k c = elim (Memᴰ.cases_cons k) [
    | inl e ↦ rw e (covered_turn x _ a.action_lt inside (subst (Covers lpstart ip) e c))
    | inr l ↦
        let behind =
          All-Memᴰ (λ (other : CallSite). x.start + x.len ≤ other.start) xs site apart l in
        later_turn x _ a.action_lt inside (omega (arith, behind, c.0))
        ∙ site_for-Covers xs site later f l c
  ]

  pub site_for-none :
      (sites : List CallSite)
      → All IsSite sites
      → Follow lpstart sites
      → All (λ (site : CallSite). Covers lpstart ip site → ⊥) sites
      → site_for byte lpstart actiontab ip sites ≡ some not_found
  site_for-none [] a f n = refl
  site_for-none (x ∷ xs) (a, later) (inside, (apart, f)) (n, ns) =
      elim (less_or_not ip (lpstart + x.start)) [
        | inl (less, _) ↦ earlier_turn x _ a.action_lt inside less
        | inr (from, _) ↦ elim (less_or_not ip (lpstart + x.start + x.len)) [
          | inl (less, _) ↦ absurd (n (from, less))
          | inr (after, _) ↦ later_turn x _ a.action_lt inside after ∙ site_for-none xs later f ns
        ]
      ]
