-- ===== src/Exception/Numbers.antt =====
-- The numbers in the tables of call sites (smlsharp/src/runtime/exn.c, `read_uleb128` and `read_udata4`)
-- against the encodings that they are read from.
use Prim.Native.Nat.{bit_or, bit_or-bitwise}
use native.Mathlib.Nat.{two-pow-succ}
use native.Mathlib.Numerals.{towards_suc}
use smlsharp_completions_gen.Base.{
  ℕ, zero, suc, ◌+◌, ◌*◌, ◌/◌, ◌%◌, ◌^◌, ◌≤◌, ◌<◌, ◌≡◌, ◌==◌, ltb, refl, ap, ◌∙◌, false,
  if◌then◌else◌, some, List, [], ◌∷◌, ◌++◌, length, subst, arith, inl, inr, less_or_not,
}
use smlsharp_completions_gen.Bitptr.Words.{or_digit}
use smlsharp_completions_gen.Exception.{read_uleb128_loop, read_uleb128, read_udata4}

-- The bytes stand in memory from an address on.
abbrev pub Holds : (ℕ → ℕ) → ℕ → List ℕ → Type 0
Holds byte src [] = Unit
Holds byte src (b ∷ bs) = (byte src ≡ b) × Holds byte (src + 1) bs

-- The encoding of a number in at most the given number of bytes: groups of seven bits, the lowest first,
-- and 128 more in all but the last.
abbrev pub uleb128 : ℕ → ℕ → List ℕ
uleb128 zero n = []
uleb128 (suc k) n = if ltb n 128 then n ∷ [] else (n % 128 + 128) ∷ uleb128 k (n / 128)

-- Ten groups hold a number of 64 bits.
unfoldable pub uleb128_bytes : ℕ → List ℕ
uleb128_bytes n = uleb128 10 n

or_shifted : (s r g : ℕ) → r < 2 ^ s → bit_or r (g * 2 ^ s) ≡ r + g * 2 ^ s
or_shifted zero r g h =
    let e : r ≡ 0 = omega arith in rw e (ap (bit_or 0) (omega arith) ∙ none_or g ∙ omega arith)
  where
    none_or : (a : ℕ) → bit_or 0 a ≡ a
    none_or a = bit_or-bitwise 0 a
or_shifted (suc s) r g h =
    let twice = two-pow-succ s in
    let n : g * 2 ^ suc s ≡ 2 * (g * 2 ^ s) = omega (arith, ap (λ t. g * t) twice) in
    let halves = or_shifted s (r / 2) g (omega (arith, h, twice)) in
    let digit = or_digit r (2 * (g * 2 ^ s)) in
    let half : 2 * (g * 2 ^ s) / 2 ≡ g * 2 ^ s = omega arith in
    let low : 2 * (g * 2 ^ s) % 2 ≡ 0 = omega arith in
    rw n (digit ∙ omega (arith, halves, ap (bit_or (r / 2)) half, low))

shift_seven : (s : ℕ) → 2 ^ (s + 7) ≡ 128 * 2 ^ s
shift_seven s = simp towards_suc (omega arith)

groups_more : (k : ℕ) → 2 ^ (7 * suc k) ≡ 128 * 2 ^ (7 * k)
groups_more k = ap (λ i. 2 ^ i) {x = 7 * suc k} {y = 7 * k + 7} (omega arith) ∙ shift_seven (7 * k)

below_groups : (g x : ℕ) → g < 128 → g * x + x ≤ 128 * x
below_groups g x h = grind (arith, h)

split_number : (n x : ℕ) → n * x ≡ n % 128 * x + n / 128 * (128 * x)
split_number n x =
    let e : n ≡ n % 128 + 128 * (n / 128) = omega arith in ap (λ t. t * x) e ∙ omega arith

-- A group that is taken over, with what has been read.
group_added :
    (result c g shift : ℕ)
    → result < 2 ^ shift
    → c % 128 ≡ g
    → g * 2 ^ shift < 2 ^ 64
    → bit_or result (c % 128 * 2 ^ shift % 2 ^ 64) ≡ result + g * 2 ^ shift
group_added result c g shift small low fits =
    let e : c % 128 * 2 ^ shift % 2 ^ 64 ≡ g * 2 ^ shift = rw low (omega (arith, fits)) in
    rw e (or_shifted shift result g small)

module _ (byte : ℕ → ℕ) where
  last_group :
      (fuel src result shift n : ℕ)
      → n < 128
      → result < 2 ^ shift
      → n * 2 ^ shift < 2 ^ 64
      → byte src ≡ n
      → read_uleb128_loop byte (suc fuel) src result shift ≡ some (result + n * 2 ^ shift, src + 1)
  unfolding read_uleb128_loop
  last_group fuel src result shift n h small fits b =
      let sum = group_added result (byte src) n shift small (omega (arith, b, h)) fits in
      let last : byte src / 128 % 2 ≡ 0 = omega (arith, b, h) in ground (arith, sum, last)

  other_group :
      (fuel src result shift g : ℕ)
      → g < 128
      → result < 2 ^ shift
      → g * 2 ^ shift < 2 ^ 64
      → byte src ≡ g + 128
      → read_uleb128_loop byte (suc fuel) src result shift
        ≡ read_uleb128_loop byte fuel (src + 1) (result + g * 2 ^ shift) (shift + 7)
  unfolding read_uleb128_loop
  other_group fuel src result shift g h small fits b =
      let sum = group_added result (byte src) g shift small (omega (arith, b, h)) fits in
      let more : (byte src / 128 % 2 == 0) ≡ false = ground (arith, b, h) in
      rw (read_uleb128_loop, sum, more) refl

  read_groups :
      (k src result shift n : ℕ)
      → n < 2 ^ (7 * suc k)
      → result < 2 ^ shift
      → n * 2 ^ shift < 2 ^ 64
      → Holds byte src (uleb128 (suc k) n)
      → read_uleb128_loop byte (suc k) src result shift
        ≡ some (result + n * 2 ^ shift, src + length (uleb128 (suc k) n))
  read_groups zero src result shift n h small fits held = elim (less_or_not n 128) [
    | inl (l, b) ↦ rw b (last_group 0 src result shift n l small fits (rw b at held).0)
    | inr (l, b) ↦ absurd (omega arith)
  ]
  read_groups (suc k) src result shift n h small fits held = elim (less_or_not n 128) [
    | inl (l, b) ↦ rw b (last_group (suc k) src result shift n l small fits (rw b at held).0)
    | inr (l, b) ↦
        let (here, rest) = rw b at held in
        let g = n % 128 in
        let q = n / 128 in
        let x = 2 ^ shift in
        let split = split_number n x in
        let lower = below_groups g x (omega arith) in
        let seven = shift_seven shift in
        let same : q * 2 ^ (shift + 7) ≡ q * (128 * x) = ap (λ t. q * t) seven in
        let step =
          other_group (suc k) src result shift g (omega arith) small (omega (arith, split, fits))
            here in
        let after =
          read_groups k (src + 1) (result + g * x) (shift + 7) q
            (omega (arith, h, groups_more (suc k))) (omega (arith, lower, seven, small))
            (omega (arith, split, fits, same)) rest in
        let number : result + g * x + q * 2 ^ (shift + 7) ≡ result + n * x =
          omega (arith, split, same) in
        let end : src + 1 + length (uleb128 (suc k) q) ≡ src + suc (length (uleb128 (suc k) q)) =
          omega arith in
        rw b (step ∙ after ∙ rw (number, end) refl)
  ]

  -- `read_uleb128` reads every number below 2^64 back from its encoding, and goes on to the byte after it.
  pub read_uleb128-uleb128_bytes :
      (src n : ℕ)
      → n < 2 ^ 64
      → Holds byte src (uleb128_bytes n)
      → read_uleb128 byte src ≡ some (n, src + length (uleb128_bytes n))
  unfolding read_uleb128 uleb128_bytes
  read_uleb128-uleb128_bytes src n h held =
      let number : 0 + n * 2 ^ 0 ≡ n = omega arith in
      read_groups 9 src 0 0 n (omega (arith, h)) (omega arith) (omega (arith, h)) held
      ∙ rw number refl

  pub Holds-append :
      (src : ℕ) (xs ys : List ℕ)
      → Holds byte src (xs ++ ys)
      → Holds byte src xs × Holds byte (src + length xs) ys
  Holds-append src [] ys held =
      (tt, subst (λ p. Holds byte p ys) {x = src} {y = src + 0} (omega arith) held)
  Holds-append src (x ∷ xs) ys (b, held) =
      let (first, second) = Holds-append (src + 1) xs ys held in
      (
        (b, first),
        subst (λ p. Holds byte p ys) {x = src + 1 + length xs} {y = src + suc (length xs)}
            (omega arith) second,
      )

-- Four bytes, the lowest first.
abbrev pub udata4 : ℕ → List ℕ
udata4 n = n % 2 ^ 8 ∷ n / 2 ^ 8 % 2 ^ 8 ∷ n / 2 ^ 16 % 2 ^ 8 ∷ n / 2 ^ 24 ∷ []

pub read_udata4-udata4 :
    (byte : ℕ → ℕ) (src n : ℕ) → Holds byte src (udata4 n) → read_udata4 byte src ≡ (n, src + 4)
unfolding read_udata4
read_udata4-udata4 byte src n (a, (b, (c, (d, _)))) =
    let b' : byte (src + 1) ≡ n / 2 ^ 8 % 2 ^ 8 = b in
    let c' : byte (src + 2) ≡ n / 2 ^ 16 % 2 ^ 8 =
      ap byte {x = src + 2} {y = src + 1 + 1} (omega arith) ∙ c in
    let d' : byte (src + 3) ≡ n / 2 ^ 24 =
      ap byte {x = src + 3} {y = src + 1 + 1 + 1} (omega arith) ∙ d in
    let e : byte src + 2 ^ 8 * byte (src + 1) + 2 ^ 16 * byte (src + 2) + 2 ^ 24 * byte (src + 3)
        ≡ n =
      omega (arith, a, b', c', d') in
    ap (λ (m : ℕ). (m, src + 4)) e
