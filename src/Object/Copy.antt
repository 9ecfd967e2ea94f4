-- ===== src/Object/Copy.antt =====
-- `sml_copyary` (smlsharp/src/runtime/object.c, lines 293 to 309), which copies a part of an array of
-- pointers into another or the same array. A store gives the words of each array; NULL is no array.
-- The write barrier in `sml_write` is the collector's and does not change what the arrays hold.
pub mod Overlap
use smlsharp_completions_gen.Base.{
  lt_or_eq, same_or_not, ℕ, zero, suc, ◌+◌, ◌-◌, ◌%◌, ◌^◌, ◌≤◌, ◌<◌, ◌≡◌, ◌≢◌, ◌⊎◌, inl, inr, ◌==◌,
  leb, ltb, if◌then◌else◌, ◌&&◌, arith, refl, ap, ◌∙◌, sym, Bool, true, false, compare, lt, eq, gt,
}

abbrev pub Store {ℓ} : Type ℓ → Type ℓ
Store A = ℕ → ℕ → A

-- `unsigned int`
abbrev pub u32 : ℕ → ℕ
u32 n = n % 2 ^ 32

-- A word is outside the target of a copy or has a place in it.
target_cases :
    (dst di len b j : ℕ)
    → ((b ≢ dst) ⊎ ((j < di) ⊎ (di + len ≤ j)))
      ⊎ ((b ≡ dst) × ((j ≡ di + (j - di)) × (j - di < len)))
target_cases dst di len b j = ground arith

module _ {ℓ} {A : Type ℓ} where
  -- `sml_write(dst, dst + i, v)`
  unfoldable pub sml_write : ℕ → ℕ → A → Store A → Store A
  sml_write dst i v m a j = if a == dst && j == i then v else m a j

  -- The loop of the first branch.
  unfoldable pub copy_down : ℕ → ℕ → ℕ → ℕ → ℕ → Store A → Store A
  copy_down zero src si dst di m = m
  copy_down (suc len) src si dst di m =
      copy_down len src si dst di (sml_write dst (di + len) (m src (u32 (si + len))) m)

  -- The loop of the second branch.
  unfoldable pub copy_up : ℕ → ℕ → ℕ → ℕ → ℕ → Store A → Store A
  copy_up zero src si dst di m = m
  copy_up (suc len) src si dst di m =
      copy_up len src (u32 (si + 1)) dst (u32 (di + 1)) (sml_write dst di (m src si) m)

  unfoldable pub sml_copyary : ℕ → ℕ → ℕ → ℕ → ℕ → Store A → Store A
  sml_copyary src si dst di len m =
      if src == dst then copy_down len src si dst di m else copy_up len src si dst di m

  -- What the copy is to leave: the words of the source as they were before.
  unfoldable pub moved : ℕ → ℕ → ℕ → ℕ → ℕ → Store A → Store A
  moved src si dst di len m a j =
      if a == dst && (leb di j && ltb j (di + len)) then m src (si + (j - di)) else m a j

  sml_write_same : (a i : ℕ) (v : A) (m : Store A) → sml_write a i v m a i ≡ v
  unfolding sml_write
  sml_write_same a i v m = ground arith

  pub sml_write_other :
      (a i : ℕ) (v : A) (m : Store A) (b j : ℕ) → (b ≢ a) ⊎ (j ≢ i) → sml_write a i v m b j ≡ m b j
  unfolding sml_write
  sml_write_other a i v m b j h = ground arith

  -- No loop changes what lies outside its target.
  pub copy_down_outside :
      (len src a si di : ℕ) (m : Store A) (b j : ℕ)
      → (b ≢ a) ⊎ ((j < di) ⊎ (di + len ≤ j))
      → copy_down len src si a di m b j ≡ m b j
  unfolding copy_down
  copy_down_outside zero src a si di m b j h = refl
  copy_down_outside (suc len) src a si di m b j h =
      copy_down_outside len src a si di _ b j (grind arith)
      ∙ sml_write_other a (di + len) _ m b j (grind arith)

  -- The first turn's word.
  pub copied_last :
      (len a si di : ℕ) (m : Store A) (j : ℕ)
      → j ≡ len
      → si + len < 2 ^ 32
      → sml_write a (di + len) (m a (u32 (si + len))) m a (di + j) ≡ m a (si + j)
  copied_last len a si di m j e w =
      ap (λ i. sml_write a (di + len) (m a (u32 (si + len))) m a (di + i)) e
      ∙ sml_write_same a (di + len) _ m
      ∙ ap (λ i. m a i) (omega arith)

  copy_down_inside :
      (len a si di : ℕ) (m : Store A)
      → si + len < 2 ^ 32
      → (si ≤ di) ⊎ (di + len ≤ si)
      → (j : ℕ) → j < len
      → copy_down len a si a di m a (di + j) ≡ m a (si + j)
  unfolding copy_down
  copy_down_inside zero a si di m w s j h = absurd (omega arith)
  copy_down_inside (suc len) a si di m w s j h = elim (lt_or_eq j len h) [
    | inl k ↦
        copy_down_inside len a si di _ (omega arith) (grind arith) j k
        ∙ sml_write_other a (di + len) _ m a (si + j) (inr (ground arith))
    | inr e ↦
        copy_down_outside len a a si di _ a (di + j) (inr (inr (omega arith)))
        ∙ copied_last len a si di m j e (omega arith)
  ]

  copy_up_outside :
      (len src si a di : ℕ) (m : Store A) (b j : ℕ)
      → di + len < 2 ^ 32
      → (b ≢ a) ⊎ ((j < di) ⊎ (di + len ≤ j))
      → copy_up len src si a di m b j ≡ m b j
  unfolding copy_up
  copy_up_outside zero src si a di m b j w h = refl
  copy_up_outside (suc len) src si a di m b j w h =
      copy_up_outside len src (u32 (si + 1)) a (u32 (di + 1)) _ b j (omega arith) (grind arith)
      ∙ sml_write_other a di _ m b j (grind arith)

  copied_first :
      (si src a di : ℕ) (m : Store A) → sml_write a di (m src si) m a (di + 0) ≡ m src (si + 0)
  copied_first si src a di m =
      ap (λ i. sml_write a di (m src si) m a i) (omega arith)
      ∙ sml_write_same a di _ m
      ∙ ap (λ i. m src i) (omega arith)

  copy_up_inside :
      (len src si a di : ℕ) (m : Store A)
      → src ≢ a
      → si + len < 2 ^ 32
      → di + len < 2 ^ 32
      → (j : ℕ) → j < len
      → copy_up len src si a di m a (di + j) ≡ m src (si + j)
  unfolding copy_up
  copy_up_inside zero src si a di m n w v j h = absurd (omega arith)
  copy_up_inside (suc len) src si a di m n w v zero h =
      copy_up_outside len src (u32 (si + 1)) a (u32 (di + 1)) _ a (di + 0) (omega arith)
        (inr (inl (omega arith)))
      ∙ copied_first si src a di m
  copy_up_inside (suc len) src si a di m n w v (suc j) h =
      ap (λ i. copy_up len src (u32 (si + 1)) a (u32 (di + 1)) (sml_write a di (m src si) m) a i)
        (omega arith)
      ∙ copy_up_inside len src (u32 (si + 1)) a (u32 (di + 1)) _ n (omega arith) (omega arith) j
          (omega arith)
      ∙ sml_write_other a di _ m src (u32 (si + 1) + j) (inl n)
      ∙ ap (λ i. m src i) (omega arith)

  moved_outside :
      (src si dst di len : ℕ) (m : Store A) (b j : ℕ)
      → (b ≢ dst) ⊎ ((j < di) ⊎ (di + len ≤ j))
      → moved src si dst di len m b j ≡ m b j
  unfolding moved
  moved_outside src si dst di len m b j h = ground arith

  moved_inside :
      (src si dst di len : ℕ) (m : Store A) (j : ℕ)
      → j < len
      → moved src si dst di len m dst (di + j) ≡ m src (si + j)
  unfolding moved
  moved_inside src si dst di len m j h =
      ground arith ∙ ap (λ i. m src i) {x = si + (di + j - di)} (omega arith)

  copyary_inside :
      (src si dst di len : ℕ) (m : Store A)
      → si + len < 2 ^ 32
      → di + len < 2 ^ 32
      → (src ≢ dst) ⊎ ((si ≤ di) ⊎ (di + len ≤ si))
      → (j : ℕ) → j < len
      → sml_copyary src si dst di len m dst (di + j) ≡ m src (si + j)
  unfolding sml_copyary
  copyary_inside src si dst di len m w v s j h = elim (same_or_not src dst) [
    | inl (e, test) ↦
        ap
          (λ b.
            (if b then copy_down len src si dst di m else copy_up len src si dst di m) dst (di + j))
          test
        ∙ ap (λ a. copy_down len src si a di m a (di + j)) (sym e)
        ∙ copy_down_inside len src si di m w (grind arith) j h
    | inr (n, test) ↦
        ap
          (λ b.
            (if b then copy_down len src si dst di m else copy_up len src si dst di m) dst (di + j))
          test
        ∙ copy_up_inside len src si dst di m n w v j h
  ]

  pub copyary_outside :
      (src si dst di len : ℕ) (m : Store A) (b j : ℕ)
      → di + len < 2 ^ 32
      → (b ≢ dst) ⊎ ((j < di) ⊎ (di + len ≤ j))
      → sml_copyary src si dst di len m b j ≡ m b j
  unfolding sml_copyary
  copyary_outside src si dst di len m b j v h = ground (
    arith,
    copy_up_outside len src si dst di m b j v h,
    copy_down_outside len src dst si di m b j h,
  )

  -- Copying to another array, to the same place or further on in the same array, or to a part that does not
  -- overlap the source, leaves in the target the words that the source had before, and all other words of all
  -- arrays as they were, provided that neither index goes beyond `unsigned int`.
  pub copyary-moved :
      (src si dst di len : ℕ) (m : Store A)
      → si + len < 2 ^ 32
      → di + len < 2 ^ 32
      → (src ≢ dst) ⊎ ((si ≤ di) ⊎ (di + len ≤ si))
      → (b j : ℕ) → sml_copyary src si dst di len m b j ≡ moved src si dst di len m b j
  copyary-moved src si dst di len m w v s b j = elim (target_cases dst di len b j) [
    | inl out ↦
        copyary_outside src si dst di len m b j v out
        ∙ sym (moved_outside src si dst di len m b j out)
    | inr (e, (i, h)) ↦ at_place e i (
        copyary_inside src si dst di len m w v s (j - di) h
        ∙ sym (moved_inside src si dst di len m (j - di) h))
  ]
    where
      at_place :
          b ≡ dst
          → j ≡ di + (j - di)
          → sml_copyary src si dst di len m dst (di + (j - di))
            ≡ moved src si dst di len m dst (di + (j - di))
          → sml_copyary src si dst di len m b j ≡ moved src si dst di len m b j
      at_place e i h =
          ap (λ c. sml_copyary src si dst di len m c j) e
          ∙ ap (λ k. sml_copyary src si dst di len m dst k) i
          ∙ h
          ∙ sym (ap (λ k. moved src si dst di len m dst k) i)
          ∙ sym (ap (λ c. moved src si dst di len m c j) e)
