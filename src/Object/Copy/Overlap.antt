-- ===== src/Object/Copy/Overlap.antt =====
-- `sml_copyary` (smlsharp/src/runtime/object.c, lines 293 to 309) where source and target overlap and
-- the target comes first. The loop runs from the end, so it reads what it has written.
use smlsharp_completions_gen.Base.{
  ℕ, zero, suc, ◌+◌, ◌-◌, ◌^◌, ◌<◌, ◌≡◌, inl, inr, arith, ap, ◌∙◌, sym, lt_or_eq,
}
use smlsharp_completions_gen.Object.Copy.{
  Store, copy_down, sml_copyary, sml_write_other, copy_down_outside, copied_last, copyary_outside,
}

module _ {ℓ} {A : Type ℓ} where
  copy_down_repeats :
      (len a si di : ℕ) (m : Store A)
      → si + len < 2 ^ 32
      → di < si
      → (j : ℕ) → j < len
      → copy_down len a si a di m a (di + j) ≡ copy_down len a si a di m a (si + j)
  unfolding copy_down
  copy_down_repeats zero a si di m w d j h = absurd (omega arith)
  copy_down_repeats (suc len) a si di m w d j h = elim (lt_or_eq j len h) [
    | inl k ↦ copy_down_repeats len a si di _ (omega arith) d j k
    | inr e ↦
        copy_down_outside len a a si di _ a (di + j) (inr (inr (omega arith)))
        ∙ copied_last len a si di m j e (omega arith)
        ∙ sym (sml_write_other a (di + len) _ m a (si + j) (inr (omega arith)))
        ∙ sym (copy_down_outside len a a si di _ a (si + j) (inr (inr (omega arith))))
  ]

  -- Where `sml_copyary` copies to a place nearer to the front of the same array, each word of the
  -- target is in the end equal to the word that stands as far behind it as the source does. The
  -- indices must stay within `unsigned int`.
  pub copyary-repeats :
      (a si di len : ℕ) (m : Store A)
      → si + len < 2 ^ 32
      → di < si
      → (j : ℕ) → j < len
      → sml_copyary a si a di len m a (di + j) ≡ sml_copyary a si a di len m a (si + j)
  unfolding sml_copyary
  copyary-repeats a si di len m w d j h = ground (arith, copy_down_repeats len a si di m w d j h)

  fills :
      (k a di len : ℕ) (m : Store A)
      → di + len + 1 < 2 ^ 32
      → k < len
      → sml_copyary a (di + 1) a di len m a (di + (len - 1 - k)) ≡ m a (di + len)
  fills zero a di len m w h =
      copyary-repeats a (di + 1) di len m (omega arith) (omega arith) (len - 1 - 0) (omega arith)
      ∙ copyary_outside a (di + 1) a di len m a (di + 1 + (len - 1 - 0)) (omega arith)
          (inr (inr (omega arith)))
      ∙ ap (λ i. m a i) (omega arith)
  fills (suc k) a di len m w h =
      copyary-repeats a (di + 1) di len m (omega arith) (omega arith) (len - 1 - suc k)
        (omega arith)
      ∙ ap (λ i. sml_copyary a (di + 1) a di len m a i) {x = di + 1 + (len - 1 - suc k)}
          (omega arith)
      ∙ fills k a di len m w (omega arith)

  -- Where `sml_copyary` copies a part of an array one place nearer to the front of the same array,
  -- every word of the target becomes the last word of the source. The indices must stay within
  -- `unsigned int`.
  pub copyary_back_one :
      (a di len : ℕ) (m : Store A)
      → di + len + 1 < 2 ^ 32
      → (j : ℕ) → j < len
      → sml_copyary a (di + 1) a di len m a (di + j) ≡ m a (di + len)
  copyary_back_one a di len m w j h =
      ap (λ i. sml_copyary a (di + 1) a di len m a i) (omega arith)
      ∙ fills (len - 1 - j) a di len m w (omega arith)
