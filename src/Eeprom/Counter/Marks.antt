-- ===== src/Eeprom/Counter/Marks.antt =====
-- src/eeprom.cpp: the masks that are written into the bytes of a bank.
use asx.Base.{ℕ, zero, suc, ◌+◌, ◌<◌, ◌≡◌, refl, ◌∙◌, ◌⊎◌, inl, inr, arith, bit_and}
use asx.Base.{==_true, ==_false, subst}
use native.Mathlib.Decide.{dec_lt}
use asx.Base.Bits.{all_below, all_equal}
use mathlib.Core.Logic.{◌≢◌}
use asx.Eeprom.Counter.{bits_mask, bytes_in_bank}
use asx.Eeprom.Counter.{update}
use asx.Eeprom.Counter.Holds.{Clears, Marked}

pub update_same {ℓ} : {A : Type ℓ} (f : ℕ → A) (i : ℕ) (v : A) → update f i v i ≡ v
update_same f i v = rw (==_true i i refl) refl

pub update_other {ℓ} : {A : Type ℓ} (f : ℕ → A) (i j : ℕ) (v : A) → i ≢ j → update f i v j ≡ f j
update_other f i j v differ = rw (==_false i j differ) refl

-- A mask that is written over the mask in front of it.
mask_over : (b : ℕ) → b < 7 → bit_and (bits_mask b) (bits_mask (b + 1)) ≡ bits_mask (b + 1)
unfolding all_below
mask_over b lt =
    all_equal 7 (λ i. bit_and (bits_mask i) (bits_mask (i + 1))) (λ i. bits_mask (i + 1)) b refl lt

mask_over_erased : (b : ℕ) → b < 7 → bit_and 0xff (bits_mask (b + 1)) ≡ bits_mask (b + 1)
unfolding all_below
mask_over_erased b lt =
    all_equal 7 (λ i. bit_and 0xff (bits_mask (i + 1))) (λ i. bits_mask (i + 1)) b refl lt

module _ (program : ℕ → ℕ → ℕ) (clears : Clears program) (f : ℕ → ℕ) where
  -- The next bit of the byte.
  pub next_bit :
      (k b : ℕ)
      → b < 7
      → Marked f k b
      → Marked (update f k (program (f k) (bits_mask (b + 1)))) k (b + 1)
  next_bit k b lt m = record {
    bytes_below =
        λ j below. update_other f k j _ (λ e. omega (arith, e, below)) ∙ m.bytes_below j below;
    byte_at = inl (update_same f k _ ∙ (clears (f k) (bits_mask (b + 1)) ∙ written m.byte_at));
    bytes_above = λ j above small.
        update_other f k j _ (λ e. omega (arith, e, above)) ∙ m.bytes_above j above small;
  }
    where
      written :
          (f k ≡ bits_mask b) ⊎ ((b ≡ 0) × (f k ≡ 0xff))
          → bit_and (f k) (bits_mask (b + 1)) ≡ bits_mask (b + 1)
      written (inl e) = rw e (mask_over b lt)
      written (inr (z, e)) = rw e (mask_over_erased b lt)

  -- The first bit of the next byte.
  pub next_byte :
      (k : ℕ)
      → k + 1 < bytes_in_bank
      → Marked f k 7
      → Marked (update f (k + 1) (program (f (k + 1)) (bits_mask 0))) (k + 1) 0
  next_byte k lt m = record {
    bytes_below =
        λ j below. update_other f (k + 1) j _ (λ e. omega (arith, e, below)) ∙ cleared j below;
    byte_at = inl (
        update_same f (k + 1) _
        ∙ (clears (f (k + 1)) (bits_mask 0) ∙ rw (m.bytes_above (k + 1) (omega arith) lt) refl));
    bytes_above = λ j above small.
        update_other f (k + 1) j _ (λ e. omega (arith, e, above))
        ∙ m.bytes_above j (omega (arith, above)) small;
  }
    where
      last : (f k ≡ bits_mask 7) ⊎ ((suc 6 ≡ zero) × (f k ≡ 0xff)) → f k ≡ 0
      last (inl e) = e
      last (inr (z, e)) = absurd (omega (arith, z))

      cleared : (j : ℕ) → j < k + 1 → f j ≡ 0
      cleared j below = elim (dec_lt j k) [
        | yes lt ↦ m.bytes_below j lt
        | no ge ↦ subst (λ i. f i ≡ 0) (omega (arith, ge, below)) (last m.byte_at)
      ]
