-- ===== src/Reactor/Mask.antt =====
-- src/reactor.c: `reactor_mask_pop`.
use asx.Base.{
  ℕ, zero, suc, ◌-◌, ◌/◌, ◌%◌, ◌^◌, ◌<◌, ◌≡◌, ◌⊎◌, inl, inr, refl, ap, ◌∙◌, arith, true, false, not,
  ◌&&◌, Option, some, none, ltb, ◌==◌, ==_iff, ==_false, lt→ltb, Bool-cases, bit_and,
}
use native.Mathlib.Nat.{pow-suc}
use asx.Base.Bits.{all_below, all_equal}
use asx.Base.Digits.{
  test_bit, test_bit-bit_and, test_bit-pow, test_bit-complement, test_bit_above, width_from_bits,
}
use asx.Reactor.{null_handle, mask_of, trailing_zeros, mask_pop}

-- The last bit that is set, of a number of a width.
zeros_lem :
    (w mask : ℕ)
    → mask < 2 ^ w
    → 0 < mask
    → (trailing_zeros w mask < w)
      × (test_bit mask (trailing_zeros w mask) ≡ true)
      × ((j : ℕ) → j < trailing_zeros w mask → test_bit mask j ≡ false)
unfolding trailing_zeros test_bit
zeros_lem zero mask lt positive = absurd (omega (arith, lt, positive))
zeros_lem (suc w) mask lt positive = elim (Bool-cases (mask % 2 == 1)) [
  | inl odd ↦ rw odd (omega arith, odd, λ j below. absurd (omega (arith, below)))
  | inr even ↦
      let rest =
        zeros_lem w (mask / 2) (omega (arith, lt, pow-suc 2 w)) (ground (arith, even, positive)) in
      rw even (omega (arith, rest), rest.1, λ j below. no_bit j even rest.2 below)
]
  where
    no_bit :
        (j : ℕ)
        → (mask % 2 == 1) ≡ false
        → ((i : ℕ) → i < trailing_zeros w (mask / 2) → test_bit (mask / 2) i ≡ false)
        → j < suc (trailing_zeros w (mask / 2))
        → test_bit mask j ≡ false
    no_bit zero even clear below = even
    no_bit (suc j) even clear below = clear j (omega (arith, below))

-- The mask of a handle is its bit.
abbrev mask_value : Option ℕ → ℕ
mask_value none = 0
mask_value (some mask) = mask

mask_of-value : (h : ℕ) → h < 32 → mask_of h ≡ some (mask_value (mask_of h))
unfolding mask_of
mask_of-value h lt =
    rw (==_false h null_handle (λ q. omega (arith, q, lt)), lt→ltb (h / 8) 4 (omega (arith, lt)))
      refl

mask_of_bit : (h : ℕ) → h < 32 → mask_of h ≡ some (2 ^ h)
unfolding mask_of all_below
mask_of_bit h lt =
    mask_of-value h lt ∙ ap some (all_equal 32 (λ i. mask_value (mask_of i)) (λ i. 2 ^ i) h refl lt)

bit_small : (h : ℕ) → h < 32 → 2 ^ h < 2 ^ 32
bit_small h lt =
    width_from_bits 32 (2 ^ h)
      (λ i le. test_bit-pow h i ∙ ==_false h i (λ q. omega (arith, q, lt, le)))

-- Of a mask of handles, the one with the highest priority is the lowest bit: `reactor_mask_pop` takes
-- it out and leaves the others; the null handle means that there was none.
pub mask_pop_lem :
    (mask : ℕ)
    → mask < 2 ^ 32
    → ((mask ≡ 0) × (mask_pop mask ≡ some (null_handle, 0)))
      ⊎ ((h : ℕ) × (rest : ℕ) × (mask_pop mask ≡ some (h, rest))
          × (h < 32)
          × (test_bit mask h ≡ true)
          × ((j : ℕ) → j < h → test_bit mask j ≡ false)
          × ((j : ℕ) → test_bit rest j ≡ (test_bit mask j && not (h == j))))
unfolding mask_pop
mask_pop_lem mask lt = elim (Bool-cases (mask == 0)) [
  | inl none_set ↦ let e : mask ≡ 0 = (==_iff mask 0).0 none_set in inl (e, rw e refl)
  | inr some_set ↦
      let h = trailing_zeros 32 mask in
      let (in_range, set, below) = zeros_lem 32 mask lt (ground (arith, some_set)) in
      inr (
        h,
        bit_and mask (2 ^ 32 - 1 - 2 ^ h),
        rw (some_set, mask_of_bit h in_range) refl,
        in_range,
        set,
        below,
        λ j. test_bit-bit_and mask (2 ^ 32 - 1 - 2 ^ h) j ∙ others h j in_range,
      )
]
  where
    others :
        (h j : ℕ)
        → h < 32
        → (test_bit mask j && test_bit (2 ^ 32 - 1 - 2 ^ h) j) ≡ (test_bit mask j && not (h == j))
    others h j in_range =
        rw (test_bit-complement 32 (2 ^ h) j (bit_small h in_range), test_bit-pow h j)
          (above j (Bool-cases (ltb j 32)))
      where
        above :
            (j : ℕ)
            → (ltb j 32 ≡ true) ⊎ (ltb j 32 ≡ false)
            → (test_bit mask j && (ltb j 32 && not (h == j))) ≡ (test_bit mask j && not (h == j))
        above j (inl small) = rw small refl
        above j (inr big) = rw (big, test_bit_above 32 mask j lt (ground (arith, big))) refl
