-- ===== src/BitStore/Wide.antt =====
-- include/asx/bitstore.hpp: stores of more than 16 bits, where the mask is too narrow.
use native.Mathlib.Decide.{dec_lt}
use asx.Base.{◌⊎◌, inl, inr, ℕ, ◌%◌, ◌^◌, ◌<◌, ◌≤◌, ◌≡◌, refl, ◌∙◌, arith, bit_and}
use asx.Base.{Bool, false, ◌&&◌, none, some, lt→ltb, le→ltb}
use asx.Base.Digits.{test_bit, test_bit-bit_and, test_bit_above, width_from_bits}
use native.Mathlib.Nat.{mod-eq_of_lt, pow-le-pow_right}
use asx.BitStore.{BitStore, width, stored, set, get, reset, toggle, invert}
use asx.BitStore.Get.{get_lem}

wide_enough : (n m : ℕ) → 16 < n → m < 2 ^ 16 → m < 2 ^ width n
wide_enough n m wide narrow =
    let le : 16 ≤ width n = ground arith in
    omega (arith, narrow, pow-le-pow_right {n = 2} (omega arith) le)

-- In a store of more than 16 bits the upper half cannot be written: a position from 16 on is a shift
-- that C++ leaves undefined, and to reset a position of the lower half clears the upper half too.
pub reset_wide :
    (n pos : ℕ) (s : BitStore) (value : Bool)
    → 16 < n
    → n ≤ 32
    → pos < n
    → ((16 ≤ pos) × (set n s pos value ≡ none) × (reset n s pos ≡ none) × (toggle n s pos ≡ none))
      ⊎ ((pos < 16)
          × ((after : BitStore) × (reset n s pos ≡ some after)
              × ((j : ℕ) → 16 ≤ j → get n after j ≡ false)))
unfolding set reset toggle
reset_wide n pos s value wide limit in_range = elim (dec_lt pos 16) [
  | no upper ↦
      let ge = le→ltb pos 16 (omega arith) in
      let lt = lt→ltb pos n in_range in
      inl (omega arith, rw (lt, ge) refl, rw (lt, ge) refl, rw (lt, ge) refl)
  | yes lower ↦
      let m : ℕ = bit_and s.bits (invert (2 ^ pos)) in
      let narrow : m < 2 ^ 16 = width_from_bits 16 m (λ i le.
        test_bit-bit_and s.bits (invert (2 ^ pos)) i
        ∙ off (test_bit s.bits i) (test_bit_above 16 (invert (2 ^ pos)) i (omega arith) le)) in
      let whole : m % 2 ^ width n ≡ m = mod-eq_of_lt (wide_enough n m wide narrow) in
      inr (
        lower,
        (
          stored n m,
          rw (lt→ltb pos n in_range, lt→ltb pos 16 lower) refl,
          λ j le.
              get_lem n (stored n m) j ∙ rw (whole, test_bit_above 16 m j narrow le) (ground arith),
        ),
      )
]
  where
    off : (a : Bool) {b : Bool} → b ≡ false → (a && b) ≡ false
    off a e = ground (arith, e)
