-- ===== src/BitStore/Operators.antt =====
-- include/asx/bitstore.hpp: the operators on two stores, bit by bit.
use native.Mathlib.Nat.{mod-eq_of_lt}
use mathlib.Core.Logic.{◌↔◌}
use asx.Base.{ℕ, ◌%◌, ◌^◌, ◌<◌, ◌≡◌, refl, ap, ◌∙◌, arith, bit_and, bit_or, bit_xor}
use asx.Base.{Bool, true, false, ◌&&◌, ◌||◌, ltb, ==_iff, lt→ltb}
use asx.Base.Digits.{
  xor, test_bit, test_bit-bit_and, test_bit-bit_or, test_bit-bit_xor, test_bit_above, test_bit_ext,
  width_from_bits,
}
use asx.BitStore.{
  BitStore, width, stored, get, bitwise_xor, bitwise_and, bitwise_or, equal, from_value,
}
use asx.BitStore.Get.{IsStored, get_lem}

-- The bits fit the storage.
abbrev pub IsHeld : ℕ → BitStore → Type 0
IsHeld n s = s.bits < 2 ^ width n

module _ (n : ℕ) (s other : BitStore) (held : IsHeld n s) (held' : IsHeld n other) where
  get-stored :
      (m : ℕ) (b : ℕ → Bool)
      → ((i : ℕ) → test_bit m i ≡ b i)
      → ((i : ℕ) → test_bit s.bits i ≡ false → test_bit other.bits i ≡ false → b i ≡ false)
      → (j : ℕ) → get n (stored n m) j ≡ (ltb j n && b j)
  get-stored m b bits none j = get_lem n (stored n m) j ∙ rw (whole, bits j) refl
    where
      fits : m < 2 ^ width n
      fits = width_from_bits (width n) m (λ i le.
          bits i
          ∙ none i (test_bit_above (width n) s.bits i held le)
              (test_bit_above (width n) other.bits i held' le))

      whole : m % 2 ^ width n ≡ m
      whole = mod-eq_of_lt fits

  xor_bits : (j : ℕ) → get n (bitwise_xor n s other) j ≡ xor (get n s j) (get n other j)
  unfolding bitwise_xor from_value
  xor_bits j =
      get-stored (bit_xor s.bits other.bits) (λ i. xor (test_bit s.bits i) (test_bit other.bits i))
        (test_bit-bit_xor s.bits other.bits) (λ i e e'. rw (e, e') refl) j
      ∙ rw (get_lem n s j, get_lem n other j) (ground arith)

  and_bits : (j : ℕ) → get n (bitwise_and n s other) j ≡ (get n s j && get n other j)
  unfolding bitwise_and from_value
  and_bits j =
      get-stored (bit_and s.bits other.bits) (λ i. test_bit s.bits i && test_bit other.bits i)
        (test_bit-bit_and s.bits other.bits) (λ i e e'. rw e refl) j
      ∙ rw (get_lem n s j, get_lem n other j) (ground arith)

  or_bits : (j : ℕ) → get n (bitwise_or n s other) j ≡ (get n s j || get n other j)
  unfolding bitwise_or from_value
  or_bits j =
      get-stored (bit_or s.bits other.bits) (λ i. test_bit s.bits i || test_bit other.bits i)
        (test_bit-bit_or s.bits other.bits) (λ i e e'. rw (e, e') refl) j
      ∙ rw (get_lem n s j, get_lem n other j) (ground arith)

-- The operators `^`, `&` and `|` act on each bit by itself.
pub operators_lem :
    (n : ℕ) (s other : BitStore)
    → IsHeld n s
    → IsHeld n other
    → (j : ℕ)
    → (get n (bitwise_xor n s other) j ≡ xor (get n s j) (get n other j))
      × (get n (bitwise_and n s other) j ≡ (get n s j && get n other j))
      × (get n (bitwise_or n s other) j ≡ (get n s j || get n other j))
operators_lem n s other held held' j = (
  xor_bits n s other held held' j,
  and_bits n s other held held' j,
  or_bits n s other held held' j,
)

-- Two stores with no bit above the `n` are equal exactly if all their bits are.
pub equal_lem :
    (n : ℕ) (s other : BitStore)
    → IsStored n s
    → IsStored n other
    → (equal n s other ≡ true) ↔ ((j : ℕ) → j < n → get n s j ≡ get n other j)
unfolding equal
equal_lem n s other small small' = (
  λ e j lt. ap (λ k. get n (record { bits = k }) j) ((==_iff _ _).0 e),
  λ same. (==_iff _ _).1 (
      test_bit_ext n s.bits other.bits small small' (λ i lt.
        let e = same i lt in ground (arith, e, get_lem n s i, get_lem n other i, lt→ltb i n lt))),
)
