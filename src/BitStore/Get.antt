-- ===== src/BitStore/Get.antt =====
-- include/asx/bitstore.hpp: what each member does to the bits, seen through `get`.
use asx.Base.{
  ℕ, zero, suc, ◌*◌, ◌/◌, ◌%◌, ◌^◌, ◌<◌, ◌≤◌, ◌≡◌, refl, sym, ap, ◌∙◌, arith, inl, inr, bit_and,
  bit_or, bit_xor,
}
use asx.Base.{
  Bool, true, false, not, ◌&&◌, Option, some, ltb, ◌==◌, ==_iff, if◌then◌else◌, lt→ltb, Bool-cases,
}
use asx.Base.Digits.{
  low_bit, test_bit, test_bit-bit_and, test_bit-bit_or, test_bit-bit_xor, test_bit-pow,
  test_bit_above, width_from_bits, test_bit-complement,
}
use native.Mathlib.Decide.{dec_lt}
use native.Mathlib.Nat.{mod-eq_of_lt, one-le-pow, pow-le-pow_right, pow-suc, div-div-eq-div-mul}
use asx.BitStore.{BitStore, width, stored, set, get, reset, toggle, one_shifted, invert}

-- The bits above the `n` are not used.
abbrev pub IsStored : ℕ → BitStore → Type 0
IsStored n s = s.bits < 2 ^ n

shifted_bit : (p b : ℕ) → test_bit (b / 2 ^ p) 0 ≡ test_bit b p
unfolding test_bit
shifted_bit zero b = let e : b / 1 ≡ b = omega arith in rw e refl
shifted_bit (suc p) b =
    let e : b / 2 ^ suc p ≡ b / 2 / 2 ^ p =
      ap (λ d. b / d) {x = 2 ^ suc p} {y = 2 * 2 ^ p} (omega (arith, pow-suc 2 p))
      ∙ sym (div-div-eq-div-mul b 2 (2 ^ p)) in
    rw e (shifted_bit p (b / 2))

pub get_lem : (n : ℕ) (s : BitStore) (pos : ℕ) → get n s pos ≡ (ltb pos n && test_bit s.bits pos)
unfolding get
get_lem n s pos = elim (Bool-cases (ltb pos n)) [
  | inl e ↦ rw e (low_bit (s.bits / 2 ^ pos) ∙ shifted_bit pos s.bits)
  | inr e ↦ rw e refl
]

pub pow_fits : (n m : ℕ) → n ≤ 16 → m < 2 ^ n → m < 2 ^ width n
pow_fits n m wide fits =
    let le : n ≤ width n = ground arith in
    omega (arith, fits, pow-le-pow_right {n = 2} (omega arith) le)

-- `set`, `reset` and `toggle` give bit `pos` the value `b`, and leave the others.
abbrev pub Updates : ℕ → BitStore → ℕ → Bool → Option BitStore → Type 0
Updates n s pos b result =
    (after : BitStore) × (result ≡ some after)
    × IsStored n after
    × ((j : ℕ) → get n after j ≡ (if pos == j then b else get n s j))

module _ (n pos : ℕ) (wide : n ≤ 16) (in_range : pos < n) (s : BitStore)
    (small : IsStored n s) where
  -- A number with the bits wanted is stored as it is.
  updates :
      (m : ℕ) (b : Bool) (result : Option BitStore)
      → result ≡ some (stored n m)
      → ((i : ℕ) → test_bit m i ≡ (if pos == i then b else test_bit s.bits i))
      → Updates n s pos b result
  updates m b result runs bits = (
    record { bits = m },
    runs ∙ ap (λ k. some (record { bits = k })) whole,
    fits,
    λ j. rw (get_lem, get_lem, bits j) (pick j (test_bit s.bits j)),
  )
    where
      above :
          (i : ℕ)
          → n ≤ i
          → test_bit s.bits i ≡ false
          → (if pos == i then b else test_bit s.bits i) ≡ false
      above i le e = ground (arith, e, in_range)

      fits : m < 2 ^ n
      fits = width_from_bits n m λ i le. bits i ∙ above i le (test_bit_above n s.bits i small le)

      whole : m % 2 ^ width n ≡ m
      whole = mod-eq_of_lt (pow_fits n m wide fits)

      pick :
          (j : ℕ) (t : Bool)
          → (ltb j n && (if pos == j then b else t)) ≡ (if pos == j then b else (ltb j n && t))
      pick j t = ground (arith, in_range)

  raised_bits :
      (i : ℕ)
      → test_bit (bit_or s.bits (2 ^ pos)) i ≡ (if pos == i then true else test_bit s.bits i)
  raised_bits i = rw (test_bit-bit_or, test_bit-pow) (ground arith)

  toggled_bits :
      (i : ℕ)
      → test_bit (bit_xor s.bits (2 ^ pos)) i
        ≡ (if pos == i then not (test_bit s.bits pos) else test_bit s.bits i)
  toggled_bits i =
      rw (test_bit-bit_xor, test_bit-pow)
        (elim (Bool-cases (pos == i)) [
          | inl e ↦ rw (e, (==_iff pos i).0 e) (ground arith)
          | inr e ↦ rw e (ground arith)
        ])

  in_unsigned : 2 ^ pos < 2 ^ 16
  in_unsigned =
      let le : suc pos ≤ 16 = omega arith in
      omega (arith, pow-suc 2 pos, pow-le-pow_right {n = 2} (omega arith) le, one-le-pow pos 2)

  cleared_bits :
      (i : ℕ)
      → test_bit (bit_and s.bits (invert (2 ^ pos))) i
        ≡ (if pos == i then false else test_bit s.bits i)
  cleared_bits i =
      rw (test_bit-bit_and, test_bit-complement 16 (2 ^ pos) i in_unsigned, test_bit-pow)
        (elim (dec_lt i 16) [
          | yes lt ↦ ground arith
          | no ge ↦ rw (test_bit_above n s.bits i small (omega arith)) (ground arith)
        ])

  shifts : one_shifted pos ≡ some (2 ^ pos)
  shifts = rw (lt→ltb pos 16 (omega arith)) refl

  set-Updates : (value : Bool) → Updates n s pos value (set n s pos value)
  unfolding set
  set-Updates true =
      updates (bit_or s.bits (2 ^ pos)) true _
        (rw (lt→ltb pos n in_range, lt→ltb pos 16 (omega arith)) refl) raised_bits
  set-Updates false =
      updates (bit_and s.bits (invert (2 ^ pos))) false _
        (rw (lt→ltb pos n in_range, lt→ltb pos 16 (omega arith)) refl) cleared_bits

  reset-Updates : Updates n s pos false (reset n s pos)
  unfolding reset
  reset-Updates =
      updates (bit_and s.bits (invert (2 ^ pos))) false _
        (rw (lt→ltb pos n in_range, lt→ltb pos 16 (omega arith)) refl) cleared_bits

  toggle-Updates : Updates n s pos (not (get n s pos)) (toggle n s pos)
  unfolding toggle
  toggle-Updates =
      let here : get n s pos ≡ test_bit s.bits pos =
        get_lem n s pos ∙ rw (lt→ltb pos n in_range) refl in
      rw here (
        updates (bit_xor s.bits (2 ^ pos)) (not (test_bit s.bits pos)) _
          (rw (lt→ltb pos n in_range, lt→ltb pos 16 (omega arith)) refl) toggled_bits)

-- In a store of at most 16 bits, `set`, `reset` and `toggle` of a position in range give that bit its
-- new value, and leave every other bit as it was.
pub set-reset-toggle :
    (n pos : ℕ) (s : BitStore) (value : Bool)
    → n ≤ 16
    → pos < n
    → IsStored n s
    → Updates n s pos value (set n s pos value)
      × Updates n s pos false (reset n s pos)
      × Updates n s pos (not (get n s pos)) (toggle n s pos)
set-reset-toggle n pos s value wide in_range small = (
  set-Updates n pos wide in_range s small value,
  reset-Updates n pos wide in_range s small,
  toggle-Updates n pos wide in_range s small,
)
