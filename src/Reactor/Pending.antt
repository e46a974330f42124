-- ===== src/Reactor/Pending.antt =====
-- src/reactor.c: which handles have a notification pending, and what the calls do to it.
use asx.Base.{ℕ, ◌-◌, ◌/◌, ◌%◌, ◌^◌, ◌<◌, ◌≡◌, ◌≢◌, ap, refl, arith, bit_and, bit_or}
use asx.Base.{
  Bool, true, false, not, ◌&&◌, ◌||◌, ◌==◌, ==_false, ==_iff, Bool-cases, sym, inl, inr, get_or,
}
use asx.Base.Bits.{
  all_below, all_below-true, bit, bit_or_byte, bit-bit_or, bit_and_byte, bit-bit_and,
}
use asx.Reactor.{update, bit_shift_table}

-- Bit `j` of the 32.
unfoldable pub pending : (ℕ → ℕ) → ℕ → Bool
pending n j = bit (n (j / 8)) (j % 8)

-- The registers hold bytes.
abbrev pub AreBytes : (ℕ → ℕ) → Type 0
AreBytes n = (k : ℕ) → k < 4 → n k < 256

shift_table : all_below 8 (λ i. get_or bit_shift_table i 0 == 2 ^ i) ≡ true
unfolding all_below
shift_table = refl

pub bit_shift_lem : (i : ℕ) → i < 8 → get_or bit_shift_table i 0 ≡ 2 ^ i
bit_shift_lem i lt = (==_iff _ _).0 (all_below-true 8 _ i shift_table lt)

-- The registers with the bit of `h` set, and with it clear.
abbrev pub with_bit : (ℕ → ℕ) → ℕ → ℕ → ℕ
with_bit n h = update n (h / 8) (bit_or (n (h / 8)) (2 ^ (h % 8)))

abbrev pub without_bit : (ℕ → ℕ) → ℕ → ℕ → ℕ
without_bit n h = update n (h / 8) (bit_and (n (h / 8)) (255 - 2 ^ (h % 8)))

-- Two handles are equal if their bytes and the places in them are.
module _ (h j : ℕ) where
  ==_same_byte : h / 8 ≡ j / 8 → (h % 8 == j % 8) ≡ (h == j)
  ==_same_byte e = ground (arith, e)

  ==_other_byte : h / 8 ≢ j / 8 → (h == j) ≡ false
  ==_other_byte ne = ==_false h j (λ e. ne (ap (λ x. x / 8) e))

module _ (n : ℕ → ℕ) (bytes : AreBytes n) (h : ℕ) (in_range : h < 32) where
  byte_in : h / 8 < 4
  byte_in = omega arith

  place_in : h % 8 < 8
  place_in = omega arith

  pub pending-with_bit : (j : ℕ) → j < 32 → pending (with_bit n h) j ≡ ((h == j) || pending n j)
  unfolding pending
  pending-with_bit j lt = elim (Bool-cases (h / 8 == j / 8)) [
    | inl e ↦
        let here : h / 8 ≡ j / 8 = (==_iff _ _).0 e in
        rw (e, sym (==_same_byte h j here), sym here)
          (bit-bit_or (n (h / 8)) (h % 8) (bytes _ byte_in) place_in (j % 8) (omega arith))
    | inr e ↦ rw (e, ==_other_byte h j (λ q. absurd (ground (arith, e, q)))) refl
  ]

  pub pending-without_bit :
      (j : ℕ) → j < 32 → pending (without_bit n h) j ≡ (not (h == j) && pending n j)
  unfolding pending
  pending-without_bit j lt = elim (Bool-cases (h / 8 == j / 8)) [
    | inl e ↦
        let here : h / 8 ≡ j / 8 = (==_iff _ _).0 e in
        rw (e, sym (==_same_byte h j here), sym here)
          (bit-bit_and (n (h / 8)) (h % 8) (bytes _ byte_in) place_in (j % 8) (omega arith))
    | inr e ↦ rw (e, ==_other_byte h j (λ q. absurd (ground (arith, e, q)))) refl
  ]

  pub with_bit-AreBytes : AreBytes (with_bit n h)
  with_bit-AreBytes k lt = elim (Bool-cases (h / 8 == k)) [
    | inl e ↦ rw e (bit_or_byte (n (h / 8)) (h % 8) (bytes _ byte_in) place_in)
    | inr e ↦ rw e (bytes k lt)
  ]

  pub without_bit-AreBytes : AreBytes (without_bit n h)
  without_bit-AreBytes k lt = elim (Bool-cases (h / 8 == k)) [
    | inl e ↦ rw e (bit_and_byte (n (h / 8)) (h % 8) (bytes _ byte_in) place_in)
    | inr e ↦ rw e (bytes k lt)
  ]
