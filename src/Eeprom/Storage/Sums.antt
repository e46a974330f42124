-- ===== src/Eeprom/Storage/Sums.antt =====
-- include/asx/eeprom.hpp: the sums of `calc_fletcher16`.
use native.Mathlib.Decide.{dec_lt}
use asx.Base.{
  ◌≢◌, ℕ, zero, suc, ◌+◌, ◌*◌, ◌/◌, ◌%◌, ◌<◌, ◌≤◌, ◌≡◌, ap, ap₂, refl, ◌∙◌, arith, bit_or,
}
use asx.Base.Digits.{join_bytes}
use asx.Eeprom.Storage.{Bytes, u16, fletcher_loop, calc_fletcher16}

-- The sum of the bytes from `index` on.
abbrev pub sum_of : ℕ → ℕ → Bytes → ℕ
sum_of zero index bytes = 0
sum_of (suc rounds) index bytes = bytes index + sum_of rounds (index + 1) bytes

abbrev pub AreBytes : ℕ → Bytes → Type 0
AreBytes size bytes = (i : ℕ) → i < size → bytes i < 256

-- The sums depend on the bytes from `index` on only.
pub fletcher_loop_ext :
    (rounds index : ℕ) (p q : Bytes) (sum1 sum2 : ℕ)
    → ((i : ℕ) → i < index + rounds → p i ≡ q i)
    → fletcher_loop rounds index p sum1 sum2 ≡ fletcher_loop rounds index q sum1 sum2
unfolding fletcher_loop
fletcher_loop_ext zero index p q sum1 sum2 same = refl
fletcher_loop_ext (suc rounds) index p q sum1 sum2 same =
    rw (same index (omega arith))
      (fletcher_loop_ext rounds (index + 1) p q _ _ (λ i below. same i (omega (arith, below))))

sum_of_ext :
    (rounds index : ℕ) (p q : Bytes)
    → ((i : ℕ) → index ≤ i → p i ≡ q i)
    → sum_of rounds index p ≡ sum_of rounds index q
sum_of_ext zero index p q same = refl
sum_of_ext (suc rounds) index p q same =
    ap₂ ◌+◌ (same index (omega arith))
      (sum_of_ext rounds (index + 1) p q (λ i le. same i (omega (arith, le))))

-- One other byte makes the sum differ by it.
pub sum_of_change :
    (rounds index j : ℕ) (p q : Bytes)
    → index ≤ j
    → j < index + rounds
    → ((i : ℕ) → i ≢ j → p i ≡ q i)
    → sum_of rounds index p + q j ≡ sum_of rounds index q + p j
sum_of_change zero index j p q le lt same = absurd (omega (arith, le, lt))
sum_of_change (suc rounds) index j p q le lt same = elim (dec_lt index j) [
  | yes later ↦
      let rest =
        sum_of_change rounds (index + 1) j p q (omega (arith, later)) (omega (arith, lt)) same in
      let here = same index (λ e. omega (arith, e, later)) in omega (arith, rest, here)
  | no first ↦
      let here : index ≡ j = omega (arith, le, first) in
      let rest =
        sum_of_ext rounds (index + 1) p q
          (λ i above. same i (λ e. omega (arith, e, above, here))) in
      omega (arith, rest, ap p here, ap q here)
]

first_sum :
    (rounds index : ℕ) (bytes : Bytes) (sum1 sum2 : ℕ)
    → ((i : ℕ) → i < index + rounds → bytes i < 256)
    → sum1 < 255
    → (fletcher_loop rounds index bytes sum1 sum2).0 ≡ (sum1 + sum_of rounds index bytes) % 255
unfolding fletcher_loop
first_sum zero index bytes sum1 sum2 small lt = omega (arith, lt)
first_sum (suc rounds) index bytes sum1 sum2 small lt =
    let byte = small index (omega arith) in
    first_sum rounds (index + 1) bytes _ _ (λ i below. small i (omega (arith, below))) (omega arith)
    ∙ omega (arith, byte, lt)

second_sum :
    (rounds index : ℕ) (bytes : Bytes) (sum1 sum2 : ℕ)
    → sum2 < 255
    → (fletcher_loop rounds index bytes sum1 sum2).1 < 255
unfolding fletcher_loop
second_sum zero index bytes sum1 sum2 lt = lt
second_sum (suc rounds) index bytes sum1 sum2 lt =
    second_sum rounds (index + 1) bytes _ _ (omega arith)

sums_from_start :
    (data_version size : ℕ) (bytes : Bytes)
    → data_version < 65281
    → 0 < size
    → AreBytes size bytes
    → ((fletcher_loop size 0 bytes (u16 data_version) 0xff).0
        ≡ (data_version + sum_of size 0 bytes) % 255)
      × ((fletcher_loop size 0 bytes (u16 data_version) 0xff).1 < 255)
unfolding fletcher_loop
sums_from_start data_version zero bytes version_in some_byte small =
    absurd (omega (arith, some_byte))
sums_from_start data_version (suc rounds) bytes version_in some_byte small =
    let byte = small 0 (omega arith) in
    (
      first_sum rounds 1 bytes _ _ (λ i below. small i (omega (arith, below))) (omega arith)
          ∙ omega (arith, byte, version_in),
      second_sum rounds 1 bytes _ _ (omega arith),
    )

module _ (data_version size : ℕ) (bytes : Bytes) (version_in : data_version < 65281)
    (some_byte : 0 < size) (small : AreBytes size bytes) where
  -- Both bytes of the checksum are below 255, and the low one is the sum of the bytes.
  pub calc_fletcher16_lem :
      (calc_fletcher16 data_version size bytes / 256 < 255)
      × (calc_fletcher16 data_version size bytes % 256 ≡ (data_version + sum_of size 0 bytes) % 255)
  unfolding calc_fletcher16
  calc_fletcher16_lem =
      let (first, second) = sums_from_start data_version size bytes version_in some_byte small in
      let whole : calc_fletcher16 data_version size bytes
          ≡ (fletcher_loop size 0 bytes (u16 data_version) 0xff).1 * 256
            + (fletcher_loop size 0 bytes (u16 data_version) 0xff).0 =
        ap (λ n. bit_or n (fletcher_loop size 0 bytes (u16 data_version) 0xff).0)
          (omega (arith, second))
        ∙ join_bytes _ _ (omega (arith, second)) (omega (arith, first)) in
      (omega (arith, whole, first, second), omega (arith, whole, first, second))
