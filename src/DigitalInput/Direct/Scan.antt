-- ===== src/DigitalInput/Direct/Scan.antt =====
-- src/digital_input.c: the loop of the interrupt handler over the bits of a mask.
use native.Mathlib.Nat.{pow-suc}
use native.Mathlib.Decide.{dec_lt}
use asx.Base.{
  ℕ, zero, suc, ◌+◌, ◌/◌, ◌^◌, ◌<◌, ◌≡◌, ap, refl, sym, ◌∙◌, arith, true, false, not, Option, some,
  ◌≤◌, List, [], ◌∷◌, inl, inr,
}
use asx.Base.{◌==◌, if◌then◌else◌, Bool-cases, ==_true, ==_false}
use asx.Base.Digits.{test_bit, test_bit-zero, low_bit_clear}
use asx.Base.Outcome.{returned}
use asx.DigitalInput.Direct.{PinAndValue, isr_loop, update, pin_of}

-- The positions of the bits of a mask, the lowest first, counted from `i`.
unfoldable pub positions : ℕ → ℕ → ℕ → List ℕ
positions zero i mask = []
positions (suc w) i mask =
    if test_bit mask 0 then i ∷ positions w (i + 1) (mask / 2) else positions w (i + 1) (mask / 2)

-- The argument of the direct handler behind notifications for these bits of a port: the last one.
unfoldable pub latest : ℕ → ℕ → List ℕ → Option PinAndValue → Option PinAndValue
latest port value [] pending = pending
latest port value (i ∷ rest) pending =
    latest port value rest (some (record { pin = pin_of port i; value = not (value == 0) }))

unfoldable pub disabled : ℕ → List ℕ → (ℕ → ℕ) → ℕ → ℕ
disabled port [] sense = sense
disabled port (i ∷ rest) sense = disabled port rest (update sense (pin_of port i) 0)

positions_none : (w i : ℕ) → positions w i 0 ≡ []
unfolding positions
positions_none zero i = refl
positions_none (suc w) i = rw (test_bit-zero 0) (positions_none w (i + 1))

-- The loop over the bits.
pub isr_loop_lem :
    (fuel w port value i mask : ℕ) (pending : Option PinAndValue) (sense : ℕ → ℕ)
    → w < fuel
    → mask < 2 ^ w
    → isr_loop fuel port value i mask pending sense
      ≡ returned
          (latest port value (positions w i mask) pending, disabled port (positions w i mask) sense)
unfolding isr_loop positions latest disabled
isr_loop_lem zero w port value i mask pending sense enough lt = absurd (omega (arith, enough))
isr_loop_lem (suc fuel) zero port value i mask pending sense enough lt =
    rw (==_true mask 0 (omega (arith, lt))) refl
isr_loop_lem (suc fuel) (suc w) port value i mask pending sense enough lt =
    let half : mask / 2 < 2 ^ w = omega (arith, lt, pow-suc 2 w) in
    elim (dec_lt 0 mask) [
      | yes some_bit ↦ elim (Bool-cases (test_bit mask 0)) [
        | inl on ↦
            rw
              (
                ==_false mask 0 (λ e. omega (arith, e, some_bit)),
                low_bit_clear mask,
                on,
                isr_loop_lem fuel w port value (i + 1) (mask / 2) _ (update sense (pin_of port i) 0)
                    (omega (arith, enough)) half,
              )
              refl
        | inr off ↦
            rw
              (
                ==_false mask 0 (λ e. omega (arith, e, some_bit)),
                low_bit_clear mask,
                off,
                isr_loop_lem fuel w port value (i + 1) (mask / 2) pending sense
                    (omega (arith, enough)) half,
              )
              refl
      ]
      | no no_bit ↦
          let none : mask ≡ 0 = omega (arith, no_bit) in
          rw (==_true mask 0 none) (
            ap (λ is. returned (latest port value is pending, disabled port is sense))
              (sym (ap (positions (suc w) i) none ∙ positions_none (suc w) i)))
    ]

disabled_later :
    (w port i j mask : ℕ) (sense : ℕ → ℕ)
    → j < i
    → disabled port (positions w i mask) sense (pin_of port j) ≡ sense (pin_of port j)
unfolding disabled positions
disabled_later zero port i j mask sense lt = refl
disabled_later (suc w) port i j mask sense lt = elim (Bool-cases (test_bit mask 0)) [
  | inl on ↦ rw on (
      disabled_later w port (i + 1) j (mask / 2) _ (omega (arith, lt))
      ∙ rw (==_false (pin_of port i) (pin_of port j) (λ e. omega (arith, e, lt))) refl)
  | inr off ↦ rw off (disabled_later w port (i + 1) j (mask / 2) sense (omega (arith, lt)))
]

pub next_bit : (mask k : ℕ) → test_bit mask (suc k) ≡ test_bit (mask / 2) k
unfolding test_bit
next_bit mask k = refl

-- Bits from `k` on that are all off.
abbrev pub NoneFrom : ℕ → ℕ → ℕ → Type 0
NoneFrom k w mask = (j : ℕ) → k ≤ j → j < w → test_bit mask j ≡ false

half-NoneFrom : (k w mask : ℕ) → NoneFrom (suc k) (suc w) mask → NoneFrom k w (mask / 2)
half-NoneFrom k w mask clear j le lt =
    sym (next_bit mask j) ∙ clear (suc j) (omega (arith, le)) (omega (arith, lt))

-- With no bit the argument stays, and with some it is that of the highest.
pub latest_none :
    (w port value i mask : ℕ) (pending : Option PinAndValue)
    → NoneFrom 0 w mask
    → latest port value (positions w i mask) pending ≡ pending
unfolding latest positions
latest_none zero port value i mask pending clear = refl
latest_none (suc w) port value i mask pending clear = rw (clear 0 (omega arith) (omega arith)) (
    latest_none w port value (i + 1) (mask / 2) pending
      (λ j le lt. half-NoneFrom 0 w mask (λ k more less. clear k (omega arith) less) j le lt))

pub latest_lem :
    (w port value i j k mask : ℕ) (pending : Option PinAndValue)
    → k < w
    → j ≡ i + k
    → test_bit mask k ≡ true
    → NoneFrom (suc k) w mask
    → latest port value (positions w i mask) pending
      ≡ some (record { pin = pin_of port j; value = not (value == 0) })
unfolding latest positions
latest_lem zero port value i j k mask pending lt at on clear = absurd (omega (arith, lt))
latest_lem (suc w) port value i j zero mask pending lt at on clear =
    let here : i ≡ j = omega (arith, at) in
    rw on (
      latest_none w port value (i + 1) (mask / 2) _ (half-NoneFrom 0 w mask clear)
      ∙ ap (λ n. some (record { pin = pin_of port n; value = not (value == 0) })) here)
latest_lem (suc w) port value i j (suc k) mask pending lt at on clear =
    let later : (p : Option PinAndValue)
        → latest port value (positions w (i + 1) (mask / 2)) p
          ≡ some (record { pin = pin_of port j; value = not (value == 0) }) =
      λ p.
        latest_lem w port value (i + 1) j k (mask / 2) p (omega (arith, lt)) (omega (arith, at))
          (sym (next_bit mask k) ∙ on) (half-NoneFrom (suc k) w mask clear) in
    elim (Bool-cases (test_bit mask 0)) [ inl low ↦ rw low (later _) | inr off ↦ rw off (later _) ]

pub disabled_lem :
    (w port i j k mask : ℕ) (sense : ℕ → ℕ)
    → k < w
    → j ≡ i + k
    → disabled port (positions w i mask) sense (pin_of port j)
      ≡ (if test_bit mask k then 0 else sense (pin_of port j))
unfolding disabled positions
disabled_lem zero port i j k mask sense lt at = absurd (omega (arith, lt))
disabled_lem (suc w) port i j zero mask sense lt at =
    let here : j ≡ i = omega (arith, at) in
    let rest : (off : ℕ → ℕ)
        → disabled port (positions w (i + 1) (mask / 2)) off (pin_of port j) ≡ off (pin_of port j) =
      λ off. disabled_later w port (i + 1) j (mask / 2) off (omega (arith, here)) in
    elim (Bool-cases (test_bit mask 0)) [
      | inl on ↦ rw on (
          rest (update sense (pin_of port i) 0)
          ∙ rw (==_true (pin_of port i) (pin_of port j) (omega (arith, here))) refl)
      | inr off ↦ rw off (rest sense)
    ]
disabled_lem (suc w) port i j (suc k) mask sense lt at =
    let rest : (off : ℕ → ℕ)
        → disabled port (positions w (i + 1) (mask / 2)) off (pin_of port j)
          ≡ (if test_bit (mask / 2) k then 0 else off (pin_of port j)) =
      λ off.
        disabled_lem w port (i + 1) j k (mask / 2) off (omega (arith, lt)) (omega (arith, at)) in
    let other = ==_false (pin_of port i) (pin_of port j) (λ e. omega (arith, e, at)) in
    elim (Bool-cases (test_bit mask 0)) [
      | inl on ↦ rw (on, next_bit mask k) (rest (update sense (pin_of port i) 0) ∙ rw other refl)
      | inr off ↦ rw (off, next_bit mask k) (rest sense)
    ]
