-- ===== src/DigitalInput/Direct/Held.antt =====
-- src/digital_input.c: a pin that is disabled and of which no notification is left stays so.
use asx.Base.{
  ℕ, zero, suc, ◌+◌, ◌%◌, ◌/◌, ◌^◌, ◌<◌, ◌≡◌, ◌≢◌, subst, inl, inr, refl, ap, sym, ◌∙◌, arith, Bool,
  true, false, not, none, some, Option, List, [], ◌∷◌,
}
use asx.Base.{◌==◌, ==_false, Bool-cases, Option-cases, bit_and, bit_or, ltb}
use asx.Base.Digits.{test_bit, test_bit-bit_and, test_bit-bit_or, test_bit-pow}
use asx.Base.Outcome.{Outcome, returned}
use asx.DigitalInput.Direct.{
  DirectInput, PinAndValue, Direct, Effect, port_of, pin_of, mask_of, inverted, update,
  clear_interrupt, direct_handler, react_pending, react_direct, handle_pin_change_isr,
}
use asx.DigitalInput.Direct.Scan.{positions, latest, disabled, isr_loop_lem, next_bit}
use asx.DigitalInput.Direct.Flags.{
  is_new, new_bits, new_bit, inverted_lem, pow_width, and_width, or_width,
}

-- The argument is not of the pin.
abbrev pub NotFor : ℕ → Option PinAndValue → Type 0
NotFor pin none = Unit {0}
NotFor pin (some pav) = pav.pin ≢ pin

latest-NotFor :
    (w port value i mask pin : ℕ) (pending : Option PinAndValue)
    → NotFor pin pending
    → ((k : ℕ) → k < w → test_bit mask k ≡ true → pin_of port (i + k) ≢ pin)
    → NotFor pin (latest port value (positions w i mask) pending)
unfolding latest positions
latest-NotFor zero port value i mask pin pending other others = other
latest-NotFor (suc w) port value i mask pin pending other others =
    let later : (k : ℕ) → k < w → test_bit (mask / 2) k ≡ true → pin_of port (i + 1 + k) ≢ pin =
      λ k lt on e. others (suc k) (omega (arith, lt)) (next_bit mask k ∙ on) (omega (arith, e)) in
    elim (Bool-cases (test_bit mask 0)) [
      | inl on ↦ rw on (
          latest-NotFor w port value (i + 1) (mask / 2) pin _
            (λ e. others 0 (omega arith) on (omega (arith, e))) later)
      | inr off ↦ rw off (latest-NotFor w port value (i + 1) (mask / 2) pin pending other later)
    ]

disabled_zero :
    (port pin : ℕ) (is : List ℕ) (sense : ℕ → ℕ) → sense pin ≡ 0 → disabled port is sense pin ≡ 0
unfolding disabled
disabled_zero port pin [] sense off = off
disabled_zero port pin (i ∷ is) sense off =
    disabled_zero port pin is (update sense (pin_of port i) 0) (ground (arith, off))

-- The pin is disabled, taken for one that is being handled, and no argument is of it.
pub record IsLost (pin : ℕ) (d : Direct) : Type 0 where
  pub bytes : (port : ℕ) → d.isr_bit_mask port < 256
  pub held : test_bit (d.isr_bit_mask (port_of pin)) (pin % 8) ≡ true
  pub off : d.sense pin ≡ 0
  pub other : NotFor pin d.pending

some_value {ℓ} : {A : Type ℓ} {x y : A} → some x ≡ some y → x ≡ y
some_value e = cc

pub returned_value {ℓ} :
    {A : Type ℓ} {o : Outcome A} {x y : A} → o ≡ returned x → o ≡ returned y → x ≡ y
returned_value p q = cc

module _ (pin port levels flags : ℕ) (d : Direct) (small : flags < 256) (lost : IsLost pin d) where
  abbrev bits : ℕ
  bits = new_bits port levels flags d small (lost.bytes port)

  bits_width : bits < 256
  bits_width = and_width flags _ small

  held-same : port ≡ port_of pin → test_bit (d.isr_bit_mask port) (pin % 8) ≡ true
  held-same e = ap (λ p. test_bit (d.isr_bit_mask p) (pin % 8)) e ∙ lost.held

  own_bit_old : (k : ℕ) → k < 8 → test_bit bits k ≡ true → pin_of port (0 + k) ≢ pin
  own_bit_old k lt on e =
      let here : port ≡ port_of pin = omega (arith, e, lt) in
      let same : k ≡ pin % 8 = omega (arith, e, lt) in
      let new : is_new flags (d.isr_bit_mask port) k ≡ true =
        sym (new_bit port levels flags d small (lost.bytes port) k lt) ∙ on in
      let old : test_bit (d.isr_bit_mask port) k ≡ true =
        ap (test_bit (d.isr_bit_mask port)) same ∙ held-same here in
      ground (arith, new, old)

  kept_held :
      (b : Bool)
      → port == port_of pin ≡ b
      → test_bit
          (update d.isr_bit_mask port (bit_or (d.isr_bit_mask port) bits) (port_of pin))
          (pin % 8)
        ≡ true
  kept_held true e =
      let here : port ≡ port_of pin = ground (arith, e) in
      rw e (test_bit-bit_or (d.isr_bit_mask port) bits (pin % 8) ∙ rw (held-same here) refl)
  kept_held false e = rw e lost.held

  pub interrupt-IsLost :
      (d' : Direct) → handle_pin_change_isr port levels flags d ≡ returned d' → IsLost pin d'
  unfolding handle_pin_change_isr
  interrupt-IsLost d' runs =
      let after : Direct = record d {
        isr_bit_mask = update d.isr_bit_mask port (bit_or (d.isr_bit_mask port) bits);
        sense = disabled port (positions 8 0 bits) d.sense;
        pending = latest port levels (positions 8 0 bits) d.pending;
      } in
      let ends : handle_pin_change_isr port levels flags d ≡ returned after =
        rw (isr_loop_lem 9 8 port levels 0 bits d.pending d.sense (omega arith) bits_width) refl in
      subst (IsLost pin) (returned_value ends runs) (record {
        bytes = λ p. elim (Bool-cases (port == p)) [
          | inl e ↦ rw e (or_width (d.isr_bit_mask port) bits (lost.bytes port) bits_width)
          | inr e ↦ rw e (lost.bytes p)
        ];
        held = kept_held (port == port_of pin) refl;
        off = disabled_zero port pin (positions 8 0 bits) d.sense lost.off;
        other = latest-NotFor 8 port levels 0 bits pin d.pending lost.other own_bit_old;
      })

module _ (pin : ℕ) (d : Direct) (lost : IsLost pin d) where
  other_bit : (k : ℕ) → k < 8 → k ≢ pin % 8 → test_bit (inverted (2 ^ k)) (pin % 8) ≡ true
  other_bit k lt differs =
      inverted_lem (2 ^ k) (pin % 8) (pow_width k lt) (omega arith)
      ∙ ap not (test_bit-pow k (pin % 8) ∙ ==_false k (pin % 8) differs)

  cleared_held :
      (di : DirectInput) (b : Bool)
      → di.pin ≢ pin
      → port_of di.pin == port_of pin ≡ b
      → test_bit
          (update d.isr_bit_mask
            (port_of di.pin)
            (bit_and (d.isr_bit_mask (port_of di.pin)) (inverted (mask_of di.pin)))
            (port_of pin))
          (pin % 8)
        ≡ true
  cleared_held di true differs e =
      let here : port_of di.pin ≡ port_of pin = ground (arith, e) in
      let there = ap (λ p. test_bit (d.isr_bit_mask p) (pin % 8)) here ∙ lost.held in
      rw e (
        test_bit-bit_and (d.isr_bit_mask (port_of di.pin)) (inverted (mask_of di.pin)) (pin % 8)
        ∙ rw
            (
              there,
              other_bit (di.pin % 8) (omega arith) (λ same. differs (omega (arith, here, same))),
            )
            refl)
  cleared_held di false differs e = rw e lost.held

  pub clear-IsLost :
      (di : DirectInput) (d' : Direct)
      → di.pin ≢ pin
      → clear_interrupt di d ≡ some d'
      → IsLost pin d'
  unfolding clear_interrupt
  clear-IsLost di d' differs runs = elim (Bool-cases (ltb (port_of di.pin) 2)) [
    | inl low ↦ subst (IsLost pin) (cleared low) (record {
      bytes = λ p. elim (Bool-cases (port_of di.pin == p)) [
        | inl e ↦ rw e (
            and_width (d.isr_bit_mask (port_of di.pin)) (inverted (mask_of di.pin))
              (lost.bytes (port_of di.pin)))
        | inr e ↦ rw e (lost.bytes p)
      ];
      held = cleared_held di (port_of di.pin == port_of pin) differs refl;
      off = rw (==_false di.pin pin differs) lost.off;
      other = lost.other;
    })
    | inr high ↦ absurd (ground (arith, high, runs))
  ]
    where
      cleared :
          ltb (port_of di.pin) 2 ≡ true
          → record d {
            isr_bit_mask =
                update d.isr_bit_mask
                  (port_of di.pin)
                  (bit_and (d.isr_bit_mask (port_of di.pin)) (inverted (mask_of di.pin)));
            sense = update d.sense di.pin di.sense_mode;
          }
            ≡ d'
      cleared low = some_value (sym (rw low refl) ∙ runs)

  handler-IsLost :
      (list : List DirectInput) (own : ℕ) (value : Bool) (d' : Direct) (effects : List Effect)
      → own ≢ pin
      → direct_handler list own value d ≡ some (effects, d')
      → IsLost pin d'
  unfolding direct_handler
  handler-IsLost [] own value d' effects differs runs =
      subst (IsLost pin) (ap (λ m. m.1) (some_value runs)) lost
  handler-IsLost (next ∷ rest) own value d' effects differs runs =
      elim (Bool-cases (next.pin == own)) [
        | inl mine ↦ elim (Bool-cases (next.filter == 0)) [
          | inl unfiltered ↦ elim (Option-cases (clear_interrupt next d)) [
            | inl fails ↦ absurd (ground (arith, mine, unfiltered, fails, runs))
            | inr (after, clears) ↦
                clear-IsLost next d' (λ e. differs (ground (arith, mine, e)))
                  (clears ∙ ground (arith, mine, unfiltered, clears, runs))
          ]
          | inr filtered ↦ subst (IsLost pin) (ground (arith, mine, filtered, runs)) lost
        ]
        | inr other ↦ handler-IsLost rest own value d' effects differs (ground (arith, other, runs))
      ]

pub reacted-IsLost :
    (pin : ℕ) (d d' : Direct) (effects : List Effect)
    → IsLost pin d
    → react_direct d ≡ some (effects, d')
    → IsLost pin d'
unfolding react_pending
reacted-IsLost pin d d' effects lost runs = react d.pending lost.other runs
  where
    react :
        (pending : Option PinAndValue)
        → NotFor pin pending
        → react_pending pending d ≡ some (effects, d')
        → IsLost pin d'
    react none other e = subst (IsLost pin) (ap (λ m. m.1) (some_value e)) lost
    react (some pav) other e =
        handler-IsLost pin (record d { pending = none })
          (record { bytes = lost.bytes; held = lost.held; off = lost.off; other = tt })
          d.first_direct pav.pin pav.value d' effects other e
