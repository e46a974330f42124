-- ===== src/DigitalInput/Direct/Lost.antt =====
-- src/digital_input.c: a change whose argument is written over before the direct handler is called.
use asx.Base.{
  ℕ, ◌%◌, ◌<◌, ◌≡◌, ◌≢◌, subst, inl, inr, refl, ap, sym, ◌∙◌, arith, true, false, not, some, List,
}
use asx.Base.{◌==◌, Bool-cases}
use asx.Base.Digits.{test_bit}
use asx.Base.Outcome.{returned}
use asx.DigitalInput.Direct.{
  DirectInput, Direct, Effect, port_of, pin_of, clear_interrupt, react_direct,
  handle_pin_change_isr,
}
use asx.DigitalInput.Direct.Flags.{is_new, isr_lem}
use asx.DigitalInput.Direct.Held.{
  NotFor, IsLost, interrupt-IsLost, clear-IsLost, reacted-IsLost, returned_value,
}

-- What can happen behind a state: an interrupt of port A or B, the reactor's call of the direct handler,
-- and the timer of an input on another pin, which acknowledges it.
pub data Reaches (pin : ℕ) (d : Direct) : Direct → Type 0 where
  here : Reaches pin d d
  interrupted :
      {e e' : Direct} (port levels flags : ℕ)
      → Reaches pin d e
      → port < 2
      → flags < 256
      → handle_pin_change_isr port levels flags e ≡ returned e'
      → Reaches pin d e'
  reacted :
      {e e' : Direct} (effects : List Effect)
      → Reaches pin d e
      → react_direct e ≡ some (effects, e')
      → Reaches pin d e'
  acknowledged :
      {e e' : Direct} (di : DirectInput)
      → Reaches pin d e
      → di.pin ≢ pin
      → clear_interrupt di e ≡ some e'
      → Reaches pin d e'

first-IsLost :
    (port levels flags j k : ℕ) (d : Direct)
    → j < k
    → k < 8
    → (small : flags < 256) → (bytes : (p : ℕ) → d.isr_bit_mask p < 256)
    → is_new flags (d.isr_bit_mask port) j ≡ true
    → is_new flags (d.isr_bit_mask port) k ≡ true
    → ((i : ℕ) → k < i → i < 8 → test_bit flags i ≡ false)
    → IsLost (pin_of port j) (isr_lem port levels flags d small (bytes port)).after
first-IsLost port levels flags j k d less lt small bytes lower upper highest =
    let isr = isr_lem port levels flags d small (bytes port) in
    let on_port : port_of (pin_of port j) ≡ port = omega (arith, less, lt) in
    let at : pin_of port j % 8 ≡ j = omega (arith, less, lt) in
    let flag : test_bit flags j ≡ true = ground (arith, lower) in
    record {
      bytes = λ p. elim (Bool-cases (port == p)) [
        | inl e ↦ subst (λ q. isr.after.isr_bit_mask q < 256) (ground (arith, e)) isr.width
        | inr e ↦ subst (λ m. m < 256) (sym (isr.others p e)) (bytes p)
      ];
      held =
          ap (λ p. test_bit (isr.after.isr_bit_mask p) (pin_of port j % 8)) on_port
          ∙ ap (test_bit (isr.after.isr_bit_mask port)) at
          ∙ isr.handled j (omega (arith, less, lt))
          ∙ ground (arith, flag);
      off = isr.off j (omega (arith, less, lt)) ∙ rw lower refl;
      other =
          subst (NotFor (pin_of port j))
            (sym (isr.told k lt upper (λ i above below. rw (highest i above below) refl)))
            (λ e. omega (arith, e, less));
    }

-- What happens later does not find the pin again.
reaches_lem : (pin : ℕ) (d later : Direct) → IsLost pin d → Reaches pin d later → IsLost pin later
reaches_lem pin d later lost here = lost
reaches_lem pin d later lost (interrupted {e} {e'} port levels flags before low small runs) =
    interrupt-IsLost pin port levels flags e small (reaches_lem pin d e lost before) later runs
reaches_lem pin d later lost (reacted {e} {e'} effects before runs) =
    reacted-IsLost pin e later effects (reaches_lem pin d e lost before) runs
reaches_lem pin d later lost (acknowledged {e} {e'} di before differs runs) =
    clear-IsLost pin e (reaches_lem pin d e lost before) di later differs runs

-- Two pins of a port whose changes come in one interrupt, the second with the highest flag: the argument
-- of the direct handler is the second. The first pin is disabled, and stays so whatever interrupts of
-- the ports A and B, calls of the direct handler and acknowledgments of other pins come behind it, and
-- the direct handler is not told of it.
pub lost_lem :
    (port levels flags j k : ℕ) (d first later : Direct)
    → j < k
    → k < 8
    → flags < 256
    → ((p : ℕ) → d.isr_bit_mask p < 256)
    → is_new flags (d.isr_bit_mask port) j ≡ true
    → is_new flags (d.isr_bit_mask port) k ≡ true
    → ((i : ℕ) → k < i → i < 8 → test_bit flags i ≡ false)
    → handle_pin_change_isr port levels flags d ≡ returned first
    → Reaches (pin_of port j) first later
    → (first.pending ≡ some (record { pin = pin_of port k; value = not (levels == 0) }))
      × (first.sense (pin_of port j) ≡ 0)
      × (later.sense (pin_of port j) ≡ 0)
      × NotFor (pin_of port j) later.pending
lost_lem port levels flags j k d first later less lt small bytes lower upper highest runs reaches =
    let isr = isr_lem port levels flags d small (bytes port) in
    let same : isr.after ≡ first = returned_value isr.ends runs in
    let lost : IsLost (pin_of port j) first =
      subst (IsLost (pin_of port j)) same
        (first-IsLost port levels flags j k d less lt small bytes lower upper highest) in
    let end = reaches_lem (pin_of port j) first later lost reaches in
    (
      subst (λ e. e.pending ≡ some (record { pin = pin_of port k; value = not (levels == 0) })) same
          (isr.told k lt upper (λ i above below. rw (highest i above below) refl)),
      lost.off,
      end.off,
      end.other,
    )
