-- ===== src/DigitalInput/Direct.antt =====
-- src/digital_input.c: the inputs that interrupt. The chain of structures is a list; what the reactor's
-- handler asks of the reactor and of the timer service is a list of effects. An interrupt notifies that
-- handler, whose entry in the reactor keeps one argument: it is a part of the state. Only the ports A and B, 0 and 1,
-- have a byte in `_isr_bit_mask`: `none` is an access outside it.
pub mod Scan
pub mod Flags
pub mod Once
pub mod Held
pub mod Lost
use asx.Base.{
  ℕ, zero, suc, ◌+◌, ◌-◌, ◌*◌, ◌/◌, ◌%◌, ◌^◌, Bool, true, false, not, Option, none, some, List, [],
  ◌∷◌, ◌++◌, bit_and, bit_or,
}
use asx.Base.{ltb, ◌==◌, if◌then◌else◌, ◌>>=◌}
use asx.Base.Outcome.{Outcome, returned, unfinished}
use asx.Base.Outcome
use asx.DigitalInput.{PinNotice, null_handle}

-- `digital_input_t` of a direct input.
pub record DirectInput : Type 0 where
  pub pin : ℕ
  pub handler : ℕ
  pub sense_mode : ℕ
  pub filter : ℕ

-- `pin_and_value_t`
pub record PinAndValue : Type 0 where
  pub pin : ℕ
  pub value : Bool

-- `_first_direct`, `_isr_bit_mask` by port, the sense mode of each pin in its control register, and the
-- argument of `_react_direct_handler` while the reactor has to call it.
pub record Direct : Type 0 where
  pub first_direct : List DirectInput
  pub isr_bit_mask : ℕ → ℕ
  pub sense : ℕ → ℕ
  pub pending : Option PinAndValue

-- A call of `reactor_notify` for the handler of an input, and the timer that calls `_react_ack_it` with
-- the input when `filter` counts have passed.
pub data Effect : Type 0 where
  notified : PinNotice → Effect
  armed : DirectInput → Effect

abbrev pub update : (ℕ → ℕ) → ℕ → ℕ → ℕ → ℕ
update f i v j = if i == j then v else f j

-- `ioport_pin_to_port_id`, `ioport_pin_to_mask` and `ioport_create_pin` of include/ioport.h.
abbrev pub port_of : ℕ → ℕ
port_of pin = pin / 8

abbrev pub mask_of : ℕ → ℕ
mask_of pin = 2 ^ (pin % 8)

abbrev pub pin_of : ℕ → ℕ → ℕ
pin_of port i = port * 8 + i

-- `~` of a `uint8_t`.
abbrev pub inverted : ℕ → ℕ
inverted m = 2 ^ 8 - 1 - m

-- `_clear_interrupt`
unfoldable pub clear_interrupt : DirectInput → Direct → Option Direct
clear_interrupt next d =
    if ltb (port_of next.pin) 2
    then some (record d {
      isr_bit_mask =
          update d.isr_bit_mask (port_of next.pin)
            (bit_and (d.isr_bit_mask (port_of next.pin)) (inverted (mask_of next.pin)));
      sense = update d.sense next.pin next.sense_mode;
    })
    else none

-- `_digital_input_direct_handler`, on the inputs of the chain that are left.
unfoldable pub direct_handler : List DirectInput → ℕ → Bool → Direct → Option (List Effect × Direct)
direct_handler [] pin value d = some ([], d)
direct_handler (next ∷ rest) pin value d =
    let notices =
      if not (next.handler == null_handle)
      then notified (record { handle = next.handler; pin = pin; value = value }) ∷ []
      else [] in
    let later = direct_handler rest pin value d in
    if next.pin == pin
    then (if not (next.filter == 0)
        then some (notices ++ (armed next ∷ []), d)
        else (clear_interrupt next d >>= λ after. some (notices, after)))
    else later

-- The reactor calls `_react_direct_handler`, when it has been notified, with the argument.
unfoldable pub react_pending : Option PinAndValue → Direct → Option (List Effect × Direct)
react_pending none d = some ([], d)
react_pending (some pav) d =
    direct_handler d.first_direct pav.pin pav.value (record d { pending = none })

abbrev pub react_direct : Direct → Option (List Effect × Direct)
react_direct d = react_pending d.pending d

-- The loop of `_handle_pin_change_isr`, on fuel: the argument of the direct handler, over which each
-- notification writes its own, and the sense modes. `ioport_enable_pin` takes the sense mode off the pin.
unfoldable pub isr_loop :
    ℕ → ℕ → ℕ → ℕ → ℕ → Option PinAndValue → (ℕ → ℕ) → Outcome (Option PinAndValue × (ℕ → ℕ))
isr_loop zero port_id port_value i mask pending sense = unfinished
isr_loop (suc fuel) port_id port_value i mask pending sense =
    let pin = pin_of port_id i in
    let detected = not (bit_and mask 1 == 0) in
    let off = if detected then update sense pin 0 else sense in
    let pav : Option PinAndValue =
      if detected then some (record { pin = pin; value = not (port_value == 0) }) else pending in
    let rest = isr_loop fuel port_id port_value (i + 1) (mask / 2) pav off in
    if mask == 0 then returned (pending, sense) else rest

-- `_handle_pin_change_isr`
unfoldable pub handle_pin_change_isr : ℕ → ℕ → ℕ → Direct → Outcome Direct
handle_pin_change_isr port_id port_value mask d =
    let fresh = bit_and mask (inverted (d.isr_bit_mask port_id)) in
    Outcome.◌>>=◌ (isr_loop 9 port_id port_value 0 fresh d.pending d.sense) (λ (pav, sense).
      returned (record d {
        isr_bit_mask = update d.isr_bit_mask port_id (bit_or (d.isr_bit_mask port_id) fresh);
        sense = sense;
        pending = pav;
      }))

-- `ISR(PORTA_PORT_vect)` and `ISR(PORTB_PORT_vect)`, with the levels and the flags of the port.
unfoldable pub port_a_vector : ℕ → ℕ → Direct → Outcome Direct
port_a_vector levels flags d = handle_pin_change_isr 0 levels flags d

unfoldable pub port_b_vector : ℕ → ℕ → Direct → Outcome Direct
port_b_vector levels flags d = handle_pin_change_isr 1 levels flags d

-- `digital_input` with a sense mode: the new input at the end of the chain.
unfoldable pub digital_input_direct : Direct → ℕ → ℕ → ℕ → ℕ → Direct
digital_input_direct d pin reactor sense_mode filter_value = record d {
  first_direct =
      d.first_direct
      ++ (record { pin = pin; handler = reactor; sense_mode = sense_mode; filter = filter_value }
          ∷ []);
  sense = update d.sense pin sense_mode;
}
