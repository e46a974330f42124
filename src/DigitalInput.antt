-- ===== src/DigitalInput.antt =====
-- src/digital_input.c and include/digital_input.h: the sampled inputs, each filtered by an integrator.
-- The chain of structures is a list; the levels of the pins are an argument of the sampling.
pub mod Filter
pub mod Sample
pub mod Direct
mod Tests
use asx.Base.{ℕ, ◌+◌, ◌-◌, ◌/◌, Bool, true, false, not, ◌&&◌, List, [], ◌∷◌, ◌++◌}
use asx.Base.{u8, ltb, ◌==◌, if◌then◌else◌}

-- `di_input_state_t`
pub data InputState : Type 0 where
  off on unknown : InputState

-- Equality of states.
abbrev pub same_input : InputState → InputState → Bool
same_input off off = true
same_input on on = true
same_input unknown unknown = true
same_input _ _ = false

abbrev pub is_on : InputState → Bool
is_on on = true
is_on off = false
is_on unknown = false

-- `digital_input_t` of a sampled input: `handler` is a handle of the reactor.
pub record DigitalInput : Type 0 where
  pub pin : ℕ
  pub handler : ℕ
  pub input : InputState
  pub integrator_threshold : ℕ
  pub integrator : ℕ

-- A call of `reactor_notify` with a `pin_and_value_t`.
pub record PinNotice : Type 0 where
  pub handle : ℕ
  pub pin : ℕ
  pub value : Bool

abbrev pub null_handle : ℕ
null_handle = 255

-- DIGITAL_INPUT_SAMPLE_PERIOD
abbrev pub sample_period : ℕ
sample_period = 5

-- The integrator in a round of the loop of `_digital_input_sample`.
unfoldable pub integrate : Bool → DigitalInput → DigitalInput
integrate true di =
    let next = u8 (di.integrator + 1) in
    if ltb di.integrator di.integrator_threshold
    then record di {
      integrator = next;
      input = if next == di.integrator_threshold then on else di.input;
    }
    else di
integrate false di =
    let next = di.integrator - 1 in
    if di.integrator == 0
    then di
    else record di { integrator = next; input = if next == 0 then off else di.input }

-- What the round tells the reactor.
unfoldable pub notices_of : DigitalInput → InputState → List PinNotice
notices_of di previous_input =
    if not (same_input di.input previous_input) && not (di.handler == null_handle)
    then record { handle = di.handler; pin = di.pin; value = is_on di.input } ∷ []
    else []

-- `_digital_input_sample`
unfoldable pub sample : (ℕ → Bool) → List DigitalInput → List PinNotice × List DigitalInput
sample level [] = ([], [])
sample level (di ∷ rest) =
    let di' = integrate (level di.pin) di in
    let r = sample level rest in (notices_of di' di.input ++ r.0, di' ∷ r.1)

-- `digital_input` with IOPORT_SENSE_DISABLE: the new input at the end of the chain. The memory of
-- `mem_calloc` is zero.
unfoldable pub digital_input : List DigitalInput → ℕ → ℕ → ℕ → List DigitalInput
digital_input first_sampled pin reactor filter_value =
    first_sampled
    ++ (record {
      pin = pin;
      handler = reactor;
      input = unknown;
      integrator_threshold = u8 (filter_value / sample_period);
      integrator = 0;
    }
        ∷ [])

unfoldable pub digital_input_value : DigitalInput → Bool
digital_input_value di = is_on di.input
