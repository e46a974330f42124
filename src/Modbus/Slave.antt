-- ===== src/Modbus/Slave.antt =====
-- include/asx/modbus_rtu_slave.hpp: the state machine of a Modbus RTU slave. The datagram is generated
-- from a description of the device, and is a parameter, and so is the state machine library. The calls
-- of the timer and the UART are kept in a list, the latest first.
pub mod Answers
pub mod Exchange
use asx.Base.{ℕ, Bool, true, false, List, [], ◌∷◌, ◌==◌}
use asx.Modbus.Machine.{Row, on, on_entry, Sml}

-- The names of the states in the table.
pub data State : Type 0 where
  cold : State
  initial : State
  idle : State
  reception : State
  skip_frame : State
  control_and_waiting : State
  reply : State
  emission : State

pub data Event : Type 0 where
  can_start : Event
  t15_timeout : Event
  t35_timeout : Event
  t40_timeout : Event
  char_received : (c : ℕ) → Event
  frame_sent : Event

-- `Datagram::status_t`, with its other values.
pub data Status : Type 0 where
  not_for_me : Status
  bad_crc : Status
  good_frame : Status
  other_status : Status

-- The calls of `Timer` and `Uart`.
pub data Call : Type 0 where
  start : Call
  enable_rx : Call
  disable_rx : Call
  send : (buffer : List ℕ) → Call

-- The template parameter `Datagram`, with `D` for its variables; `first_byte` is `get_buffer()[0]`.
pub record Datagram {ℓ} (D : Type ℓ) : Type ℓ where
  pub reset : D → D
  pub process_char : ℕ → D → D
  pub ready_reply : D → D
  pub get_status : D → Status
  pub get_buffer : D → List ℕ
  pub first_byte : D → ℕ

pub record World {ℓ} (D : Type ℓ) : Type ℓ where
  pub datagram : D
  pub calls : List Call

-- The tests for a state and for a kind of event that the table writes `"name"_s` and `event<kind>`.
abbrev number : State → ℕ
number cold = 0
number initial = 1
number idle = 2
number reception = 3
number skip_frame = 4
number control_and_waiting = 5
number reply = 6
number emission = 7

abbrev pub is : State → State → Bool
is s s' = number s == number s'

abbrev kind : Event → ℕ
kind can_start = 0
kind t15_timeout = 1
kind t35_timeout = 2
kind t40_timeout = 3
kind (char_received c) = 4
kind frame_sent = 5

abbrev pub event : Event → Event → Bool
event e e' = kind e == kind e'

abbrev any_char : Event
any_char = char_received 0

module _ {ℓ} {D : Type ℓ} (d : Datagram D) where
  -- The guards.
  unfoldable pub must_reply : World D → Bool
  must_reply w = replies (d.get_status w.datagram)
    where
      replies : Status → Bool
      replies not_for_me = false
      replies bad_crc = false
      replies good_frame = true
      replies other_status = false

  unfoldable pub broadcast : World D → Bool
  broadcast w = d.first_byte w.datagram == 0

  -- The actions.
  abbrev called : Call → World D → World D
  called call w = record w { calls = call ∷ w.calls }

  abbrev start_timer : World D → World D
  start_timer w = called start w

  abbrev reset : World D → World D
  reset w = record w { datagram = d.reset w.datagram }

  abbrev ready_reply : World D → World D
  ready_reply w = record w { datagram = d.ready_reply w.datagram }

  abbrev listen : World D → World D
  listen w = called enable_rx w

  abbrev send_reply : World D → World D
  send_reply w = called (send (d.get_buffer w.datagram)) (called disable_rx w)

  abbrev handle_char : Event → World D → World D
  handle_char (char_received c) w = record (called start w) {
    datagram = d.process_char c w.datagram;
  }
  handle_char e w = w

  abbrev always : World D → Bool
  always w = true

  abbrev nothing : Event → World D → World D
  nothing e w = w

  -- The table, with the first state in front of it.
  abbrev pub transition_table : List (Row State Event (World D))
  transition_table =
      on (is cold) (event can_start) always nothing initial
      ∷ on_entry (is initial) start_timer
      ∷ on (is initial) (event t35_timeout) always nothing idle
      ∷ on (is initial) (event any_char) always (λ e. start_timer) initial
      ∷ on_entry (is idle) reset
      ∷ on (is idle) (event any_char) always handle_char reception
      ∷ on (is reception) (event t15_timeout) must_reply nothing control_and_waiting
      ∷ on (is reception) (event t15_timeout) always nothing skip_frame
      ∷ on (is reception) (event any_char) always handle_char reception
      ∷ on (is skip_frame) (event t35_timeout) always nothing idle
      ∷ on (is skip_frame) (event any_char) always nothing initial
      ∷ on_entry (is control_and_waiting) ready_reply
      ∷ on (is control_and_waiting) (event t35_timeout) always nothing reply
      ∷ on (is control_and_waiting) (event any_char) always nothing initial
      ∷ on (is control_and_waiting) (event t35_timeout) always nothing idle
      ∷ on (is reply) (event any_char) always nothing initial
      ∷ on (is reply) (event t40_timeout) broadcast nothing idle
      ∷ on (is reply) (event t40_timeout) always nothing emission
      ∷ on_entry (is emission) send_reply
      ∷ on (is emission) (event frame_sent) always (λ e. listen) initial
      ∷ []

  abbrev pub init_state : State
  init_state = cold

  -- `on_rx_char`, `on_timeout_t15`, `on_timeout_t35`, `on_timeout_t40` and `on_send_complete` hand
  -- their event to the machine; `init` does so with `can_start`.
  module _ (sml : Sml State Event (World D)) where
    unfoldable pub handle : Event → State × World D → State × World D
    handle e m = sml.process_event transition_table e m

    unfoldable pub handle_all : List Event → State × World D → State × World D
    handle_all [] m = m
    handle_all (e ∷ es) m = handle_all es (handle e m)

    -- The machine behind `init`, with the variables of the datagram as they are.
    unfoldable pub init : D → State × World D
    init x = handle can_start (cold, record { datagram = x; calls = [] })
