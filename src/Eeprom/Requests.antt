-- ===== src/Eeprom/Requests.antt =====
-- src/eeprom.cpp, include/asx/eeprom.hpp: `Operation`, the queue of operations that wait for the EEPROM. An
-- operation is the number of its object; what its `do_operation`, a virtual function, does to the rest
-- of the program is the parameter of that name.
pub mod Distinct
pub mod Queued
pub mod Served
use asx.Base.{ℕ, ◌+◌, ◌/◌, Bool, true, false, List, [], ◌∷◌, if◌then◌else◌}
use asx.Base.Outcome.{Outcome, returned, ◌>>=◌}
use asx.FixedPtrQueue.{FixedPtrQueue, construct, is_empty, push_unique, pop}

-- `EEPROM_SIZE / EEPROM_PAGE_SIZE` of the processor (include/sim/avr/io.h).
abbrev pub page_count : ℕ
page_count = 256 / 64

-- The size of the queue.
abbrev pub room : ℕ
room = page_count + 1

-- The queue, the bit EEREADY of INTCTRL, and whether the reactor has to call `on_eeprom_ready`.
pub record Requests : Type 0 where
  pub operations : FixedPtrQueue
  pub eeready : Bool
  pub notified : Bool

abbrev pub start : Requests
start = record { operations = construct room; eeready = false; notified = false }

pub request_operation : ℕ → Requests → Outcome Requests
request_operation this r = push_unique room (room + 1) r.operations this >>= λ queue.
    returned (record r { operations = queue; eeready = true })

-- `ISR(NVMCTRL_EE_vect)`
unfoldable pub ready_vector : Requests → Requests
ready_vector r = record r { eeready = false; notified = true }

-- What can happen next: an object asks for its operation, the EEPROM is ready, which interrupts while
-- EEREADY is on, or the reactor comes to its handler, when it has been notified.
pub data Event : Type 0 where
  request : ℕ → Event
  interrupt : Event
  react : Event

module _ {S : Type 0} (do_operation : ℕ → S → S) where
  pub on_eeprom_ready : Requests → S → Outcome (Requests × S)
  on_eeprom_ready r s =
      if is_empty room r.operations
      then returned (r, s)
      else (pop room r.operations >>= λ (this, queue).
          returned (record r { operations = queue; eeready = true }, do_operation this s))

  pub step : Event → Requests → S → Outcome (Requests × S)
  step (request this) r s = request_operation this r >>= λ after. returned (after, s)
  step interrupt r s = returned (if r.eeready then ready_vector r else r, s)
  step react r s =
      if r.notified then on_eeprom_ready (record r { notified = false }) s else returned (r, s)

  unfoldable pub steps : List Event → Requests → S → Outcome (Requests × S)
  steps [] r s = returned (r, s)
  steps (event ∷ events) r s = step event r s >>= λ (after, t). steps events after t
