-- ===== src/Modbus/Machine.antt =====
-- The transition tables that include/asx/modbus_rtu_slave.hpp hands to the state machine library
-- boost::sml, and what the code relies on of that library, which is not part of this repository.
use asx.Base.{◌≡◌, Bool, ◌&&◌, Option, none, some, List, [], ◌∷◌, if◌then◌else◌}

-- A row of a table. The machine is in a state of `S` and takes events of `E`; its guards and actions
-- read and change a world `W`. An entry is a row with `on_entry`.
pub data Row {ℓ} (S E : Type 0) (W : Type ℓ) : Type ℓ where
  on :
      (source : S → Bool)
      → (event : E → Bool) → (guard : W → Bool) → (action : E → W → W) → (target : S) → Row S E W
  on_entry : (source : S → Bool) → (action : W → W) → Row S E W

module _ {ℓ} {S E : Type 0} {W : Type ℓ} where
  -- The rows of a table that are tried for an event, in the order of the table.
  abbrev pub first_row : List (Row S E W) → E → S → W → Option ((E → W → W) × S)
  first_row [] e s w = none
  first_row (on source event guard action target ∷ rows) e s w =
      let rest = first_row rows e s w in
      if source s && event e && guard w then some (action, target) else rest
  first_row (on_entry source action ∷ rows) e s w = first_row rows e s w

  -- What is done on the entry to a state.
  abbrev pub enter : List (Row S E W) → S → W → W
  enter [] s w = w
  enter (on source event guard action target ∷ rows) s w = enter rows s w
  enter (on_entry source action ∷ rows) s w =
      let rest = enter rows s w in if source s then action w else rest

  abbrev pub transition : List (Row S E W) → E → W → Option ((E → W → W) × S) → S → S × W
  transition rows e w none s = (s, w)
  transition rows e w (some (action, target)) s = (target, enter rows target (action e w))

-- `sm<StateMachine>` of boost::sml, as it is documented: of the rows for the state and the event the
-- first whose guard holds is taken, its action is done, and then the action on the entry to its
-- target, also where the target is the state that is left; without such a row nothing happens.
pub record Sml {ℓ} (S E : Type 0) (W : Type ℓ) : Type ℓ where
  pub process_event : List (Row S E W) → E → S × W → S × W
  pub processes :
      (rows : List (Row S E W)) (e : E) (s : S) (w : W)
      → process_event rows e (s, w) ≡ transition rows e w (first_row rows e s w) s
