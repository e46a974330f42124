-- ===== src/DigitalInput/Tests.antt =====
-- Runs of the sampling, and the theorems at concrete inputs.
use asx.Base.{none, some, if◌then◌else◌, ◌≡◌, refl, arith, true, false, [], ◌∷◌, ◌==◌}
use asx.DigitalInput.{DigitalInput, on, off, unknown, integrate, notices_of, sample, digital_input}
use asx.DigitalInput.Direct.{
  DirectInput, Direct, notified, armed, update, handle_pin_change_isr, isr_loop, react_pending,
  react_direct, direct_handler, clear_interrupt,
}
use asx.DigitalInput.Direct.Flags.{is_new}
use asx.DigitalInput.Direct.Lost.{here, reacted, lost_lem}
use asx.DigitalInput.Direct.Once.{IsHighest, once_lem}
use asx.Base.Digits.{test_bit, test_bit-zero, test_bit_above}
use asx.Base.Outcome.{returned}
use asx.DigitalInput.Filter.{IsSound, feed, count_of, feed_stays_level}
use asx.DigitalInput.Sample.{All, sample_times, Reads, sample_times_settle}

-- A filter of 15 ms: three samples. The input is off.
abbrev button : DigitalInput
button = record { pin = 4; handler = 9; input = off; integrator_threshold = 3; integrator = 0 }

button-IsSound : IsSound button
button-IsSound = record {
  byte = omega arith;
  below = omega arith;
  on_above = λ e. absurd (cc);
  off_below = λ e. omega arith;
  at_top = λ some_room e. absurd (omega arith);
}

-- The third high sample tells the reactor, and not before.
sample-button :
    (sample (λ pin. pin == 4) (record button { integrator = 1 } ∷ [])
      ≡ ([], record button { integrator = 2 } ∷ []))
    × (sample (λ pin. pin == 4) (record button { integrator = 2 } ∷ []) ≡ (
      record { handle = 9; pin = 4; value = true } ∷ [],
      record button { integrator = 3; input = on } ∷ [],
    ))
unfolding sample notices_of integrate
sample-button = (refl, refl)

-- The button is held.
abbrev held : DigitalInput
held = record button { integrator = 3; input = on }

held-IsSound : IsSound held
held-IsSound = record {
  byte = omega arith;
  below = omega arith;
  on_above = λ e. omega arith;
  off_below = λ e. absurd (cc);
  at_top = λ some_room e. refl;
}

feed_stays_level_example : (feed (false ∷ true ∷ false ∷ []) held).input ≡ on
unfolding count_of
feed_stays_level_example =
    feed_stays_level true (false ∷ true ∷ false ∷ []) held held-IsSound refl (omega arith)

sample_times_settle_example :
    All (Reads (λ pin. pin == 4)) (sample_times 300 (λ pin. pin == 4) (button ∷ held ∷ []))
sample_times_settle_example =
    sample_times_settle 300 (λ pin. pin == 4) (button ∷ held ∷ [])
      (button-IsSound, (held-IsSound, tt)) (omega arith, (omega arith, tt)) (omega arith)

-- An input as `digital_input` makes it: a filter of 20 ms is four samples.
digital_input-button :
    digital_input (button ∷ []) 7 10 20
    ≡ button
      ∷ record { pin = 7; handler = 10; input = unknown; integrator_threshold = 4; integrator = 0 }
      ∷ []
unfolding digital_input
digital_input-button = refl

-- Two direct inputs on port A, the second with a filter.
abbrev bell : DirectInput
bell = record { pin = 3; handler = 9; sense_mode = 1; filter = 20 }

abbrev door : DirectInput
door = record { pin = 0; handler = 8; sense_mode = 2; filter = 0 }

abbrev watched : Direct
watched = record {
  first_direct = door ∷ bell ∷ [];
  isr_bit_mask = λ port. 0;
  sense = λ pin. if pin == 3 then 1 else 2;
  pending = none;
}

-- Pin 3 is low and pin 0 high: the change of pin 3 is told with the value true.
vector-bell :
    handle_pin_change_isr 0 0b0001 0b1000 watched
    ≡ returned (record watched {
      isr_bit_mask = update watched.isr_bit_mask 0 0b1000;
      sense = update watched.sense 3 0;
      pending = some (record { pin = 3; value = true });
    })
unfolding handle_pin_change_isr isr_loop
vector-bell = refl

eight : IsHighest 3 0b1000
unfolding test_bit
eight = (refl, λ j above lt. test_bit_above 4 0b1000 j (omega arith) (omega (arith, above)))

once_lem_example :
    (first second cleared third : Direct) × (handle_pin_change_isr 0 0b0001 0b1000 watched
      ≡ returned first)
    × (first.pending ≡ some (record { pin = 3; value = true }))
    × (first.sense 3 ≡ 0)
    × (handle_pin_change_isr 0 0b1000 0b1000 first ≡ returned second)
    × (second.pending ≡ first.pending)
    × (react_direct second
        ≡ some (
          notified (record { handle = 9; pin = 3; value = true }) ∷ armed bell ∷ [],
          record second { pending = none },
        ))
    × (clear_interrupt bell (record second { pending = none }) ≡ some cleared)
    × (cleared.sense 3 ≡ 1)
    × (cleared.pending ≡ none)
    × (handle_pin_change_isr 0 0b0000 0b1000 cleared ≡ returned third)
    × (third.pending ≡ some (record { pin = 3; value = false }))
once_lem_example =
    once_lem bell (door ∷ []) [] watched 0b0001 0b1000 0b1000 0b1000 0b0000 0b1000 (omega arith)
      refl ((λ e. omega (arith, e)), tt) (omega arith) (test_bit-zero 3) (omega arith) (omega arith)
      (omega arith) eight (λ j small on. rw (test_bit-zero j, on) refl) eight

-- The pins 0 and 3 change at once: pin 3 is told, and pin 0 stays disabled.
abbrev both : Direct
both = record watched {
  isr_bit_mask = update watched.isr_bit_mask 0 0b1001;
  sense = update (update watched.sense 0 0) 3 0;
  pending = some (record { pin = 3; value = true });
}

vector-both : handle_pin_change_isr 0 0b0001 0b1001 watched ≡ returned both
unfolding handle_pin_change_isr isr_loop
vector-both = refl

react-both :
    react_direct both
    ≡ some (
      notified (record { handle = 9; pin = 3; value = true }) ∷ armed bell ∷ [],
      record both { pending = none },
    )
unfolding react_pending direct_handler
react-both = refl

new-both : (is_new 0b1001 0 0 ≡ true) × (is_new 0b1001 0 3 ≡ true)
unfolding test_bit
new-both = (refl, refl)

lost_lem_example :
    (both.pending ≡ some (record { pin = 3; value = true }))
    × (both.sense 0 ≡ 0)
    × (both.sense 0 ≡ 0)
    × Unit {0}
lost_lem_example =
    lost_lem 0 0b0001 0b1001 0 3 watched both (record both { pending = none }) (omega arith)
      (omega arith) (omega arith) (λ p. omega arith) new-both.0 new-both.1
      (λ i above below. test_bit_above 4 0b1001 i (omega arith) (omega (arith, above))) vector-both
      (reacted _ here react-both)
