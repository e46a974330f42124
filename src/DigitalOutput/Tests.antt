-- ===== src/DigitalOutput/Tests.antt =====
-- Runs of a sequence, and the theorems at concrete ones.
use asx.Base.{◌≡◌, refl, arith, true, false, List, [], ◌∷◌, replicate}
use asx.DigitalOutput.{
  DigitalOutput, parse_duration, parse_initial, parse_next, handle_timer, start,
}
use asx.DigitalOutput.Play.{Item, print, plan, play, play-start}
use asx.DigitalOutput.Timed
use asx.DigitalOutput.Timed.{TimedOutput, set}
use asx.DigitalOutput.Timed.Stop.{start-set}
use asx.Base.Outcome.{returned}
use asx.Timer.{Timer}
use asx.Timer.Pending.{Holds, pending}

abbrev idle : DigitalOutput
idle = record {
  level = false;
  reference_period_ms = 0;
  current_duration_shift = 0;
  sequence = [];
  next = [];
  repeat = false;
}

-- "+2-3": on for a quarter, off for an eighth.
abbrev dot : List Item
dot = record { item_level = true; shift = 2 } ∷ record { item_level = false; shift = 3 } ∷ []

-- The string "+2 3": the second item has no sign, and keeps the level.
play-dot :
    (play 9 (start idle 800 (43 ∷ 50 ∷ 32 ∷ 51 ∷ []) false)).0 ≡ (true, 200) ∷ (true, 100) ∷ []
unfolding play start handle_timer parse_next parse_initial parse_duration
play-dot = refl

play-start_example : (play 5 (start idle 800 (print dot) false)).0 ≡ plan 800 dot
play-start_example =
    play-start idle 800 5 dot (omega arith, (omega arith, tt)) (omega arith) (omega arith)

-- The string "X" is not passed over.
play-stuck : (play 4 (start idle 800 (88 ∷ []) false)).0 ≡ replicate 4 (false, 800)
unfolding play start handle_timer parse_next parse_initial parse_duration
play-stuck = refl

-- A timer service on which nothing is armed.
abbrev service : Timer
service = record {
  slots = λ i. record { reactor = 255; instance_id = 0; count = 0; repeat = 0; arg = 0 };
  counter = 100;
  active = 0;
  avail = 0;
  current_instance = 4;
}

service-Holds : Holds service 0
service-Holds = record {
  active_in = omega arith;
  room = omega arith;
  next_free = refl;
  free = λ j above below. refl;
}

abbrev quiet : TimedOutput
quiet = record { output = idle; timer = 0 }

start-set_example :
    (t' after : Timer) × (playing stopped : TimedOutput) × (Timed.start 6 77 service quiet 800
        (print dot)
        true
      ≡ returned (t', playing))
    × (playing.output ≡ (start idle 800 (print dot) true).1)
    × (set t' playing true ≡ returned (after, stopped))
    × Holds after 0
    × (pending after 0 ≡ [])
    × (stopped.output ≡ record playing.output { level = true })
start-set_example =
    start-set 6 77 service 0 quiet 800 (print dot) true true service-Holds (omega arith) refl
      (omega arith) tt
