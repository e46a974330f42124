-- ===== src/DigitalOutput/Timed.antt =====
-- src/digital_output.c: the outputs over the timer service of src/timer.c.
pub mod Stop
use asx.Base.{ℕ, ◌%◌, ◌^◌, Bool, not, none, some, List}
use asx.Base.{◌==◌, if◌then◌else◌}
use asx.Base.Outcome.{Outcome, returned, ◌>>=◌}
use asx.DigitalOutput.{DigitalOutput, handle_timer}
use asx.Timer.{Timer, arm, cancel, get_count_from_now}

-- `_digital_output_t` with its timer instance.
pub record TimedOutput : Type 0 where
  pub output : DigitalOutput
  pub timer : ℕ

-- `_cancel_sequence`: the parameter is a copy, so that the instance of the output stays.
unfoldable pub cancel_sequence : ℕ → Timer → Outcome Timer
cancel_sequence timer t =
    if not (timer == 0) then (cancel t timer >>= λ (found, after). returned after) else returned t

-- `digitial_output_set` and `digitial_output_toggle`
unfoldable pub set : Timer → TimedOutput → Bool → Outcome (Timer × TimedOutput)
set t out value = cancel_sequence out.timer t >>= λ after.
    returned (after, record out { output = record out.output { level = value } })

unfoldable pub toggle : Timer → TimedOutput → Outcome (Timer × TimedOutput)
toggle t out = cancel_sequence out.timer t >>= λ after.
    returned (after, record out { output = record out.output { level = not out.output.level } })

-- `_reactor`, and the pointer to the output as the argument of its timer.
module _ (reactor arg : ℕ) where
  -- `_digital_output_reactor_handler`
  unfoldable pub handle_output : Timer → TimedOutput → Outcome (Timer × TimedOutput)
  handle_output t out =
      let (delay, output) = handle_timer out.output in
      elim delay [
        | some count ↦ arm t reactor (get_count_from_now t count) 0 arg >>= λ (instance_id, after).
            returned (after, record { output = output; timer = instance_id })
        | none ↦ returned (t, record { output = output; timer = 0 })
      ]

  -- `digitial_output_start`
  unfoldable pub start : Timer → TimedOutput → ℕ → List ℕ → Bool → Outcome (Timer × TimedOutput)
  start t out reference_time sequence repeat = cancel_sequence out.timer t >>= λ after.
      handle_output after (record out {
        output = record out.output {
          sequence = sequence;
          next = sequence;
          repeat = repeat;
          reference_period_ms = reference_time % 2 ^ 16;
        };
      })
