-- ===== src/DigitalOutput/Timed/Stop.antt =====
-- src/digital_output.c: what becomes of the timer of a sequence.
use asx.Base.{
  ℕ, ◌%◌, ◌^◌, ◌<◌, ◌≡◌, ◌≢◌, refl, ◌∙◌, Bool, true, List, none, some, inl, inr, Option-cases,
}
use asx.Base.{==_false, ==_true}
use asx.Base.Outcome.{returned}
use asx.DigitalOutput
use asx.DigitalOutput.{DigitalOutput, handle_timer}
use asx.DigitalOutput.Timed.{TimedOutput, cancel_sequence, set, handle_output, start}
use asx.Timer.{Timer, arm, cancel, get_count_from_now}
use asx.Timer.Pending.{Holds, pending}
use asx.Timer.Undo.{Absent, next_instance, arm-cancel}

-- An output as `start` leaves it for its handler.
abbrev at_start : DigitalOutput → ℕ → List ℕ → Bool → DigitalOutput
at_start output reference_time sequence repeat = record output {
  sequence = sequence;
  next = sequence;
  repeat = repeat;
  reference_period_ms = reference_time % 2 ^ 16;
}

handle_none :
    (reactor arg : ℕ) (t : Timer) (out : TimedOutput)
    → (handle_timer out.output).0 ≡ none
    → handle_output reactor arg t out
      ≡ returned (t, record { output = (handle_timer out.output).1; timer = 0 })
unfolding handle_output
handle_none reactor arg t out due = rw (handle_output, due) refl

handle_some :
    (reactor arg : ℕ) (t : Timer) (out : TimedOutput) (delay instance_id : ℕ) (t' : Timer)
    → (handle_timer out.output).0 ≡ some delay
    → arm t reactor (get_count_from_now t delay) 0 arg ≡ returned (instance_id, t')
    → handle_output reactor arg t out
      ≡ returned (t', record { output = (handle_timer out.output).1; timer = instance_id })
unfolding handle_output
handle_some reactor arg t out delay instance_id t' due arms = rw (handle_output, due, arms) refl

start_quiet :
    (reactor arg : ℕ) (t : Timer) (out : TimedOutput) (reference_time : ℕ) (sequence : List ℕ)
    (repeat : Bool)
    → out.timer ≡ 0
    → start reactor arg t out reference_time sequence repeat
      ≡ handle_output reactor arg t
          (record out { output = at_start out.output reference_time sequence repeat })
unfolding start cancel_sequence
start_quiet reactor arg t out reference_time sequence repeat quiet =
    rw (==_true out.timer 0 quiet) refl

start_silent :
    (reactor arg : ℕ) (t : Timer) (out : TimedOutput) (reference_time : ℕ) (sequence : List ℕ)
    (repeat : Bool)
    → out.timer ≡ 0
    → (DigitalOutput.start out.output reference_time sequence repeat).0 ≡ none
    → start reactor arg t out reference_time sequence repeat
      ≡ returned (
        t,
        record {
          output = (DigitalOutput.start out.output reference_time sequence repeat).1;
          timer = 0;
        },
      )
unfolding DigitalOutput.start
start_silent reactor arg t out reference_time sequence repeat quiet due =
    start_quiet reactor arg t out reference_time sequence repeat quiet
    ∙ handle_none reactor arg t _ due

start_armed :
    (reactor arg : ℕ) (t : Timer) (out : TimedOutput) (reference_time : ℕ) (sequence : List ℕ)
    (repeat : Bool) (delay instance_id : ℕ) (t' : Timer)
    → out.timer ≡ 0
    → (DigitalOutput.start out.output reference_time sequence repeat).0 ≡ some delay
    → arm t reactor (get_count_from_now t delay) 0 arg ≡ returned (instance_id, t')
    → start reactor arg t out reference_time sequence repeat
      ≡ returned (
        t',
        record {
          output = (DigitalOutput.start out.output reference_time sequence repeat).1;
          timer = instance_id;
        },
      )
unfolding DigitalOutput.start
start_armed reactor arg t out reference_time sequence repeat delay instance_id t' quiet due arms =
    start_quiet reactor arg t out reference_time sequence repeat quiet
    ∙ handle_some reactor arg t _ delay instance_id t' due arms

set_silent :
    (t : Timer) (out : TimedOutput) (value : Bool)
    → out.timer ≡ 0
    → set t out value ≡ returned (t, record out { output = record out.output { level = value } })
unfolding set cancel_sequence
set_silent t out value quiet = rw (==_true out.timer 0 quiet) refl

set_armed :
    (t after : Timer) (out : TimedOutput) (value found : Bool)
    → out.timer ≢ 0
    → cancel t out.timer ≡ returned (found, after)
    → set t out value
      ≡ returned (after, record out { output = record out.output { level = value } })
unfolding set cancel_sequence
set_armed t after out value found instance gone = rw (==_false out.timer 0 instance, gone) refl

-- An output on which no sequence plays. Its sequence starts as `start` of DigitalOutput says; setting the
-- output then, before any timer expires, cancels the sequence: the timers are those that were armed
-- before, and the pin has the level. The conditions: at most 14 timers are armed, and the instance that
-- the sequence is given is neither 0 nor that of a timer that is armed.
pub start-set :
    (reactor arg : ℕ) (t : Timer) (n : ℕ) (out : TimedOutput) (reference_time : ℕ)
    (sequence : List ℕ) (repeat value : Bool)
    → Holds t n
    → n < 15
    → out.timer ≡ 0
    → next_instance t ≢ 0
    → Absent (next_instance t) (pending t n)
    → (t' after : Timer) × (playing stopped : TimedOutput) × (start reactor arg t out reference_time
          sequence repeat
        ≡ returned (t', playing))
      × (playing.output ≡ (DigitalOutput.start out.output reference_time sequence repeat).1)
      × (set t' playing value ≡ returned (after, stopped))
      × Holds after n
      × (pending after n ≡ pending t n)
      × (stopped.output ≡ record playing.output { level = value })
start-set reactor arg t n out reference_time sequence repeat value holds fits quiet instance
      absent =
    elim (Option-cases (DigitalOutput.start out.output reference_time sequence repeat).0) [
      | inl none_due ↦ (
        t,
        t,
        _,
        _,
        start_silent reactor arg t out reference_time sequence repeat quiet none_due,
        refl,
        set_silent t _ value refl,
        holds,
        refl,
        refl,
      )
      | inr (delay, due) ↦
          let (t', after, arms, gone, kept, same) =
            arm-cancel t n reactor (get_count_from_now t delay) arg holds fits absent in
          (
            t',
            after,
            _,
            _,
            start_armed reactor arg t out reference_time sequence repeat delay (next_instance t) t'
                quiet due arms,
            refl,
            set_armed t' after _ value true instance gone,
            kept,
            same,
            refl,
          )
    ]
