-- ===== src/DigitalOutput.antt =====
-- src/digital_output.c: an output pin that plays a sequence given as a string. A string is the list of
-- its characters before the terminating zero, and a pointer into it is the rest of the list.
pub mod Play
pub mod Timed
mod Tests
use asx.Base.{
  ℕ, zero, suc, ◌+◌, ◌-◌, ◌/◌, ◌^◌, ◌%◌, Bool, true, false, ◌&&◌, ◌||◌, Option, none, some, List,
  [], ◌∷◌,
}
use asx.Base.{leb, ◌==◌, if◌then◌else◌}

-- `_digital_output_t`, with the level of its pin. The timer instance is left to the timer service.
pub record DigitalOutput : Type 0 where
  pub level : Bool
  pub reference_period_ms : ℕ
  pub current_duration_shift : ℕ
  pub sequence : List ℕ
  pub next : List ℕ
  pub repeat : Bool

-- `isdigit`
abbrev pub isdigit : ℕ → Bool
isdigit c = leb 48 c && leb c 57

-- `_parse_next` in `state_duration`, at the rest of the string.
unfoldable pub parse_duration : List ℕ → DigitalOutput → Bool × DigitalOutput
parse_duration [] out = (false, record out { next = out.sequence })
parse_duration (c ∷ cs) out =
    if isdigit c
    then (true, record out { current_duration_shift = c - 48; next = cs })
    else (true, record out { next = c ∷ cs })

-- `_parse_next` in `state_initial`: 32, 43 and 45 are the space, `+` and `-`.
unfoldable pub parse_initial : List ℕ → DigitalOutput → Bool × DigitalOutput
parse_initial [] out = (false, record out { next = out.sequence })
parse_initial (c ∷ cs) out =
    let rest = parse_initial cs out in
    if c == 32
    then rest
    else if c == 43
    then parse_duration cs (record out { level = true })
    else if c == 45
    then parse_duration cs (record out { level = false })
    else parse_duration (c ∷ cs) out

unfoldable pub parse_next : DigitalOutput → Bool × DigitalOutput
parse_next out = parse_initial out.next out

-- `_digital_output_reactor_handler`: the delay for which the timer is armed, if it is.
unfoldable pub handle_timer : DigitalOutput → Option ℕ × DigitalOutput
handle_timer out =
    let (more, out') = parse_next out in
    if more || out'.repeat
    then (some (out'.reference_period_ms / 2 ^ out'.current_duration_shift), out')
    else (none, out')

-- `digitial_output_start`, behind the cancellation of the sequence that plays.
unfoldable pub start : DigitalOutput → ℕ → List ℕ → Bool → Option ℕ × DigitalOutput
start out reference_time sequence repeat = handle_timer (record out {
  sequence = sequence;
  next = sequence;
  repeat = repeat;
  reference_period_ms = reference_time % 2 ^ 16;
})
