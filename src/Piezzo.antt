-- ===== src/Piezzo.antt =====
-- src/piezzo.c: tunes on a piezzo, given as strings of notes. A string is the list of its characters
-- before the terminating zero, and a pointer into it is the rest of the list.
pub mod Print
pub mod Notes
pub mod Tune
mod Tests
use asx.Base.{ℕ, zero, suc, ◌+◌, ◌-◌, ◌*◌, ◌/◌, ◌^◌, ◌%◌}
use asx.Base.{Bool, true, false, not, ◌&&◌, ◌||◌, Option, none, some, List, [], ◌∷◌, ◌++◌}
use asx.Base.{u8, leb, ltb, ◌==◌, if◌then◌else◌, get_or, ◌>>=◌}

-- `note_parsing_state_t`
pub data State : Type 0 where
  state_note : State
  state_alteration : State
  state_octave_shift : State
  state_duration : State
  state_space : State
  state_done : State

-- `piezzo_s`
pub record Piezzo : Type 0 where
  pub octave_shift : ℕ
  pub tempo_full_period : ℕ
  pub note_duration_pow_number : ℕ
  pub slur : Bool
  pub slur_next : Bool
  pub ref_duration : ℕ
  pub duration : ℕ
  pub next_note : List ℕ

-- `_note_to_pwm`: the rows are flats, regular notes and sharps, the columns C to B.
abbrev note_to_pwm : List (List ℕ)
note_to_pwm =
    (20248 ∷ 18039 ∷ 16071 ∷ 15169 ∷ 13514 ∷ 12039 ∷ 10726 ∷ [])
    ∷ (19111 ∷ 17026 ∷ 15169 ∷ 14317 ∷ 12755 ∷ 11364 ∷ 10124 ∷ [])
    ∷ (18039 ∷ 16071 ∷ 14317 ∷ 13514 ∷ 12039 ∷ 10726 ∷ 9556 ∷ [])
    ∷ []

abbrev pub pwm_of : ℕ → ℕ → ℕ
pwm_of alt_index note_index = get_or (get_or note_to_pwm alt_index []) note_index 0

-- `_get_cmp_value`
unfoldable pub get_cmp_value : Piezzo → ℕ
get_cmp_value p = p.ref_duration / 2 ^ p.octave_shift

-- The other variables of `_parse_next_note`.
pub record Indices : Type 0 where
  pub note_index : ℕ
  pub alt_index : ℕ

-- `isdigit`
abbrev pub isdigit : ℕ → Bool
isdigit c = leb 48 c && leb c 57

-- A round of the loop of `_parse_next_note` at the character `c`, with `cs` behind it. A case that
-- takes one off `next_note` leaves it where it is.
unfoldable pub parse_char : State → ℕ → List ℕ → Indices → Piezzo → State × Indices × Piezzo
parse_char state_note c cs v p =
    let p' = record p { next_note = cs } in
    if leb 65 c && leb c 71
    then (state_alteration, record v { note_index = (c - 65 + 5) % 7 }, p')
    else if c == 82
    then (state_duration, v, record p' { ref_duration = 0 })
    else (state_note, v, p')
parse_char state_alteration c cs v p =
    if c == 98
    then (state_octave_shift, record v { alt_index = 0 }, record p { next_note = cs })
    else if c == 100
    then (state_octave_shift, record v { alt_index = 2 }, record p { next_note = cs })
    else (state_octave_shift, record v { alt_index = 1 }, record p { next_note = c ∷ cs })
parse_char state_octave_shift c cs v p =
    let p' = record p { next_note = cs } in
    if c == 44
    then (
      state_octave_shift,
      v,
      if ltb 0 p.octave_shift then record p' { octave_shift = p.octave_shift - 1 } else p',
    )
    else if c == 39
    then (state_octave_shift, v, record p' { octave_shift = u8 (p.octave_shift + 1) % 5 })
    else (
      state_duration,
      v,
      record p { next_note = c ∷ cs; ref_duration = pwm_of v.alt_index v.note_index },
    )
parse_char state_duration c cs v p =
    if isdigit c
    then (
      state_space,
      v,
      record p { next_note = cs; duration = p.tempo_full_period / 2 ^ (c - 48) },
    )
    else (state_space, v, record p { next_note = c ∷ cs })
parse_char state_space c cs v p = (state_done, v, record p { next_note = cs; slur_next = c == 126 })
parse_char state_done c cs v p = (state_done, v, record p { next_note = cs })

-- The loop, at the rest `cs` of the string.
unfoldable pub parse_loop : ℕ → List ℕ → State × Indices × Piezzo → Option Piezzo
parse_loop zero cs (s, v, p) = none
parse_loop (suc fuel) [] (s, v, p) = some p
parse_loop (suc fuel) (c ∷ cs) (state_done, v, p) = some p
parse_loop (suc fuel) (c ∷ cs) (s, v, p) =
    let next = parse_char s c cs v p in parse_loop fuel next.2.next_note next

-- Every round but three advances the pointer.
abbrev pub parse_fuel : List ℕ → ℕ
parse_fuel [] = 5
parse_fuel (c ∷ cs) = suc (parse_fuel cs)

-- `_parse_next_note`
unfoldable pub parse_next_note : Piezzo → Option Piezzo
parse_next_note p =
    parse_loop (parse_fuel p.next_note) p.next_note
      (state_note, record { note_index = 0; alt_index = 0 }, p)

-- What the code asks of the hardware and of the timer service, in order.
pub data Effect : Type 0 where
  set_timer_compare_period : (value : ℕ) → Effect
  stop_timer_compare : Effect
  arm_note : (delay : ℕ) → Effect
  arm_tone_stop : (delay : ℕ) → Effect
  cancel : (instance : ℕ) → Effect

-- The static variables.
pub record Player : Type 0 where
  pub piezzo : Piezzo
  pub last_tc_value : ℕ
  pub new_tc_value : ℕ
  pub timer_instance : ℕ
  pub playing_tone : Bool
  pub playing_tone_recovery_value : ℕ

abbrev pub set_or_stop : ℕ → Effect
set_or_stop value = if value == 0 then stop_timer_compare else set_timer_compare_period value

-- `_play_next_note` behind the parsing of a note: what sounds, if no tone does.
abbrev pub sound : Player → Piezzo → List Effect
sound s p =
    if not (s.last_tc_value == get_cmp_value p) || not p.slur
    then (if s.playing_tone then [] else set_or_stop (get_cmp_value p) ∷ [])
    else []

-- `_play_next_note` at the rest of the string; `instance` is what `timer_arm` returns.
abbrev pub play_at : ℕ → Player → List ℕ → Option (Player × List Effect)
play_at instance s [] = some (
  record s { playing_tone_recovery_value = 0 },
  (if s.playing_tone then [] else stop_timer_compare ∷ []),
)
play_at instance s (c ∷ cs) =
    parse_next_note (record s.piezzo { slur = s.piezzo.slur_next }) >>= λ p. some (
      record s {
        piezzo = p;
        new_tc_value = get_cmp_value p;
        playing_tone_recovery_value = get_cmp_value p;
        last_tc_value = get_cmp_value p;
        timer_instance = instance;
      },
      sound s p ++ (arm_note p.duration ∷ []),
    )

unfoldable pub play_next_note : ℕ → Player → Option (Player × List Effect)
play_next_note instance s = play_at instance s s.piezzo.next_note

abbrev pub cancellation : Player → List Effect
cancellation s = if s.timer_instance == 0 then [] else cancel s.timer_instance ∷ []

-- `piezzo_play`; none is a division by zero.
unfoldable pub play : ℕ → ℕ → List ℕ → Player → Option (Player × List Effect)
play instance tempo music s =
    let period = 240000 / tempo % 2 ^ 16 in
    let p = record s.piezzo {
      next_note = music;
      octave_shift = 2;
      tempo_full_period = period;
      note_duration_pow_number = 2;
      duration = period / 2 ^ 2;
      slur_next = false;
    } in
    if tempo == 0
    then none
    else play_next_note instance (record s { piezzo = p }) >>= λ m.
        some (m.0, cancellation s ++ m.1)

-- `piezzo_stop`
unfoldable pub stop : Player → Player × List Effect
stop s = (s, cancellation s ++ (stop_timer_compare ∷ []))

-- `piezzo_start_tone`
unfoldable pub start_tone : ℕ → ℕ → Player → Player × List Effect
start_tone pwm_value duration s = (
  record s { playing_tone = true },
  set_timer_compare_period pwm_value ∷ (if duration == 0 then [] else arm_tone_stop duration ∷ []),
)

-- `_stop_tone`, which is `piezzo_stop_tone` too.
unfoldable pub stop_tone : Player → Player × List Effect
stop_tone s = (
  record s { playing_tone = false; playing_tone_recovery_value = 0 },
  set_or_stop s.playing_tone_recovery_value ∷ [],
)
