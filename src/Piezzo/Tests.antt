-- ===== src/Piezzo/Tests.antt =====
-- The theorems on tunes at concrete ones.
use asx.Base.{◌≡◌, refl, arith, [], ◌∷◌, ◌++◌, true, false, some}
use asx.Piezzo.{
  Piezzo, Player, set_timer_compare_period, stop_timer_compare, arm_note, cancel, cancellation,
}
use asx.Piezzo.{get_cmp_value, parse_char, parse_loop, parse_next_note, play_next_note, play}
use asx.Piezzo.Notes.{parse_next_note-print_note}
use asx.Piezzo.Print.{Note, letter_c, letter_e, sharp, natural, up, down, print_note, note_read}
use asx.Piezzo.Tune.{print_tune, performed, play_rounds, play_through, play-print_tune}

-- "Cd'3" and "E,2".
abbrev c_sharp : Note
c_sharp = record { letter = letter_c; alteration = sharp; shifts = up ∷ []; digit = 3 }

abbrev low_e : Note
low_e = record { letter = letter_e; alteration = natural; shifts = down ∷ []; digit = 2 }

abbrev idle_piezzo : Piezzo
idle_piezzo = record {
  octave_shift = 2;
  tempo_full_period = 2000;
  note_duration_pow_number = 2;
  slur = false;
  slur_next = false;
  ref_duration = 15169;
  duration = 500;
  next_note = print_note c_sharp (126 ∷ []);
}

abbrev player : Player
player = record {
  piezzo = idle_piezzo;
  last_tc_value = 0;
  new_tc_value = 0;
  timer_instance = 4;
  playing_tone = false;
  playing_tone_recovery_value = 0;
}

parse_next_note-print_note_example :
    parse_next_note idle_piezzo ≡ some (note_read c_sharp (126 ∷ []) idle_piezzo)
parse_next_note-print_note_example =
    parse_next_note-print_note c_sharp (126 ∷ []) (omega arith) idle_piezzo
      (omega arith, omega arith) refl

play-print_tune_example :
    play_through 7 120 (print_tune c_sharp ((true, low_e) ∷ [])) 2 player
    ≡ some (cancellation player ++ performed 2000 2 false 0 c_sharp ((true, low_e) ∷ []))
play-print_tune_example =
    play-print_tune 7 120 c_sharp ((true, low_e) ∷ []) player (omega arith) refl
      (omega arith, omega arith) ((omega arith, omega arith), (omega arith, omega arith))

play-two :
    play_through 7 120 (print_tune c_sharp ((true, low_e) ∷ [])) 2 player
    ≡ some (
        cancel 4
        ∷ set_timer_compare_period 2254
        ∷ arm_note 250
        ∷ set_timer_compare_period 3792
        ∷ arm_note 500
        ∷ stop_timer_compare
        ∷ [])
unfolding play_through play play_rounds play_next_note parse_next_note parse_loop parse_char
    get_cmp_value
play-two = refl

-- "G" at the end of a tune: the string ends before the pitch is looked up, and the pitch of the last
-- note stays.
parse_next_note_last :
    parse_next_note (record idle_piezzo { next_note = 71 ∷ [] })
    ≡ some (record idle_piezzo { next_note = [] })
unfolding parse_next_note parse_loop parse_char
parse_next_note_last = refl
