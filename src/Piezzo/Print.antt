-- ===== src/Piezzo/Print.antt =====
-- include/piezzo.h: a note, and the string that stands for it. A sharp is written with the `d` that the
-- parser of src/piezzo.c reads, not with the `s` of the header.
use asx.Base.{ℕ, ◌+◌, ◌-◌, ◌/◌, ◌^◌, ◌<◌, List, [], ◌∷◌, ◌==◌}
use asx.Piezzo.{Piezzo, pwm_of}

pub data Letter : Type 0 where
  letter_c : Letter
  letter_d : Letter
  letter_e : Letter
  letter_f : Letter
  letter_g : Letter
  letter_a : Letter
  letter_b : Letter

pub data Alteration : Type 0 where
  flat : Alteration
  natural : Alteration
  sharp : Alteration

pub data Shift : Type 0 where
  up : Shift
  down : Shift

pub record Note : Type 0 where
  pub letter : Letter
  pub alteration : Alteration
  pub shifts : List Shift
  pub digit : ℕ

-- The note as a string.
abbrev pub letter_char : Letter → ℕ
letter_char letter_c = 67
letter_char letter_d = 68
letter_char letter_e = 69
letter_char letter_f = 70
letter_char letter_g = 71
letter_char letter_a = 65
letter_char letter_b = 66

abbrev pub shift_chars : List Shift → List ℕ → List ℕ
shift_chars [] rest = rest
shift_chars (up ∷ shifts) rest = 39 ∷ shift_chars shifts rest
shift_chars (down ∷ shifts) rest = 44 ∷ shift_chars shifts rest

abbrev pub alteration_chars : Alteration → List ℕ → List ℕ
alteration_chars flat rest = 98 ∷ rest
alteration_chars natural rest = rest
alteration_chars sharp rest = 100 ∷ rest

abbrev pub print_note : Note → List ℕ → List ℕ
print_note n rest =
    letter_char n.letter
    ∷ alteration_chars n.alteration (shift_chars n.shifts ((48 + n.digit) ∷ rest))

-- Its place in the table, and the octave behind the shifts.
abbrev pub column : Letter → ℕ
column letter_c = 0
column letter_d = 1
column letter_e = 2
column letter_f = 3
column letter_g = 4
column letter_a = 5
column letter_b = 6

abbrev pub row : Alteration → ℕ
row flat = 0
row natural = 1
row sharp = 2

abbrev pub shifted : List Shift → ℕ → ℕ
shifted [] octave = octave
shifted (up ∷ shifts) octave = shifted shifts (octave + 1)
shifted (down ∷ shifts) octave = shifted shifts (octave - 1)

-- The shifts stay within the five octaves.
abbrev pub IsInRange : List Shift → ℕ → Type 0
IsInRange [] octave = octave < 5
IsInRange (up ∷ shifts) octave = (octave < 4) × IsInRange shifts (octave + 1)
IsInRange (down ∷ shifts) octave = (0 < octave) × IsInRange shifts (octave - 1)

-- The structure behind a note: a slur and the rest of the string are read from what is behind it.
abbrev pub separated : List ℕ → Piezzo → Piezzo
separated [] p = p
separated (c ∷ cs) p = record p { next_note = cs; slur_next = c == 126 }

abbrev pub note_read : Note → List ℕ → Piezzo → Piezzo
note_read n rest p = separated rest (record p {
  octave_shift = shifted n.shifts p.octave_shift;
  ref_duration = pwm_of (row n.alteration) (column n.letter);
  duration = p.tempo_full_period / 2 ^ n.digit;
  next_note = rest;
})
