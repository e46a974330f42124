-- ===== src/Piezzo/Notes.antt =====
-- src/piezzo.c: a note that is written as include/piezzo.h describes it, but with `d` for a sharp and
-- within the five octaves, is read as it is meant.
use asx.Base.{
  ℕ, zero, suc, ◌+◌, ◌-◌, ◌/◌, ◌%◌, ◌^◌, ◌<◌, ◌≡◌, refl, ap, sym, ◌∙◌, arith, List, [], ◌∷◌,
}
use asx.Base.{true, some, u8, ltb, ==_false, lt→ltb, if◌then◌else◌, subst}
use asx.Piezzo.{state_note, state_alteration, state_octave_shift, state_duration, state_space}
use asx.Piezzo.{
  Piezzo, Indices, pwm_of, isdigit, parse_char, parse_loop, parse_fuel, parse_next_note,
}
use asx.Piezzo.Print.{Letter, letter_c, letter_d, letter_e, letter_f, letter_g, letter_a, letter_b}
use asx.Piezzo.Print.{
  Alteration, flat, natural, sharp, Shift, up, down, Note, letter_char, shift_chars,
}
use asx.Piezzo.Print.{
  alteration_chars, print_note, column, row, shifted, IsInRange, separated, note_read,
}

parse_letter :
    (l : Letter) (fuel : ℕ) (cs : List ℕ) (v : Indices) (p : Piezzo)
    → parse_loop (suc fuel) (letter_char l ∷ cs) (state_note, v, p)
      ≡ parse_loop fuel cs
          (state_alteration, record v { note_index = column l }, record p { next_note = cs })
unfolding parse_loop parse_char
parse_letter letter_c fuel cs v p = refl
parse_letter letter_d fuel cs v p = refl
parse_letter letter_e fuel cs v p = refl
parse_letter letter_f fuel cs v p = refl
parse_letter letter_g fuel cs v p = refl
parse_letter letter_a fuel cs v p = refl
parse_letter letter_b fuel cs v p = refl

-- The rounds from the first shift to the end of the note.
abbrev rounds : List Shift → ℕ → ℕ
rounds [] fuel = suc (suc (suc (suc fuel)))
rounds (s ∷ shifts) fuel = suc (rounds shifts fuel)

module _ (digit : ℕ) (rest : List ℕ) (small : digit < 10) where
  parse_separator :
      (cs : List ℕ) (fuel : ℕ) (v : Indices) (p : Piezzo)
      → parse_loop (suc (suc fuel)) cs (state_space, v, p) ≡ some (separated cs p)
  unfolding parse_loop parse_char
  parse_separator [] fuel v p = refl
  parse_separator (c ∷ []) fuel v p = refl
  parse_separator (c ∷ c' ∷ cs) fuel v p = refl

  parse_digit :
      (fuel : ℕ) (v : Indices) (p : Piezzo)
      → parse_loop (suc (suc (suc fuel))) ((48 + digit) ∷ rest) (state_duration, v, p)
        ≡ some (
            separated rest
              (record p { next_note = rest; duration = p.tempo_full_period / 2 ^ digit }))
  unfolding parse_loop parse_char
  parse_digit fuel v p =
      let is_digit : isdigit (48 + digit) ≡ true = ground arith in
      let value : 48 + digit - 48 ≡ digit = omega arith in
      rw (is_digit, value, parse_loop) (parse_separator rest fuel v _)

  parse_shifts :
      (shifts : List Shift) (fuel : ℕ) (v : Indices) (p : Piezzo)
      → IsInRange shifts p.octave_shift
      → parse_loop
          (rounds shifts fuel)
          (shift_chars shifts ((48 + digit) ∷ rest))
          (state_octave_shift, v, p)
        ≡ some (
            separated rest (record p {
              octave_shift = shifted shifts p.octave_shift;
              ref_duration = pwm_of v.alt_index v.note_index;
              duration = p.tempo_full_period / 2 ^ digit;
              next_note = rest;
            }))
  unfolding parse_loop parse_char
  parse_shifts [] fuel v p in_range =
      rw
        (
          ==_false (48 + digit) 44 (λ q. omega (arith, q)),
          ==_false (48 + digit) 39 (λ q. omega (arith, q)),
          parse_loop,
        )
        (parse_digit fuel v (record p {
          next_note = (48 + digit) ∷ rest;
          ref_duration = pwm_of v.alt_index v.note_index;
        }))
  parse_shifts (up ∷ shifts) fuel v p (low, in_range) =
      let sum : u8 (p.octave_shift + 1) % 5 ≡ p.octave_shift + 1 = omega (arith, low) in
      rw (sum, parse_loop) (parse_shifts shifts fuel v _ in_range)
  parse_shifts (down ∷ shifts) fuel v p (some_octave, in_range) =
      let cs = shift_chars shifts ((48 + digit) ∷ rest) in
      let lower : (if ltb 0 p.octave_shift
            then record p { octave_shift = p.octave_shift - 1; next_note = cs }
            else record p { next_note = cs })
          ≡ record p { octave_shift = p.octave_shift - 1; next_note = cs } =
        lowered p.octave_shift (record p { next_note = cs }) refl in
      rw (lower, parse_loop)
        (parse_shifts shifts fuel v (record p { octave_shift = p.octave_shift - 1; next_note = cs })
          in_range)
    where
      lowered :
          (octave : ℕ) (p : Piezzo)
          → p.octave_shift ≡ octave
          → (if ltb 0 octave then record p { octave_shift = octave - 1 } else p)
            ≡ record p { octave_shift = octave - 1 }
      lowered zero p e = ap (λ o. record p { octave_shift = o }) e
      lowered (suc octave) p e = rw (lt→ltb 0 (suc octave) (omega arith)) refl

-- The fuel that is left for the shifts and what follows.
fuel_left : (cs : List ℕ) → (fuel : ℕ) × (parse_fuel cs ≡ suc (suc (suc (suc fuel))))
fuel_left [] = (1, refl)
fuel_left (c ∷ cs) = let (fuel, e) = fuel_left cs in (suc fuel, ap suc e)

module _ (digit : ℕ) (rest : List ℕ) where
  fuel_shifts :
      (shifts : List Shift)
      → (fuel : ℕ) × (parse_fuel (shift_chars shifts ((48 + digit) ∷ rest))
          ≡ rounds shifts (suc fuel))
  fuel_shifts [] = let (fuel, e) = fuel_left rest in (fuel, ap suc e)
  fuel_shifts (up ∷ shifts) = let (fuel, e) = fuel_shifts shifts in (fuel, ap suc e)
  fuel_shifts (down ∷ shifts) = let (fuel, e) = fuel_shifts shifts in (fuel, ap suc e)

  -- One round less, for a note that is neither flat nor sharp.
  rounds-suc :
      (shifts : List Shift) (fuel : ℕ) → rounds shifts (suc fuel) ≡ suc (rounds shifts fuel)
  rounds-suc [] fuel = refl
  rounds-suc (s ∷ shifts) fuel = ap suc (rounds-suc shifts fuel)

  parse_natural :
      (shifts : List Shift) (fuel : ℕ) (v : Indices) (p : Piezzo)
      → digit < 10
      → p.next_note ≡ shift_chars shifts ((48 + digit) ∷ rest)
      → parse_loop (suc fuel) (shift_chars shifts ((48 + digit) ∷ rest)) (state_alteration, v, p)
        ≡ parse_loop fuel
            (shift_chars shifts ((48 + digit) ∷ rest))
            (state_octave_shift, record v { alt_index = 1 }, p)
  unfolding parse_loop parse_char
  parse_natural [] fuel v p small e =
      rw
        (
          ==_false (48 + digit) 98 (λ q. omega (arith, q, small)),
          ==_false (48 + digit) 100 (λ q. omega (arith, q, small)),
          parse_loop,
        )
        (ap
          (λ cs.
            parse_loop fuel ((48 + digit) ∷ rest)
              (state_octave_shift, record v { alt_index = 1 }, record p { next_note = cs }))
          (sym e))
  parse_natural (up ∷ shifts) fuel v p small e =
      (ap
        (λ cs.
          parse_loop fuel (39 ∷ shift_chars shifts ((48 + digit) ∷ rest))
            (state_octave_shift, record v { alt_index = 1 }, record p { next_note = cs }))
        (sym e))
  parse_natural (down ∷ shifts) fuel v p small e =
      (ap
        (λ cs.
          parse_loop fuel (44 ∷ shift_chars shifts ((48 + digit) ∷ rest))
            (state_octave_shift, record v { alt_index = 1 }, record p { next_note = cs }))
        (sym e))

module _ (n : Note) (rest : List ℕ) (digit : n.digit < 10) where
  -- The string from the shifts on, and its end.
  abbrev tail : List ℕ
  tail = shift_chars n.shifts ((48 + n.digit) ∷ rest)

  parse_altered :
      (index alt : ℕ) (p : Piezzo)
      → IsInRange n.shifts p.octave_shift
      → parse_loop
          (parse_fuel tail)
          tail
          (state_octave_shift, record { note_index = index; alt_index = alt }, p)
        ≡ some (
            separated rest (record p {
              octave_shift = shifted n.shifts p.octave_shift;
              ref_duration = pwm_of alt index;
              duration = p.tempo_full_period / 2 ^ n.digit;
              next_note = rest;
            }))
  parse_altered index alt p in_range =
      let (fuel, e) = fuel_shifts n.digit rest n.shifts in
      ap
        (λ f.
          parse_loop f tail (state_octave_shift, record { note_index = index; alt_index = alt }, p))
        e
      ∙ parse_shifts n.digit rest digit n.shifts (suc fuel)
          (record { note_index = index; alt_index = alt }) p in_range

  parse_alteration :
      (a : Alteration) (index : ℕ) (p : Piezzo)
      → IsInRange n.shifts p.octave_shift
      → p.next_note ≡ alteration_chars a tail
      → parse_loop
          (parse_fuel (alteration_chars a tail))
          (alteration_chars a tail)
          (state_alteration, record { note_index = index; alt_index = 0 }, p)
        ≡ some (
            separated rest (record p {
              octave_shift = shifted n.shifts p.octave_shift;
              ref_duration = pwm_of (row a) index;
              duration = p.tempo_full_period / 2 ^ n.digit;
              next_note = rest;
            }))
  unfolding parse_loop parse_char
  parse_alteration flat index p in_range e =
      parse_altered index 0 (record p { next_note = tail }) in_range
  parse_alteration sharp index p in_range e =
      parse_altered index 2 (record p { next_note = tail }) in_range
  parse_alteration natural index p in_range e =
      let (fuel, left) = fuel_shifts n.digit rest n.shifts in
      let one_less : parse_fuel tail ≡ suc (rounds n.shifts fuel) =
        left ∙ rounds-suc n.digit rest n.shifts fuel in
      ap
        (λ f. parse_loop f tail (state_alteration, record { note_index = index; alt_index = 0 }, p))
        one_less
      ∙ (parse_natural n.digit rest n.shifts (rounds n.shifts fuel)
            (record { note_index = index; alt_index = 0 }) p digit e
          ∙ parse_shifts n.digit rest digit n.shifts fuel
              (record { note_index = index; alt_index = 1 }) p in_range)

  -- A note is read as it is written, whatever follows it: its pitch by its letter and its alteration,
  -- in the octave that its shifts lead to, for the part of a full note that its digit says. The next
  -- character separates it from the next note, and is a slur if it is `~`. The shifts stay within the
  -- five octaves, and a sharp is written with `d`.
  pub parse_next_note-print_note :
      (p : Piezzo)
      → IsInRange n.shifts p.octave_shift
      → p.next_note ≡ print_note n rest
      → parse_next_note p ≡ some (note_read n rest p)
  unfolding parse_next_note
  parse_next_note-print_note p in_range e =
      let cs = alteration_chars n.alteration tail in
      subst
        (λ string.
          parse_loop (parse_fuel string) string
            (state_note, record { note_index = 0; alt_index = 0 }, p)
          ≡ some (note_read n rest p))
        (sym e)
        (parse_letter n.letter (parse_fuel cs) cs (record { note_index = 0; alt_index = 0 }) p
          ∙ parse_alteration n.alteration (column n.letter) (record p { next_note = cs }) in_range
              refl)
