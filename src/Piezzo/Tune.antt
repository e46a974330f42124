-- ===== src/Piezzo/Tune.antt =====
-- src/piezzo.c: a tune that is written as include/piezzo.h describes it, but with `d` for a sharp and
-- within the five octaves, from the first note to the last.
use asx.Base.{
  ℕ, zero, suc, ◌/◌, ◌%◌, ◌^◌, ◌<◌, ◌≡◌, refl, ap, ◌∙◌, arith, List, [], ◌∷◌, ◌++◌, length,
  ==_false,
}
use asx.Base.{
  Bool, true, false, not, ◌||◌, Option, none, some, ◌>>=◌, ◌==◌, if◌then◌else◌, Option-cases, inl,
  inr, append_assoc,
}
use asx.Piezzo.{Player, Effect, stop_timer_compare, arm_note, set_or_stop, cancellation}
use asx.Piezzo.{get_cmp_value, pwm_of, play_at, play_next_note, play, sound}
use asx.Piezzo.Notes.{parse_next_note-print_note}
use asx.Piezzo.Print.{Note, print_note, shifted, IsInRange, note_read, row, column}

-- A tune is a note and those that follow it, each with a slur towards it or not.
abbrev pub print_tune : Note → List (Bool × Note) → List ℕ
print_tune n [] = print_note n []
print_tune n ((slur, next) ∷ notes) =
    print_note n ((if slur then 126 else 32) ∷ print_tune next notes)

abbrev pub AllDigits : Note → List (Bool × Note) → Type 0
AllDigits n [] = n.digit < 10
AllDigits n ((slur, next) ∷ notes) = (n.digit < 10) × AllDigits next notes

-- The tune stays within the five octaves.
abbrev pub AllInRange : ℕ → Note → List (Bool × Note) → Type 0
AllInRange octave n [] = IsInRange n.shifts octave
AllInRange octave n ((slur, next) ∷ notes) =
    IsInRange n.shifts octave × AllInRange (shifted n.shifts octave) next notes

-- What a note asks for: its period, unless it is the same and slurred, and then its time.
abbrev pub value_of : Note → ℕ → ℕ
value_of n octave = pwm_of (row n.alteration) (column n.letter) / 2 ^ shifted n.shifts octave

abbrev pub note_effects : ℕ → ℕ → Bool → ℕ → Note → List Effect
note_effects period octave slurred last n =
    (if not (last == value_of n octave) || not slurred
      then set_or_stop (value_of n octave) ∷ []
      else [])
    ++ (arm_note (period / 2 ^ n.digit) ∷ [])

-- The notes of a tune one by one, and then silence.
abbrev pub performed : ℕ → ℕ → Bool → ℕ → Note → List (Bool × Note) → List Effect
performed period octave slurred last n [] =
    note_effects period octave slurred last n ++ (stop_timer_compare ∷ [])
performed period octave slurred last n ((slur, next) ∷ notes) =
    note_effects period octave slurred last n
    ++ performed period (shifted n.shifts octave) slur (value_of n octave) next notes

-- So many calls of `_play_next_note`, which the timer makes one behind another.
unfoldable pub play_rounds : ℕ → ℕ → Player → Option (Player × List Effect)
play_rounds instance zero s = some (s, [])
play_rounds instance (suc rounds) s = play_next_note instance s >>= λ m.
    play_rounds instance rounds m.0 >>= λ m'. some (m'.0, m.1 ++ m'.1)

-- The player behind a note.
abbrev behind : ℕ → Player → Note → List ℕ → Player
behind instance s n rest =
    let p = note_read n rest (record s.piezzo { slur = s.piezzo.slur_next }) in
    record s {
      piezzo = p;
      new_tc_value = get_cmp_value p;
      playing_tone_recovery_value = get_cmp_value p;
      last_tc_value = get_cmp_value p;
      timer_instance = instance;
    }

module _ (instance : ℕ) (s : Player) (n : Note) (no_tone : s.playing_tone ≡ false) where
  play_read :
      (rest : List ℕ)
      → let p = note_read n rest (record s.piezzo { slur = s.piezzo.slur_next }) in
        sound s p ++ (arm_note p.duration ∷ [])
        ≡ note_effects s.piezzo.tempo_full_period s.piezzo.octave_shift s.piezzo.slur_next
            s.last_tc_value n
  unfolding get_cmp_value
  play_read [] = rw no_tone refl
  play_read (c ∷ cs) = rw no_tone refl

  play_note :
      (rest : List ℕ)
      → n.digit < 10
      → IsInRange n.shifts s.piezzo.octave_shift
      → s.piezzo.next_note ≡ print_note n rest
      → play_next_note instance s
        ≡ some (
          behind instance s n rest,
          note_effects s.piezzo.tempo_full_period s.piezzo.octave_shift s.piezzo.slur_next
              s.last_tc_value n,
        )
  unfolding play_next_note
  play_note rest digit in_range e =
      ap (play_at instance s) e
      ∙ rw
          (parse_next_note-print_note n rest digit (record s.piezzo { slur = s.piezzo.slur_next })
            in_range e)
          (ap (λ es. some (behind instance s n rest, es)) (play_read rest))

module _ (instance : ℕ) where
  -- A round in front of others.
  one_round :
      (rounds : ℕ) (s s' s'' : Player) (es es' : List Effect)
      → play_next_note instance s ≡ some (s', es)
      → play_rounds instance rounds s' ≡ some (s'', es')
      → play_rounds instance (suc rounds) s ≡ some (s'', es ++ es')
  unfolding play_rounds
  one_round rounds s s' s'' es es' e e' = rw (e, e') refl

  last_round :
      (s : Player)
      → s.playing_tone ≡ false
      → s.piezzo.next_note ≡ []
      → play_rounds instance 1 s
        ≡ some (record s { playing_tone_recovery_value = 0 }, stop_timer_compare ∷ [])
  unfolding play_rounds play_next_note
  last_round s no_tone e =
      ap (λ cs. play_at instance s cs >>= λ m. some (m.0, m.1 ++ [])) e ∙ rw no_tone refl

  rounds_lem :
      (notes : List (Bool × Note)) (n : Note) (s : Player)
      → s.playing_tone ≡ false
      → AllDigits n notes
      → AllInRange s.piezzo.octave_shift n notes
      → s.piezzo.next_note ≡ print_tune n notes
      → (s' : Player) × (play_rounds instance (suc (suc (length notes))) s
          ≡ some (
            s',
            performed s.piezzo.tempo_full_period s.piezzo.octave_shift s.piezzo.slur_next
                s.last_tc_value n notes,
          ))
  unfolding play_rounds play_next_note get_cmp_value
  rounds_lem [] n s no_tone digit in_range e = (
    record (behind instance s n []) { playing_tone_recovery_value = 0 },
    one_round 1 s (behind instance s n []) _ _ (stop_timer_compare ∷ [])
        (play_note instance s n no_tone [] digit in_range e)
        (last_round (behind instance s n []) no_tone refl),
  )
  rounds_lem ((true, next) ∷ notes) n s no_tone (digit, digits) (in_range, in_ranges) e =
      let rest = 126 ∷ print_tune next notes in
      let (s', es) =
        rounds_lem notes next (behind instance s n rest) no_tone digits in_ranges refl in
      (
        s',
        one_round (suc (suc (length notes))) s (behind instance s n rest) s' _ _
            (play_note instance s n no_tone rest digit in_range e) es,
      )
  rounds_lem ((false, next) ∷ notes) n s no_tone (digit, digits) (in_range, in_ranges) e =
      let rest = 32 ∷ print_tune next notes in
      let (s', es) =
        rounds_lem notes next (behind instance s n rest) no_tone digits in_ranges refl in
      (
        s',
        one_round (suc (suc (length notes))) s (behind instance s n rest) s' _ _
            (play_note instance s n no_tone rest digit in_range e) es,
      )

  abbrev prefixed : List Effect → Player × List Effect → Player × List Effect
  prefixed es m = (m.0, es ++ m.1)

  in_front :
      (o : Option (Player × List Effect)) (f : Player → Option (Player × List Effect))
      (before : List Effect) (s : Player) (es : List Effect)
      → (o >>= λ m. f m.0 >>= λ m'. some (prefixed m.1 m')) ≡ some (s, es)
      → ((o >>= λ m. some (prefixed before m)) >>= λ m. f m.0 >>= λ m'. some (m.1 ++ m'.1))
        ≡ some (before ++ es)
  in_front none f before s es e = ground (arith, e)
  in_front (some m) f before s es e = elim (Option-cases (f m.0)) [
    | inl fails ↦ ground (arith, fails, e)
    | inr (m', gives) ↦ rw gives (
        ap some (append_assoc before m.1 m'.1 ∙ ap (λ xs. before ++ xs) (ground (arith, gives, e))))
  ]

  -- `piezzo_play`, and the calls of `_play_next_note` that the timer makes behind it.
  unfoldable pub play_through : ℕ → List ℕ → ℕ → Player → Option (List Effect)
  play_through tempo music rounds s = play instance tempo music s >>= λ m.
      play_rounds instance rounds m.0 >>= λ m'. some (m.1 ++ m'.1)

  -- A tune that is written with the duration of each note, with `d` for a sharp and within the five
  -- octaves is played as it is written, when no tone sounds over it: the timer of the tune before it is
  -- cancelled, unless its instance is 0, then each note sets its period, unless the period stays and the
  -- note is slurred, and takes its part of the full note of the tempo, and with the call behind the last
  -- note the sound stops.
  pub play-print_tune :
      (tempo : ℕ) (n : Note) (notes : List (Bool × Note)) (s : Player)
      → 0 < tempo
      → s.playing_tone ≡ false
      → AllDigits n notes
      → AllInRange 2 n notes
      → play_through tempo (print_tune n notes) (suc (length notes)) s
        ≡ some
            (cancellation s ++ performed (240000 / tempo % 2 ^ 16) 2 false s.last_tc_value n notes)
  unfolding play_through play
  play-print_tune tempo n notes s positive no_tone digits in_range =
      let start : Player = record s {
        piezzo = record s.piezzo {
          next_note = print_tune n notes;
          octave_shift = 2;
          tempo_full_period = 240000 / tempo % 2 ^ 16;
          note_duration_pow_number = 2;
          duration = 240000 / tempo % 2 ^ 16 / 2 ^ 2;
          slur_next = false;
        };
      } in
      let (s', es) = rounds_lem notes n start no_tone digits in_range refl in
      rw (==_false tempo 0 (λ q. omega (arith, q, positive))) (
        in_front (play_next_note instance start) (play_rounds instance (suc (length notes)))
          (cancellation s) s' _ (unfold play_rounds in es))
