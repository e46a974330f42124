-- ===== src/DigitalInput/Sample.antt =====
-- src/digital_input.c: the rounds of the sampling, over the whole chain of inputs.
use asx.Base.{ℕ, zero, suc, ◌<◌, ◌≤◌, ◌≡◌, ◌∙◌, refl, sym, arith, ap}
use asx.Base.{Bool, true, false, List, [], ◌∷◌, replicate, Bool-cases, inl, inr, ltb, ◌==◌}
use asx.DigitalInput.{DigitalInput, integrate, sample, digital_input, digital_input_value}
use asx.DigitalInput.Filter.{IsSound, feed, feed_settles}

-- What every input of a chain has.
abbrev pub All : (DigitalInput → Type 0) → List DigitalInput → Type 0
All P [] = Unit {0}
All P (di ∷ rest) = P di × All P rest

-- Rounds of `_digital_input_sample` while the pins keep their levels.
unfoldable pub sample_times : ℕ → (ℕ → Bool) → List DigitalInput → List DigitalInput
sample_times zero level dis = dis
sample_times (suc n) level dis = sample_times n level (sample level dis).1

-- A sample changes neither the pin nor the threshold.
integrate_kept :
    (b : Bool) (di : DigitalInput)
    → ((integrate b di).pin ≡ di.pin)
      × ((integrate b di).integrator_threshold ≡ di.integrator_threshold)
unfolding integrate
integrate_kept true di = elim (Bool-cases (ltb di.integrator di.integrator_threshold)) [
  | inl e ↦ rw e (refl, refl)
  | inr e ↦ rw e (refl, refl)
]
integrate_kept false di = elim (Bool-cases (di.integrator == 0)) [
  | inl e ↦ rw e (refl, refl)
  | inr e ↦ rw e (refl, refl)
]

feed_kept :
    (bs : List Bool) (di : DigitalInput)
    → ((feed bs di).pin ≡ di.pin) × ((feed bs di).integrator_threshold ≡ di.integrator_threshold)
unfolding feed
feed_kept [] di = (refl, refl)
feed_kept (b ∷ bs) di =
    let (p, t) = feed_kept bs (integrate b di) in
    let (p', t') = integrate_kept b di in (p ∙ p', t ∙ t')

sample_times_none : (n : ℕ) (level : ℕ → Bool) → sample_times n level [] ≡ []
unfolding sample_times sample
sample_times_none zero level = refl
sample_times_none (suc n) level = sample_times_none n level

-- Each input sees the level of its pin.
sample_times_some :
    (n : ℕ) (level : ℕ → Bool) (di : DigitalInput) (rest : List DigitalInput)
    → sample_times n level (di ∷ rest)
      ≡ feed (replicate n (level di.pin)) di ∷ sample_times n level rest
unfolding sample_times sample feed
sample_times_some zero level di rest = refl
sample_times_some (suc n) level di rest =
    sample_times_some n level (integrate (level di.pin) di) (sample level rest).1
    ∙ ap
        (λ p.
          feed (replicate n (level p)) (integrate (level di.pin) di)
          ∷ sample_times n level (sample level rest).1)
        (integrate_kept (level di.pin) di).0

-- Each input of the chain, once made, is sound.
digital_input-All :
    (dis : List DigitalInput) (pin reactor filter_value : ℕ)
    → All IsSound dis
    → All IsSound (digital_input dis pin reactor filter_value)
unfolding digital_input
digital_input-All [] pin reactor filter_value ok = (
  record {
    byte = omega arith;
    below = omega arith;
    on_above = λ e. absurd (cc);
    off_below = λ e. absurd (cc);
    at_top = λ some_room e. absurd (omega arith);
  },
  tt,
)
digital_input-All (di ∷ rest) pin reactor filter_value (h, ok) =
    (h, digital_input-All rest pin reactor filter_value ok)

settled :
    (n : ℕ) (b : Bool) (di : DigitalInput)
    → IsSound di
    → 255 ≤ n
    → 0 < di.integrator_threshold
    → digital_input_value (feed (replicate n b) di) ≡ b
settled n true di ok many filtered = (feed_settles n di ok filtered).0 (omega (arith, ok.byte))
settled n false di ok many filtered =
    (feed_settles n di ok filtered).1 (omega (arith, ok.byte, ok.below))

-- The integrator is not switched off: a filter of less than one sample period has the threshold zero.
abbrev pub IsFiltered : DigitalInput → Type 0
IsFiltered di = 0 < di.integrator_threshold

-- The value of an input is the level of its pin.
abbrev pub Reads : (ℕ → Bool) → DigitalInput → Type 0
Reads level di = digital_input_value di ≡ level di.pin

-- Behind 255 rounds in which the pins keep their levels, every input has the level of its pin as its
-- value, if no threshold is zero.
pub sample_times_settle :
    (n : ℕ) (level : ℕ → Bool) (dis : List DigitalInput)
    → All IsSound dis
    → All IsFiltered dis
    → 255 ≤ n
    → All (Reads level) (sample_times n level dis)
sample_times_settle n level [] ok filtered many = rw sample_times_none tt
sample_times_settle n level (di ∷ rest) (h, ok) (f, filtered) many =
    rw (sample_times_some n level di rest) (
      settled n (level di.pin) di h many f
          ∙ ap level (sym (feed_kept (replicate n (level di.pin)) di).0),
      sample_times_settle n level rest ok filtered many,
    )
