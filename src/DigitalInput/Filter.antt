-- ===== src/DigitalInput/Filter.antt =====
-- src/digital_input.c: what the integrator lets through.
use native.Mathlib.Decide.{dec_lt}
use asx.Base.{
  ℕ, zero, suc, ◌+◌, ◌-◌, ◌≤◌, ◌<◌, ◌≡◌, ◌≢◌, refl, arith, Bool, true, false, List, [], ◌∷◌,
}
use asx.Base.{
  replicate, ◌==◌, ==_true, ==_false, subst, sym, ap, ◌%◌, if◌then◌else◌, Bool-cases, inl, inr,
  lt→ltb, le→ltb,
}
use asx.DigitalInput.{
  DigitalInput, InputState, on, off, unknown, integrate, is_on, digital_input_value,
}

-- The integrator is between 0 and the threshold; an input that is on has not come down to 0, one that
-- is off has not come up to the threshold, and an input at the threshold is on.
pub record IsSound (di : DigitalInput) : Type 0 where
  pub byte : di.integrator_threshold < 256
  pub below : di.integrator ≤ di.integrator_threshold
  pub on_above : di.input ≡ on → 0 < di.integrator
  pub off_below : di.input ≡ off → di.integrator < di.integrator_threshold
  pub at_top : 0 < di.integrator_threshold → di.integrator ≡ di.integrator_threshold → di.input ≡ on

-- Consecutive samples of one input.
unfoldable pub feed : List Bool → DigitalInput → DigitalInput
feed [] di = di
feed (b ∷ bs) di = feed bs (integrate b di)

-- How many samples are of a level.
unfoldable pub count_of : Bool → List Bool → ℕ
count_of b [] = 0
count_of true (true ∷ bs) = suc (count_of true bs)
count_of true (false ∷ bs) = count_of true bs
count_of false (true ∷ bs) = count_of false bs
count_of false (false ∷ bs) = suc (count_of false bs)

abbrev raised : DigitalInput → DigitalInput
raised di = record di {
  integrator = di.integrator + 1;
  input = if di.integrator + 1 == di.integrator_threshold then on else di.input;
}

abbrev lowered : DigitalInput → DigitalInput
lowered di = record di {
  integrator = di.integrator - 1;
  input = if di.integrator - 1 == 0 then off else di.input;
}

-- The four cases of a sample.
module _ (di : DigitalInput) (ok : IsSound di) where
  open ok use {byte, below, on_above, off_below, at_top}

  integrate_up : di.integrator < di.integrator_threshold → integrate true di ≡ raised di
  unfolding integrate
  integrate_up room =
      let whole : (di.integrator + 1) % 256 ≡ di.integrator + 1 = omega arith in
      rw (lt→ltb di.integrator di.integrator_threshold room, whole) refl

  integrate_top : di.integrator_threshold ≤ di.integrator → integrate true di ≡ di
  unfolding integrate
  integrate_top full = rw (le→ltb di.integrator di.integrator_threshold full) refl

  integrate_down : 0 < di.integrator → integrate false di ≡ lowered di
  unfolding integrate
  integrate_down some_left = rw (==_false di.integrator 0 (omega arith)) refl

  integrate_bottom : di.integrator ≡ 0 → integrate false di ≡ di
  unfolding integrate
  integrate_bottom none_left = rw (==_true di.integrator 0 none_left) refl

  raised-IsSound : di.integrator < di.integrator_threshold → IsSound (raised di)
  raised-IsSound room = record {
    byte = byte;
    below = omega arith;
    on_above = λ e. omega arith;
    off_below = elim (Bool-cases (di.integrator + 1 == di.integrator_threshold)) [
      | inl top ↦ rw top (λ e. absurd (cc))
      | inr under ↦ rw under (λ e. ground (arith, under))
    ];
    at_top = λ some_room e. rw (==_true (di.integrator + 1) di.integrator_threshold e) refl;
  }

  lowered-IsSound : 0 < di.integrator → IsSound (lowered di)
  lowered-IsSound some_left = record {
    byte = byte;
    below = omega arith;
    on_above = elim (Bool-cases (di.integrator - 1 == 0)) [
      | inl bottom ↦ rw bottom (λ e. absurd (cc))
      | inr over ↦ rw over (λ e. ground (arith, over))
    ];
    off_below = λ e. omega arith;
    at_top = λ some_room e. absurd (omega arith);
  }

  -- A sample keeps the invariant, and moves the integrator by one at most.
  pub integrate-IsSound : (b : Bool) → IsSound (integrate b di)
  integrate-IsSound true = elim (dec_lt di.integrator di.integrator_threshold) [
    | yes room ↦ subst IsSound (sym (integrate_up room)) (raised-IsSound room)
    | no full ↦ subst IsSound (sym (integrate_top (omega arith))) ok
  ]
  integrate-IsSound false = elim (dec_lt 0 di.integrator) [
    | yes some_left ↦ subst IsSound (sym (integrate_down some_left)) (lowered-IsSound some_left)
    | no none_left ↦ subst IsSound (sym (integrate_bottom (omega arith))) ok
  ]

-- Too few samples of a level do not turn an input, in either direction.
feed_stays :
    (bs : List Bool) (di : DigitalInput)
    → IsSound di
    → ((di.input ≡ off)
        → di.integrator + count_of true bs < di.integrator_threshold
        → (feed bs di).input ≡ off)
      × ((di.input ≡ on) → count_of false bs < di.integrator → (feed bs di).input ≡ on)
unfolding feed count_of
feed_stays [] di ok = (λ e lt. e, λ e lt. e)
feed_stays (true ∷ bs) di ok = elim (dec_lt di.integrator di.integrator_threshold) [
  | yes room ↦
      let (low, high) = feed_stays bs (raised di) (raised-IsSound di ok room) in
      rw (feed, integrate_up di ok room)
        (
          λ e lt. low (ground (arith, e, lt)) (omega arith),
          λ e lt. high (ground (arith, e)) (omega arith),
        )
  | no full ↦
      let (low, high) = feed_stays bs di ok in
      rw (feed, integrate_top di ok (omega arith)) (λ e lt. absurd (omega arith), high)
]
feed_stays (false ∷ bs) di ok = elim (dec_lt 0 di.integrator) [
  | yes some_left ↦
      let (low, high) = feed_stays bs (lowered di) (lowered-IsSound di ok some_left) in
      rw (feed, integrate_down di ok some_left)
        (
          λ e lt. low (ground (arith, e)) (omega arith),
          λ e lt. high (ground (arith, e, lt)) (omega arith),
        )
  | no none_left ↦
      let (low, high) = feed_stays bs di ok in
      rw (feed, integrate_bottom di ok (omega arith)) (low, λ e lt. absurd (omega arith))
]

-- A disturbance is not seen: an input that is off stays off through any samples of which too few are
-- high to bring the integrator up to the threshold.
pub feed_stays_off :
    (bs : List Bool) (di : DigitalInput)
    → IsSound di
    → di.input ≡ off
    → di.integrator + count_of true bs < di.integrator_threshold
    → (feed bs di).input ≡ off
feed_stays_off bs di ok e few = (feed_stays bs di ok).0 e few

-- An input that is on stays on through any samples of which too few are low to bring the integrator
-- down to zero.
pub feed_stays_on :
    (bs : List Bool) (di : DigitalInput)
    → IsSound di
    → di.input ≡ on
    → count_of false bs < di.integrator
    → (feed bs di).input ≡ on
feed_stays_on bs di ok e few = (feed_stays bs di ok).1 e few

-- The state that stands for a level, and samples that are too few of the other one to leave it.
abbrev pub state_of : Bool → InputState
state_of true = on
state_of false = off

abbrev pub TooFew : Bool → List Bool → DigitalInput → Type 0
TooFew true bs di = count_of false bs < di.integrator
TooFew false bs di = di.integrator + count_of true bs < di.integrator_threshold

-- A disturbance is not seen: an input keeps its state through any samples of which too few are of the
-- other level, to bring the integrator up to the threshold or down to zero.
pub feed_stays_level :
    (level : Bool) (bs : List Bool) (di : DigitalInput)
    → IsSound di
    → di.input ≡ state_of level
    → TooFew level bs di
    → (feed bs di).input ≡ state_of level
feed_stays_level true bs di ok e few = feed_stays_on bs di ok e few
feed_stays_level false bs di ok e few = feed_stays_off bs di ok e few

not_on : (i : InputState) → i ≢ on → is_on i ≡ false
not_on on h = absurd (h refl)
not_on off h = refl
not_on unknown h = refl

-- A steady level is seen: `digital_input_value` is true behind as many high samples as the integrator
-- has left up to the threshold, and false behind as many low ones as it has left down to zero, if
-- the threshold is not zero.
pub feed_settles :
    (n : ℕ) (di : DigitalInput)
    → IsSound di
    → 0 < di.integrator_threshold
    → (di.integrator_threshold ≤ di.integrator + n
        → digital_input_value (feed (replicate n true) di) ≡ true)
      × (di.integrator ≤ n → digital_input_value (feed (replicate n false) di) ≡ false)
unfolding feed digital_input_value
feed_settles zero di ok filtered = (
  λ top. ap is_on (ok.at_top filtered (omega (arith, ok.below))),
  λ bottom. not_on di.input (λ e. absurd (omega (arith, ok.on_above e))),
)
feed_settles (suc n) di ok filtered = (
  λ top. elim (dec_lt di.integrator di.integrator_threshold) [
    | yes room ↦
        rw (feed, integrate_up di ok room)
          ((feed_settles n (raised di) (raised-IsSound di ok room) filtered).0 (omega arith))
    | no full ↦
        rw (feed, integrate_top di ok (omega arith))
          ((feed_settles n di ok filtered).0 (omega arith))
  ],
  λ bottom. elim (dec_lt 0 di.integrator) [
    | yes some_left ↦
        rw (feed, integrate_down di ok some_left)
          ((feed_settles n (lowered di) (lowered-IsSound di ok some_left) filtered).1 (omega arith))
    | no none_left ↦
        rw (feed, integrate_bottom di ok (omega arith))
          ((feed_settles n di ok filtered).1 (omega arith))
  ],
)
