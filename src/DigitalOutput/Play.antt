-- ===== src/DigitalOutput/Play.antt =====
-- src/digital_output.c: what a sequence makes the pin do.
use asx.Base.{ℕ, zero, suc, ◌+◌, ◌-◌, ◌/◌, ◌^◌, ◌%◌, ◌<◌, ◌≡◌, ◌≢◌, refl, arith, ap}
use asx.Base.{
  Bool, true, false, Option, none, some, List, [], ◌∷◌, length, replicate, ==_false, if◌then◌else◌,
}
use asx.DigitalOutput.{
  DigitalOutput, isdigit, parse_duration, parse_initial, parse_next, handle_timer, start,
}

-- An item of a sequence: a level and a power of 2 that divides the reference period.
pub record Item : Type 0 where
  pub item_level : Bool
  pub shift : ℕ

abbrev pub AllDigits : List Item → Type 0
AllDigits [] = Unit {0}
AllDigits (i ∷ is) = (i.shift < 10) × AllDigits is

-- The string of a sequence.
unfoldable pub print : List Item → List ℕ
print [] = []
print (i ∷ is) = (if i.item_level then 43 else 45) ∷ (48 + i.shift) ∷ print is

-- The levels and the delays of the items.
unfoldable pub plan : ℕ → List Item → List (Bool × ℕ)
plan period [] = []
plan period (i ∷ is) = (i.item_level, period / 2 ^ i.shift) ∷ plan period is

-- The timer expires again and again: the level and the delay of each turn, until none is armed.
unfoldable pub play : ℕ → Option ℕ × DigitalOutput → List (Bool × ℕ) × DigitalOutput
play zero (delay, out) = ([], out)
play (suc fuel) (none, out) = ([], out)
play (suc fuel) (some d, out) =
    let rest = play fuel (handle_timer out) in ((out.level, d) ∷ rest.0, rest.1)

abbrev playing : DigitalOutput → Item → List ℕ → DigitalOutput
playing out i rest = record out {
  level = i.item_level;
  current_duration_shift = i.shift;
  next = rest;
}

isdigit_print : (k : ℕ) → k < 10 → isdigit (48 + k) ≡ true
isdigit_print k lt = ground arith

parse_initial-print :
    (out : DigitalOutput) (b : Bool) (k : ℕ) (rest : List ℕ)
    → k < 10
    → parse_initial ((if b then 43 else 45) ∷ (48 + k) ∷ rest) out
      ≡ (true, record out { level = b; current_duration_shift = k; next = rest })
unfolding parse_initial parse_duration
parse_initial-print out true k rest digit =
    let value : 48 + k - 48 ≡ k = omega arith in rw (isdigit_print k digit, value) refl
parse_initial-print out false k rest digit =
    let value : 48 + k - 48 ≡ k = omega arith in rw (isdigit_print k digit, value) refl

-- The output in the middle of a sequence that is not repeated.
abbrev at : DigitalOutput → List ℕ → DigitalOutput
at out rest = record out { next = rest; repeat = false }

handle_timer-print :
    (out : DigitalOutput) (i : Item) (is : List Item)
    → i.shift < 10
    → handle_timer (at out (print (i ∷ is)))
      ≡ (some (out.reference_period_ms / 2 ^ i.shift), at (playing out i []) (print is))
unfolding handle_timer parse_next print
handle_timer-print out i is digit =
    rw (parse_initial-print (at out (print (i ∷ is))) i.item_level i.shift (print is) digit) refl

play_from :
    (fuel : ℕ) (out : DigitalOutput) (is : List Item)
    → AllDigits is
    → length is < fuel
    → (play fuel (handle_timer (at out (print is)))).0 ≡ plan out.reference_period_ms is
unfolding play plan
play_from zero out is digits enough = absurd (omega arith)
play_from (suc fuel) out [] digits enough =
    unfold handle_timer parse_next parse_initial print in refl
play_from (suc fuel) out (i ∷ is) (digit, digits) enough = rw (handle_timer-print out i is digit) (
    ap (λ l. (i.item_level, out.reference_period_ms / 2 ^ i.shift) ∷ l)
      (play_from fuel (playing out i []) is digits (omega arith)))

-- A printed sequence that is not repeated plays as written, if its digits are below 10 and the
-- reference period fits 16 bits: each item sets its level and arms the timer for the period divided
-- by the power of 2 of its digit; behind the last item no timer is armed, so that any more turns than
-- items show the same.
pub play-start :
    (out : DigitalOutput) (period fuel : ℕ) (is : List Item)
    → AllDigits is
    → period < 2 ^ 16
    → length is < fuel
    → (play fuel (start out period (print is) false)).0 ≡ plan period is
unfolding start
play-start out period fuel is digits small enough =
    let whole : period % 2 ^ 16 ≡ period = omega arith in
    rw whole (
      play_from fuel (record out { sequence = print is; reference_period_ms = period }) is digits
        enough)

handle_timer_stuck :
    (out : DigitalOutput) (c : ℕ) (cs : List ℕ)
    → c ≢ 32
    → c ≢ 43
    → c ≢ 45
    → isdigit c ≡ false
    → handle_timer (record out { next = c ∷ cs }) ≡ (
      some (out.reference_period_ms / 2 ^ out.current_duration_shift),
      record out { next = c ∷ cs },
    )
unfolding handle_timer parse_next parse_initial parse_duration
handle_timer_stuck out c cs h32 h43 h45 digit =
    rw (==_false c 32 h32, ==_false c 43 h43, ==_false c 45 h45, digit) refl

play_stuck :
    (fuel : ℕ) (out : DigitalOutput) (c : ℕ) (cs : List ℕ)
    → c ≢ 32
    → c ≢ 43
    → c ≢ 45
    → isdigit c ≡ false
    → (play fuel (handle_timer (record out { next = c ∷ cs }))).0
      ≡ replicate fuel (out.level, out.reference_period_ms / 2 ^ out.current_duration_shift)
unfolding play
play_stuck zero out c cs h32 h43 h45 digit = refl
play_stuck (suc fuel) out c cs h32 h43 h45 digit =
    rw (handle_timer_stuck out c cs h32 h43 h45 digit) (
      ap (λ l. (out.level, out.reference_period_ms / 2 ^ out.current_duration_shift) ∷ l)
        (play_stuck fuel out c cs h32 h43 h45 digit))

-- A sequence that comes to a character that is neither a space, a sign nor a digit does not get past
-- it: the level stays, and the timer is armed again and again for the same delay, repeated or not.
pub play-start_stuck :
    (out : DigitalOutput) (period fuel c : ℕ) (cs : List ℕ) (repeat : Bool)
    → c ≢ 32
    → c ≢ 43
    → c ≢ 45
    → isdigit c ≡ false
    → (play fuel (start out period (c ∷ cs) repeat)).0
      ≡ replicate fuel (out.level, period % 2 ^ 16 / 2 ^ out.current_duration_shift)
unfolding start
play-start_stuck out period fuel c cs repeat h32 h43 h45 digit =
    play_stuck fuel
      (record out { sequence = c ∷ cs; repeat = repeat; reference_period_ms = period % 2 ^ 16 }) c
      cs h32 h43 h45 digit
