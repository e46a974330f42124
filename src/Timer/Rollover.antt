-- ===== src/Timer/Rollover.antt =====
-- src/timer.c near the roll over of the 32-bit counter: the dispatcher compares counts as plain
-- numbers, while `_timer_arm` compares distances.
use native.Mathlib.Nat.{le_refl}
use asx.Base.{ℤ, pos_part, neg_part, le→ltb, le→leb}
use asx.Base.{
  ℕ, zero, suc, ◌+◌, ◌^◌, ◌≤◌, ◌<◌, ◌≡◌, ◌≢◌, refl, arith, true, false, [], ◌∷◌, leb, ==_false, ap,
  ◌∙◌, sym, subst,
}
use asx.Base.Outcome.{returned, unfinished}
use asx.Timer.{
  Future, Timer, invalid_instance, next_count, distance_of, get_count_from_now, arm, dispatch,
}
use asx.Timer.Slots.{earlier}
use asx.Timer.Schedule.{insert, renewed, fired, now_after, expire, expire_fire, Named}
use asx.Timer.Pending.{Holds, pending, origin, armed, given_instance, arm_reusing_refines}
use asx.Timer.Dispatch.{notice_of, Agrees, dispatch_refines}

-- A timer that is due at `time_now`, and whose next count would roll over, is due at `time_now` again.
next_count_stays :
    (time_now : ℕ) (f : Future)
    → f.count ≡ time_now
    → f.repeat < 2 ^ 32
    → time_now < 2 ^ 32
    → 2 ^ 32 ≤ time_now + f.repeat
    → next_count time_now f ≡ time_now
unfolding next_count
next_count_stays time_now f due small in_range over = ground arith

earlier_self : (now count : ℕ) (f : Future) → count ≡ f.count → earlier now count f ≡ false
unfolding earlier
earlier_self now count f same =
    rw same (le→ltb (pos_part d + neg_part d) (pos_part d + neg_part d) (le_refl _))
  where
    d : ℤ
    d = distance_of now f.count

-- A repeating timer that is due, and whose next count would roll over.
pub record Wraps (time_now : ℕ) (f : Future) : Type 0 where
  pub due : f.count ≡ time_now
  pub small : f.repeat < 2 ^ 32
  pub in_range : time_now < 2 ^ 32
  pub over : 2 ^ 32 ≤ time_now + f.repeat

fired_again :
    (time_now now : ℕ) (f : Future)
    → Wraps time_now f
    → fired time_now now f [] ≡ renewed time_now f ∷ []
unfolding fired insert
fired_again time_now now f w = rw (
  ==_false f.repeat 0 (λ none. omega arith),
  earlier_self now (next_count time_now f) f
      (next_count_stays time_now f w.due w.small w.in_range w.over ∙ sym w.due),
)

expire_endless :
    (ticks : ℕ → ℕ) (fuel time_now now : ℕ) (f : Future)
    → Wraps time_now f
    → expire ticks fuel time_now now (f ∷ []) ≡ unfinished
expire_endless ticks zero time_now now f w = unfold expire in refl
expire_endless ticks (suc fuel) time_now now f w =
    expire_fire ticks fuel time_now now f [] (ground (arith, w.due))
    ∙ rw (
      fired_again time_now (now_after (ticks fuel) now) f w,
      expire_endless ticks fuel time_now (now_after (ticks fuel) now) (renewed time_now f) (record {
        due = next_count_stays time_now f w.due w.small w.in_range w.over;
        small = w.small;
        in_range = w.in_range;
        over = w.over;
      }),
    )

-- If the one armed timer has a valid instance, repeats, is due at this very count, and its next
-- count would roll over, then `timer_dispatch` never returns, whatever interrupts arrive: the
-- next count is put back to now, so that the timer fires again in every round.
pub dispatch_endless :
    (ticks : ℕ → ℕ) (fuel : ℕ) (t : Timer)
    → Holds t 1
    → (t.slots t.active).instance_id ≢ invalid_instance
    → Wraps t.counter (t.slots t.active)
    → dispatch ticks fuel t ≡ unfinished
dispatch_endless ticks fuel t holds named w =
    subst (Agrees (dispatch ticks fuel t))
      (ap (expire ticks fuel t.counter t.counter) one
        ∙ expire_endless ticks fuel t.counter t.counter (t.slots t.active) w)
      (dispatch_refines ticks fuel t 1 (omega arith) holds (subst Named (sym one) (named, tt)))
  where
    one : pending t 1 ≡ t.slots t.active ∷ []
    one = ap (λ a. t.slots a ∷ []) (origin t.active holds.active_in)

expire_once :
    (time_now now : ℕ) (f : Future)
    → leb f.count time_now ≡ true
    → f.repeat ≡ 0
    → expire (λ _. 0) 2 time_now now (f ∷ []) ≡ returned (notice_of f ∷ [], [], now)
unfolding expire fired
expire_once time_now now f due once = rw (due, once)

-- A timer armed on an empty list, for a delay of less than 2 ^ 32 behind which the counter rolls
-- over, is fired by the very next run of the dispatcher, whatever the delay is, if the instance
-- that it gets is not the invalid one.
pub arm-dispatch_early :
    (t : Timer) (reactor delay arg : ℕ)
    → Holds t 0
    → t.counter < 2 ^ 32
    → delay < 2 ^ 32
    → 2 ^ 32 ≤ t.counter + delay
    → given_instance t invalid_instance ≢ invalid_instance
    → (t' u : Timer) × (arm t reactor (get_count_from_now t delay) 0 arg
        ≡ returned (given_instance t invalid_instance, t'))
      × (dispatch (λ _. 0) 2 t' ≡ returned (record { handle = reactor; arg = arg } ∷ [], u))
unfolding arm get_count_from_now
arm-dispatch_early t reactor delay arg holds in_range small over named =
    let (t', runs, holds', list, clock, _, _) =
      arm_reusing_refines t 0 reactor (get_count_from_now t delay) 0 invalid_instance arg holds
        (omega arith) in
    let f : Future = armed t reactor (get_count_from_now t delay) 0 invalid_instance arg in
    let list' : pending t' 1 ≡ f ∷ [] = list ∙ unfold insert in refl in
    let due : leb f.count t'.counter ≡ true = rw clock (le→leb f.count t.counter (omega arith)) in
    let (u, _, early, _, _, _, _) =
      subst (Agrees (dispatch (λ _. 0) 2 t'))
        (ap (expire (λ _. 0) 2 t'.counter t'.counter) list'
          ∙ expire_once t'.counter t'.counter f due refl)
        (dispatch_refines (λ _. 0) 2 t' 1 (omega arith) holds'
          (subst Named (sym list') (named, tt))) in
    (t', u, runs, early)
