-- ===== src/Timer/Dispatch.antt =====
-- src/timer.c: `timer_dispatch` fires from the head of the list, as `expire` does.
use asx.Base.{
  ℕ, zero, suc, ◌<◌, ◌≡◌, ◌≢◌, sym, ap, ap₂, subst, subst₂, refl, arith, true, false, Bool-cases,
  inl, inr, List, [], ◌∷◌, ◌∙◌,
}
use asx.Base.{leb, ◌==◌, ==_false, ==_true, tail, tabulate_ext}
use asx.Base.Outcome.{Outcome, returned, unfinished, alerted, ◌>>=◌}
use asx.Timer.{
  Future, Notice, Timer, right_of, next_count, invalid_instance, tick, tick_times, renew, retire,
  dispatch_loop, dispatch,
}
use asx.Timer.Slots.{place, view}
use asx.Timer.Schedule.{
  insert, renewed, fired, now_after, expire, expire_fire, expire_wait, Named, fired-Named,
}
use asx.Timer.Pending.{Holds, pending, armed, origin, arm_reusing_refines}

-- The dispatcher ends as the model does: with the same notices, the model's list in the array, and
-- the model's clock; or both are still in the loop.
abbrev pub Agrees : Outcome (List Notice × Timer) → Outcome (List Notice × List Future × ℕ) → Type 0
Agrees result (returned (notices, fs, now)) =
    (t : Timer) × (n : ℕ) × (result ≡ returned (notices, t))
    × (n < 16)
    × Holds t n
    × (pending t n ≡ fs)
    × (t.counter ≡ now)
Agrees result unfinished = result ≡ unfinished
Agrees result alerted = ⊥

-- The interrupts move the clock alone.
tick_times_lem : (k : ℕ) (t : Timer) → tick_times k t ≡ record t { counter = now_after k t.counter }
unfolding tick_times tick
tick_times_lem zero t = refl
tick_times_lem (suc k) t = tick_times_lem k (tick t)

Holds-clock : (t : Timer) (n c : ℕ) → Holds t n → Holds (record t { counter = c }) n
Holds-clock t n c holds = record {
  active_in = holds.active_in;
  room = holds.room;
  next_free = holds.next_free;
  free = holds.free;
}

place_right : (a j : ℕ) → a < 16 → place (right_of a) j ≡ place a (suc j)
place_right a j h = ground arith

-- Giving up the active slot drops the head of the list.
retire-Holds : (t : Timer) (n : ℕ) → Holds t (suc n) → Holds (retire t.active t) n
unfolding retire
retire-Holds t n holds = record {
  active_in = ground arith;
  room = omega arith;
  next_free = holds.next_free ∙ sym (place_right t.active n holds.active_in);
  free = λ j above lt. ground (arith, place_right t.active j, holds.free (suc j));
}

retire-pending :
    (t : Timer) (n : ℕ) → Holds t (suc n) → pending (retire t.active t) n ≡ tail (pending t (suc n))
unfolding retire
retire-pending t n holds =
    tabulate_ext n _ _ λ j lt. ground (arith, place_right t.active j holds.active_in)

-- What a round leaves when the head of the list has expired.
abbrev Round : Timer → ℕ → Outcome Timer → List Future → Type 0
Round t now result fs =
    (t' : Timer) × (n : ℕ) × (result ≡ returned t')
    × (n < 16)
    × Holds (retire t.active t') n
    × (pending (retire t.active t') n ≡ fs)
    × ((retire t.active t').counter ≡ now)

retire-Round :
    (t t' : Timer) (n now : ℕ) (fs : List Future) (result : Outcome Timer)
    → Holds t' (suc n)
    → n < 16
    → t'.active ≡ t.active
    → result ≡ returned t'
    → tail (pending t' (suc n)) ≡ fs
    → t'.counter ≡ now
    → Round t now result fs
retire-Round t t' n now fs result holds fits same runs shows clock = (
  t',
  n,
  runs,
  fits,
  subst (λ a. Holds (retire a t') n) same (retire-Holds t' n holds),
  subst (λ a. pending (retire a t') n ≡ fs) same (retire-pending t' n holds ∙ shows),
  unfold retire in clock,
)

round_lem :
    (t : Timer) (n time_now now : ℕ) (f : Future) (fs : List Future)
    → Holds t (suc n)
    → suc n < 16
    → pending t (suc n) ≡ f ∷ fs
    → f.instance_id ≢ invalid_instance
    → Round t now (renew time_now f (record t { counter = now })) (fired time_now now f fs)
unfolding renew fired
round_lem t n time_now now f fs holds fits shows named = elim (Bool-cases (f.repeat == 0)) [
  | inl once ↦ rw once (
      retire-Round t clocked n now fs (returned clocked) clocked-Holds (omega arith) refl refl
        (ap tail shows) refl)
  | inr again ↦ rw again (
      let (t', runs, holds', list, clock, same, _) =
        arm_reusing_refines clocked (suc n) f.reactor (next_count time_now f) f.repeat f.instance_id
          0 clocked-Holds fits in
      retire-Round t t' (suc n) now (tail (insert now (renewed time_now f) (f ∷ fs))) _ holds' fits
        same (ap (λ o. o >>= λ r. returned r.1) runs)
        (ap tail (list ∙ ap₂ (λ (x : Future) (l : List Future). insert now x l) same_item shows))
        clock)
]
  where
    clocked : Timer
    clocked = record t { counter = now }

    clocked-Holds : Holds clocked (suc n)
    clocked-Holds = Holds-clock t (suc n) now holds

    same_item :
        armed clocked f.reactor (next_count time_now f) f.repeat f.instance_id 0
        ≡ renewed time_now f
    same_item =
        ap (λ i. record (renewed time_now f) { instance_id = i })
          (rw (==_false f.instance_id invalid_instance named))

abbrev pub notice_of : Future → Notice
notice_of f = record { handle = f.reactor; arg = f.arg }

-- A round in front of what follows it, in the code and in the model.
Agrees-cons :
    (f : Future) (result : Outcome (List Notice × Timer))
    (model : Outcome (List Notice × List Future × ℕ))
    → Agrees result model
    → Agrees
        (result >>= λ rest. returned (notice_of f ∷ rest.0, rest.1))
        (model >>= λ rest. returned (notice_of f ∷ rest.0, rest.1, rest.2))
Agrees-cons f result (returned (notices, fs, now)) (t, n, runs, fits, holds, list, clock) = (
  t,
  n,
  ap (λ o. o >>= λ rest. returned (notice_of f ∷ rest.0, rest.1)) runs,
  fits,
  holds,
  list,
  clock,
)
Agrees-cons f result unfinished runs = rw runs
Agrees-cons f result alerted runs = runs

loop_empty :
    (ticks : ℕ → ℕ) (fuel time_now : ℕ) (t : Timer)
    → Holds t 0
    → dispatch_loop ticks (suc fuel) time_now t ≡ returned ([], t)
unfolding dispatch_loop
loop_empty ticks fuel time_now t holds =
    rw (==_true t.active t.avail (sym (holds.next_free ∙ origin t.active holds.active_in)))

module _ (ticks : ℕ → ℕ) (fuel time_now : ℕ) (t : Timer) (n : ℕ) (holds : Holds t (suc n))
    (fits : suc n < 16) where
  abbrev first : Future
  first = t.slots t.active

  not_empty : (t.active == t.avail) ≡ false
  not_empty = ground (arith, holds.next_free, holds.active_in)

  loop_wait :
      leb first.count time_now ≡ false
      → dispatch_loop ticks (suc fuel) time_now t ≡ returned ([], t)
  unfolding dispatch_loop
  loop_wait waits = rw (not_empty, waits)

  loop_fire :
      leb first.count time_now ≡ true
      → dispatch_loop ticks (suc fuel) time_now t ≡ (
          renew time_now first (record t { counter = now_after (ticks fuel) t.counter }) >>= λ t'.
          dispatch_loop ticks fuel time_now (retire t.active t') >>= λ rest.
          returned (notice_of first ∷ rest.0, rest.1))
  unfolding dispatch_loop
  loop_fire expired = rw (not_empty, expired, tick_times_lem (ticks fuel) t)

-- The loop of `timer_dispatch` and the model, from a timer that holds fewer than 16 timers.
loop-Agrees :
    (ticks : ℕ → ℕ) (fuel time_now : ℕ) (t : Timer) (n : ℕ)
    → n < 16
    → Holds t n
    → Named (pending t n)
    → Agrees
        (dispatch_loop ticks fuel time_now t)
        (expire ticks fuel time_now t.counter (pending t n))
loop-Agrees ticks zero time_now t n fits holds named = unfold dispatch_loop expire in refl
loop-Agrees ticks (suc fuel) time_now t zero fits holds named =
    unfold expire in (t, zero, loop_empty ticks fuel time_now t holds, fits, holds, refl, refl)
loop-Agrees ticks (suc fuel) time_now t (suc n) fits holds named =
    elim (Bool-cases (leb f.count time_now)) [
      | inl expired ↦
          let (t', m, runs, fits', holds', list, clock) =
            round_lem t n time_now later f fs holds fits shows named'.0 in
          subst₂ Agrees
            (sym (
              loop_fire ticks fuel time_now t n holds fits expired
              ∙ ap
                  (λ o. o >>= λ t'.
                    dispatch_loop ticks fuel time_now (retire t.active t') >>= λ rest.
                    returned (notice_of f ∷ rest.0, rest.1))
                  runs))
            (sym (
              ap (expire ticks (suc fuel) time_now t.counter) shows
              ∙ expire_fire ticks fuel time_now t.counter f fs expired))
            (Agrees-cons f _ _ (
              subst₂
                (λ c l.
                  Agrees (dispatch_loop ticks fuel time_now (retire t.active t'))
                    (expire ticks fuel time_now c l))
                clock list
                (loop-Agrees ticks fuel time_now (retire t.active t') m fits' holds'
                  (subst Named (sym list) (fired-Named time_now later f fs named')))))
      | inr waits ↦
          subst₂ Agrees (sym (loop_wait ticks fuel time_now t n holds fits waits))
            (sym (
              ap (expire ticks (suc fuel) time_now t.counter) shows
              ∙ expire_wait ticks fuel time_now t.counter f fs waits))
            (t, suc n, refl, fits, holds, shows, refl)
    ]
  where
    later : ℕ
    later = now_after (ticks fuel) t.counter

    f : Future
    f = t.slots t.active

    fs : List Future
    fs = tail (pending t (suc n))

    head : view t.slots t.active 0 ≡ f
    head = ap t.slots (origin t.active holds.active_in)

    shows : pending t (suc n) ≡ f ∷ fs
    shows = ap (λ g. g ∷ fs) head

    named' : Named (f ∷ fs)
    named' = subst Named shows named

-- `timer_dispatch` and the model: from fewer than 16 armed timers, each of a valid instance, and
-- whatever interrupts arrive in its rounds, it gives the model's notices in the model's order and
-- leaves the model's list and clock; on fuel on which the model is still in its loop, so is the
-- code.
pub dispatch_refines :
    (ticks : ℕ → ℕ) (fuel : ℕ) (t : Timer) (n : ℕ)
    → n < 16
    → Holds t n
    → Named (pending t n)
    → Agrees (dispatch ticks fuel t) (expire ticks fuel t.counter t.counter (pending t n))
unfolding dispatch
dispatch_refines ticks fuel t n fits holds named =
    loop-Agrees ticks fuel t.counter t n fits holds named
