-- ===== src/Timer/Service.antt =====
-- src/timer.c: the states that calls of the service reach, and the order of the list in each.
use asx.Base.{
  ℕ, suc, ◌^◌, ◌<◌, ◌≡◌, ◌∙◌, ap, sym, subst, subst₂, refl, arith, true, Option-cases, inl, inr,
  List,
}
use mathlib.Core.Bool.{false≢true}
use asx.Base.Outcome.{Outcome, returned, unfinished, alerted}
use asx.Timer.{Future, Notice, Timer, init, tick, arm, cancel, dispatch, invalid_instance}
use asx.Timer.Slots.{place, place_injective}
use asx.Timer.Schedule.{expire, remove, Named}
use asx.Timer.Pending.{Holds, pending, armed, arm_reusing_refines}
use asx.Timer.Cancel.{Cancels, cancel_refines}
use asx.Timer.Dispatch.{Agrees, dispatch_refines}
use asx.Timer.Order.{IsOrdered, AllInWindow, insert-IsOrdered, tick-IsOrdered, remove-IsOrdered}
use asx.Timer.Near.{StaysNear, Keeps, expire-Keeps}

-- The state `t`, with `n` timers armed, is reached from the start by ticks of the clock while no timer
-- is overdue by half of the clock's range, and by calls that return while fewer than 16 timers are
-- armed. The clock ticks `ticks` times in each round of the dispatcher.
pub data Service : ℕ → Timer → Type 0 where
  start : Service 0 init
  ticked :
      {n : ℕ} {t : Timer} → Service n t → AllInWindow t.counter (pending t n) → Service n (tick t)
  armed_one :
      {n : ℕ} {t t' : Timer} (reactor count repeat arg i : ℕ)
      → Service n t
      → n < 16
      → arm t reactor count repeat arg ≡ returned (i, t')
      → Service (suc n) t'
  cancelled :
      {n : ℕ} {t t' : Timer} (i : ℕ)
      → Service (suc n) t
      → suc n < 16
      → cancel t i ≡ returned (true, t')
      → Service n t'
  dispatched :
      {n m : ℕ} {t t' : Timer} (ticks : ℕ → ℕ) (fuel : ℕ) (notices : List Notice)
      → Service n t
      → n < 16
      → Named (pending t n)
      → StaysNear ticks fuel t.counter t.counter (pending t n)
      → dispatch ticks fuel t ≡ returned (notices, t')
      → m < 16
      → t'.avail ≡ place t'.active m
      → Service m t'

pub record IsSound (n : ℕ) (t : Timer) : Type 0 where
  pub holds : Holds t n
  pub ordered : IsOrdered t.counter (pending t n)
  pub in_range : t.counter < 2 ^ 32

init-IsSound : IsSound 0 init
unfolding init
init-IsSound = record {
  holds = record {
    active_in = omega arith;
    room = omega arith;
    next_free = refl;
    free = λ j h lt. refl;
  };
  ordered = tt;
  in_range = omega arith;
}

tick-IsSound :
    (n : ℕ) (t : Timer) → AllInWindow t.counter (pending t n) → IsSound n t → IsSound n (tick t)
unfolding tick
tick-IsSound n t near sound = record {
  holds = record {
    active_in = sound.holds.active_in;
    room = sound.holds.room;
    next_free = sound.holds.next_free;
    free = sound.holds.free;
  };
  ordered = tick-IsOrdered t.counter (pending t n) sound.in_range near sound.ordered;
  in_range = omega arith;
}

-- What a call that returns gives, where another description of it is known.
returned_value {ℓ} :
    {A : Type ℓ} (o : Outcome A) {x y : A} → o ≡ returned x → o ≡ returned y → x ≡ y
returned_value o p q = cc

arm-IsSound :
    (t t' : Timer) (n reactor count repeat arg i : ℕ)
    → IsSound n t
    → n < 16
    → arm t reactor count repeat arg ≡ returned (i, t')
    → IsSound (suc n) t'
unfolding arm
arm-IsSound t t' n reactor count repeat arg i sound fits runs =
    let (u, runs', holds, list, clock, _, _) =
      arm_reusing_refines t n reactor count repeat invalid_instance arg sound.holds fits in
    let same : u ≡ t' = ap (λ r. r.1) (returned_value _ runs' runs) in
    subst (IsSound (suc n)) same (record {
      holds = holds;
      ordered = subst₂ IsOrdered (sym clock) (sym list) (
          insert-IsOrdered t.counter (armed t reactor count repeat invalid_instance arg)
            (pending t n) sound.ordered);
      in_range = subst (λ c. c < 2 ^ 32) (sym clock) sound.in_range;
    })

cancel-IsSound :
    (t t' : Timer) (n i : ℕ)
    → IsSound (suc n) t
    → suc n < 16
    → cancel t i ≡ returned (true, t')
    → IsSound n t'
cancel-IsSound t t' n i sound fits runs = elim (Option-cases (remove i (pending t (suc n)))) [
  | inl absent ↦ absurd (
      false≢true (
        sym (
          ap (λ r. r.0)
            (returned_value (cancel t i) runs
              (subst (Cancels t (suc n) (cancel t i)) absent refines)))))
  | inr (rest, kept) ↦
      let (u, m, less, runs', holds, list, clock) =
        subst (Cancels t (suc n) (cancel t i)) kept refines in
      let same : u ≡ t' = ap (λ r. r.1) (returned_value (cancel t i) runs' runs) in
      let fewer : m ≡ n = omega arith in
      subst₂ IsSound fewer same (record {
        holds = holds;
        ordered =
            subst₂ IsOrdered (sym clock) (sym list)
              (remove-IsOrdered t.counter i (pending t (suc n)) rest kept sound.ordered);
        in_range = subst (λ c. c < 2 ^ 32) (sym clock) sound.in_range;
      })
]
  where
    refines : Cancels t (suc n) (cancel t i) (remove i (pending t (suc n)))
    refines = cancel_refines t (suc n) i sound.holds fits

Agrees-IsSound :
    (t' : Timer) (m : ℕ) (notices : List Notice) (result : Outcome (List Notice × Timer))
    (model : Outcome (List Notice × List Future × ℕ))
    → Agrees result model
    → Keeps model
    → result ≡ returned (notices, t')
    → m < 16
    → t'.avail ≡ place t'.active m
    → IsSound m t'
Agrees-IsSound t' m notices result (returned (ns, fs, now')) (u, n, runs', fits, holds, list, clock)
      (lt, ordered) runs small free_at =
    let same : u ≡ t' = ap (λ r. r.1) (returned_value result runs' runs) in
    let there : u.avail ≡ place u.active m =
      subst (λ v. v.avail ≡ place v.active m) (sym same) free_at in
    subst₂ IsSound (place_injective u.active n m fits small (sym holds.next_free ∙ there)) same
      (record {
        holds = holds;
        ordered = subst₂ IsOrdered (sym clock) (sym list) ordered;
        in_range = subst (λ c. c < 2 ^ 32) (sym clock) lt;
      })
Agrees-IsSound t' m notices result unfinished agrees keeps runs small free_at = absurd (cc)
Agrees-IsSound t' m notices result alerted agrees keeps runs small free_at = absurd agrees

-- In every state that the service reaches, the armed timers stand one behind another from the active
-- slot, with the next available slot behind them and no reactor in the others, and none fires before one
-- that stands in front of it. It is reached from the start by ticks of the clock, in front of the calls
-- and inside the dispatcher, while no timer is overdue by half of the clock's range, and by calls of
-- arming, of a cancellation that finds its timer, and of the dispatcher, that return while fewer than 16
-- timers are armed. The timers that the dispatcher finds have instances that are not the invalid one.
pub Service-IsSound : {n : ℕ} {t : Timer} → Service n t → IsSound n t
Service-IsSound start = init-IsSound
Service-IsSound (ticked {n} {t} s near) = tick-IsSound n t near (Service-IsSound s)
Service-IsSound (armed_one {n} {t} {t'} reactor count repeat arg i s fits runs) =
    arm-IsSound t t' n reactor count repeat arg i (Service-IsSound s) fits runs
Service-IsSound (cancelled {n} {t} {t'} i s fits runs) =
    cancel-IsSound t t' n i (Service-IsSound s) fits runs
Service-IsSound
      (dispatched {n} {m} {t} {t'} ticks fuel notices s fits named near runs small free_at) =
    let sound = Service-IsSound s in
    Agrees-IsSound t' m notices (dispatch ticks fuel t)
      (expire ticks fuel t.counter t.counter (pending t n))
      (dispatch_refines ticks fuel t n fits sound.holds named)
      (expire-Keeps ticks fuel t.counter t.counter (pending t n) sound.in_range near sound.ordered)
      runs small free_at
