-- ===== src/Timer/Tests.antt =====
-- Runs of the timer service, and the theorems at concrete states.
use asx.Base.{◌+◌, ℕ, ◌-◌, ◌^◌, ◌≡◌, refl, arith, List, [], ◌∷◌, if◌then◌else◌, ◌==◌}
use asx.Base.Outcome.{returned, unfinished}
use asx.Timer.{
  Future, Notice, Timer, init, get_count_from_now, arm, arm_reusing, invalid_instance, cancel, tick,
  null_handle, update, tick_times, get_count, time_lapsed_since, dispatch, dispatch_loop, renew,
  retire, find_point, shift_right, distance_of,
}
use asx.Timer.Schedule.{Named, fired, expire, insert, remove}
use asx.Timer.Pending.{Holds, pending, armed, arm_reusing_refines}
use asx.Timer.Cancel.{Cancels, cancel_refines}
use asx.Timer.Dispatch.{Agrees, dispatch_refines}
use asx.Timer.Rollover.{dispatch_endless}
use asx.Timer.Timely.{dispatch_timely}
use asx.Timer.Expire.{AllNear, NoneDue, IsAscending}
use asx.Timer.Clock.{time_lapsed_since-tick_times}
use asx.Timer.Near.{StaysNear}
use asx.Timer.Service.{start, armed_one, dispatched, IsSound, Service-IsSound}

abbrev no_timer : Future
no_timer = record { reactor = 255; instance_id = 0; count = 0; repeat = 0; arg = 0 }

abbrev once : Future
once = record { reactor = 3; instance_id = 1; count = 90; repeat = 0; arg = 7 }

abbrev repeated : Future
repeated = record { reactor = 4; instance_id = 2; count = 100; repeat = 5; arg = 8 }

-- A timer that fires once and one that repeats, round the end of the array.
abbrev two : Timer
two = record {
  slots = λ i. if i == 15 then once else if i == 0 then repeated else no_timer;
  counter = 102;
  active = 15;
  avail = 1;
  current_instance = 2;
}

two-Holds : Holds two 2
two-Holds = record {
  active_in = omega arith;
  room = omega arith;
  next_free = refl;
  free = λ j above lt. ground arith;
}

two-Named : Named (pending two 2)
two-Named = (omega arith, (omega arith, tt))

-- Both fire; the second is sorted in again, with no argument.
abbrev after_two : Timer
after_two = record two {
  slots = λ i. if i == 1 then record repeated { count = 105; arg = 0 } else no_timer;
  active = 1;
  avail = 2;
}

dispatch-two :
    (t : Timer) × (dispatch (λ _. 0) 5 two
      ≡ returned (record { handle = 3; arg = 7 } ∷ record { handle = 4; arg = 8 } ∷ [], t))
    × (t.slots 1 ≡ record repeated { count = 105; arg = 0 })
    × (t.active ≡ 1)
    × (t.avail ≡ 2)
unfolding dispatch dispatch_loop renew retire arm_reusing find_point shift_right distance_of
dispatch-two = (_, refl, refl, refl, refl)

dispatch_refines_example :
    Agrees (dispatch (λ _. 0) 5 two) (expire (λ _. 0) 5 102 102 (once ∷ repeated ∷ []))
dispatch_refines_example = dispatch_refines (λ _. 0) 5 two 2 (omega arith) two-Holds two-Named

arm_reusing_refines_example :
    (t' : Timer) × (arm_reusing two 6 95 0 invalid_instance 9 ≡ returned (3, t'))
    × Holds t' 3
    × (pending t' 3 ≡ insert 102 (armed two 6 95 0 invalid_instance 9) (once ∷ repeated ∷ []))
    × (t'.counter ≡ 102)
    × (t'.active ≡ 15)
    × (t'.current_instance ≡ 3)
arm_reusing_refines_example =
    arm_reusing_refines two 2 6 95 0 invalid_instance 9 two-Holds (omega arith)

cancel_refines_example : Cancels two 2 (cancel two 2) (remove 2 (once ∷ repeated ∷ []))
cancel_refines_example = cancel_refines two 2 2 two-Holds (omega arith)

two-AllNear : AllNear 102 110 (pending two 2)
two-AllNear = omega arith

dispatch_timely_example :
    (notices : List Notice) × (t' : Timer) × (m : ℕ) × (dispatch (λ _. 0) 5 two
      ≡ returned (notices, t'))
    × Holds t' m
    × NoneDue 102 (pending t' m)
    × IsAscending (pending t' m)
dispatch_timely_example =
    dispatch_timely (λ _. 0) 5 110 two 2 (omega arith) two-Holds two-Named two-AllNear (omega arith)
      (omega arith) (omega arith) (omega arith)

-- A 10 ms repetition, 5 ms before the roll over.
abbrev late : Timer
late = record {
  slots = λ i.
      if i == 0
      then record { reactor = 4; instance_id = 2; count = 2 ^ 32 - 5; repeat = 10; arg = 8 }
      else no_timer;
  counter = 2 ^ 32 - 5;
  active = 0;
  avail = 1;
  current_instance = 2;
}

late-Holds : Holds late 1
late-Holds = record {
  active_in = omega arith;
  room = omega arith;
  next_free = refl;
  free = λ j above lt. ground arith;
}

dispatch_endless_example : dispatch (λ k. k) 1000 late ≡ unfinished
dispatch_endless_example =
    dispatch_endless (λ k. k) 1000 late late-Holds (omega arith)
      (record { due = refl; small = omega arith; in_range = omega arith; over = omega arith })

-- No timer armed, 5 ms before the roll over.
abbrev idle : Timer
idle = record late { slots = λ i. no_timer; avail = 0 }

idle-Holds : Holds idle 0
idle-Holds = record {
  active_in = omega arith;
  room = omega arith;
  next_free = refl;
  free = λ j above lt. refl;
}

abbrev armed_init : Timer
armed_init = record init_state {
  slots = λ i.
      if 0 == i
      then record { reactor = 3; instance_id = 0; count = 50; repeat = 0; arg = 7 }
      else no_timer;
  avail = 1;
  current_instance = 0;
}
  where
    init_state : Timer
    init_state = record {
      slots = λ i. no_timer;
      counter = 0;
      active = 0;
      avail = 0;
      current_instance = 0;
    }

arm-init : arm init 3 50 0 7 ≡ returned (0, armed_init)
unfolding arm arm_reusing init find_point shift_right distance_of
arm-init = refl

-- A timer that is due at once, and the dispatcher with a tick inside.
abbrev armed_due : Timer
armed_due = record armed_init {
  slots = λ i.
      if 0 == i
      then record { reactor = 3; instance_id = 0; count = 0; repeat = 0; arg = 7 }
      else no_timer;
}

abbrev fired_due : Timer
fired_due = record armed_due {
  slots = update armed_due.slots 0 (record (armed_due.slots 0) { reactor = null_handle });
  counter = 1;
  active = 1;
}

arm-due : arm init 3 0 0 7 ≡ returned (0, armed_due)
unfolding arm arm_reusing init find_point shift_right distance_of
arm-due = refl

dispatch-due :
    dispatch (λ _. 1) 2 armed_due ≡ returned (record { handle = 3; arg = 7 } ∷ [], fired_due)
unfolding dispatch dispatch_loop renew retire tick tick_times
dispatch-due = refl

near-due : StaysNear (λ _. 1) 2 0 0 (pending armed_due 1)
unfolding fired
near-due = ((((omega arith, λ e. omega (arith, e)), tt), tt), tt)

Service-IsSound_example : IsSound 0 fired_due
Service-IsSound_example = Service-IsSound (
    dispatched (λ _. 1) 2 _ (armed_one 3 0 0 7 0 start (omega arith) arm-due) (omega arith)
      (omega arith, tt) near-due dispatch-due (omega arith) refl)

-- Over the roll over, from 5 ms before it to 7 ms behind it, and to 12 behind it.
time_lapsed_since-tick_times_example :
    (time_lapsed_since (tick_times 12 late) (get_count late) ≡ 12)
    × (time_lapsed_since (tick_times (5 + 12) late) (get_count_from_now late 5) ≡ 12)
time_lapsed_since-tick_times_example =
    time_lapsed_since-tick_times late 5 12 (omega arith) (omega arith)
