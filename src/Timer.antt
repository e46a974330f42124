-- ===== src/Timer.antt =====
-- src/timer.c: timers in a circular array, sorted by the time at which they fire.
-- The array is a function of the index; `Timer.Slots` shows that every index used is in range.
pub mod Slots
pub mod Schedule
pub mod Pending
pub mod Cancel
pub mod Undo
pub mod Dispatch
pub mod Full
pub mod Rollover
pub mod Order
pub mod Expire
pub mod Timely
pub mod Near
pub mod Service
mod Clock
mod Tests
use asx.Base.{ℕ, zero, suc, ◌+◌, ◌-◌, ◌^◌, Bool, true, false, ◌&&◌, not, Option, none, some}
use asx.Base.{List, [], ◌∷◌}
use asx.Base.{ℤ, signed32, sub32, u32, ltb_ℤ, ltb, leb, ◌==◌, if◌then◌else◌}
use asx.Base.Outcome.{Outcome, returned, alerted, unfinished, ◌>>=◌}

-- REACTOR_NULL_HANDLE and TIMER_INVALID_INSTANCE.
abbrev pub null_handle : ℕ
null_handle = 255

abbrev pub invalid_instance : ℕ
invalid_instance = 2 ^ 32 - 1

-- `_timer_future_t`: an 8-bit handle, three 32-bit numbers and a pointer.
pub record Future : Type 0 where
  pub reactor : ℕ
  pub instance_id : ℕ
  pub count : ℕ
  pub repeat : ℕ
  pub arg : ℕ

-- The static variables. `slots` is `_timer_future_sorted_list`, of TIMER_MAX_COUNT = 16 items.
pub record Timer : Type 0 where
  pub slots : ℕ → Future
  pub counter : ℕ
  pub active : ℕ
  pub avail : ℕ
  pub current_instance : ℕ

-- An assignment to one item of the array.
abbrev pub update : (ℕ → Future) → ℕ → Future → ℕ → Future
update f i v j = if i == j then v else f j

abbrev pub right_of : ℕ → ℕ
right_of i = if i == 15 then 0 else i + 1

abbrev pub left_of : ℕ → ℕ
left_of i = if i == 0 then 15 else i - 1

unfoldable pub distance_of : ℕ → ℕ → ℤ
distance_of start end = signed32 (sub32 end start)

-- The static initialisers, and the handles set by `_timer_init`.
pub init : Timer
init = record {
  slots = λ _. record { reactor = null_handle; instance_id = 0; count = 0; repeat = 0; arg = 0 };
  counter = 0;
  active = 0;
  avail = 0;
  current_instance = invalid_instance;
}

pub get_count : Timer → ℕ
get_count t = t.counter

-- What the interrupt does to the counter.
pub tick : Timer → Timer
tick t = record t { counter = u32 (t.counter + 1) }

pub get_count_from_now : Timer → ℕ → ℕ
unfolding get_count
get_count_from_now t delay = u32 (get_count t + delay)

pub time_lapsed_since : Timer → ℕ → ℕ
unfolding get_count
time_lapsed_since t count = sub32 (get_count t) count

-- The first loop of `_timer_arm`: the index behind every item that fires no later than `count`.
pub find_point : ℕ → (ℕ → Future) → ℕ → ℕ → ℕ → ℕ → Outcome ℕ
find_point zero slots now count avail point = unfinished
find_point (suc fuel) slots now count avail point =
    let rest = find_point fuel slots now count avail (right_of point) in
    if point == avail
    then returned point
    else if ltb_ℤ (distance_of now count) (distance_of now (slots point).count)
    then returned point
    else rest

-- The second loop: the items from `point` on move one place to the right, the last one into `i`.
pub shift_right : ℕ → (ℕ → Future) → ℕ → ℕ → Outcome (ℕ → Future)
shift_right zero slots i point = unfinished
shift_right (suc fuel) slots i point =
    let rest = shift_right fuel (update slots i (slots (left_of i))) (left_of i) point in
    if i == point then returned slots else rest

-- More rounds than any loop over the array makes.
abbrev pub loop_fuel : ℕ
loop_fuel = 17

-- `_timer_arm`: the instance and the state.
pub arm_reusing : Timer → ℕ → ℕ → ℕ → ℕ → ℕ → Outcome (ℕ × Timer)
unfolding get_count
arm_reusing t reactor count repeat reuse arg =
    let now = get_count t in
    let item = if reuse == invalid_instance then u32 (t.current_instance + 1) else reuse in
    let current = if reuse == invalid_instance then item else t.current_instance in
    let next : Future = record {
      reactor = reactor;
      instance_id = item;
      count = count;
      repeat = repeat;
      arg = arg;
    } in
    if (t.active == t.avail) && not ((t.slots t.active).reactor == null_handle) then alerted else do
      point ← find_point loop_fuel t.slots now count t.avail t.active
      slots ← shift_right loop_fuel t.slots t.avail point
      returned (
        item,
        record t {
          slots = update slots point next;
          avail = right_of t.avail;
          current_instance = current;
        },
      )

-- `timer_arm`
pub arm : Timer → ℕ → ℕ → ℕ → ℕ → Outcome (ℕ × Timer)
arm t reactor count repeat arg = arm_reusing t reactor count repeat invalid_instance arg

-- A call of `reactor_notify`: the handle and the argument.
pub record Notice : Type 0 where
  pub handle : ℕ
  pub arg : ℕ

-- Some interrupts, one behind another.
pub tick_times : ℕ → Timer → Timer
tick_times zero t = t
tick_times (suc n) t = tick_times n (tick t)

-- The count at which a repeating timer fires next: not before now.
unfoldable pub next_count : ℕ → Future → ℕ
next_count time_now f =
    let next = u32 (f.count + f.repeat) in if ltb next time_now then time_now else next

-- The part of the loop of `timer_dispatch` that repeats the timer.
pub renew : ℕ → Future → Timer → Outcome Timer
unfolding next_count
renew time_now f t = if f.repeat == 0 then returned t else do
  r ← arm_reusing t f.reactor (next_count time_now f) f.repeat f.instance_id 0
  returned r.1

-- What it does last: the active slot is given up.
pub retire : ℕ → Timer → Timer
retire slot t = record t {
  slots = update t.slots slot (record (t.slots slot) { reactor = null_handle });
  active = right_of t.active;
}

-- The loop of `timer_dispatch`, with the notices that it gives in order. `ticks` says how many
-- interrupts arrive in a round, before the clock is read again to sort a repeated timer in.
pub dispatch_loop : (ℕ → ℕ) → ℕ → ℕ → Timer → Outcome (List Notice × Timer)
unfolding tick_times
dispatch_loop ticks zero time_now t = unfinished
dispatch_loop ticks (suc fuel) time_now t =
    let f = t.slots t.active in
    let round : Outcome (List Notice × Timer) = (do
      t' ← renew time_now f (tick_times (ticks fuel) t)
      rest ← dispatch_loop ticks fuel time_now (retire t.active t')
      returned (record { handle = f.reactor; arg = f.arg } ∷ rest.0, rest.1)) in
    if t.active == t.avail
    then returned ([], t)
    else if leb f.count time_now
    then round
    else returned ([], t)

-- `timer_dispatch`
pub dispatch : (ℕ → ℕ) → ℕ → Timer → Outcome (List Notice × Timer)
unfolding get_count
dispatch ticks fuel t = dispatch_loop ticks fuel (get_count t) t

-- The outer loop of `timer_cancel`: the slot of the instance, if it is in the list.
pub find_instance : ℕ → (ℕ → Future) → ℕ → ℕ → ℕ → Outcome (Option ℕ)
find_instance zero slots to_cancel avail pointer = unfinished
find_instance (suc fuel) slots to_cancel avail pointer =
    let rest = find_instance fuel slots to_cancel avail (right_of pointer) in
    if pointer == avail
    then returned none
    else if (slots pointer).instance_id == to_cancel
    then returned (some pointer)
    else rest

-- The inner loop: the items right of `i` move one place to the left.
pub shift_left : ℕ → (ℕ → Future) → ℕ → ℕ → Outcome (ℕ → Future)
shift_left zero slots i avail = unfinished
shift_left (suc fuel) slots i avail =
    let rest = shift_left fuel (update slots i (slots (right_of i))) (right_of i) avail in
    if i == avail then returned slots else rest

-- What `timer_cancel` does when it has found the slot.
pub reclaim : Timer → ℕ → Outcome (Bool × Timer)
reclaim t pointer = do
  slots ← shift_left loop_fuel t.slots pointer t.avail
  let avail = left_of t.avail
  returned (
    true,
    record t {
      slots = update slots avail (record (slots avail) { reactor = null_handle });
      avail = avail;
    },
  )

-- `timer_cancel`
pub cancel : Timer → ℕ → Outcome (Bool × Timer)
unfolding reclaim
cancel t to_cancel = do
  found ← find_instance loop_fuel t.slots to_cancel t.avail t.active
  elim found [ none ↦ returned (false, t) | some pointer ↦ reclaim t pointer ]
