-- ===== src/Timer/Pending.antt =====
-- src/timer.c: the armed timers in the array, and that `_timer_arm` sorts one in.
use asx.Base.{ℕ, suc, ◌+◌, ◌-◌, ◌≤◌, ◌<◌, ◌≡◌, refl, arith, false, ◌&&◌, not, List}
use asx.Base.{u32, ◌==◌, if◌then◌else◌, tabulate, subst}
use asx.Base.Outcome.{returned}
use asx.Timer.{
  Future, Timer, update, right_of, null_handle, invalid_instance, loop_fuel, find_point,
  shift_right, arm_reusing,
}
use asx.Timer.Slots.{
  place, right_of-place, place_eq, view, search, search_bounds, find_point_lem, shift_right_lem,
  moved_right, Shows,
}
use asx.Timer.Schedule.{insert, tabulate-insert}

-- The timer holds `n` armed timers: they stand from the active slot on, behind them is the next
-- available slot, and the slots that hold no armed timer have no reactor.
pub record Holds (t : Timer) (n : ℕ) : Type 0 where
  pub active_in : t.active < 16
  pub room : n ≤ 16
  pub next_free : t.avail ≡ place t.active n
  pub free : (j : ℕ) → n ≤ j → j < 16 → (t.slots (place t.active j)).reactor ≡ null_handle

-- The armed timers in the order of the array.
abbrev pub pending : Timer → ℕ → List Future
pending t n = tabulate n (view t.slots t.active)

-- The instance that `_timer_arm` gives, and the last instance given behind it.
abbrev pub given_instance : Timer → ℕ → ℕ
given_instance t reuse = if reuse == invalid_instance then u32 (t.current_instance + 1) else reuse

abbrev pub last_instance : Timer → ℕ → ℕ
last_instance t reuse =
    if reuse == invalid_instance then given_instance t reuse else t.current_instance

pub origin : (a : ℕ) → a < 16 → place a 0 ≡ a
origin a h = omega arith

module _ {t : Timer} {n : ℕ} (holds : Holds t n) (fits : n < 16) where
  open holds use {active_in, next_free, free}

  abbrev now : ℕ
  now = t.counter

  abbrev seen : ℕ → Future
  seen = view t.slots t.active

  -- The alert is for a full array.
  not_full : ((t.active == t.avail) && not ((t.slots t.active).reactor == null_handle)) ≡ false
  not_full = ground (arith, free 0, origin t.active active_in)

  found :
      (count : ℕ)
      → find_point loop_fuel t.slots now count t.avail t.active
        ≡ returned (place t.active (search now count n 0 seen))
  found count =
      subst
        (λ a.
          find_point loop_fuel t.slots now count t.avail a
          ≡ returned (place t.active (search now count n 0 seen)))
        (origin t.active active_in)
        (rw next_free (
          find_point_lem t.slots t.active now count n loop_fuel 0 n (omega arith) (omega arith)
            fits))

  shifted :
      (p : ℕ)
      → p ≤ n
      → Shows
          (shift_right loop_fuel t.slots t.avail (place t.active p))
          t.active
          (moved_right p n seen)
  shifted p le =
      rw next_free
        (shift_right_lem (n - p) loop_fuel p n t.active t.slots (omega arith) (omega arith) fits)

  -- The state that stores `x` at place `p` of a moved array.
  stored : (ℕ → Future) → ℕ → Future → ℕ → Timer
  stored s p x current = record t {
    slots = update s (place t.active p) x;
    avail = right_of t.avail;
    current_instance = current;
  }

  module _ (s : ℕ → Future) (p : ℕ) (x : Future) (current : ℕ) (le : p ≤ n)
      (moved : (j : ℕ) → j < 16 → s (place t.active j) ≡ moved_right p n seen j) where
    view-stored :
        (j : ℕ)
        → j < 16
        → view (stored s p x current).slots t.active j
          ≡ (if j == p then x else moved_right p n seen j)
    unfolding stored
    view-stored j lt = ground (arith, place_eq t.active p j (omega arith) lt, moved j lt)

    stored-Holds : Holds (stored s p x current) (suc n)
    unfolding stored
    stored-Holds = record {
      active_in = active_in;
      room = fits;
      next_free = rw next_free (right_of-place t.active n);
      free =
          λ j above lt. ground (arith, place_eq t.active p j (omega arith) lt, moved j lt, free j);
    }

-- The timer that `_timer_arm` sorts in.
abbrev pub armed : Timer → ℕ → ℕ → ℕ → ℕ → ℕ → Future
armed t reactor count repeat reuse arg = record {
  reactor = reactor;
  instance_id = given_instance t reuse;
  count = count;
  repeat = repeat;
  arg = arg;
}

-- With fewer than 16 timers armed, `_timer_arm` returns: it gives the instance, and sorts the new
-- timer in as `insert` does at the time that the clock shows.
pub arm_reusing_refines :
    (t : Timer) (n reactor count repeat reuse arg : ℕ)
    → Holds t n
    → n < 16
    → (t' : Timer) × (arm_reusing t reactor count repeat reuse arg
        ≡ returned (given_instance t reuse, t'))
      × Holds t' (suc n)
      × (pending t' (suc n)
          ≡ insert t.counter (armed t reactor count repeat reuse arg) (pending t n))
      × (t'.counter ≡ t.counter)
      × (t'.active ≡ t.active)
      × (t'.current_instance ≡ last_instance t reuse)
unfolding arm_reusing stored
arm_reusing_refines t n reactor count repeat reuse arg holds fits =
    let p : ℕ = search t.counter count n 0 (seen holds fits) in
    let le : p ≤ n = omega (arith, search_bounds t.counter count n 0 (seen holds fits)) in
    let next : Future = armed t reactor count repeat reuse arg in
    let (s, shift, moved) = shifted holds fits p le in
    (
      stored holds fits s p next (last_instance t reuse),
      rw (not_full holds fits, found holds fits count, shift),
      stored-Holds holds fits s p next (last_instance t reuse) le moved,
      tabulate-insert t.counter next n p (seen holds fits) _ refl (λ j below.
          view-stored holds fits s p next (last_instance t reuse) le moved j (omega arith)),
      refl,
      refl,
      refl,
    )
