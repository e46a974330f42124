-- ===== src/Timer/Clock.antt =====
-- src/timer.c: the free running counter, read by its clients.
use asx.Base.{ℕ, zero, suc, ◌+◌, ◌^◌, ◌<◌, ◌≡◌, arith}
use asx.Base.{u32}
use asx.Timer.{Timer, tick, tick_times, get_count, get_count_from_now, time_lapsed_since}

counter-tick_times :
    (k : ℕ) (t : Timer) → t.counter < 2 ^ 32 → (tick_times k t).counter ≡ u32 (t.counter + k)
unfolding tick_times tick
counter-tick_times zero t lt = omega (arith)
counter-tick_times (suc k) t lt = omega (arith, counter-tick_times k (tick t) (omega arith))

-- The time elapsed since a count that was read is the number of interrupts since then; the time elapsed
-- since a count that was computed for `delay` counts the interrupts behind the first `delay`. In both
-- the counter may have rolled over, if the interrupts are fewer than 2 ^ 32.
pub time_lapsed_since-tick_times :
    (t : Timer) (delay k : ℕ)
    → t.counter < 2 ^ 32
    → delay + k < 2 ^ 32
    → (time_lapsed_since (tick_times k t) (get_count t) ≡ k)
      × (time_lapsed_since (tick_times (delay + k) t) (get_count_from_now t delay) ≡ k)
unfolding time_lapsed_since get_count get_count_from_now
time_lapsed_since-tick_times t delay k lt few =
    let now = counter-tick_times k t lt in
    let later = counter-tick_times (delay + k) t lt in
    (omega (arith, now, few), omega (arith, later, few))
