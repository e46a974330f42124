-- ===== src/Timer/Full.antt =====
-- src/timer.c with all 16 slots in use: the next available slot is the active one again, as it is when
-- no timer is armed.
use asx.Base.{ℕ, suc, ◌≡◌, ◌≢◌, arith, true, false, [], ◌==◌, ==_true, ==_false}
use asx.Base.Outcome.{returned, alerted}
use asx.Timer.{Timer, null_handle, arm_reusing, dispatch_loop, dispatch, find_instance, cancel}
use asx.Timer.Pending.{Holds}

full_meets : (t : Timer) → Holds t 16 → t.active ≡ t.avail
full_meets t holds = omega (arith, holds.next_free, holds.active_in)

-- With 16 timers armed, the dispatcher sees an empty list: at any time it returns at once, gives no
-- notice and fires nothing. A cancellation finds no timer either, so the slots stay in use; and if the
-- active slot has a reactor, every further call of `_timer_arm` is stopped by the alert.
pub full_stuck :
    (t : Timer) (ticks : ℕ → ℕ) (fuel i reactor count repeat reuse arg : ℕ)
    → Holds t 16
    → (t.slots t.active).reactor ≢ null_handle
    → (dispatch ticks (suc fuel) t ≡ returned ([], t))
      × (cancel t i ≡ returned (false, t))
      × (arm_reusing t reactor count repeat reuse arg ≡ alerted)
unfolding dispatch dispatch_loop cancel find_instance arm_reusing
full_stuck t ticks fuel i reactor count repeat reuse arg holds busy =
    let same : (t.active == t.avail) ≡ true = ==_true t.active t.avail (full_meets t holds) in
    (rw same, rw same, rw (same, ==_false (t.slots t.active).reactor null_handle busy))
