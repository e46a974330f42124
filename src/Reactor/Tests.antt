-- ===== src/Reactor/Tests.antt =====
-- Runs of the reactor, and the theorems at concrete states.
use asx.Base.{ℕ, ◌+◌, ◌<◌, ◌≡◌, refl, arith, ◌⊎◌}
use asx.Base.{true, false, not, ◌&&◌, some, none, [], ◌∷◌, ◌==◌, if◌then◌else◌}
use asx.Base.Bits.{bit}
use asx.Base.Outcome.{returned, ◌>>=◌}
use asx.Reactor.{
  Reactor, Handlers, null_handle, init, register_loop, found_slot, register, notify, mask_of,
  trailing_zeros, mask_pop, invoke, call_item, first_bit, take_from, take_first, word, run_round,
}
use asx.Reactor.Pending.{pending, AreBytes}
use asx.Reactor.Mask.{mask_pop_lem}
use asx.Base.Digits.{test_bit}
use asx.Reactor.Serve.{AllHandled, serving, served, run_round_lem}
use asx.Reactor.Drain.{run_until_sleep, pending_from, run_until_sleep_lem}
use asx.Reactor.Register.{Registers, register_lem}

-- Three registrations: two of high priority, then one of low priority.
register-init :
    (register init 70 1 >>= λ a.
    register a.1 71 1 >>= λ b. register b.1 72 0 >>= λ c. returned (a.0 ∷ b.0 ∷ c.0 ∷ []))
    ≡ returned (0 ∷ 1 ∷ 31 ∷ [])
unfolding init register register_loop found_slot
register-init = refl

-- Handles 3 and 17 have a notification; all have the handler 7.
abbrev two : Reactor
two = record {
  handlers = λ i. record { handler = 7; arg = i + 100 };
  lock = false;
  running_handle = null_handle;
  notifications = λ k. if k == 0 then 8 else if k == 2 then 2 else 0;
}

abbrev quiet : Handlers
quiet f a r = r

run-two : (r : Reactor) × (run_until_sleep quiet 3 two ≡ some (3 ∷ 17 ∷ [], r))
unfolding run_until_sleep run_round take_first take_from first_bit call_item word
run-two = (_, refl)

pending_from-two : pending_from two.notifications 0 32 ≡ 3 ∷ 17 ∷ []
unfolding pending_from pending bit
pending_from-two = refl

-- `reactor_invoke` calls at once.
invoke-two :
    invoke (λ f a r. record r { running_handle = f + a }) two 4 5
    ≡ some (record two { running_handle = 12 })
unfolding invoke call_item
invoke-two = refl

-- A handle beyond the array is an access outside it.
notify-outside : notify two 40 5 ≡ none
unfolding notify
notify-outside = refl

two-AreBytes : AreBytes two.notifications
two-AreBytes k lt = ground arith

two-AllHandled : AllHandled two
two-AllHandled j lt here = omega arith

run_until_sleep_lem_example :
    (after : Reactor) × (run_until_sleep quiet 33 two
      ≡ some (pending_from two.notifications 0 32, after))
    × ((j : ℕ) → j < 32 → pending after.notifications j ≡ false)
run_until_sleep_lem_example =
    run_until_sleep_lem quiet two (λ f a r. (refl, refl)) two-AreBytes two-AllHandled

run_round_lem_example :
    (((j : ℕ) → j < 32 → pending two.notifications j ≡ false) × (run_round quiet two ≡ some two))
    ⊎ ((h : ℕ) × (h < 32)
        × (pending two.notifications h ≡ true)
        × ((j : ℕ) → j < h → pending two.notifications j ≡ false)
        × ((j : ℕ)
            → j < 32
            → pending (serving two h).notifications j
              ≡ (not (h == j) && pending two.notifications j))
        × (run_round quiet two ≡ some (served quiet two h)))
run_round_lem_example = run_round_lem quiet two two-AreBytes two-AllHandled

abbrev two_handles : ℕ
two_handles = 40

mask_pop_lem_example :
    ((two_handles ≡ 0) × (mask_pop two_handles ≡ some (null_handle, 0)))
    ⊎ ((h : ℕ) × (rest : ℕ) × (mask_pop two_handles ≡ some (h, rest))
        × (h < 32)
        × (test_bit two_handles h ≡ true)
        × ((j : ℕ) → j < h → test_bit two_handles j ≡ false)
        × ((j : ℕ) → test_bit rest j ≡ (test_bit two_handles j && not (h == j))))
mask_pop_lem_example = mask_pop_lem two_handles (omega arith)

-- Bits 3 and 5 are set.
mask_pop-run : mask_pop 40 ≡ some (3, 32)
unfolding mask_pop mask_of trailing_zeros
mask_pop-run = refl

-- Slots 0 and 31 are taken.
abbrev ends_taken : Reactor
ends_taken = record two {
  handlers = λ i. record { handler = if i == 0 then 5 else if i == 31 then 6 else 0; arg = 0 };
}

register_lem_example : Registers ends_taken 9 0 (register ends_taken 9 0)
register_lem_example = register_lem ends_taken 9 0 refl
