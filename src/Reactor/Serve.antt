-- ===== src/Reactor/Serve.antt =====
-- src/reactor.c: `reactor_run`, a round and a run until it sleeps.
use asx.Base.{ℕ, ◌<◌, ◌≡◌, ◌≢◌, refl, arith, inl, inr, ◌⊎◌}
use asx.Base.{true, false, not, ◌&&◌, some, ◌==◌, ==_iff, ==_false, Bool-cases}
use asx.Reactor.{Reactor, Handlers, null_handle, call_item, run_round, word}
use asx.Reactor.Pending.{pending, AreBytes, without_bit, pending-without_bit}
use asx.Reactor.First.{take_first_lem, none_pending}

-- The state in which the handler of `h` is called.
abbrev pub serving : Reactor → ℕ → Reactor
serving r h = record r { running_handle = h; notifications = without_bit r.notifications h }

-- The state behind it.
abbrev pub served : Handlers → Reactor → ℕ → Reactor
served behaviour r h = record (behaviour (r.handlers h).handler (r.handlers h).arg (serving r h)) {
  running_handle = null_handle;
}

-- Every handle with a notification has a handler.
abbrev pub AllHandled : Reactor → Type 0
AllHandled r = (j : ℕ) → j < 32 → pending r.notifications j ≡ true → (r.handlers j).handler ≢ 0

-- If the registers hold bytes and every pending handle has a handler, a round of `reactor_run`
-- sleeps when nothing is pending; otherwise it calls the handler of the lowest pending handle
-- with its argument, in the state in which that handle runs and is the only one that is pending
-- no more.
pub run_round_lem :
    (behaviour : Handlers) (r : Reactor)
    → AreBytes r.notifications
    → AllHandled r
    → (((j : ℕ) → j < 32 → pending r.notifications j ≡ false) × (run_round behaviour r ≡ some r))
      ⊎ ((h : ℕ) × (h < 32)
          × (pending r.notifications h ≡ true)
          × ((j : ℕ) → j < h → pending r.notifications j ≡ false)
          × ((j : ℕ)
              → j < 32
              → pending (serving r h).notifications j ≡ (not (h == j) && pending r.notifications j))
          × (run_round behaviour r ≡ some (served behaviour r h)))
unfolding run_round call_item
run_round_lem behaviour r bytes handled = elim (Bool-cases (word r.notifications == 0)) [
  | inl idle ↦ inl (none_pending r.notifications ((==_iff _ _).0 idle), rw idle refl)
  | inr busy ↦
      let (h, lt, takes, here, below) =
        take_first_lem r bytes (λ e. absurd (ground (arith, busy, e))) in
      inr (
        h,
        lt,
        here,
        below,
        pending-without_bit r.notifications bytes h lt,
        rw (busy, takes, ==_false (r.handlers h).handler 0 (handled h lt here)) refl,
      )
]
