-- ===== src/Reactor/Drain.antt =====
-- src/reactor.c: the rounds of `reactor_run` until it sleeps, and the order in which they serve.
use native.Mathlib.Decide.{dec_lt}
use asx.Base.{ℕ, zero, suc, ◌+◌, ◌<◌, ◌≤◌, ◌≡◌, ◌≢◌, refl, arith, inl, inr, ap, sym, subst, ◌∙◌}
use asx.Base.{
  true, false, not, ◌&&◌, Option, none, some, List, [], ◌∷◌, ◌==◌, ==_false, Bool-cases, ◌>>=◌,
  if◌then◌else◌,
}
use asx.Reactor.{Reactor, Handlers, take_first, call_item, run_round, word}
use asx.Reactor.Pending.{pending, AreBytes, without_bit, pending-without_bit, without_bit-AreBytes}
use asx.Reactor.First.{take_first_lem, none_pending}
use asx.Reactor.Serve.{AllHandled, served}

-- The handles that are served, in order, and the state in which the loop goes to sleep.
unfoldable pub run_until_sleep : Handlers → ℕ → Reactor → Option (List ℕ × Reactor)
run_until_sleep behaviour zero r = none
run_until_sleep behaviour (suc fuel) r = if word r.notifications == 0 then some ([], r) else do
  found ← take_first r
  after ← run_round behaviour r
  rest ← run_until_sleep behaviour fuel after
  some (found.0 ∷ rest.0, rest.1)

-- The pending handles of `lo`, …, `lo + m - 1`.
unfoldable pub pending_from : (ℕ → ℕ) → ℕ → ℕ → List ℕ
pending_from n lo zero = []
pending_from n lo (suc m) =
    if pending n lo then lo ∷ pending_from n (suc lo) m else pending_from n (suc lo) m

pending_from_ext :
    (n n' : ℕ → ℕ) (lo m : ℕ)
    → ((j : ℕ) → lo ≤ j → j < lo + m → pending n j ≡ pending n' j)
    → pending_from n lo m ≡ pending_from n' lo m
unfolding pending_from
pending_from_ext n n' lo zero e = refl
pending_from_ext n n' lo (suc m) e =
    rw
      (
        e lo (omega arith) (omega arith),
        pending_from_ext n n' (suc lo) m (λ j le lt. e j (omega arith) (omega arith)),
      )
      refl

-- Handlers that give no notice, and register nothing.
abbrev pub IsQuiet : Handlers → Type 0
IsQuiet behaviour =
    (f a : ℕ) (r : Reactor)
    → ((behaviour f a r).notifications ≡ r.notifications)
      × ((behaviour f a r).handlers ≡ r.handlers)

module _ (behaviour : Handlers) (quiet : IsQuiet behaviour) where
  busy_step :
      (fuel : ℕ) (r : Reactor) (h : ℕ)
      → (word r.notifications == 0) ≡ false
      → take_first r ≡ some (h, record r { notifications = without_bit r.notifications h })
      → (r.handlers h).handler ≢ 0
      → run_until_sleep behaviour (suc fuel) r ≡ (
          run_until_sleep behaviour fuel (served behaviour r h) >>= λ rest.
          some (h ∷ rest.0, rest.1))
  unfolding run_until_sleep run_round call_item
  busy_step fuel r h busy takes handled =
      rw (busy, takes, ==_false (r.handlers h).handler 0 handled) refl

  -- The lowest pending handle is `lo`, if that is pending and none below.
  first_is :
      (r : Reactor) (lo h : ℕ)
      → ((j : ℕ) → j < lo → pending r.notifications j ≡ false)
      → pending r.notifications lo ≡ true
      → pending r.notifications h ≡ true
      → ((j : ℕ) → j < h → pending r.notifications j ≡ false)
      → h ≡ lo
  first_is r lo h below here at_h least = elim (dec_lt h lo) [
    | yes less ↦ absurd (ground (arith, below h less, at_h))
    | no geq ↦ elim (dec_lt lo h) [
      | yes more ↦ absurd (ground (arith, least lo more, here))
      | no leq ↦ omega arith
    ]
  ]

  module _ (r : Reactor) (bytes : AreBytes r.notifications) (handled : AllHandled r) (lo : ℕ)
      (in_range : lo < 32) where
    abbrev next : Reactor
    next = served behaviour r lo

    notifications_next : next.notifications ≡ without_bit r.notifications lo
    notifications_next = (quiet _ _ _).0

    pending_next :
        (j : ℕ)
        → j < 32
        → pending next.notifications j ≡ (not (lo == j) && pending r.notifications j)
    pending_next j lt =
        ap (λ n. pending n j) notifications_next
        ∙ pending-without_bit r.notifications bytes lo in_range j lt

    next-AreBytes : AreBytes next.notifications
    next-AreBytes =
        subst AreBytes (sym notifications_next)
          (without_bit-AreBytes r.notifications bytes lo in_range)

    next-AllHandled : AllHandled next
    next-AllHandled j lt here null =
        handled j lt (ground (arith, pending_next j lt, here))
          (ap (λ hs. (hs j).handler) (sym (quiet _ _ _).1) ∙ null)

    pending_from_next :
        (m : ℕ)
        → suc lo + m ≤ 32
        → pending_from next.notifications (suc lo) m ≡ pending_from r.notifications (suc lo) m
    pending_from_next m fits =
        pending_from_ext next.notifications r.notifications (suc lo) m
          (λ j le lt. ground (arith, pending_next j (omega arith)))

    below_next :
        ((j : ℕ) → j < lo → pending r.notifications j ≡ false)
        → (j : ℕ) → j < suc lo
        → pending next.notifications j ≡ false
    below_next below j lt = elim (dec_lt j lo) [
      | yes less ↦ ground (arith, pending_next j (omega arith), below j less)
      | no geq ↦ ground (arith, pending_next j (omega arith))
    ]

  -- The loop, from a state in which nothing below `lo` is pending.
  run_from :
      (m fuel lo : ℕ) (r : Reactor)
      → lo + m ≡ 32
      → m < fuel
      → AreBytes r.notifications
      → AllHandled r
      → ((j : ℕ) → j < lo → pending r.notifications j ≡ false)
      → (after : Reactor) × (run_until_sleep behaviour fuel r
          ≡ some (pending_from r.notifications lo m, after))
        × ((j : ℕ) → j < 32 → pending after.notifications j ≡ false)
  unfolding run_until_sleep pending_from
  run_from m zero lo r whole enough bytes handled below = absurd (omega arith)
  run_from zero (suc fuel) lo r whole enough bytes handled below =
      elim (Bool-cases (word r.notifications == 0)) [
        | inl idle ↦ (r, rw idle refl, λ j lt. below j (omega arith))
        | inr busy ↦
            let (h, lt, _, at_h, _) =
              take_first_lem r bytes (λ e. absurd (ground (arith, busy, e))) in
            absurd (ground (arith, below h (omega arith), at_h))
      ]
  run_from (suc m) (suc fuel) lo r whole enough bytes handled below =
      elim (Bool-cases (pending r.notifications lo)) [
        | inr passed ↦
            let (after, runs, done) =
              run_from m (suc fuel) (suc lo) r (omega arith) (omega arith) bytes handled (λ j lt.
                elim (dec_lt j lo) [
                  | yes less ↦ below j less
                  | no geq ↦ subst (λ i. pending r.notifications i ≡ false) (omega arith) passed
                ]) in
            (after, rw passed runs, done)
        | inl here ↦
            let in_range : lo < 32 = omega arith in
            let some_bit : word r.notifications ≢ 0 =
              λ e. absurd (ground (arith, none_pending r.notifications e lo in_range, here)) in
            let (h, lt, takes, at_h, least) = take_first_lem r bytes some_bit in
            let same = first_is r lo h below here at_h least in
            let (after, runs, done) =
              run_from m fuel (suc lo) (next r bytes handled lo in_range) (omega arith)
                (omega arith) (next-AreBytes r bytes handled lo in_range)
                (next-AllHandled r bytes handled lo in_range)
                (below_next r bytes handled lo in_range below) in
            (
              after,
              busy_step fuel r lo (==_false _ _ some_bit)
                    (subst
                      (λ i.
                        take_first r
                        ≡ some (i, record r { notifications = without_bit r.notifications i }))
                      same takes)
                    (handled lo in_range here)
                  ∙ ap (λ o. o >>= λ rest. some (lo ∷ rest.0, rest.1)) runs
                  ∙ rw (here, pending_from_next r bytes handled lo in_range m (omega arith)) refl,
              done,
            )
      ]

pub run_until_sleep_lem :
    (behaviour : Handlers) (r : Reactor)
    → IsQuiet behaviour
    → AreBytes r.notifications
    → AllHandled r
    → (after : Reactor) × (run_until_sleep behaviour 33 r
        ≡ some (pending_from r.notifications 0 32, after))
      × ((j : ℕ) → j < 32 → pending after.notifications j ≡ false)
run_until_sleep_lem behaviour r quiet bytes handled =
    run_from behaviour quiet 32 33 0 r refl (omega arith) bytes handled
      (λ j lt. absurd (omega arith))
