-- ===== src/Reactor/Register.antt =====
-- src/reactor.c: the slot that `reactor_register` gives.
use native.Mathlib.Decide.{dec_lt}
use asx.Base.{
  ℕ, zero, suc, ◌+◌, ◌-◌, ◌<◌, ◌≤◌, ◌≡◌, ◌≢◌, refl, arith, inl, inr, ap, sym, subst, ◌∙◌, ◌⊎◌,
}
use asx.Base.{false, ◌==◌, ==_iff, ==_true, ==_false, Bool-cases, if◌then◌else◌, u8}
use asx.Base.Outcome.{Outcome, returned, alerted, unfinished}
use asx.Reactor.{Reactor, Item, update, null_handle, prio_low, register_loop, found_slot, register}

-- The array with a handler in slot `i`.
abbrev pub registered : (ℕ → Item) → ℕ → ℕ → ℕ → Item
registered hs i handler = update hs i (record (hs i) { handler = handler })

-- The loop visits the slots `at 0`, …, `at (n - 1)`.
module _ (handler step end n : ℕ) (at : ℕ → ℕ)
    (moves : (k : ℕ) → k < n → u8 (at k + step) ≡ at (suc k)) (stops : at n ≡ end)
    (goes_on : (k : ℕ) → k < n → at k ≢ end) (in_array : (k : ℕ) → k < n → at k < 32) where
  -- Behind the slot that it takes, it changes nothing.
  loop_rest :
      (fuel k : ℕ) (hs : ℕ → Item) (retval : ℕ)
      → k ≤ n
      → n < k + fuel
      → retval ≢ null_handle
      → register_loop fuel handler step end hs (at k) retval ≡ returned (retval, hs)
  unfolding register_loop
  loop_rest zero k hs retval le enough found = absurd (omega arith)
  loop_rest (suc fuel) k hs retval le enough found = elim (dec_lt k n) [
    | yes more ↦
        rw (==_false (at k) end (goes_on k more), ==_false retval null_handle found)
          (elim (Bool-cases ((hs (at k)).handler == 0)) [
            | inl e ↦
                rw (e, moves k more)
                  (loop_rest fuel (suc k) hs retval (omega arith) (omega arith) found)
            | inr e ↦
                rw (e, moves k more)
                  (loop_rest fuel (suc k) hs retval (omega arith) (omega arith) found)
          ])
    | no last ↦
        let whole : k ≡ n = omega arith in rw (==_true (at k) end (ap at whole ∙ stops)) refl
  ]

  -- It takes the first free slot that it visits, or none if all are taken.
  abbrev Finds : (ℕ → Item) → Outcome (ℕ × (ℕ → Item)) → Type 0
  Finds hs o =
      (((k : ℕ) → k < n → (hs (at k)).handler ≢ 0) × (o ≡ returned (null_handle, hs)))
      ⊎ ((k : ℕ) × (k < n)
          × ((hs (at k)).handler ≡ 0)
          × ((k' : ℕ) → k' < k → (hs (at k')).handler ≢ 0)
          × (o ≡ returned (at k, registered hs (at k) handler)))

  loop_lem :
      (fuel k : ℕ) (hs : ℕ → Item)
      → k ≤ n
      → n < k + fuel
      → ((k' : ℕ) → k' < k → (hs (at k')).handler ≢ 0)
      → Finds hs (register_loop fuel handler step end hs (at k) null_handle)
  unfolding register_loop
  loop_lem zero k hs le enough taken = absurd (omega arith)
  loop_lem (suc fuel) k hs le enough taken = elim (dec_lt k n) [
    | yes more ↦ elim (Bool-cases ((hs (at k)).handler == 0)) [
      | inl free ↦ inr (
        k,
        more,
        (==_iff _ _).0 free,
        taken,
        rw (==_false (at k) end (goes_on k more), free, moves k more)
            (loop_rest fuel (suc k) (registered hs (at k) handler) (at k) (omega arith)
              (omega arith) (omega (arith, in_array k more))),
      )
      | inr busy ↦
          rw (==_false (at k) end (goes_on k more), busy, moves k more)
            (loop_lem fuel (suc k) hs (omega arith) (omega arith) (λ k' lt. elim (dec_lt k' k) [
              | yes less ↦ taken k' less
              | no geq ↦
                  subst (λ i. (hs (at i)).handler ≢ 0) {x = k} (omega arith)
                    (λ e. absurd (ground (arith, busy, e)))
            ]))
    ]
    | no last ↦
        let whole : k ≡ n = omega arith in
        inl (
          subst (λ m. (k' : ℕ) → k' < m → (hs (at k')).handler ≢ 0) whole taken,
          rw (==_true (at k) end (ap at whole ∙ stops)) refl,
        )
  ]

-- The slots that a priority may get, the best one first: slot 0 is not among those of a low one.
abbrev pub candidate : ℕ → ℕ → ℕ
candidate priority k = if priority == prio_low then 31 - k else k

abbrev pub candidates : ℕ → ℕ
candidates priority = if priority == prio_low then 31 else 32

-- What a registration promises.
abbrev pub Registers : Reactor → ℕ → ℕ → Outcome (ℕ × Reactor) → Type 0
Registers r handler priority (returned (i, after)) =
    (k : ℕ) × (k < candidates priority)
    × (i ≡ candidate priority k)
    × ((r.handlers i).handler ≡ 0)
    × ((k' : ℕ) → k' < k → (r.handlers (candidate priority k')).handler ≢ 0)
    × (after ≡ record r { handlers = registered r.handlers i handler })
Registers r handler priority alerted =
    (k : ℕ) → k < candidates priority → (r.handlers (candidate priority k)).handler ≢ 0
Registers r handler priority unfinished = ⊥

found-Registers :
    (r : Reactor) (handler priority : ℕ) (o : Outcome (ℕ × (ℕ → Item)))
    → (((k : ℕ) → k < candidates priority → (r.handlers (candidate priority k)).handler ≢ 0)
        × (o ≡ returned (null_handle, r.handlers)))
      ⊎ ((k : ℕ) × (k < candidates priority)
          × ((r.handlers (candidate priority k)).handler ≡ 0)
          × ((k' : ℕ) → k' < k → (r.handlers (candidate priority k')).handler ≢ 0)
          × (o
              ≡ returned
                  (candidate priority k, registered r.handlers (candidate priority k) handler)))
    → Registers r handler priority (found_slot r o)
unfolding found_slot
found-Registers r handler priority o (inl (taken, e)) = rw e taken
found-Registers r handler priority o (inr (k, lt, free, taken, e)) =
    rw (e, ==_false (candidate priority k) null_handle (ground arith))
      (k, lt, refl, free, taken, refl)

-- The loop as `reactor_register` runs it.
abbrev visit : Reactor → ℕ → ℕ → Outcome (ℕ × (ℕ → Item))
visit r handler priority =
    let low = priority == prio_low in
    register_loop 33 handler (if low then 255 else 1) (if low then 0 else 32) r.handlers
      (if low then 31 else 0) null_handle

visit-Registers :
    (r : Reactor) (handler priority : ℕ)
    → Registers r handler priority (found_slot r (visit r handler priority))
visit-Registers r handler priority =
    found-Registers r handler priority (visit r handler priority)
      (elim (Bool-cases (priority == prio_low)) [
        | inl low ↦ rw low (
            loop_lem handler 255 0 31 (λ k. 31 - k) (λ k lt. omega arith) refl (λ k lt. omega arith)
              (λ k lt. omega arith) 33 0 r.handlers (omega arith) (omega arith)
              (λ k lt. absurd (omega arith)))
        | inr high ↦ rw high (
            loop_lem handler 1 32 32 (λ k. k) (λ k lt. omega arith) refl (λ k lt. omega arith)
              (λ k lt. lt) 33 0 r.handlers (omega arith) (omega arith)
              (λ k lt. absurd (omega arith)))
      ])

-- Unless registrations are locked, `reactor_register` returns: it puts the handler into the best
-- free slot of its priority and changes nothing else, the lowest slot for a high priority and for
-- a low one the highest but never slot 0. It is stopped by the alert only if no slot of the
-- priority is free.
pub register_lem :
    (r : Reactor) (handler priority : ℕ)
    → r.lock ≡ false
    → Registers r handler priority (register r handler priority)
unfolding register
register_lem r handler priority unlocked =
    subst
      (λ b.
        Registers r handler priority
          (if b then alerted else found_slot r (visit r handler priority)))
      (sym unlocked) (visit-Registers r handler priority)
