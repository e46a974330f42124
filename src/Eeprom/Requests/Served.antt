-- ===== src/Eeprom/Requests/Served.antt =====
-- src/eeprom.cpp: every operation that is requested is done, once.
use asx.Base.{
  ℕ, zero, suc, ◌+◌, ◌≤◌, ◌<◌, ◌≡◌, ap, refl, sym, subst, ◌∙◌, arith, true, false, List, [], ◌∷◌,
  ◌++◌, inl, inr,
}
use asx.Base.{length, ◌==◌, ==_false, Bool-cases}
use asx.Base.Outcome.{returned}
use asx.Eeprom.Requests.{
  Requests, room, start, request_operation, ready_vector, on_eeprom_ready, Event, step, steps,
}
use asx.Eeprom.Requests.Distinct.{Below}
use asx.FixedPtrQueue.{is_empty, pop}
use asx.FixedPtrQueue.Places.{IsDistinct, popped, occurrences, occurrences-append}
use asx.FixedPtrQueue.Refine.{contents, Answers, pop_refines, is_empty_refines}
use asx.Eeprom.Requests.Queued.{
  waiting, IsQueued, Holds, answered, interrupted, interrupted_lem, start-Holds, request_lem,
}

abbrev pub IsObject : Event → Type 0
IsObject (Event.request this) = this < room
IsObject Event.interrupt = Unit {0}
IsObject Event.react = Unit {0}

abbrev pub AreObjects : List Event → Type 0
AreObjects [] = Unit {0}
AreObjects (event ∷ events) = IsObject event × AreObjects events

-- As many times the interrupt and then the handler.
abbrev pub rounds : ℕ → List Event
rounds zero = []
rounds (suc n) = Event.interrupt ∷ Event.react ∷ rounds n

module _ {S : Type 0} (do_operation : ℕ → S → S) where
  -- What the operations do, one behind another.
  abbrev pub done : List ℕ → S → S
  done [] s = s
  done (this ∷ later) s = done later (do_operation this s)

  handler_lem :
      (r : Requests) (s : S) (x : ℕ) (xs : List ℕ)
      → IsQueued r.operations
      → waiting r ≡ x ∷ xs
      → (after : Requests) × (on_eeprom_ready do_operation r s ≡ returned (after, do_operation x s))
        × Holds after
        × (waiting after ≡ xs)
  unfolding on_eeprom_ready
  handler_lem r s x xs queued waits =
      let nonempty : is_empty room r.operations ≡ false =
        is_empty_refines room r.operations
        ∙ ap (λ ys. length ys == 0) waits
        ∙ ==_false (suc (length xs)) 0 (λ e. omega (arith, e)) in
      let (q, ends, valid, same) = answered _ x xs (
        subst (λ ys. Answers room (pop room r.operations) (popped ys)) waits
          (pop_refines room r.operations queued.valid)) in
      let distinct = subst IsDistinct waits queued.distinct in
      let below = subst (Below room) waits queued.below in
      (
        record r { operations = q; eeready = true },
        rw (nonempty, ends) refl,
        record {
          queued = record {
            valid = valid;
            distinct = subst IsDistinct (sym same) (λ v. omega (arith, distinct v));
            below = subst (Below room) (sym same) (λ v le. omega (arith, below v le));
          };
          due = λ waits. refl;
        },
        same,
      )

  handler_idle :
      (r : Requests) (s : S) → waiting r ≡ [] → on_eeprom_ready do_operation r s ≡ returned (r, s)
  unfolding on_eeprom_ready
  handler_idle r s nothing = rw (is_empty_refines room r.operations, ap length nothing) refl

  -- The requests behind something that has happened: the operations that were done are listed, and one
  -- that has waited is done or still waits.
  pub record Goes (r : Requests) (s : S) (after : Requests) (t : S) : Type 0 where
    pub holds : Holds after
    pub did : List ℕ
    pub same : t ≡ done did s
    pub kept :
        (v : ℕ) → occurrences (waiting r) v ≤ occurrences did v + occurrences (waiting after) v

  react_lem :
      (r : Requests) (s : S)
      → IsQueued r.operations
      → (xs : List ℕ) → waiting r ≡ xs
      → (after : Requests) × (t : S) × (on_eeprom_ready do_operation r s ≡ returned (after, t))
        × Goes r s after t
  react_lem r s queued [] nothing = (
    r,
    s,
    handler_idle r s nothing,
    record {
      holds = record {
        queued = queued;
        due = λ waits. absurd (omega (arith, waits, ap length nothing));
      };
      did = [];
      same = refl;
      kept = λ v. omega arith;
    },
  )
  react_lem r s queued (x ∷ xs) waits =
      let (after, ends, holds, rest) = handler_lem r s x xs queued waits in
      (
        after,
        do_operation x s,
        ends,
        record {
          holds = holds;
          did = x ∷ [];
          same = refl;
          kept = λ v.
              one_done (waiting after) v (ap (λ zs. occurrences zs v) waits)
                (ap (λ zs. occurrences zs v) rest);
        },
      )
    where
      one_done :
          (zs : List ℕ) (v : ℕ)
          → occurrences (waiting r) v ≡ occurrences (x ∷ xs) v
          → occurrences zs v ≡ occurrences xs v
          → occurrences (waiting r) v ≤ occurrences (x ∷ []) v + occurrences zs v
      one_done zs v e e' = omega (arith, e, e')

  step_lem :
      (event : Event) (r : Requests) (s : S)
      → IsObject event
      → Holds r
      → (after : Requests) × (t : S) × (step do_operation event r s ≡ returned (after, t))
        × Goes r s after t
  unfolding step
  step_lem (Event.request this) r s object holds =
      let (after, ends, keeps, kept, is_in) = request_lem this r object holds in
      (
        after,
        s,
        rw ends refl,
        record { holds = keeps; did = []; same = refl; kept = λ v. omega (arith, kept v) },
      )
  step_lem Event.interrupt r s object holds = elim (Bool-cases r.eeready) [
    | inl on ↦ (
      ready_vector r,
      s,
      rw on refl,
      unfold ready_vector in
          record {
            holds = record { queued = holds.queued; due = λ waits. refl };
            did = [];
            same = refl;
            kept = λ v. omega arith;
          },
    )
    | inr off ↦ (
      r,
      s,
      rw off refl,
      record { holds = holds; did = []; same = refl; kept = λ v. omega arith },
    )
  ]
  step_lem Event.react r s object holds = elim (Bool-cases r.notified) [
    | inl due ↦
        let (after, t, ends, goes) =
          react_lem (record r { notified = false }) s holds.queued (waiting r) refl in
        (
          after,
          t,
          rw due ends,
          record { holds = goes.holds; did = goes.did; same = goes.same; kept = goes.kept },
        )
    | inr off ↦ (
      r,
      s,
      rw off refl,
      record { holds = holds; did = []; same = refl; kept = λ v. omega arith },
    )
  ]

  done-append : (xs ys : List ℕ) (s : S) → done (xs ++ ys) s ≡ done ys (done xs s)
  done-append [] ys s = refl
  done-append (x ∷ xs) ys s = done-append xs ys (do_operation x s)

  Goes-trans :
      (r mid after : Requests) (s t u : S) → Goes r s mid t → Goes mid t after u → Goes r s after u
  Goes-trans r mid after s t u one two = record {
    holds = two.holds;
    did = one.did ++ two.did;
    same = two.same ∙ (ap (done two.did) one.same ∙ sym (done-append one.did two.did s));
    kept = λ v. omega (arith, one.kept v, two.kept v, occurrences-append one.did two.did v);
  }

  steps_lem :
      (events : List Event) (r : Requests) (s : S)
      → AreObjects events
      → Holds r
      → (after : Requests) × (t : S) × (steps do_operation events r s ≡ returned (after, t))
        × Goes r s after t
  unfolding steps
  steps_lem [] r s objects holds =
      (r, s, refl, record { holds = holds; did = []; same = refl; kept = λ v. omega arith })
  steps_lem (event ∷ events) r s (object, objects) holds =
      let (mid, t, first, one) = step_lem event r s object holds in
      let (after, u, rest, two) = steps_lem events mid t objects one.holds in
      (after, u, rw first rest, Goes-trans r mid after s t u one two)

  -- One interrupt and the handler do the next operation.
  round_lem :
      (events : List Event) (r : Requests) (s : S) (x : ℕ) (xs : List ℕ)
      → Holds r
      → waiting r ≡ x ∷ xs
      → (after : Requests) × (steps do_operation (Event.interrupt ∷ Event.react ∷ events) r s
          ≡ steps do_operation events after (do_operation x s))
        × Holds after
        × (waiting after ≡ xs)
  unfolding steps step
  round_lem events r s x xs holds waits =
      let (due, kept) = interrupted_lem r (holds.due (omega (arith, ap length waits))) in
      let (after, ends, keeps, left_over) =
        handler_lem (record (interrupted r) { notified = false }) s x xs
          (subst IsQueued (sym kept) holds.queued) (ap (contents room) kept ∙ waits) in
      (after, rw (due, ends) refl, keeps, left_over)

  drain_lem :
      (xs : List ℕ) (r : Requests) (s : S)
      → Holds r
      → waiting r ≡ xs
      → (after : Requests) × (steps do_operation (rounds (length xs)) r s
          ≡ returned (after, done xs s))
        × (waiting after ≡ [])
  unfolding steps
  drain_lem [] r s holds waits = (r, refl, waits)
  drain_lem (x ∷ xs) r s holds waits =
      let (mid, first, keeps, left_over) = round_lem (rounds (length xs)) r s x xs holds waits in
      let (after, rest, empty) = drain_lem xs mid (do_operation x s) keeps left_over in
      (after, first ∙ rest, empty)

  -- After any requests of objects below `room`, interrupts and calls of the handler in any order, no
  -- alert has stopped the system, the queue is valid and holds no operation twice, and while one waits
  -- the interrupt is on or the handler is due. A request of an object is taken then, and whatever comes
  -- behind it, its operation is among those that have been done since, or it waits. If at the end the
  -- interrupt and the handler come as many times as operations wait, each of them is done, in their
  -- order, and none waits any more.
  pub served_lem :
      (events later : List Event) (this : ℕ) (s : S)
      → AreObjects events
      → this < room
      → AreObjects later
      → (before asked after quiet : Requests) × (t u : S) × (did : List ℕ) × (steps do_operation
            events start s
          ≡ returned (before, t))
        × Holds before
        × (request_operation this before ≡ returned asked)
        × (steps do_operation later asked t ≡ returned (after, u))
        × Holds after
        × (u ≡ done did t)
        × (0 < occurrences did this + occurrences (waiting after) this)
        × (steps do_operation (rounds (length (waiting after))) after u
            ≡ returned (quiet, done (waiting after) u))
        × (waiting quiet ≡ [])
  served_lem events later this s objects object objects' =
      let (before, t, ends, goes) = steps_lem events start s objects start-Holds in
      let (asked, takes, holds, kept, is_in) = request_lem this before object goes.holds in
      let (after, u, ends', goes') = steps_lem later asked t objects' holds in
      let (quiet, drains, empty) = drain_lem (waiting after) after u goes'.holds refl in
      (
        before,
        asked,
        after,
        quiet,
        t,
        u,
        goes'.did,
        ends,
        goes.holds,
        takes,
        ends',
        goes'.holds,
        goes'.same,
        omega (arith, goes'.kept this, is_in),
        drains,
        empty,
      )
