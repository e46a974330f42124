-- ===== src/Eeprom/Requests/Queued.antt =====
-- src/eeprom.cpp: the requests that wait, and what one more request and an interrupt do to them.
use asx.Base.{ℕ, ◌+◌, ◌<◌, ◌≤◌, ◌≡◌, ap, refl, sym, subst, arith, true, ◌||◌, List, inl, inr}
use asx.Base.{length, if◌then◌else◌, Bool-cases}
use asx.Base.Outcome.{Outcome, returned, alerted, unfinished}
use asx.Eeprom.Requests.{Requests, room, start, request_operation, ready_vector}
use asx.Eeprom.Requests.Distinct.{Below, pushed_unique-Keeps}
use asx.FixedPtrQueue.{FixedPtrQueue, push_unique}
use asx.FixedPtrQueue.Places.{IsDistinct, occurrences}
use asx.FixedPtrQueue.Unique.{push_unique_refines}
use asx.FixedPtrQueue.Refine.{
  IsValid, contents, Leaves, Answers, construct-IsValid, construct_empty,
}

-- The operations that wait, the next one first.
abbrev pub waiting : Requests → List ℕ
waiting r = contents room r.operations

-- The queue is valid, no operation waits twice, and each is one of the `room` objects.
pub record IsQueued (q : FixedPtrQueue) : Type 0 where
  pub valid : IsValid room q
  pub distinct : IsDistinct (contents room q)
  pub below : Below room (contents room q)

-- Moreover, while an operation waits, the interrupt is on or the handler is due.
pub record Holds (r : Requests) : Type 0 where
  pub queued : IsQueued r.operations
  pub due : 0 < length (waiting r) → (r.eeready || r.notified) ≡ true

left :
    (o : Outcome FixedPtrQueue) (xs : List ℕ)
    → Leaves room o (returned xs)
    → (q : FixedPtrQueue) × (o ≡ returned q) × IsValid room q × (contents room q ≡ xs)
left (returned q) xs (valid, same) = (q, refl, valid, same)
left alerted xs h = absurd h
left unfinished xs h = absurd h

pub answered :
    (o : Outcome (ℕ × FixedPtrQueue)) (x : ℕ) (xs : List ℕ)
    → Answers room o (returned (x, xs))
    → (q : FixedPtrQueue) × (o ≡ returned (x, q)) × IsValid room q × (contents room q ≡ xs)
answered (returned (y, q)) x xs (head, valid, same) =
    (q, ap (λ z. returned (z, q)) head, valid, same)
answered alerted x xs h = absurd h
answered unfinished x xs h = absurd h

-- The requests behind an interrupt.
abbrev pub interrupted : Requests → Requests
interrupted r = if r.eeready then ready_vector r else r

pub interrupted_lem :
    (r : Requests)
    → (r.eeready || r.notified) ≡ true
    → ((interrupted r).notified ≡ true) × ((interrupted r).operations ≡ r.operations)
unfolding ready_vector
interrupted_lem r due = elim (Bool-cases r.eeready) [
  | inl on ↦ rw on (refl, refl)
  | inr off ↦ (rw off (subst (λ b. (b || r.notified) ≡ true) off due), rw off refl)
]

pub start-Holds : Holds start
start-Holds = record {
  queued = record {
    valid = construct-IsValid room (omega arith) (omega arith);
    distinct = subst IsDistinct (sym (construct_empty room)) (λ v. omega arith);
    below = subst (Below room) (sym (construct_empty room)) (λ v le. refl);
  };
  due = λ waits. absurd (omega (arith, waits, ap length (construct_empty room)));
}

pub request_lem :
    (this : ℕ) (r : Requests)
    → this < room
    → Holds r
    → (after : Requests) × (request_operation this r ≡ returned after)
      × Holds after
      × ((v : ℕ) → occurrences (waiting r) v ≤ occurrences (waiting after) v)
      × (0 < occurrences (waiting after) this)
unfolding request_operation
request_lem this r lt holds =
    let (ys, keeps) =
      pushed_unique-Keeps room this (waiting r) lt holds.queued.below holds.queued.distinct in
    let (q, ends, valid, same) = left _ ys (
      subst (λ m. Leaves room (push_unique room (room + 1) r.operations this) m) keeps.same
        (push_unique_refines room r.operations holds.queued.valid (room + 1) this (omega arith))) in
    (
      record r { operations = q; eeready = true },
      rw ends refl,
      record {
        queued = record {
          valid = valid;
          distinct = subst IsDistinct (sym same) keeps.distinct;
          below = subst (Below room) (sym same) keeps.below;
        };
        due = λ waits. refl;
      },
      λ v.
          subst (λ zs. occurrences (waiting r) v ≤ occurrences zs v) (sym same) (keeps.keeps_all v),
      subst (λ zs. 0 < occurrences zs this) (sym same) keeps.is_in,
    )
