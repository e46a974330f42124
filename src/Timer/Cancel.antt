-- ===== src/Timer/Cancel.antt =====
-- src/timer.c: `timer_cancel` takes one timer out of the array.
use asx.Base.{
  ℕ, zero, suc, ◌+◌, ◌-◌, ◌≤◌, ◌<◌, ◌≡◌, sym, ap, subst, refl, arith, Bool, true, false, Option,
  none, some, Option-cases, inl, inr, List, ◌∙◌,
}
use mathlib.Core.Option
use asx.Base.Outcome.{Outcome, returned}
use asx.Timer.{
  Future, Timer, update, left_of, null_handle, loop_fuel, find_instance, shift_left, reclaim,
  cancel,
}
use asx.Timer.Slots.{
  place, left_of-place, place_eq, view, locate, find_instance_lem, shift_left_lem, moved_left,
  Shows,
}
use asx.Timer.Schedule.{remove, tabulate-remove, remove-none}
use asx.Timer.Pending.{Holds, pending, origin}

locate_bounds : (i m k p : ℕ) (g : ℕ → Future) → locate i m k g ≡ some p → (k ≤ p) × (p < k + m)
unfolding locate
locate_bounds i zero k p g e = absurd (cc)
locate_bounds i (suc m) k p g e = ground (arith, locate_bounds i m (suc k) p g)

module _ {t : Timer} {n : ℕ} (holds : Holds t (suc n)) (fits : suc n < 16) where
  open holds use {active_in, next_free, free}

  abbrev seen : ℕ → Future
  seen = view t.slots t.active

  shifted :
      (p : ℕ)
      → p < suc n
      → Shows
          (shift_left loop_fuel t.slots (place t.active p) t.avail)
          t.active
          (moved_left p (suc n) seen)
  shifted p lt = rw next_free (
      shift_left_lem (suc n - p) loop_fuel p (suc n) t.active t.slots (omega arith) (omega arith)
        fits)

  -- The state behind the move, with the last slot given up.
  closed : (ℕ → Future) → Timer
  closed s = record t {
    slots = update s (place t.active n) (record (s (place t.active n)) { reactor = null_handle });
    avail = place t.active n;
  }

  module _ (s : ℕ → Future) (p : ℕ)
      (moved : (j : ℕ) → j < 16 → s (place t.active j) ≡ moved_left p (suc n) seen j) where
    view-closed : (j : ℕ) → j < n → view (closed s).slots t.active j ≡ moved_left p (suc n) seen j
    unfolding closed
    view-closed j lt = ground (arith, place_eq t.active n j, moved j (omega arith))

    closed-Holds : Holds (closed s) n
    unfolding closed
    closed-Holds = record {
      active_in = active_in;
      room = omega arith;
      next_free = refl;
      free = λ j above lt. ground (arith, place_eq t.active n j, moved j lt, free j);
    }

  reclaim_lem :
      (p : ℕ)
      → p < suc n
      → (t' : Timer) × (reclaim t (place t.active p) ≡ returned (true, t'))
        × Holds t' n
        × ((i : ℕ)
            → locate i (suc n) 0 seen ≡ some p
            → remove i (pending t (suc n)) ≡ some (pending t' n))
        × (t'.counter ≡ t.counter)
  unfolding reclaim closed
  reclaim_lem p lt =
      let (s, shift, moved) = shifted p lt in
      let last : left_of t.avail ≡ place t.active n =
        ap left_of next_free ∙ left_of-place t.active n in
      (
        closed s,
        rw shift (rw last),
        closed-Holds s p moved,
        λ i at_p. tabulate-remove i n p seen _ at_p (view-closed s p moved),
        refl,
      )

-- What a cancellation gives: false with nothing changed, if the list holds no timer of the instance;
-- else true, with one timer less, the list that is left, and the clock as it was.
abbrev pub Cancels : Timer → ℕ → Outcome (Bool × Timer) → Option (List Future) → Type 0
Cancels t n result none = result ≡ returned (false, t)
Cancels t n result (some rest) =
    (t' : Timer) × (m : ℕ) × (n ≡ suc m)
    × (result ≡ returned (true, t'))
    × Holds t' m
    × (pending t' m ≡ rest)
    × (t'.counter ≡ t.counter)

found_lem :
    (t : Timer) (n i : ℕ)
    → Holds t n
    → n < 16
    → find_instance loop_fuel t.slots i t.avail t.active
      ≡ returned (Option.map (place t.active) (locate i n 0 (view t.slots t.active)))
found_lem t n i holds fits =
    subst
      (λ a.
        find_instance loop_fuel t.slots i t.avail a
        ≡ returned (Option.map (place t.active) (locate i n 0 (view t.slots t.active))))
      (origin t.active holds.active_in)
      (rw holds.next_free
        (find_instance_lem t.slots t.active i n loop_fuel 0 n (omega arith) (omega arith) fits))

-- With fewer than 16 timers armed, `timer_cancel` returns true exactly if a timer of the instance is
-- armed, and takes the first such timer out of the list; otherwise nothing changes.
pub cancel_refines :
    (t : Timer) (n i : ℕ) → Holds t n → n < 16 → Cancels t n (cancel t i) (remove i (pending t n))
unfolding cancel
cancel_refines t zero i holds fits =
    rw (remove-none i 0 (view t.slots t.active) (unfold locate in refl), found_lem t 0 i holds fits)
      (unfold locate in refl)
cancel_refines t (suc n) i holds fits =
    elim (Option-cases (locate i (suc n) 0 (view t.slots t.active))) [
      | inl absent ↦ rw (
        remove-none i (suc n) (view t.slots t.active) absent,
        found_lem t (suc n) i holds fits,
        absent,
      )
      | inr (p, at_p) ↦
          let below : p < suc n =
            (omega (arith, locate_bounds i (suc n) 0 p (view t.slots t.active) at_p)) in
          let (t', runs, holds', gone, same) = reclaim_lem holds fits p below in
          subst (Cancels t (suc n) (cancel t i)) (sym (gone i at_p))
            (t', n, refl, rw (found_lem t (suc n) i holds fits, at_p) runs, holds', refl, same)
    ]
