-- ===== src/Timer/Timely.antt =====
-- src/timer.c: away from the roll over `timer_dispatch` returns, and leaves no timer that is due.
use asx.Base.{
  ℕ, zero, suc, ◌+◌, ◌^◌, ◌≤◌, ◌<◌, ◌≡◌, ap, sym, subst, refl, arith, false, Bool-cases, inl, inr,
  List, [], ◌∷◌,
}
use asx.Base.{u32, leb, ◌==◌, length, length-tabulate, ◌*◌}
use asx.Base.Outcome.{Outcome, returned, ◌>>=◌}
use asx.Timer.{Future, Notice, Timer, dispatch}
use asx.Timer.Slots.{earlier, view}
use asx.Timer.Schedule.{insert, renewed, fired, now_after, expire, expire_fire, expire_wait, Named}
use asx.Timer.Pending.{Holds, pending}
use asx.Timer.Dispatch.{Agrees, dispatch_refines, notice_of}
use asx.Timer.Expire.{
  Near, AllNear, Clock, IsAscending, NoneDue, NoneSmaller-NoneDue, AllNear-insert,
  insert-IsAscending, earlier-Near, renewed-Near, renewed-le, weight, rounds, rounds-insert,
  weight-renewed,
}

-- The interrupts that arrive in the rounds of the loop.
abbrev pub elapsed : (ℕ → ℕ) → ℕ → ℕ
elapsed ticks zero = 0
elapsed ticks (suc fuel) = ticks fuel + elapsed ticks fuel

now_after_near : (k now limit : ℕ) → now + k ≤ limit → limit < 2 ^ 32 → now_after k now ≡ now + k
now_after_near zero now limit h lt = omega arith
now_after_near (suc k) now limit h lt =
    let next : u32 (now + 1) ≡ now + 1 = omega arith in
    rw next (omega (arith, now_after_near k (now + 1) limit (omega arith) lt))

-- The head of a list, fired away from the roll over: what is left is near, ascending, and takes fewer
-- rounds.
record FiredWell (time_now limit : ℕ) (f : Future) (fs rest : List Future) : Type 0 where
  near : AllNear time_now limit rest
  ascending : IsAscending rest
  less : rounds time_now rest < rounds time_now (f ∷ fs)

fired_near :
    (time_now limit now : ℕ) (f : Future) (fs : List Future)
    → Clock time_now now limit
    → f.count ≤ time_now
    → AllNear time_now limit (f ∷ fs)
    → IsAscending (f ∷ fs)
    → FiredWell time_now limit f fs (fired time_now now f fs)
unfolding fired
fired_near time_now limit now f fs c due (hf, h) (least, asc) = elim (Bool-cases (f.repeat == 0)) [
  | inl once ↦ rw once (record { near = h; ascending = asc; less = unfold rounds in ground arith })
  | inr again ↦
      rw (again, behind)
        (record {
          near = AllNear-insert time_now limit now x fs hx h;
          ascending = insert-IsAscending time_now limit now x fs c hx h asc;
          less =
              unfold rounds in
              omega (
                arith,
                rounds-insert time_now now x fs,
                weight-renewed time_now limit f hf due again,
              );
        })
]
  where
    x : Future
    x = renewed time_now f

    hx : Near time_now limit x
    hx = renewed-Near time_now limit f hf due (omega (arith, c.started, c.bounded)) c.fits

    not_earlier : earlier now x.count f ≡ false
    not_earlier = ground (
      arith,
      earlier-Near time_now limit now x f hx hf c.started c.bounded c.fits,
      renewed-le time_now limit f hf due,
    )

    behind : insert now x (f ∷ fs) ≡ f ∷ insert now x fs
    behind = unfold insert in rw not_earlier

-- The model returns a list in which no timer is due.
abbrev Ends : ℕ → Outcome (List Notice × List Future × ℕ) → Type 0
Ends time_now result =
    (notices : List Notice) × (rest : List Future) × (now : ℕ) × (result
      ≡ returned (notices, rest, now))
    × NoneDue time_now rest
    × IsAscending rest

Ends-cons :
    (time_now : ℕ) (f : Future) (result : Outcome (List Notice × List Future × ℕ))
    → Ends time_now result
    → Ends time_now (result >>= λ rest. returned (notice_of f ∷ rest.0, rest.1, rest.2))
Ends-cons time_now f result (notices, rest, now, runs, none_due, ascending) = (
  notice_of f ∷ notices,
  rest,
  now,
  ap (λ o. o >>= λ rest. returned (notice_of f ∷ rest.0, rest.1, rest.2)) runs,
  none_due,
  ascending,
)

expire-Ends :
    (ticks : ℕ → ℕ) (fuel time_now now limit : ℕ) (fs : List Future)
    → time_now ≤ now
    → now + elapsed ticks fuel ≤ limit
    → limit < 2 ^ 32
    → AllNear time_now limit fs
    → IsAscending fs
    → rounds time_now fs < fuel
    → Ends time_now (expire ticks fuel time_now now fs)
expire-Ends ticks zero time_now now limit fs lo hi lt near asc enough = absurd (omega arith)
expire-Ends ticks (suc fuel) time_now now limit [] lo hi lt near asc enough =
    unfold expire in ([], [], now, refl, tt, tt)
expire-Ends ticks (suc fuel) time_now now limit (f ∷ fs) lo hi lt near asc enough =
    elim (Bool-cases (leb f.count time_now)) [
      | inl expired ↦
          let later : ℕ = now_after (ticks fuel) now in
          let moved : later ≡ now + ticks fuel =
            now_after_near (ticks fuel) now limit (omega arith) lt in
          let c : Clock time_now later limit = record {
            started = omega arith;
            bounded = omega arith;
            fits = lt;
          } in
          let well = fired_near time_now limit later f fs c (ground arith) near asc in
          subst (Ends time_now) (sym (expire_fire ticks fuel time_now now f fs expired)) (
            Ends-cons time_now f _ (
              expire-Ends ticks fuel time_now later limit (fired time_now later f fs) (omega arith)
                (omega arith) lt well.near well.ascending (omega (arith, well.less))))
      | inr waits ↦
          let not_due : time_now < f.count = ground arith in
          subst (Ends time_now) (sym (expire_wait ticks fuel time_now now f fs waits))
            ([], f ∷ fs, now, refl, (not_due, NoneSmaller-NoneDue time_now f fs not_due asc.0), asc)
    ]

weight-le : (time_now : ℕ) (f : Future) → weight time_now f ≤ 2
unfolding weight
weight-le time_now f = ground arith

rounds_bound : (time_now : ℕ) (fs : List Future) → rounds time_now fs ≤ 2 * length fs
unfolding rounds
rounds_bound time_now [] = omega arith
rounds_bound time_now (f ∷ fs) = omega (arith, weight-le time_now f, rounds_bound time_now fs)

-- `timer_dispatch` returns, in at most two rounds for each armed timer, and leaves no timer that
-- is due and the others in the order of their counts, if the armed timers are fewer than 16, have
-- valid instances, stand in the order of their counts, and are near: neither they nor the
-- interrupts that arrive meanwhile reach the roll over of the clock.
pub dispatch_timely :
    (ticks : ℕ → ℕ) (fuel limit : ℕ) (t : Timer) (n : ℕ)
    → n < 16
    → Holds t n
    → Named (pending t n)
    → AllNear t.counter limit (pending t n)
    → IsAscending (pending t n)
    → t.counter + elapsed ticks fuel ≤ limit
    → limit < 2 ^ 32
    → 2 * n < fuel
    → (notices : List Notice) × (t' : Timer) × (m : ℕ) × (dispatch ticks fuel t
        ≡ returned (notices, t'))
      × Holds t' m
      × NoneDue t.counter (pending t' m)
      × IsAscending (pending t' m)
dispatch_timely ticks fuel limit t n fits holds named near asc hi lt enough =
    let (notices, rest, now, ends, none_due, ascending) =
      expire-Ends ticks fuel t.counter t.counter limit (pending t n) (omega arith) hi lt near asc (
        omega (
          arith,
          rounds_bound t.counter (pending t n),
          length-tabulate n (view t.slots t.active),
        )) in
    let (t', m, runs, _, holds', list, _) =
      subst (Agrees (dispatch ticks fuel t)) ends
        (dispatch_refines ticks fuel t n fits holds named) in
    (
      notices,
      t',
      m,
      runs,
      holds',
      subst (NoneDue t.counter) (sym list) none_due,
      subst IsAscending (sym list) ascending,
    )
