-- ===== src/Timer/Undo.antt =====
-- src/timer.c: arming a timer and cancelling it again.
use asx.Base.{
  ℕ, suc, ◌+◌, ◌<◌, ◌≡◌, ◌≢◌, refl, ap, ◌∙◌, arith, true, subst, some, List, [], ◌∷◌, inl, inr,
}
use asx.Base.{u32, Bool-cases, ==_true, ==_false}
use asx.Base.Outcome.{returned}
use asx.Timer.{Timer, Future, arm, cancel, invalid_instance}
use asx.Timer.Cancel.{Cancels, cancel_refines}
use asx.Timer.Slots.{earlier}
use asx.Timer.Pending.{Holds, pending, arm_reusing_refines}
use asx.Timer.Schedule.{insert, remove}

-- No timer of the list has the instance.
abbrev pub Absent : ℕ → List Future → Type 0
Absent i [] = Unit {0}
Absent i (f ∷ fs) = (f.instance_id ≢ i) × Absent i fs

remove-insert :
    (now : ℕ) (x : Future) (fs : List Future)
    → Absent x.instance_id fs
    → remove x.instance_id (insert now x fs) ≡ some fs
unfolding remove insert
remove-insert now x [] absent = rw (==_true x.instance_id x.instance_id refl) refl
remove-insert now x (y ∷ ys) (differs, absent) = elim (Bool-cases (earlier now x.count y)) [
  | inl first ↦ rw (first, ==_true x.instance_id x.instance_id refl) refl
  | inr later ↦
      rw (later, ==_false y.instance_id x.instance_id differs, remove-insert now x ys absent) refl
]

-- The instance that the next timer is given.
abbrev pub next_instance : Timer → ℕ
next_instance t = u32 (t.current_instance + 1)

-- A new timer that is armed and cancelled leaves the armed timers as they were.
pub arm-cancel :
    (t : Timer) (n reactor count arg : ℕ)
    → Holds t n
    → n < 15
    → Absent (next_instance t) (pending t n)
    → (t' after : Timer) × (arm t reactor count 0 arg ≡ returned (next_instance t, t'))
      × (cancel t' (next_instance t) ≡ returned (true, after))
      × Holds after n
      × (pending after n ≡ pending t n)
unfolding arm
arm-cancel t n reactor count arg holds fits absent =
    let (t', runs, holds', sorted, r, r', r'') =
      arm_reusing_refines t n reactor count 0 invalid_instance arg holds (omega (arith, fits)) in
    let (after, m, size, gone, kept, same, clock) =
      subst (Cancels t' (suc n) (cancel t' (next_instance t)))
        (ap (remove (next_instance t)) sorted ∙ remove-insert t.counter _ (pending t n) absent)
        (cancel_refines t' (suc n) (next_instance t) holds' (omega (arith, fits))) in
    let back : m ≡ n = omega (arith, size) in
    (
      t',
      after,
      runs,
      gone,
      subst (Holds after) back kept,
      subst (λ k. pending after k ≡ pending t n) back same,
    )
