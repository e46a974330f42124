-- ===== src/Timer/Near.antt =====
-- src/timer.c: the order of the list while the clock ticks inside the dispatcher.
use asx.Base.{
  ℕ, zero, suc, ◌+◌, u32, Bool, false, ◌^◌, ◌<◌, sym, subst, arith, true, Bool-cases, inl, inr,
  List, [], ◌∷◌,
}
use asx.Base.{leb, ◌==◌, tail}
use asx.Base.Outcome.{Outcome, returned, ◌>>=◌}
use asx.Timer.{Future, Notice}
use asx.Timer.Schedule.{insert, renewed, fired, now_after, expire, expire_fire, expire_wait}
use asx.Timer.Dispatch.{notice_of}
use asx.Timer.Order.{IsOrdered, AllInWindow, insert-IsOrdered, tick-IsOrdered}

-- No timer is overdue by half of the clock's range in the ticks from `now` on.
abbrev pub NearFor : ℕ → ℕ → List Future → Type 0
NearFor zero now fs = Unit {0}
NearFor (suc k) now fs = AllInWindow now fs × NearFor k (u32 (now + 1)) fs

abbrev pub WhenDue : Bool → Type 0 → Type 0
WhenDue true P = P
WhenDue false P = Unit {0}

-- Nor in the rounds of the dispatcher.
abbrev pub StaysNear : (ℕ → ℕ) → ℕ → ℕ → ℕ → List Future → Type 0
StaysNear ticks zero time_now now fs = Unit {0}
StaysNear ticks (suc fuel) time_now now [] = Unit {0}
StaysNear ticks (suc fuel) time_now now (f ∷ fs) = WhenDue (leb f.count time_now) (
    NearFor (ticks fuel) now (f ∷ fs)
    × StaysNear ticks fuel time_now (now_after (ticks fuel) now)
        (fired time_now (now_after (ticks fuel) now) f fs))

abbrev Round : (ℕ → ℕ) → ℕ → ℕ → ℕ → Future → List Future → Type 0
Round ticks fuel time_now now f fs =
    NearFor (ticks fuel) now (f ∷ fs)
    × StaysNear ticks fuel time_now (now_after (ticks fuel) now)
        (fired time_now (now_after (ticks fuel) now) f fs)

-- The model of the dispatcher keeps the order.
tail-IsOrdered : (now : ℕ) (fs : List Future) → IsOrdered now fs → IsOrdered now (tail fs)
tail-IsOrdered now [] ordered = tt
tail-IsOrdered now (f ∷ fs) ordered = ordered.1

fired-IsOrdered :
    (time_now now : ℕ) (f : Future) (fs : List Future)
    → IsOrdered now (f ∷ fs)
    → IsOrdered now (fired time_now now f fs)
unfolding fired
fired-IsOrdered time_now now f fs ordered = elim (Bool-cases (f.repeat == 0)) [
  | inl once ↦ rw once ordered.1
  | inr again ↦ rw again (
      tail-IsOrdered now (insert now (renewed time_now f) (f ∷ fs))
        (insert-IsOrdered now (renewed time_now f) (f ∷ fs) ordered))
]

-- Where the model returns, the list is ordered by the clock at that time.
abbrev pub Keeps : Outcome (List Notice × List Future × ℕ) → Type 0
Keeps (returned (notices, fs, now)) = (now < 2 ^ 32) × IsOrdered now fs
Keeps other = Unit {0}

Keeps-cons :
    (f : Future) (o : Outcome (List Notice × List Future × ℕ))
    → Keeps o
    → Keeps (o >>= λ rest. returned (notice_of f ∷ rest.0, rest.1, rest.2))
Keeps-cons f (returned r) k = k
Keeps-cons f other k = tt

later-IsOrdered :
    (k now : ℕ) (fs : List Future)
    → now < 2 ^ 32
    → NearFor k now fs
    → IsOrdered now fs
    → (now_after k now < 2 ^ 32) × IsOrdered (now_after k now) fs
later-IsOrdered zero now fs lt near ordered = (lt, ordered)
later-IsOrdered (suc k) now fs lt (near, nears) ordered =
    later-IsOrdered k (u32 (now + 1)) fs (omega arith) nears (tick-IsOrdered now fs lt near ordered)

pub expire-Keeps :
    (ticks : ℕ → ℕ) (fuel time_now now : ℕ) (fs : List Future)
    → now < 2 ^ 32
    → StaysNear ticks fuel time_now now fs
    → IsOrdered now fs
    → Keeps (expire ticks fuel time_now now fs)
expire-Keeps ticks zero time_now now fs lt near ordered = unfold expire in tt
expire-Keeps ticks (suc fuel) time_now now [] lt near ordered = unfold expire in (lt, tt)
expire-Keeps ticks (suc fuel) time_now now (f ∷ fs) lt near ordered =
    elim (Bool-cases (leb f.count time_now)) [
      | inl due ↦
          let (here, later) =
            subst (λ b. WhenDue b (Round ticks fuel time_now now f fs)) due near in
          let (lt', ordered') = later-IsOrdered (ticks fuel) now (f ∷ fs) lt here ordered in
          let clock = now_after (ticks fuel) now in
          subst Keeps (sym (expire_fire ticks fuel time_now now f fs due)) (
            Keeps-cons f _ (
              expire-Keeps ticks fuel time_now clock (fired time_now clock f fs) lt' later
                (fired-IsOrdered time_now clock f fs ordered')))
      | inr waits ↦ subst Keeps (sym (expire_wait ticks fuel time_now now f fs waits)) (lt, ordered)
    ]
