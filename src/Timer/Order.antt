-- ===== src/Timer/Order.antt =====
-- src/timer.c: the order of the list, as seen at a reading of the clock.
use asx.Base.{
  ℕ, suc, ◌+◌, ◌^◌, ◌<◌, ◌≡◌, ◌≢◌, ◌∙◌, subst, arith, true, false, Bool-cases, inl, inr, List, [],
  ◌∷◌, some, Option-cases,
}
use asx.Base.{ltb_ℤ-signed32, sub32, u32, ltb, ◌==◌}
use asx.Timer.{Future, distance_of}
use asx.Timer.Slots.{earlier}
use asx.Timer.Schedule.{insert, remove}

-- None of the timers fires before `x`, as seen at `now`.
abbrev pub NoneBefore : ℕ → Future → List Future → Type 0
NoneBefore now x [] = Unit {0}
NoneBefore now x (y ∷ ys) = (earlier now y.count x ≡ false) × NoneBefore now x ys

abbrev pub IsOrdered : ℕ → List Future → Type 0
IsOrdered now [] = Unit {0}
IsOrdered now (x ∷ xs) = NoneBefore now x xs × IsOrdered now xs

earlier_asym :
    (now : ℕ) (x y : Future) → earlier now x.count y ≡ true → earlier now y.count x ≡ false
unfolding earlier
earlier_asym now x y h = ground arith

earlier_trans :
    (now : ℕ) (x y z : Future)
    → earlier now x.count y ≡ true
    → earlier now z.count y ≡ false
    → earlier now z.count x ≡ false
unfolding earlier
earlier_trans now x y z h k = ground arith

NoneBefore-mono :
    (now : ℕ) (x y : Future) (zs : List Future)
    → earlier now x.count y ≡ true
    → NoneBefore now y zs
    → NoneBefore now x zs
NoneBefore-mono now x y [] h none_before = tt
NoneBefore-mono now x y (z ∷ zs) h (hz, none_before) =
    (earlier_trans now x y z h hz, NoneBefore-mono now x y zs h none_before)

NoneBefore-insert :
    (now : ℕ) (x y : Future) (zs : List Future)
    → earlier now x.count y ≡ false
    → NoneBefore now y zs
    → NoneBefore now y (insert now x zs)
unfolding insert
NoneBefore-insert now x y [] h none_before = (h, tt)
NoneBefore-insert now x y (z ∷ zs) h (hz, none_before) = elim (Bool-cases (earlier now x.count z)) [
  | inl first ↦ rw first (h, (hz, none_before))
  | inr later ↦ rw later (hz, NoneBefore-insert now x y zs h none_before)
]

-- Sorting a timer in keeps the order.
pub insert-IsOrdered :
    (now : ℕ) (x : Future) (fs : List Future) → IsOrdered now fs → IsOrdered now (insert now x fs)
unfolding insert
insert-IsOrdered now x [] ordered = (tt, tt)
insert-IsOrdered now x (y ∷ ys) (before, ordered) = elim (Bool-cases (earlier now x.count y)) [
  | inl first ↦
      rw first
        ((earlier_asym now x y first, NoneBefore-mono now x y ys first before), (before, ordered))
  | inr later ↦
      rw later (NoneBefore-insert now x y ys later before, insert-IsOrdered now x ys ordered)
]

-- A timer whose distance does not pass from one end of the 32-bit range to the other when the clock
-- moves on.
abbrev pub InWindow : ℕ → Future → Type 0
InWindow now f = (f.count < 2 ^ 32) × (sub32 f.count now ≢ 2 ^ 31)

key_tick :
    (now c : ℕ)
    → now < 2 ^ 32
    → c < 2 ^ 32
    → sub32 c now ≢ 2 ^ 31
    → u32 (sub32 c now + 2 ^ 31) ≡ suc (u32 (sub32 c (u32 (now + 1)) + 2 ^ 31))
key_tick now c hn hc h = omega arith

ltb-suc : (a b c d : ℕ) → c ≡ suc a → d ≡ suc b → ltb a b ≡ ltb c d
ltb-suc a b c d p q = ground arith

earlier_tick :
    (now : ℕ) (x y : Future)
    → now < 2 ^ 32
    → InWindow now x
    → InWindow now y
    → earlier (u32 (now + 1)) x.count y ≡ earlier now x.count y
unfolding earlier distance_of
earlier_tick now x y lt hx hy =
    rw
      (
        ltb_ℤ-signed32 (sub32 x.count now) (sub32 y.count now) (omega arith) (omega arith),
        ltb_ℤ-signed32 (sub32 x.count (u32 (now + 1))) (sub32 y.count (u32 (now + 1))) (omega arith)
            (omega arith),
      )
      (ltb-suc _ _ _ _ (key_tick now x.count lt hx.0 hx.1) (key_tick now y.count lt hy.0 hy.1))

abbrev pub AllInWindow : ℕ → List Future → Type 0
AllInWindow now [] = Unit {0}
AllInWindow now (f ∷ fs) = InWindow now f × AllInWindow now fs

NoneBefore-tick :
    (now : ℕ) (x : Future) (ys : List Future)
    → now < 2 ^ 32
    → InWindow now x
    → AllInWindow now ys
    → NoneBefore now x ys
    → NoneBefore (u32 (now + 1)) x ys
NoneBefore-tick now x [] lt hx near before = tt
NoneBefore-tick now x (y ∷ ys) lt hx (hy, near) (h, before) =
    (earlier_tick now y x lt hy hx ∙ h, NoneBefore-tick now x ys lt hx near before)

-- The list stays ordered when the clock moves on, its roll over included, as long as no timer is
-- overdue by half of the clock's range.
pub tick-IsOrdered :
    (now : ℕ) (fs : List Future)
    → now < 2 ^ 32
    → AllInWindow now fs
    → IsOrdered now fs
    → IsOrdered (u32 (now + 1)) fs
tick-IsOrdered now [] lt near ordered = tt
tick-IsOrdered now (f ∷ fs) lt (hf, near) (before, ordered) =
    (NoneBefore-tick now f fs lt hf near before, tick-IsOrdered now fs lt near ordered)

NoneBefore-remove :
    (now i : ℕ) (x : Future) (fs rest : List Future)
    → remove i fs ≡ some rest
    → NoneBefore now x fs
    → NoneBefore now x rest
unfolding remove
NoneBefore-remove now i x [] rest e before = absurd (cc)
NoneBefore-remove now i x (y ∷ ys) rest e (h, before) = elim (Bool-cases (y.instance_id == i)) [
  | inl here ↦ subst (NoneBefore now x) (ground (arith, here)) before
  | inr there ↦ elim (Option-cases (remove i ys)) [
    | inl gone ↦ absurd (ground (arith, there))
    | inr (zs, kept) ↦
        subst (NoneBefore now x) {x = y ∷ zs} (ground (arith, there))
          (h, NoneBefore-remove now i x ys zs kept before)
  ]
]

-- Taking a timer out keeps the order.
pub remove-IsOrdered :
    (now i : ℕ) (fs rest : List Future)
    → remove i fs ≡ some rest
    → IsOrdered now fs
    → IsOrdered now rest
unfolding remove
remove-IsOrdered now i [] rest e ordered = absurd (cc)
remove-IsOrdered now i (y ∷ ys) rest e (before, ordered) = elim (Bool-cases (y.instance_id == i)) [
  | inl here ↦ subst (IsOrdered now) (ground (arith, here)) ordered
  | inr there ↦ elim (Option-cases (remove i ys)) [
    | inl gone ↦ absurd (ground (arith, there))
    | inr (zs, kept) ↦
        subst (IsOrdered now) {x = y ∷ zs} (ground (arith, there))
          (NoneBefore-remove now i y ys zs kept before, remove-IsOrdered now i ys zs kept ordered)
  ]
]
