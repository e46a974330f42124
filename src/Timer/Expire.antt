-- ===== src/Timer/Expire.antt =====
-- src/timer.c: when `timer_dispatch` returns, and what it leaves. The results are about the model of
-- `Timer.Schedule`, and carried over to the code by `Timer.Dispatch`.
use asx.Base.{
  ℕ, ◌+◌, ◌^◌, ◌≤◌, ◌<◌, ◌≡◌, ◌∙◌, refl, arith, false, Bool-cases, inl, inr, List, [], ◌∷◌,
}
use asx.Base.{ltb_ℤ-signed32, sub32, u32, ltb, ◌==◌, if◌then◌else◌}
use asx.Timer.{Future, distance_of, next_count}
use asx.Timer.Slots.{earlier}
use asx.Timer.Schedule.{insert, renewed}

-- A timer far from the roll over: its count is less than 2^31 away from `time_now` and from the last
-- reading of the clock, `limit`, and it repeats, if it does, with a period of less than 2^31 that does
-- not reach the roll over.
pub record Near (time_now limit : ℕ) (f : Future) : Type 0 where
  pub above : limit < f.count + 2 ^ 31
  pub below : f.count < time_now + 2 ^ 31
  pub in_range : f.count < 2 ^ 32
  pub period : f.repeat < 2 ^ 31
  pub no_wrap : time_now + f.repeat < 2 ^ 32

abbrev pub AllNear : ℕ → ℕ → List Future → Type 0
AllNear time_now limit [] = Unit {0}
AllNear time_now limit (f ∷ fs) = Near time_now limit f × AllNear time_now limit fs

ltb_shift : (a b c d k m : ℕ) → a + k ≡ c + m → b + k ≡ d + m → ltb a b ≡ ltb c d
ltb_shift a b c d k m p q = ground arith

key_near :
    (now c : ℕ)
    → now < c + 2 ^ 31
    → c < now + 2 ^ 31
    → c < 2 ^ 32
    → now < 2 ^ 32
    → u32 (sub32 c now + 2 ^ 31) + now ≡ c + 2 ^ 31
key_near now c above below in_range lt = omega arith

-- Away from the roll over, the timer with the smaller count is the earlier one.
pub earlier-Near :
    (time_now limit now : ℕ) (x y : Future)
    → Near time_now limit x
    → Near time_now limit y
    → time_now ≤ now
    → now ≤ limit
    → limit < 2 ^ 32
    → earlier now x.count y ≡ ltb x.count y.count
unfolding earlier distance_of
earlier-Near time_now limit now x y hx hy lo hi lt =
    ltb_ℤ-signed32 (sub32 x.count now) (sub32 y.count now) (omega arith) (omega arith)
    ∙ ltb_shift _ _ _ _ now (2 ^ 31)
        (key_near now x.count (omega arith) (omega arith) hx.in_range (omega arith))
        (key_near now y.count (omega arith) (omega arith) hy.in_range (omega arith))

-- A renewed timer is near too, and no earlier than it was.
pub renewed-Near :
    (time_now limit : ℕ) (f : Future)
    → Near time_now limit f
    → f.count ≤ time_now
    → time_now ≤ limit
    → limit < 2 ^ 32
    → Near time_now limit (renewed time_now f)
unfolding next_count
renewed-Near time_now limit f h due lo lt = ground arith

pub renewed-le :
    (time_now limit : ℕ) (f : Future)
    → Near time_now limit f
    → f.count ≤ time_now
    → f.count ≤ (renewed time_now f).count
unfolding next_count
renewed-le time_now limit f h due = ground arith

-- The rounds that a timer can still take part in.
unfoldable pub weight : ℕ → Future → ℕ
weight time_now f =
    if ltb time_now f.count
    then 0
    else if f.repeat == 0
    then 1
    else if f.count == time_now
    then 1
    else 2

unfoldable pub rounds : ℕ → List Future → ℕ
unfolding weight
rounds time_now [] = 0
rounds time_now (f ∷ fs) = weight time_now f + rounds time_now fs

pub rounds-insert :
    (time_now now : ℕ) (x : Future) (fs : List Future)
    → rounds time_now (insert now x fs) ≡ weight time_now x + rounds time_now fs
unfolding rounds insert
rounds-insert time_now now x [] = refl
rounds-insert time_now now x (y ∷ ys) = ground (arith, rounds-insert time_now now x ys)

pub weight-renewed :
    (time_now limit : ℕ) (f : Future)
    → Near time_now limit f
    → f.count ≤ time_now
    → (f.repeat == 0) ≡ false
    → weight time_now (renewed time_now f) < weight time_now f
unfolding weight next_count
weight-renewed time_now limit f h due again = ground arith

-- The list by counts, and a list in which no timer is due.
abbrev pub NoneSmaller : Future → List Future → Type 0
NoneSmaller x [] = Unit {0}
NoneSmaller x (y ∷ ys) = (x.count ≤ y.count) × NoneSmaller x ys

abbrev pub IsAscending : List Future → Type 0
IsAscending [] = Unit {0}
IsAscending (x ∷ xs) = NoneSmaller x xs × IsAscending xs

abbrev pub NoneDue : ℕ → List Future → Type 0
NoneDue time_now [] = Unit {0}
NoneDue time_now (f ∷ fs) = (time_now < f.count) × NoneDue time_now fs

pub NoneSmaller-NoneDue :
    (time_now : ℕ) (x : Future) (ys : List Future)
    → time_now < x.count
    → NoneSmaller x ys
    → NoneDue time_now ys
NoneSmaller-NoneDue time_now x [] lt h = tt
NoneSmaller-NoneDue time_now x (y ∷ ys) lt (le, h) =
    (omega arith, NoneSmaller-NoneDue time_now x ys lt h)

NoneSmaller-mono :
    (x y : Future) (zs : List Future) → x.count ≤ y.count → NoneSmaller y zs → NoneSmaller x zs
NoneSmaller-mono x y [] le h = tt
NoneSmaller-mono x y (z ∷ zs) le (lz, h) = (omega arith, NoneSmaller-mono x y zs le h)

NoneSmaller-insert :
    (now : ℕ) (x y : Future) (zs : List Future)
    → y.count ≤ x.count
    → NoneSmaller y zs
    → NoneSmaller y (insert now x zs)
unfolding insert
NoneSmaller-insert now x y [] le h = (le, tt)
NoneSmaller-insert now x y (z ∷ zs) le (lz, h) = elim (Bool-cases (earlier now x.count z)) [
  | inl first ↦ rw first (le, (lz, h))
  | inr later ↦ rw later (lz, NoneSmaller-insert now x y zs le h)
]

pub AllNear-insert :
    (time_now limit now : ℕ) (x : Future) (fs : List Future)
    → Near time_now limit x
    → AllNear time_now limit fs
    → AllNear time_now limit (insert now x fs)
unfolding insert
AllNear-insert time_now limit now x [] hx h = (hx, tt)
AllNear-insert time_now limit now x (y ∷ ys) hx (hy, h) =
    elim (Bool-cases (earlier now x.count y)) [
      | inl first ↦ rw first (hx, (hy, h))
      | inr later ↦ rw later (hy, AllNear-insert time_now limit now x ys hx h)
    ]

-- What `timer_dispatch` is called with: the clock between `time_now` and `limit`.
pub record Clock (time_now now limit : ℕ) : Type 0 where
  pub started : time_now ≤ now
  pub bounded : now ≤ limit
  pub fits : limit < 2 ^ 32

pub insert-IsAscending :
    (time_now limit now : ℕ) (x : Future) (fs : List Future)
    → Clock time_now now limit
    → Near time_now limit x
    → AllNear time_now limit fs
    → IsAscending fs
    → IsAscending (insert now x fs)
unfolding insert
insert-IsAscending time_now limit now x [] c hx h asc = (tt, tt)
insert-IsAscending time_now limit now x (y ∷ ys) c hx (hy, h) (least, asc) =
    elim (Bool-cases (earlier now x.count y)) [
      | inl first ↦ rw first (
          let lt : x.count ≤ y.count = ground (arith, exact) in
          ((lt, NoneSmaller-mono x y ys lt least), (least, asc)))
      | inr later ↦ rw later (
        NoneSmaller-insert now x y ys (ground (arith, exact)) least,
        insert-IsAscending time_now limit now x ys c hx h asc,
      )
    ]
  where
    exact : earlier now x.count y ≡ ltb x.count y.count
    exact = earlier-Near time_now limit now x y hx hy c.started c.bounded c.fits
