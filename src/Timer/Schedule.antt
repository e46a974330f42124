-- ===== src/Timer/Schedule.antt =====
-- What the timer service keeps, with no array: the list of armed timers, the one that fires first at
-- the head. `insert`, `remove` and `expire` are what `_timer_arm`, `timer_cancel` and
-- `timer_dispatch` mean.
use asx.Base.{
  ℕ, zero, suc, ◌+◌, ◌≤◌, ◌<◌, ◌≡◌, ◌≢◌, sym, ap, ap₂, refl, arith, true, false, Bool-cases, inl,
  inr, Option, none, some, List, [], ◌∷◌, ◌∙◌,
}
use asx.Base.{u32, leb, ◌==◌, if◌then◌else◌, tail, tabulate, tabulate_ext}
use mathlib.Core.Option
use asx.Base.Outcome.{Outcome, returned, unfinished, ◌>>=◌}
use asx.Timer.{Future, Notice, invalid_instance, next_count}
use asx.Timer.Slots.{earlier, search, search-suc, locate-suc, locate, moved_right, moved_left}

-- Sort a timer in, behind those that fire no later as seen at `now`.
unfoldable pub insert : ℕ → Future → List Future → List Future
insert now x [] = x ∷ []
insert now x (y ∷ ys) = if earlier now x.count y then x ∷ y ∷ ys else y ∷ insert now x ys

-- Take out the first timer of an instance, if there is one.
unfoldable pub remove : ℕ → List Future → Option (List Future)
remove i [] = none
remove i (y ∷ ys) = if y.instance_id == i then some ys else Option.map (λ l. y ∷ l) (remove i ys)

-- What a timer is when it repeats: the count moves on, and the argument is dropped.
abbrev pub renewed : ℕ → Future → Future
renewed time_now f = record f { count = next_count time_now f; arg = 0 }

-- The list behind the first timer, which fires: sorted in again, if it repeats.
unfoldable pub fired : ℕ → ℕ → Future → List Future → List Future
fired time_now now f fs =
    if f.repeat == 0 then fs else tail (insert now (renewed time_now f) (f ∷ fs))

-- Every timer has an instance of its own. (`_timer_arm` takes the invalid one for a new timer.)
abbrev pub Named : List Future → Type 0
Named [] = Unit {0}
Named (f ∷ fs) = (f.instance_id ≢ invalid_instance) × Named fs

pub insert-Named :
    (now : ℕ) (x : Future) (fs : List Future)
    → x.instance_id ≢ invalid_instance
    → Named fs
    → Named (insert now x fs)
unfolding insert
insert-Named now x [] h named = (h, tt)
insert-Named now x (y ∷ ys) h (hy, named) = elim (Bool-cases (earlier now x.count y)) [
  | inl first ↦ rw first (h, (hy, named))
  | inr later ↦ rw later (hy, insert-Named now x ys h named)
]

tail-Named : (fs : List Future) → Named fs → Named (tail fs)
tail-Named [] named = tt
tail-Named (f ∷ fs) named = named.1

pub fired-Named :
    (time_now now : ℕ) (f : Future) (fs : List Future)
    → Named (f ∷ fs)
    → Named (fired time_now now f fs)
unfolding fired
fired-Named time_now now f fs named = elim (Bool-cases (f.repeat == 0)) [
  | inl once ↦ rw once named.1
  | inr again ↦ rw again (
      tail-Named (insert now (renewed time_now f) (f ∷ fs))
        (insert-Named now (renewed time_now f) (f ∷ fs) named.0 named))
]

-- The clock behind some interrupts.
abbrev pub now_after : ℕ → ℕ → ℕ
now_after zero now = now
now_after (suc n) now = now_after n (u32 (now + 1))

-- Fire what has expired at `time_now`, in the order of the list: the notices, the timers that are
-- left, and the clock behind the interrupts of each round.
unfoldable pub expire : (ℕ → ℕ) → ℕ → ℕ → ℕ → List Future → Outcome (List Notice × List Future × ℕ)
expire ticks zero time_now now fs = unfinished
expire ticks (suc fuel) time_now now [] = returned ([], [], now)
expire ticks (suc fuel) time_now now (f ∷ fs) =
    let later = now_after (ticks fuel) now in
    let round : Outcome (List Notice × List Future × ℕ) = (do
      rest ← expire ticks fuel time_now later (fired time_now later f fs)
      returned (record { handle = f.reactor; arg = f.arg } ∷ rest.0, rest.1, rest.2)) in
    if leb f.count time_now then round else returned ([], f ∷ fs, now)

-- A round in which the head fires, and one in which it waits.
pub expire_fire :
    (ticks : ℕ → ℕ) (fuel time_now now : ℕ) (f : Future) (fs : List Future)
    → leb f.count time_now ≡ true
    → expire ticks (suc fuel) time_now now (f ∷ fs) ≡ (
        expire ticks fuel time_now
          (now_after (ticks fuel) now)
          (fired time_now (now_after (ticks fuel) now) f fs)
        >>= λ rest. returned (record { handle = f.reactor; arg = f.arg } ∷ rest.0, rest.1, rest.2))
unfolding expire
expire_fire ticks fuel time_now now f fs e = rw e

pub expire_wait :
    (ticks : ℕ → ℕ) (fuel time_now now : ℕ) (f : Future) (fs : List Future)
    → leb f.count time_now ≡ false
    → expire ticks (suc fuel) time_now now (f ∷ fs) ≡ returned ([], f ∷ fs, now)
unfolding expire
expire_wait ticks fuel time_now now f fs e = rw e

search_first :
    (now count n : ℕ) (g : ℕ → Future)
    → earlier now count (g 0) ≡ true
    → search now count (suc n) 0 g ≡ 0
unfolding search
search_first now count n g e = rw e

search_later :
    (now count n : ℕ) (g : ℕ → Future)
    → earlier now count (g 0) ≡ false
    → search now count (suc n) 0 g ≡ suc (search now count n 0 (λ j. g (suc j)))
unfolding search
search_later now count n g e = rw e (search-suc now count n 0 g)

-- An array whose items are moved right from the place that `search` finds shows the inserted list.
pub tabulate-insert :
    (now : ℕ) (x : Future) (n p : ℕ) (g h : ℕ → Future)
    → p ≡ search now x.count n 0 g
    → ((j : ℕ) → j ≤ n → h j ≡ (if j == p then x else moved_right p n g j))
    → tabulate (suc n) h ≡ insert now x (tabulate n g)
unfolding insert
tabulate-insert now x zero p g h at_p e =
    ap (λ f. f ∷ []) (e 0 (omega arith) ∙ unfold search in ground arith)
tabulate-insert now x (suc n) p g h at_p e = elim (Bool-cases (earlier now x.count (g 0))) [
  | inl first ↦ rw first (
      let here : p ≡ 0 = at_p ∙ search_first now x.count n g first in
      ap₂ (λ (f : Future) (l : List Future). f ∷ l) (e 0 (omega arith) ∙ ground arith)
        (tabulate_ext (suc n) (λ j. h (suc j)) g (λ j lt. e (suc j) lt ∙ ground arith)))
  | inr later ↦ rw later (
      let p' : ℕ = search now x.count n 0 (λ j. g (suc j)) in
      let there : p ≡ suc p' = at_p ∙ search_later now x.count n g later in
      ap₂ (λ (f : Future) (l : List Future). f ∷ l) (e 0 (omega arith) ∙ ground arith)
        (tabulate-insert now x n p' (λ j. g (suc j)) (λ j. h (suc j)) refl
          (λ j le. e (suc j) (omega arith) ∙ ground arith)))
]

locate_later :
    (i n : ℕ) (g : ℕ → Future)
    → ((g 0).instance_id == i) ≡ false
    → locate i (suc n) 0 g ≡ Option.map suc (locate i n 0 (λ j. g (suc j)))
unfolding locate
locate_later i n g e = rw e (locate-suc i n 0 g)

map-suc-eq_none : (o : Option ℕ) → Option.map suc o ≡ none → o ≡ none
map-suc-eq_none none e = refl
map-suc-eq_none (some p) e = absurd (cc)

map-suc-eq_some :
    (o : Option ℕ) (p : ℕ) → Option.map suc o ≡ some p → (p' : ℕ) × (o ≡ some p') × (p ≡ suc p')
map-suc-eq_some none p e = absurd (cc)
map-suc-eq_some (some p') p e = (p', refl, cc)

-- An array whose items are moved left from the place that `locate` finds shows the list without it.
pub tabulate-remove :
    (i n p : ℕ) (g h : ℕ → Future)
    → locate i (suc n) 0 g ≡ some p
    → ((j : ℕ) → j < n → h j ≡ moved_left p (suc n) g j)
    → remove i (tabulate (suc n) g) ≡ some (tabulate n h)
unfolding remove
tabulate-remove i zero p g h at_p e = unfold locate in ground arith
tabulate-remove i (suc n) p g h at_p e = elim (Bool-cases ((g 0).instance_id == i)) [
  | inl here ↦
      let first : p ≡ 0 = unfold locate in ground arith in
      rw here
        (ap some (sym (tabulate_ext (suc n) h (λ j. g (suc j)) (λ j lt. e j lt ∙ ground arith))))
  | inr there ↦
      let (p', found, next) = map-suc-eq_some _ p (sym (locate_later i (suc n) g there) ∙ at_p) in
      rw
        (
          there,
          tabulate-remove i n p' (λ j. g (suc j)) (λ j. h (suc j)) found
              (λ j lt. e (suc j) (omega arith) ∙ ground arith),
        )
        (ap (λ (f : Future). some (f ∷ tabulate n (λ j. h (suc j))))
          (sym (e 0 (omega arith) ∙ ground arith)))
]

pub remove-none :
    (i n : ℕ) (g : ℕ → Future) → locate i n 0 g ≡ none → remove i (tabulate n g) ≡ none
unfolding remove
remove-none i zero g e = refl
remove-none i (suc n) g e = elim (Bool-cases ((g 0).instance_id == i)) [
  | inl here ↦ absurd (unfold locate in ground arith)
  | inr there ↦ rw (
    there,
    remove-none i n (λ j. g (suc j)) (map-suc-eq_none _ (sym (locate_later i n g there) ∙ e)),
  )
]
