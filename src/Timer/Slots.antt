-- ===== src/Timer/Slots.antt =====
-- src/timer.c: the loops over the circular array, seen from the active slot.
use asx.Base.{
  ℕ, zero, suc, ◌+◌, ◌-◌, ◌%◌, ◌≤◌, ◌<◌, ◌≡◌, refl, arith, Bool, ◌&&◌, Bool-cases, inl, inr, Option,
  none, some, ◌∙◌,
}
use mathlib.Core.Option
use asx.Base.{==_false, ltb_ℤ, ltb, leb, ◌==◌, if◌then◌else◌}
use asx.Base.Outcome.{Outcome, returned}
use asx.Timer.{
  Future, update, right_of, left_of, distance_of, find_point, shift_right, shift_left,
  find_instance,
}

-- The slot `k` places right of slot `a`.
abbrev pub place : ℕ → ℕ → ℕ
place a k = (a + k) % 16

pub right_of-place : (a k : ℕ) → right_of (place a k) ≡ place a (suc k)
right_of-place a k = ground arith

pub left_of-place : (a k : ℕ) → left_of (place a (suc k)) ≡ place a k
left_of-place a k = ground arith

pub place_injective : (a j k : ℕ) → j < 16 → k < 16 → place a j ≡ place a k → j ≡ k
place_injective a j k hj hk e = omega arith

pub place_eq : (a j k : ℕ) → j < 16 → k < 16 → (place a j == place a k) ≡ (j == k)
place_eq a j k hj hk = ground arith

-- An item fires strictly before another, as seen at `now`.
unfoldable pub earlier : ℕ → ℕ → Future → Bool
earlier now count f = ltb_ℤ (distance_of now count) (distance_of now f.count)

-- Of the `m` items from `k` on, the index of the first one that fires later than `count`, or the
-- index behind them.
unfoldable pub search : ℕ → ℕ → ℕ → ℕ → (ℕ → Future) → ℕ
search now count zero k g = k
search now count (suc m) k g =
    let rest = search now count m (suc k) g in if earlier now count (g k) then k else rest

-- The search behind the first item is that in the rest.
pub search-suc :
    (now count m k : ℕ) (g : ℕ → Future)
    → search now count m (suc k) g ≡ suc (search now count m k (λ j. g (suc j)))
unfolding search
search-suc now count zero k g = refl
search-suc now count (suc m) k g = ground (arith, search-suc now count m (suc k) g)

pub search_bounds :
    (now count m k : ℕ) (g : ℕ → Future)
    → (k ≤ search now count m k g) × (search now count m k g ≤ k + m)
unfolding search
search_bounds now count zero k g = omega arith
search_bounds now count (suc m) k g = ground (arith, search_bounds now count m (suc k) g)

-- Of the `m` items from `k` on, the index of the first one of that instance.
unfoldable pub locate : ℕ → ℕ → ℕ → (ℕ → Future) → Option ℕ
locate to_cancel zero k g = none
locate to_cancel (suc m) k g =
    let rest = locate to_cancel m (suc k) g in
    if (g k).instance_id == to_cancel then some k else rest

pub locate-suc :
    (to_cancel m k : ℕ) (g : ℕ → Future)
    → locate to_cancel m (suc k) g ≡ Option.map suc (locate to_cancel m k (λ j. g (suc j)))
unfolding locate
locate-suc to_cancel zero k g = refl
locate-suc to_cancel (suc m) k g =
    rw (locate-suc to_cancel m (suc k) g)
      (elim (Bool-cases ((g (suc k)).instance_id == to_cancel)) [ inl e ↦ rw e | inr e ↦ rw e ])

module _ (slots : ℕ → Future) (a : ℕ) where
  -- The array as seen from slot `a`.
  abbrev pub view : ℕ → Future
  view j = slots (place a j)

  -- With fuel for the items that are left, the first loop of `_timer_arm` ends behind those that
  -- fire no later than `count`.
  pub find_point_lem :
      (now count m fuel k n : ℕ)
      → m < fuel
      → k + m ≡ n
      → n < 16
      → find_point fuel slots now count (place a n) (place a k)
        ≡ returned (place a (search now count m k view))
  unfolding find_point search earlier
  find_point_lem now count m zero k n h e fits = absurd (omega arith)
  find_point_lem now count zero (suc fuel) k n h e fits =
      ground (arith, place_eq a k n (omega arith) fits)
  find_point_lem now count (suc m) (suc fuel) k n h e fits =
      rw
        (
          place_eq a k n (omega arith) fits,
          ==_false k n (omega arith),
          right_of-place a k,
          find_point_lem now count m fuel (suc k) n (omega arith) (omega arith) fits,
        )
        (elim (Bool-cases (earlier now count (view k))) [ inl e ↦ rw e | inr e ↦ rw e ])

  -- The loop of `timer_cancel` looks at the items in order.
  pub find_instance_lem :
      (to_cancel m fuel k n : ℕ)
      → m < fuel
      → k + m ≡ n
      → n < 16
      → find_instance fuel slots to_cancel (place a n) (place a k)
        ≡ returned (Option.map (place a) (locate to_cancel m k view))
  unfolding find_instance locate
  find_instance_lem to_cancel m zero k n h e fits = absurd (omega arith)
  find_instance_lem to_cancel zero (suc fuel) k n h e fits =
      ground (arith, place_eq a k n (omega arith) fits)
  find_instance_lem to_cancel (suc m) (suc fuel) k n h e fits =
      rw
        (
          place_eq a k n (omega arith) fits,
          ==_false k n (omega arith),
          right_of-place a k,
          find_instance_lem to_cancel m fuel (suc k) n (omega arith) (omega arith) fits,
        )
        (elim (Bool-cases ((view k).instance_id == to_cancel)) [ inl e ↦ rw e | inr e ↦ rw e ])

-- What the two loops that move items leave at place `j` of the array seen from `a`: the items
-- between `p` and `n` come from the left, or from the right.
abbrev pub moved_right : ℕ → ℕ → (ℕ → Future) → ℕ → Future
moved_right p n g j = if ltb p j && leb j n then g (j - 1) else g j

abbrev pub moved_left : ℕ → ℕ → (ℕ → Future) → ℕ → Future
moved_left p n g j = if leb p j && ltb j n then g (j + 1) else g j

abbrev pub Shows : Outcome (ℕ → Future) → ℕ → (ℕ → Future) → Type 0
Shows o a g = (s : ℕ → Future) × (o ≡ returned s) × ((j : ℕ) → j < 16 → s (place a j) ≡ g j)

pub shift_right_lem :
    (m fuel p n a : ℕ) (slots : ℕ → Future)
    → m < fuel
    → p + m ≡ n
    → n < 16
    → Shows
        (shift_right fuel slots (place a n) (place a p))
        a
        (moved_right p n (λ j. slots (place a j)))
unfolding shift_right
shift_right_lem m zero p n a slots h e fits = absurd (omega arith)
shift_right_lem zero (suc fuel) p n a slots h e fits =
    (slots, ground (arith, place_eq a n p fits (omega arith)), λ j lt. ground arith)
shift_right_lem (suc m) (suc fuel) p zero a slots h e fits = absurd (omega arith)
shift_right_lem (suc m) (suc fuel) p (suc n) a slots h e fits =
    let (s, runs, shows) =
      shift_right_lem m fuel p n a (update slots (place a (suc n)) (slots (place a n)))
        (omega arith) (omega arith) (omega arith) in
    (
      s,
      rw
          (
            place_eq a (suc n) p fits (omega arith),
            ==_false (suc n) p (omega arith),
            left_of-place a n,
          )
          runs,
      λ j lt. shows j lt ∙ ground (arith, place_eq a (suc n) j fits lt, place_eq a (suc n) (j - 1)),
    )

pub shift_left_lem :
    (m fuel p n a : ℕ) (slots : ℕ → Future)
    → m < fuel
    → p + m ≡ n
    → n < 16
    → Shows
        (shift_left fuel slots (place a p) (place a n))
        a
        (moved_left p n (λ j. slots (place a j)))
unfolding shift_left
shift_left_lem m zero p n a slots h e fits = absurd (omega arith)
shift_left_lem zero (suc fuel) p n a slots h e fits =
    (slots, ground (arith, place_eq a p n (omega arith) fits), λ j lt. ground arith)
shift_left_lem (suc m) (suc fuel) p n a slots h e fits =
    let (s, runs, shows) =
      shift_left_lem m fuel (suc p) n a (update slots (place a p) (slots (place a (suc p))))
        (omega arith) (omega arith) fits in
    (
      s,
      rw (place_eq a p n (omega arith) fits, ==_false p n (omega arith), right_of-place a p) runs,
      λ j lt. shows j lt ∙ ground (arith, place_eq a p j (omega arith) lt, place_eq a p (j + 1)),
    )
