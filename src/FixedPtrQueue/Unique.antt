-- ===== src/FixedPtrQueue/Unique.antt =====
-- include/asx/utils.hpp: `find`, `move_to_front` and `push_unique` on a valid queue.
use asx.Base.{
  ℕ, zero, suc, ◌+◌, ◌%◌, ◌≤◌, ◌<◌, ◌≡◌, ap, ap₂, subst₂, refl, sym, ◌∙◌, arith, Bool, true, false,
  ◌&&◌, List, ◌∷◌, Option, none, some, inl, inr,
}
use asx.Base.{
  ltb, ◌==◌, length, length-set, Bool-cases, get_or, set, tabulate, ==_true, ==_false, lt→ltb,
  tabulate_ext,
}
use asx.Base.Outcome.{returned}
use asx.FixedPtrQueue.{FixedPtrQueue, find, find_from, move_to_front, push, push_unique}
use asx.FixedPtrQueue.Places.{
  index_of, shifted, remove, remove_at, occurrences, pushed, pushed_unique, IsFirstAt, first_at,
}
use asx.FixedPtrQueue.Shift.{
  at, slide, length-slide, shift_loop-slide, window-slide, places_differ, tabulate_first,
  get_or-tabulate,
}
use asx.FixedPtrQueue.Refine.{IsValid, contents, Leaves, waiting, front_self, push_refines}

and_false : (b : Bool) → (b && false) ≡ false
and_false true = refl
and_false false = refl

pushed_absent :
    (size : ℕ) (xs : List ℕ) (v : ℕ)
    → occurrences xs v ≡ 0
    → pushed_unique size xs v ≡ pushed size xs v
pushed_absent size xs v absent = rw absent refl

pushed_found :
    (size : ℕ) (xs : List ℕ) (v : ℕ)
    → 0 < occurrences xs v
    → pushed_unique size xs v ≡ returned (v ∷ remove xs v)
pushed_found size xs v occurs = rw (lt→ltb 0 (occurrences xs v) occurs) refl

-- Where the place of an index in the contents is in the array.
abbrev slot : ℕ → ℕ → Option ℕ → Option ℕ
slot size i none = none
slot size i (some j) = some ((i + j) % size)

slot-shifted : (size i : ℕ) (o : Option ℕ) → slot size i (shifted o) ≡ slot size (suc i) o
slot-shifted size i none = refl
slot-shifted size i (some j) = ap some (ap (λ k. k % size) (omega arith))

find_from_lem :
    (size : ℕ) (q : FixedPtrQueue) (ptr rounds i : ℕ)
    → find_from size q ptr rounds i
      ≡ slot size
          (q.front + i)
          (index_of (tabulate rounds (λ k. get_or q.elements ((q.front + (i + k)) % size) 0)) ptr)
unfolding find_from
find_from_lem size q ptr zero i = refl
find_from_lem size q ptr (suc rounds) i =
    let here : get_or q.elements ((q.front + (i + 0)) % size) 0
        ≡ get_or q.elements ((q.front + i) % size) 0 =
      ap (λ k. get_or q.elements ((q.front + k) % size) 0) (omega arith) in
    let rest = find_from_lem size q ptr rounds (i + 1) in
    elim (Bool-cases (get_or q.elements ((q.front + i) % size) 0 == ptr)) [
      | inl found ↦ rw (here, found) (ap some (ap (λ k. k % size) (omega arith)))
      | inr other ↦
          rw (here, other)
            (rest
              ∙ ap₂ (λ (k : ℕ) (xs : List ℕ). slot size k (index_of xs ptr)) (omega arith)
                  (tabulate_ext rounds _ _
                    (λ k lt. ap (λ j. get_or q.elements ((q.front + j) % size) 0) (omega arith)))
              ∙ sym (slot-shifted size (q.front + i) _))
    ]

module _ (size : ℕ) (q : FixedPtrQueue) (valid : IsValid size q) where
  open valid use {some_room, small, storage, front_in, count_in, behind}

  find_lem : (ptr : ℕ) → find size q ptr ≡ slot size q.front (index_of (contents size q) ptr)
  unfolding find
  find_lem ptr =
      find_from_lem size q ptr q.count 0
      ∙ ap₂ (λ (k : ℕ) (xs : List ℕ). slot size k (index_of xs ptr)) (omega arith)
          (tabulate_ext q.count _ _
            (λ k lt. ap (λ i. get_or q.elements ((q.front + i) % size) 0) (omega arith)))

  away : (j : ℕ) → 0 < j → j < q.count → (q.front + j) % size ≡ q.front → ⊥
  away j later lt e =
      places_differ size q.front front_in j 0 (omega (arith, lt, count_in)) some_room
        (λ z. omega (arith, z, later)) (e ∙ sym (front_self size q valid))

  slid_storage :
      (j : ℕ)
      → size
        ≤ length (
            set
              (slide size q.front front_in j q.elements)
              q.front
              (at size q.front front_in q.elements j))
  slid_storage j = omega (
    arith,
    length-set (slide size q.front front_in j q.elements) q.front
        (at size q.front front_in q.elements j),
    length-slide size q.front front_in j q.elements,
    storage,
  )

  move_to_front_lem :
      (fuel j : ℕ)
      → size < fuel
      → j < q.count
      → Leaves size
          (move_to_front size fuel q ((q.front + j) % size))
          (returned (at size q.front front_in q.elements j ∷ remove_at j (contents size q)))
  unfolding move_to_front
  move_to_front_lem fuel zero enough lt =
      rw
        (
          ==_true ((q.front + 0) % size) q.front (front_self size q valid),
          and_false (ltb 1 q.count),
        )
        (valid, tabulate_first q.count _ lt)
  move_to_front_lem fuel (suc j) enough lt =
      rw
        (
          lt→ltb 1 q.count (omega (arith, lt)),
          ==_false ((q.front + suc j) % size) q.front (away (suc j) (omega arith) lt),
          shift_loop-slide size q.front front_in fuel (suc j) q.elements
              (omega (arith, enough, lt, count_in)) (omega (arith, lt, count_in)),
        )
        (
          record {
            some_room = some_room;
            small = small;
            storage = slid_storage (suc j);
            front_in = front_in;
            count_in = count_in;
            behind = behind;
          },
          window-slide size q.front front_in (suc j) q.count q.elements storage lt count_in,
        )

  push_unique_found :
      (fuel item j : ℕ)
      → find size q item ≡ some j
      → push_unique size fuel q item ≡ move_to_front size fuel q j
  unfolding push_unique
  push_unique_found fuel item j e = rw (push_unique, e) refl

  push_unique_absent :
      (fuel item : ℕ) → find size q item ≡ none → push_unique size fuel q item ≡ push size q item
  unfolding push_unique
  push_unique_absent fuel item e = rw (push_unique, e) refl

  push_unique_by :
      (fuel item : ℕ)
      → size < fuel
      → (o : Option ℕ) → find size q item ≡ slot size q.front o
      → IsFirstAt (contents size q) item o
      → Leaves size (push_unique size fuel q item) (pushed_unique size (contents size q) item)
  push_unique_by fuel item enough none e absent =
      subst₂ (λ r m. Leaves size r m) (sym (push_unique_absent fuel item e))
        (sym (pushed_absent size (contents size q) item absent)) (push_refines size q valid item)
  push_unique_by fuel item enough (some j) e (lt, here, occurs, same) =
      let below : j < q.count = omega (arith, lt, waiting size q valid) in
      subst₂ (λ r m. Leaves size r m) (sym (push_unique_found fuel item _ e))
        (ap₂ (λ (x : ℕ) (xs : List ℕ). returned (x ∷ xs))
            (sym (get_or-tabulate q.count _ j below) ∙ here) (sym same)
          ∙ sym (pushed_found size (contents size q) item occurs))
        (move_to_front_lem fuel j enough below)

  pub push_unique_refines :
      (fuel item : ℕ)
      → size < fuel
      → Leaves size (push_unique size fuel q item) (pushed_unique size (contents size q) item)
  push_unique_refines fuel item enough =
      push_unique_by fuel item enough _ (find_lem item) (first_at (contents size q) item)
