-- ===== src/FixedPtrQueue/Ends.antt =====
-- include/asx/utils.hpp: the elements at both ends, and the operations together.
use native.Mathlib.Decide.{dec_lt}
use asx.Base.{ℕ, suc, ◌+◌, ◌-◌, ◌%◌, ◌<◌, ◌≡◌, ap, refl, sym, ◌∙◌, arith, List, [], ◌∷◌, ◌++◌}
use asx.Base.{◌==◌, ==_true, ==_false, if◌then◌else◌, u8, length, get_or, tabulate-suc}
use asx.Base.Outcome.{Outcome, returned, alerted}
use asx.FixedPtrQueue.{
  FixedPtrQueue, is_empty, full, front_element, back_element, push, push_unique, pop,
}
use asx.FixedPtrQueue.Places.{pushed, pushed_unique, popped}
use asx.FixedPtrQueue.Refine.{
  IsValid, contents, Leaves, Answers, is_empty_refines, push_refines, pop_refines, next, nothing,
  waiting,
}
use asx.FixedPtrQueue.Unique.{push_unique_refines}
use asx.Queue.Ring.{mod_wrap, index_back}
use asx.Queue.Window.{window}

abbrev pub first : List ℕ → Outcome ℕ
first [] = alerted
first (x ∷ xs) = returned x

abbrev pub last : List ℕ → Outcome ℕ
last [] = alerted
last (x ∷ []) = returned x
last (x ∷ y ∷ ys) = last (y ∷ ys)

last-append : (xs : List ℕ) (v : ℕ) → last (xs ++ (v ∷ [])) ≡ returned v
last-append [] v = refl
last-append (x ∷ []) v = refl
last-append (x ∷ y ∷ ys) v = last-append (y ∷ ys) v

-- The place in front of `i` in a ring of `n`.
before : (n i : ℕ) → i < n → (if i == 0 then n - 1 else i - 1) ≡ (i + (n - 1)) % n
before n i lt = ground (arith, mod_wrap n (i + (n - 1)))

module _ (size : ℕ) (q : FixedPtrQueue) (valid : IsValid size q) where
  open valid use {some_room, small, front_in, count_in, behind}

  last_place : 0 < q.count → (q.back + (size - 1)) % size ≡ (q.front + (q.count - 1)) % size
  last_place waits =
      ap (λ i. (i + (size - 1)) % size)
        (behind ∙ ap (λ m. (q.front + m) % size) (omega (arith, waits)))
      ∙ index_back q.front size front_in (q.count - 1) (omega (arith, waits, count_in))

  back_place :
      0 < q.count
      → u8 (if q.back == 0 then size - 1 else q.back - 1) ≡ (q.front + (q.count - 1)) % size
  back_place waits =
      let behind_in : q.back < size = omega (arith, behind, some_room) in
      ap u8 (before size q.back behind_in ∙ last_place waits) ∙ omega (arith, some_room, small)

  whole :
      0 < q.count
      → contents size q
        ≡ window q.elements size q.front (q.count - 1)
          ++ (get_or q.elements ((q.front + (q.count - 1)) % size) 0 ∷ [])
  whole waits =
      let one_more : q.count ≡ suc (q.count - 1) = omega (arith, waits) in
      ap (λ m. window q.elements size q.front m) one_more ∙ tabulate-suc (q.count - 1) _

  front_refines : front_element size q ≡ first (contents size q)
  unfolding front_element is_empty
  front_refines = elim (dec_lt 0 q.count) [
    | yes waits ↦
        rw (==_false q.count 0 (λ e. omega (arith, e, waits)), next size q valid waits) refl
    | no none_waits ↦
        rw
          (
            ==_true q.count 0 (omega (arith, none_waits)),
            nothing size q valid (omega (arith, none_waits)),
          )
          refl
  ]

  back_refines : back_element size q ≡ last (contents size q)
  unfolding back_element is_empty
  back_refines = elim (dec_lt 0 q.count) [
    | yes waits ↦ rw (==_false q.count 0 (λ e. omega (arith, e, waits))) (
        ap (λ i. returned (get_or q.elements i 0)) (back_place waits)
        ∙ sym
            (ap last (whole waits) ∙ last-append (window q.elements size q.front (q.count - 1)) _))
    | no none_waits ↦
        rw
          (
            ==_true q.count 0 (omega (arith, none_waits)),
            nothing size q valid (omega (arith, none_waits)),
          )
          refl
  ]

  -- Each operation of a valid queue ends as the operation of the sequence of its pointers says: `push`
  -- adds at the end or stops by the alert when the queue is full, `push_unique` moves a pointer that
  -- waits to the front and pushes another, `pop` takes the first, the elements at the two ends are the
  -- first and the last, or an alert on an empty queue; each leaves a valid queue.
  pub refines_lem :
      (item : ℕ)
      → Leaves size (push size q item) (pushed size (contents size q) item)
        × Leaves size
            (push_unique size (size + 1) q item)
            (pushed_unique size (contents size q) item)
        × Answers size (pop size q) (popped (contents size q))
        × (front_element size q ≡ first (contents size q))
        × (back_element size q ≡ last (contents size q))
        × (is_empty size q ≡ (length (contents size q) == 0))
        × (full size q ≡ (length (contents size q) == size))
  unfolding full
  refines_lem item = (
    push_refines size q valid item,
    push_unique_refines size q valid (size + 1) item (omega arith),
    pop_refines size q valid,
    front_refines,
    back_refines,
    is_empty_refines size q,
    ap (λ n. n == size) (sym (waiting size q valid)),
  )
