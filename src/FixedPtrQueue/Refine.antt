-- ===== src/FixedPtrQueue/Refine.antt =====
-- include/asx/utils.hpp: on a valid queue each operation acts as the operation of `Places` on the
-- pointers that wait, stays inside the array, and leaves a valid queue.
use native.Mathlib.Decide.{dec_lt}
use native.Mathlib.Nat.{mod-eq_of_lt, add-zero, mod-add-mod}
use asx.Base.{
  ℕ, suc, ◌+◌, ◌-◌, ◌%◌, ◌≤◌, ◌<◌, ◌≡◌, ◌≢◌, ap, ap₂, subst, refl, sym, ◌∙◌, arith, List, [], ◌∷◌,
}
use asx.Base.{
  ◌==◌, u8, length, length-set, length-replicate, get_or-set_ne, get_or, set, length-tabulate,
  ==_true, ==_false, lt→leb_false, le→leb, tabulate_ext,
}
use asx.Base.Outcome.{Outcome, returned, alerted}
use asx.FixedPtrQueue.{FixedPtrQueue, construct, push, pop, full, is_empty}
use asx.FixedPtrQueue.Places.{pushed, popped}
use asx.FixedPtrQueue.Shift.{places_differ}
use asx.Queue.Ring.{index_right}
use asx.Queue.Window.{window, window-set_last, window_first}

pub record IsValid (size : ℕ) (q : FixedPtrQueue) : Type 0 where
  pub some_room : 0 < size
  pub small : size ≤ 255
  pub storage : size ≤ length q.elements
  pub front_in : q.front < size
  pub count_in : q.count ≤ size
  pub behind : q.back ≡ (q.front + q.count) % size

-- The pointers that wait, the next one to pop first.
abbrev pub contents : ℕ → FixedPtrQueue → List ℕ
contents size q = window q.elements size q.front q.count

-- An operation ends as its model does, and leaves a valid queue with the contents of the model.
abbrev pub Leaves : ℕ → Outcome FixedPtrQueue → Outcome (List ℕ) → Type 0
Leaves size (returned q) (returned xs) = IsValid size q × (contents size q ≡ xs)
Leaves size alerted alerted = Unit {0}
Leaves size result model = ⊥

abbrev pub Answers : ℕ → Outcome (ℕ × FixedPtrQueue) → Outcome (ℕ × List ℕ) → Type 0
Answers size (returned (x, q)) (returned (y, xs)) =
    (x ≡ y) × IsValid size q × (contents size q ≡ xs)
Answers size alerted alerted = Unit {0}
Answers size result model = ⊥

pub construct-IsValid : (size : ℕ) → 0 < size → size ≤ 255 → IsValid size (construct size)
unfolding construct
construct-IsValid size some_room small = record {
  some_room = some_room;
  small = small;
  storage = omega (arith, length-replicate {A = ℕ} size 0);
  front_in = some_room;
  count_in = omega arith;
  behind = sym (mod-eq_of_lt some_room);
}

pub construct_empty : (size : ℕ) → contents size (construct size) ≡ []
unfolding construct
construct_empty size = refl

pub is_empty_refines :
    (size : ℕ) (q : FixedPtrQueue) → is_empty size q ≡ (length (contents size q) == 0)
unfolding is_empty
is_empty_refines size q = ap (λ n. n == 0) (sym (length-tabulate q.count _))

module _ (size : ℕ) (q : FixedPtrQueue) (valid : IsValid size q) where
  open valid use {some_room, small, storage, front_in, count_in, behind}

  pub waiting : length (contents size q) ≡ q.count
  waiting = length-tabulate q.count _

  below_u8 : (i : ℕ) → u8 (i % size) ≡ i % size
  below_u8 i = omega (arith, some_room, small)

  one_more : q.count < size → suc q.count ≡ u8 (q.count + 1)
  one_more room = omega (arith, room, small)

  one_less : 0 < q.count → u8 (q.count + 255) ≡ q.count - 1
  one_less waits = omega (arith, waits, count_in, small)

  pub nothing : q.count ≡ 0 → contents size q ≡ []
  nothing e = ap (λ m. window q.elements size q.front m) e

  pub push_refines :
      (item : ℕ) → Leaves size (push size q item) (pushed size (contents size q) item)
  unfolding push full
  push_refines item = elim (dec_lt q.count size) [
    | yes room ↦
        rw
          (
            ==_false q.count size (λ e. omega (arith, e, room)),
            waiting,
            lt→leb_false size q.count room,
          )
          (
            record {
              some_room = some_room;
              small = small;
              storage = omega (arith, length-set q.elements q.back item, storage);
              front_in = front_in;
              count_in = omega (arith, room);
              behind =
                  below_u8 (q.back + 1)
                  ∙ ap (λ b. (b + 1) % size) behind
                  ∙ rw mod-add-mod (ap (λ k. k % size) (omega arith))
                  ∙ ap (λ m. (q.front + m) % size) (one_more room);
            },
            ap₂ (λ (b m : ℕ). window (set q.elements b item) size q.front m) behind
                  (sym (one_more room))
                ∙ window-set_last q.elements size q.front item front_in storage q.count room,
          )
    | no no_room ↦
        rw
          (
            ==_true q.count size (omega (arith, no_room, count_in)),
            waiting,
            le→leb size q.count (omega (arith, no_room)),
          )
          tt
  ]

  pub next :
      0 < q.count
      → contents size q
        ≡ get_or q.elements q.front 0 ∷ window q.elements size ((q.front + 1) % size) (q.count - 1)
  next waits =
      let whole : suc (q.count - 1) ≡ q.count = omega (arith, waits) in
      subst
        (λ m.
          window q.elements size q.front m
          ≡ get_or q.elements q.front 0
            ∷ window q.elements size ((q.front + 1) % size) (q.count - 1))
        whole (window_first q.elements size q.front front_in (q.count - 1))

  pub front_self : (q.front + 0) % size ≡ q.front
  front_self = rw add-zero (mod-eq_of_lt front_in)

  freed : (k : ℕ) → suc k < size → q.front ≢ ((q.front + 1) % size + k) % size
  freed k lt e =
      places_differ size q.front front_in 0 (suc k) some_room lt (λ z. omega (arith, z))
        (front_self ∙ e ∙ index_right q.front size front_in k)

  pub pop_refines : Answers size (pop size q) (popped (contents size q))
  unfolding pop is_empty
  pop_refines = elim (dec_lt 0 q.count) [
    | yes waits ↦
        rw (==_false q.count 0 (λ e. omega (arith, e, waits)), next waits)
          (
            refl,
            record {
              some_room = some_room;
              small = small;
              storage = omega (arith, length-set q.elements q.front 0, storage);
              front_in = omega (arith, front_in, some_room, small);
              count_in = omega (arith, count_in, waits);
              behind =
                  behind
                  ∙ ap (λ m. (q.front + m) % size) (omega (arith, waits))
                  ∙ sym (index_right q.front size front_in (q.count - 1))
                  ∙ ap₂ (λ (h m : ℕ). (h + m) % size) (sym (below_u8 (q.front + 1)))
                      (sym (one_less waits));
            },
            ap₂ (λ (h m : ℕ). window (set q.elements q.front 0) size h m) (below_u8 (q.front + 1))
                  (one_less waits)
                ∙ tabulate_ext (q.count - 1) _ _ (λ k lt.
                  get_or-set_ne q.elements q.front (((q.front + 1) % size + k) % size) 0 0
                    (freed k (omega (arith, lt, count_in)))),
          )
    | no none_waits ↦
        rw (==_true q.count 0 (omega (arith, none_waits)), nothing (omega (arith, none_waits))) tt
  ]
