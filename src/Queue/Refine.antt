-- ===== src/Queue/Refine.antt =====
-- src/queue.c: on a valid queue each operation stays inside the buffer, acts as the operation of
-- `Deque` on the contents, and leaves a valid queue.
use native.Mathlib.Decide.{dec_lt}
use asx.Base.{
  ℕ, zero, suc, ◌+◌, ◌-◌, ◌%◌, ◌≤◌, ◌<◌, ◌≡◌, sym, ◌∙◌, subst, ap, refl, arith, Option, some, List,
}
use asx.Base.{pos_part, length, length-set, length-tabulate, set, tabulate, ◌==◌}
use asx.Queue.{Queue, is_empty, push, pop, pop_front, push_back, push_ring}
use asx.Queue.Ring.{IsValid, placed}
use asx.Queue.Window.{
  window, window-set_last, window-set_first, window-set_full, window_first, window_last,
}
use asx.Queue.Placed.{
  push_full, push_back_full, pop_empty, pop_front_empty, placed-IsValid, push-placed, pop-placed,
  pop_front-placed, push_back-placed, push_ring_room, push_ring_full,
}
use asx.Queue.Deque

-- The values from the head to the tail.
abbrev pub contents : Queue → List ℕ
contents q = window q.buffer q.nelem (pos_part q.head) q.length

-- An operation on `q` runs without a fault, answers as the model does, and leaves a valid queue of
-- the same capacity that holds the model's values.
abbrev pub Implements : {R : Type 0} → Queue → Option (R × Queue) → R × List ℕ → Type 0
Implements q result model =
    (after : Queue) × (result ≡ some (model.0, after))
    × IsValid after
    × (contents after ≡ model.1)
    × (after.nelem ≡ q.nelem)

-- The same of `queue_push_ring`, which has no result.
abbrev pub Leaves : Queue → Option Queue → List ℕ → Type 0
Leaves q result model =
    (after : Queue) × (result ≡ some after)
    × IsValid after
    × (contents after ≡ model)
    × (after.nelem ≡ q.nelem)

is_empty-tabulate : (m : ℕ) (f : ℕ → ℕ) → (m == 0) ≡ Deque.is_empty (tabulate m f)
unfolding Deque.is_empty
is_empty-tabulate zero f = refl
is_empty-tabulate (suc m) f = ground arith

pub is_empty_refines : (q : Queue) → is_empty q ≡ Deque.is_empty (contents q)
unfolding is_empty
is_empty_refines q = is_empty-tabulate q.length _

-- A fact about queues in their normal form holds of every valid queue.
by_placed :
    (P : Queue → Type 0) {q : Queue}
    → IsValid q
    → P (placed q.buffer q.nelem (pos_part q.head) q.length)
    → P q
by_placed P v h = subst P (sym v.indices) h

module _ (buf : List ℕ) (n h : ℕ) (in_range : h < n) (small : n ≤ 128)
    (storage : n ≤ length buf) where
  abbrev q : ℕ → Queue
  q m = placed buf n h m

  abbrev values : ℕ → List ℕ
  values m = window buf n h m

  length-values : (m : ℕ) → length (values m) ≡ m
  length-values m = length-tabulate m _

  room_values : (m : ℕ) → m < n → length (values m) < n
  room_values m lt = omega (arith, length-values m)

  full_values : (m : ℕ) → n ≤ m → n ≤ length (values m)
  full_values m le = omega (arith, length-values m)

  stored-IsValid : (i v h' m : ℕ) → h' < n → m ≤ n → IsValid (placed (set buf i v) n h' m)
  stored-IsValid i v h' m lt fits =
      placed-IsValid (set buf i v) n h' lt small (omega (arith, length-set buf i v)) m fits

  push-Implements : (m v : ℕ) → m ≤ n → Implements (q m) (push (q m) v) (Deque.push n (values m) v)
  push-Implements m v fits = elim (dec_lt m n) [
    | yes room ↦ rw (Deque.push_room n (values m) v (room_values m room)) (
      _,
      push-placed buf n h in_range small storage m v room,
      stored-IsValid _ v h (suc m) in_range room,
      window-set_last buf n h v in_range storage m room,
      refl,
    )
    | no full ↦ rw (Deque.push_full n (values m) v (full_values m (omega arith))) (
      _,
      push_full (q m) v (omega arith),
      placed-IsValid buf n h in_range small storage m fits,
      refl,
      refl,
    )
  ]

  push_back-Implements :
      (m v : ℕ) → m ≤ n → Implements (q m) (push_back (q m) v) (Deque.push_back n (values m) v)
  push_back-Implements m v fits = elim (dec_lt m n) [
    | yes room ↦ rw (Deque.push_back_room n (values m) v (room_values m room)) (
      _,
      push_back-placed buf n h in_range small storage m v room,
      stored-IsValid _ v ((h + (n - 1)) % n) (suc m) (omega arith) room,
      window-set_first buf n h v in_range storage m room,
      refl,
    )
    | no full ↦ rw (Deque.push_back_full n (values m) v (full_values m (omega arith))) (
      _,
      push_back_full (q m) v (omega arith),
      placed-IsValid buf n h in_range small storage m fits,
      refl,
      refl,
    )
  ]

  pop-Implements : (m : ℕ) → m ≤ n → Implements (q m) (pop (q m)) (Deque.pop (values m))
  unfolding Deque.pop
  pop-Implements zero fits =
      (_, pop_empty (q 0) refl, placed-IsValid buf n h in_range small storage 0 fits, refl, refl)
  pop-Implements (suc m) fits =
      subst (λ xs. Implements (q (suc m)) (pop (q (suc m))) (Deque.pop xs))
        (sym (window_first buf n h in_range m))
        (
          _,
          pop-placed buf n h in_range small storage m fits,
          placed-IsValid buf n ((h + 1) % n) (omega arith) small storage m (omega arith),
          refl,
          refl,
        )

  pop_front-Implements :
      (m : ℕ) → m ≤ n → Implements (q m) (pop_front (q m)) (Deque.pop_front (values m))
  pop_front-Implements zero fits =
      unfold Deque.pop_front in
      (
        _,
        pop_front_empty (q 0) refl,
        placed-IsValid buf n h in_range small storage 0 fits,
        refl,
        refl,
      )
  pop_front-Implements (suc m) fits =
      subst (λ model. Implements (q (suc m)) (pop_front (q (suc m))) model)
        (sym (
          ap Deque.pop_front (window_last buf n h in_range m)
          ∙ Deque.pop_front-append (values m) _))
        (
          _,
          pop_front-placed buf n h in_range small storage m fits,
          placed-IsValid buf n h in_range small storage m (omega arith),
          refl,
          refl,
        )

  push_ring-Leaves :
      (m v : ℕ) → m ≤ n → Leaves (q m) (push_ring (q m) v) (Deque.push_ring n (values m) v)
  push_ring-Leaves m v fits = elim (dec_lt m n) [
    | yes room ↦ rw (Deque.push_ring_room n (values m) v (room_values m room)) (
      _,
      push_ring_room buf n h in_range small storage m v room,
      stored-IsValid _ v h (suc m) in_range room,
      window-set_last buf n h v in_range storage m room,
      refl,
    )
    | no full ↦
        rw (Deque.push_ring_full n (values m) v (full_values m (omega arith)), exactly full)
          (
            _,
            push_ring_full buf n h in_range small storage v,
            stored-IsValid h v ((h + 1) % n) n (omega arith) (omega arith),
            window-set_full buf n h in_range v storage,
            refl,
          )
  ]
    where
      exactly : ¬ (m < n) → m ≡ n
      exactly full = omega arith

module _ (q : Queue) (valid : IsValid q) where
  open valid use {head_in, small, storage, length_in}

  abbrev head_of : ℕ
  head_of = pos_part q.head

  pub push_refines : (v : ℕ) → Implements q (push q v) (Deque.push q.nelem (contents q) v)
  push_refines v =
      by_placed (λ r. Implements r (push r v) (Deque.push r.nelem (contents r) v)) valid
        (push-Implements q.buffer q.nelem head_of head_in small storage q.length v length_in)

  pub push_back_refines :
      (v : ℕ) → Implements q (push_back q v) (Deque.push_back q.nelem (contents q) v)
  push_back_refines v =
      by_placed (λ r. Implements r (push_back r v) (Deque.push_back r.nelem (contents r) v)) valid
        (push_back-Implements q.buffer q.nelem head_of head_in small storage q.length v length_in)

  pub pop_refines : Implements q (pop q) (Deque.pop (contents q))
  pop_refines =
      by_placed (λ r. Implements r (pop r) (Deque.pop (contents r))) valid
        (pop-Implements q.buffer q.nelem head_of head_in small storage q.length length_in)

  pub pop_front_refines : Implements q (pop_front q) (Deque.pop_front (contents q))
  pop_front_refines =
      by_placed (λ r. Implements r (pop_front r) (Deque.pop_front (contents r))) valid
        (pop_front-Implements q.buffer q.nelem head_of head_in small storage q.length length_in)

  pub push_ring_refines :
      (v : ℕ) → Leaves q (push_ring q v) (Deque.push_ring q.nelem (contents q) v)
  push_ring_refines v =
      by_placed (λ r. Leaves r (push_ring r v) (Deque.push_ring r.nelem (contents r) v)) valid
        (push_ring-Leaves q.buffer q.nelem head_of head_in small storage q.length v length_in)
