-- ===== src/Queue/Placed.antt =====
-- src/queue.c: what each operation does to a queue whose indices lie in range.
use native.Mathlib.Nat.{mod-add-mod, add-mod_right, mod-eq_of_lt}
use asx.Base.{ℕ, suc, ◌+◌, ◌-◌, ◌%◌, ◌≤◌, ◌<◌, ◌≡◌, ap, refl, arith, true, false, none, some, List}
use asx.Base.{pos, le→ltb, lt→ltb, lt→leb_false, le→leb, length, set, get_or, get_elem?-eq-get_or}
use asx.Queue.{Queue, push, pop, pop_front, push_back, push_ring, store, load}
use asx.Queue.Ring.{IsValid, placed, advance_lem, retreat_lem, index_right, index_left, index_back}

pub store_lem : (buf : List ℕ) (i v : ℕ) → i < length buf → store buf (pos i) v ≡ some (set buf i v)
unfolding store
store_lem buf i v h = ground arith

pub load_lem : (buf : List ℕ) (i : ℕ) → i < length buf → load buf (pos i) ≡ some (get_or buf i 0)
unfolding load
load_lem buf i h = get_elem?-eq-get_or buf i 0 h

-- A step right of the last value is the next free place.
index_after : (n h m : ℕ) → ((h + m) % n + 1) % n ≡ (h + suc m) % n
index_after n h m = rw mod-add-mod (ap (λ i. i % n) (omega arith))

pub push_full : (q : Queue) (v : ℕ) → q.nelem ≤ q.length → push q v ≡ some (false, q)
unfolding push
push_full q v full = rw (le→leb q.nelem q.length full)

pub push_back_full : (q : Queue) (v : ℕ) → q.nelem ≤ q.length → push_back q v ≡ some (false, q)
unfolding push_back
push_back_full q v full = rw (le→leb q.nelem q.length full)

pub pop_empty : (q : Queue) → q.length ≡ 0 → pop q ≡ some (none, q)
unfolding pop
pop_empty q e = rw e

pub pop_front_empty : (q : Queue) → q.length ≡ 0 → pop_front q ≡ some (none, q)
unfolding pop_front
pop_front_empty q e = rw e

-- What each operation does to a queue in its normal form.
module _ (buf : List ℕ) (n h : ℕ) (in_range : h < n) (small : n ≤ 128)
    (storage : n ≤ length buf) where
  pub placed-IsValid : (m : ℕ) → m ≤ n → IsValid (placed buf n h m)
  placed-IsValid m fits = record {
    some_room = omega arith;
    small = small;
    storage = storage;
    head_in = in_range;
    length_in = fits;
    indices = refl;
  }

  pub push-placed :
      (m v : ℕ)
      → m < n
      → push (placed buf n h m) v ≡ some (true, placed (set buf ((h + m) % n) v) n h (suc m))
  unfolding push
  push-placed m v room =
      rw
        (
          lt→leb_false n m room,
          store_lem buf ((h + m) % n) v (omega arith),
          advance_lem ((h + m) % n) n (omega arith) small,
        )
        (ground (arith, index_after n h m))

  pub pop-placed :
      (m : ℕ)
      → m < n
      → pop (placed buf n h (suc m)) ≡ some (some (get_or buf h 0), placed buf n ((h + 1) % n) m)
  unfolding pop
  pop-placed m fits =
      rw (load_lem buf h (omega arith), advance_lem h n in_range small)
        (ground (arith, index_right h n in_range m))

  pub pop_front-placed :
      (m : ℕ)
      → m < n
      → pop_front (placed buf n h (suc m))
        ≡ some (some (get_or buf ((h + m) % n) 0), placed buf n h m)
  unfolding pop_front
  pop_front-placed m fits =
      rw
        (
          retreat_lem ((h + suc m) % n) n (omega arith) small,
          index_back h n in_range m fits,
          load_lem buf ((h + m) % n) (omega arith),
        )
        (ground arith)

  pub push_back-placed :
      (m v : ℕ)
      → m < n
      → push_back (placed buf n h m) v
        ≡ some (true, placed (set buf ((h + (n - 1)) % n) v) n ((h + (n - 1)) % n) (suc m))
  unfolding push_back
  push_back-placed m v room =
      rw
        (
          lt→leb_false n m room,
          retreat_lem h n in_range small,
          store_lem buf ((h + (n - 1)) % n) v (omega arith),
        )
        (ground (arith, index_left h n in_range m room))

  pub push_ring_room :
      (m v : ℕ)
      → m < n
      → push_ring (placed buf n h m) v ≡ some (placed (set buf ((h + m) % n) v) n h (suc m))
  unfolding push_ring
  push_ring_room m v room =
      rw
        (
          store_lem buf ((h + m) % n) v (omega arith),
          advance_lem ((h + m) % n) n (omega arith) small,
          lt→ltb m n room,
        )
        (ground (arith, index_after n h m))

  pub push_ring_full :
      (v : ℕ) → push_ring (placed buf n h n) v ≡ some (placed (set buf h v) n ((h + 1) % n) n)
  unfolding push_ring
  push_ring_full v =
      rw
        (
          add-mod_right h n,
          mod-eq_of_lt in_range,
          store_lem buf h v (omega arith),
          advance_lem h n in_range small,
          le→ltb n n (omega arith),
        )
        (ground (arith, add-mod_right ((h + 1) % n) n, mod-eq_of_lt {n = (h + 1) % n} {m = n}))
