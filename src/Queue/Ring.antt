-- ===== src/Queue/Ring.antt =====
-- src/queue.c: the representation invariant of a queue, its contents, and the arithmetic of its indices.
use native.Mathlib.Nat.{mod-eq_of_lt, mod-eq-sub-mod, mod-add-mod}
use native.Mathlib.Decide.{dec_lt}
use asx.Base.{ℕ, suc, ◌+◌, ◌-◌, ◌%◌, ◌≤◌, ◌<◌, ◌≡◌, ◌≢◌, ap, arith, some, List}
use asx.Base.{pos, pos_part, ltb, if◌then◌else◌, length}
use asx.Queue.{Queue, advance, retreat}

-- The queue whose `m` values begin at index `h` of a ring of `n`.
abbrev pub placed : List ℕ → ℕ → ℕ → ℕ → Queue
placed buf n h m = record {
  buffer = buf;
  head = pos h;
  tail = pos ((h + m) % n);
  length = m;
  nelem = n;
}

-- The buffer holds `nelem` values, the indices lie in it, and the tail is `length` steps behind the
-- head. `nelem` is at most 128, the number of indices that an `int8_t` can hold.
pub record IsValid (q : Queue) : Type 0 where
  pub some_room : 0 < q.nelem
  pub small : q.nelem ≤ 128
  pub storage : q.nelem ≤ length q.buffer
  pub head_in : pos_part q.head < q.nelem
  pub length_in : q.length ≤ q.nelem
  pub indices : q ≡ placed q.buffer q.nelem (pos_part q.head) q.length

-- A step to the right of an index in range stays in range, as does one to the left.
pub advance_lem : (i n : ℕ) → i < n → n ≤ 128 → advance (pos i) n ≡ some (pos ((i + 1) % n))
unfolding advance
advance_lem i n h s = ground arith

pub retreat_lem : (i n : ℕ) → i < n → n ≤ 128 → retreat (pos i) n ≡ some (pos ((i + (n - 1)) % n))
unfolding retreat
retreat_lem i n h s = ground arith

pub mod_wrap : (n i : ℕ) → i < n + n → i % n ≡ (if ltb i n then i else i - n)
mod_wrap n i h = elim (dec_lt i n) [
  | yes p ↦ ground (arith, mod-eq_of_lt p)
  | no p ↦ ground (
    arith,
    mod-eq-sub-mod {n = i} {m = n} (omega arith),
    mod-eq_of_lt {n = i - n} {m = n} (omega arith),
  )
]

-- Where the index `i` of the ring lies, `k` steps right of the head.
module _ (h n : ℕ) (in_range : h < n) where
  pub index_ne : (k m : ℕ) → k < m → m < n → (h + m) % n ≢ (h + k) % n
  index_ne k m lt le = ground (arith, mod_wrap n (h + k), mod_wrap n (h + m))

  pub index_right : (k : ℕ) → ((h + 1) % n + k) % n ≡ (h + suc k) % n
  index_right k = rw mod-add-mod (ap (λ i. i % n) (omega arith))

  pub index_left : (k : ℕ) → k < n → ((h + (n - 1)) % n + suc k) % n ≡ (h + k) % n
  index_left k lt = rw mod-add-mod (
      ground (
        arith,
        mod_wrap n (h + k),
        mod_wrap n (h + k + n),
        mod-eq-sub-mod {n = h + (n - 1) + suc k} {m = n},
      ))

  pub index_back : (m : ℕ) → m < n → ((h + suc m) % n + (n - 1)) % n ≡ (h + m) % n
  index_back m lt =
      ground
        (arith, mod_wrap n (h + m), mod_wrap n (h + suc m), mod_wrap n ((h + suc m) % n + (n - 1)))
