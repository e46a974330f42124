-- ===== src/Queue/Overflow.antt =====
-- src/queue.c with more than 128 elements: the `int8_t` indices go negative.
use native.Mathlib.Nat.{mod-eq_of_lt}
use asx.Base.{ℕ, ◌+◌, ◌%◌, ◌≡◌, ◌<◌, ◌≤◌, refl, arith, true, none, some, length, set}
use asx.Base.{pos, negsuc, lt→leb_false}
use asx.Queue.{Queue, push, store, advance}
use asx.Queue.Placed.{store_lem}

advance-127 : (n : ℕ) → 128 < n → advance (pos 127) n ≡ some (negsuc 127)
unfolding advance
advance-127 n h = ground (arith, mod-eq_of_lt {n = 128} {m = n} h)

store_negative : (q : Queue) (w : ℕ) → q.length < q.nelem → q.tail ≡ negsuc 127 → push q w ≡ none
unfolding push store
store_negative q w room e = rw (lt→leb_false q.nelem q.length room, e)

-- In a queue of more than 128 elements, with room for two more values and its tail at 127, a push
-- succeeds and leaves the tail at -128; the push that follows writes in front of the buffer.
pub push-push_negative :
    (q : Queue) (v w : ℕ)
    → 128 < q.nelem
    → q.nelem ≤ 255
    → q.nelem ≤ length q.buffer
    → q.length + 1 < q.nelem
    → q.tail ≡ pos 127
    → (q' : Queue) × (push q v ≡ some (true, q')) × (q'.tail ≡ negsuc 127) × (push q' w ≡ none)
unfolding push
push-push_negative q v w big fits storage room at_end =
    let q' : Queue = record q {
      buffer = set q.buffer 127 v;
      tail = negsuc 127;
      length = (q.length + 1) % 256;
    } in
    (
      q',
      simp (
        lt→leb_false q.nelem q.length (omega arith),
        at_end,
        store_lem q.buffer 127 v (omega arith),
        advance-127 q.nelem big,
      ),
      refl,
      store_negative q' w (omega arith) refl,
    )
