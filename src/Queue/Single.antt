-- ===== src/Queue/Single.antt =====
-- include/queue.h: the stores of an interrupt handler into a queue of one element.
use asx.Base.{ℕ, ◌≡◌, refl, none, some, [], ◌∷◌, ◌>>=◌, ℤ, pos}
use asx.Queue.{Queue, push, pop, store_single, null_store, store, load, advance}

-- A queue of one element, in any state.
abbrev pub one_slot : ℕ → ℤ → ℤ → ℕ → Queue
one_slot x h t m = record { buffer = x ∷ []; head = h; tail = t; length = m; nelem = 1 }

-- A value stored by `queue_store_single` into a queue of one element is what the next `queue_pop`
-- returns, whatever the state of the queue was. But the tail is left at 1, outside the buffer, so
-- that the push behind that pop writes past the end of the buffer.
pub store_single-pop-push :
    (x v w m : ℕ) (h t : ℤ)
    → (q : Queue) × ((store_single (one_slot x h t m) v >>= pop) ≡ some (some v, q))
      × (push q w ≡ none)
unfolding store_single pop push store load advance
store_single-pop-push x v w m h t = (one_slot v (pos 0) (pos 1) 0, refl, refl)

-- `queue_null_store` signals with no value: the next `queue_pop` succeeds, with what the buffer held.
null_store-pop :
    (x m : ℕ) (h t : ℤ) → (q : Queue) × ((null_store (one_slot x h t m) >>= pop) ≡ some (some x, q))
unfolding null_store pop load advance
null_store-pop x m h t = (one_slot x (pos 0) (pos 1) 0, refl)
