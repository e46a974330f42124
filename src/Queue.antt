-- ===== src/Queue.antt =====
-- src/queue.c and include/queue.h: a double-ended queue of pointers in a ring buffer.
-- `none` is an access outside the buffer or a division by zero, which C leaves undefined. The
-- pointers to the queue are not null, as the functions assert; data pointers are numbers.
pub mod Deque
pub mod Ring
pub mod Window
pub mod Placed
pub mod Refine
pub mod Run
pub mod Single
pub mod Overflow
mod Tests
use asx.Base.{ℕ, ◌+◌, ◌%◌, ◌^◌, Bool, true, false, Option, none, some, List}
use asx.Base.{ℤ, pos, negsuc, ◌+ℤ◌, rem, int8, u8, ltb, leb, ◌==◌, if◌then◌else◌, ◌>>=◌}
use asx.Base.{length, get_elem?, set, replicate}

-- `queue_t`: `head` and `tail` are `int8_t`, `length` and `nelem` are `uint8_t`.
pub record Queue : Type 0 where
  pub buffer : List ℕ
  pub head : ℤ
  pub tail : ℤ
  pub length : ℕ
  pub nelem : ℕ

-- `buffer[i]` as a value and as the target of an assignment.
unfoldable pub load : List ℕ → ℤ → Option ℕ
load buf (pos i) = get_elem? buf i
load buf (negsuc i) = none

unfoldable pub store : List ℕ → ℤ → ℕ → Option (List ℕ)
store buf (pos i) v = if ltb i (length buf) then some (set buf i v) else none
store buf (negsuc i) v = none

-- `(i + 1) % nelem` and `(i - 1 + nelem) % nelem`, computed in `int` and kept in an `int8_t`.
unfoldable pub advance : ℤ → ℕ → Option ℤ
advance i n = if n == 0 then none else some (int8 (rem (i +ℤ pos 1) n))

unfoldable pub retreat : ℤ → ℕ → Option ℤ
retreat i n = if n == 0 then none else some (int8 (rem (i +ℤ negsuc 0 +ℤ pos n) n))

-- `queue_init`: the first argument says whether the queue pointer is there. `size_t` has 16 bits and
-- a pointer two bytes, so the product in `mem_calloc` and in `memset` leaves `nelem % 2 ^ 15` of the
-- pointers; `nelem` itself is cut to a `uint8_t`.
pub init : Option Queue → ℕ → Option Queue
init none n = none
init (some q) n = some (record {
  buffer = replicate (n % 2 ^ 15) 0xffff;
  head = pos 0;
  tail = pos 0;
  length = 0;
  nelem = u8 n;
})

pub is_empty : Queue → Bool
is_empty q = q.length == 0

-- `queue_push`: the answer is the function's result.
pub push : Queue → ℕ → Option (Bool × Queue)
push q value = if leb q.nelem q.length then some (false, q) else do
  buf ← store q.buffer q.tail value
  t ← advance q.tail q.nelem
  some (true, record q { buffer = buf; tail = t; length = u8 (q.length + 1) })

-- `queue_pop_front`: `none` inside is the result false, with `*data` left alone; `some` is the
-- result true with what is written through `data`.
pub pop_front : Queue → Option (Option ℕ × Queue)
pop_front q = if leb q.length 0 then some (none, q) else do
  t ← retreat q.tail q.nelem
  v ← load q.buffer t
  some (some v, record q { tail = t; length = u8 (q.length + 255) })

pub push_back : Queue → ℕ → Option (Bool × Queue)
push_back q value = if leb q.nelem q.length then some (false, q) else do
  h ← retreat q.head q.nelem
  buf ← store q.buffer h value
  some (true, record q { buffer = buf; head = h; length = u8 (q.length + 1) })

pub pop : Queue → Option (Option ℕ × Queue)
pop q = if q.length == 0 then some (none, q) else do
  v ← load q.buffer q.head
  h ← advance q.head q.nelem
  some (some v, record q { head = h; length = u8 (q.length + 255) })

pub push_ring : Queue → ℕ → Option Queue
push_ring q value = do
  buf ← store q.buffer q.tail value
  t ← advance q.tail q.nelem
  if ltb q.length q.nelem
      then some (record q { buffer = buf; tail = t; length = u8 (q.length + 1) })
      else do h ← advance q.head q.nelem; some (record q { buffer = buf; tail = t; head = h })

-- `queue_store_single` and `queue_null_store`, for interrupt handlers: the assertion is that the
-- queue has one element.
pub store_single : Queue → ℕ → Option Queue
store_single q value =
    if q.nelem == 1
    then (do
      buf ← store q.buffer (pos 0) value
      some (record q { buffer = buf; length = 1; head = pos 0; tail = pos 1 }))
    else none

pub null_store : Queue → Option Queue
null_store q =
    if q.nelem == 1 then some (record q { length = 1; head = pos 0; tail = pos 1 }) else none
