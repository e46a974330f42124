-- ===== src/FixedPtrQueue.antt =====
-- include/asx/utils.hpp: `FixedPtrQueue`, a queue of pointers in an array (the field `data`, here `elements`), which can hold a pointer once.
-- Pointers are numbers, 0 the null pointer. The indices `front` and `back` are private and below `Size`
-- in every state that the class reaches; `get_or` and `set` are the accesses at such an index.
pub mod Places
pub mod Shift
pub mod Refine
pub mod Unique
pub mod Ends
mod Tests
use asx.Base.{ℕ, zero, suc, ◌+◌, ◌-◌, ◌%◌, Bool, not, ◌&&◌, Option, none, some, List}
use asx.Base.{u8, ltb, ◌==◌, if◌then◌else◌, get_or, set, replicate}
use asx.Base.Outcome.{Outcome, returned, alerted, unfinished, ◌>>=◌}

pub record FixedPtrQueue : Type 0 where
  pub elements : List ℕ
  pub front : ℕ
  pub back : ℕ
  pub count : ℕ

-- The template's `Size`.
module _ (size : ℕ) where
  pub construct : FixedPtrQueue
  construct = record { elements = replicate size 0; front = 0; back = 0; count = 0 }

  pub is_empty : FixedPtrQueue → Bool
  is_empty q = q.count == 0

  pub full : FixedPtrQueue → Bool
  full q = q.count == size

  -- The loop of `find` from `i` on, for the rounds that are left; `none` is the result -1.
  unfoldable pub find_from : FixedPtrQueue → ℕ → ℕ → ℕ → Option ℕ
  find_from q ptr zero i = none
  find_from q ptr (suc rounds) i =
      let rest = find_from q ptr rounds (i + 1) in
      if get_or q.elements ((q.front + i) % size) 0 == ptr
      then some ((q.front + i) % size)
      else rest

  pub find : FixedPtrQueue → ℕ → Option ℕ
  find q ptr = find_from q ptr q.count 0

  -- The loop of `move_to_front`, on fuel: the array from `current` on.
  unfoldable pub shift_loop : ℕ → ℕ → ℕ → List ℕ → Outcome (List ℕ)
  shift_loop zero front current elements = unfinished
  shift_loop (suc fuel) front current elements =
      let prev = if current == 0 then size - 1 else current - 1 in
      let rest = shift_loop fuel front prev (set elements current (get_or elements prev 0)) in
      if current == front then returned elements else rest

  pub move_to_front : ℕ → FixedPtrQueue → ℕ → Outcome FixedPtrQueue
  move_to_front fuel q index =
      if ltb 1 q.count && not (index == q.front)
      then (shift_loop fuel q.front index q.elements >>= λ elements.
          returned (record q { elements = set elements q.front (get_or q.elements index 0) }))
      else returned q

  pub push : FixedPtrQueue → ℕ → Outcome FixedPtrQueue
  push q item =
      if full q
      then alerted
      else returned (record q {
        elements = set q.elements q.back item;
        back = u8 ((q.back + 1) % size);
        count = u8 (q.count + 1);
      })

  pub push_unique : ℕ → FixedPtrQueue → ℕ → Outcome FixedPtrQueue
  push_unique fuel q item = elim (find q item) [
    | some existing_index ↦ move_to_front fuel q existing_index
    | none ↦ push q item
  ]

  pub pop : FixedPtrQueue → Outcome (ℕ × FixedPtrQueue)
  pop q =
      if is_empty q
      then alerted
      else returned (
        get_or q.elements q.front 0,
        record q {
          elements = set q.elements q.front 0;
          front = u8 ((q.front + 1) % size);
          count = u8 (q.count + 255);
        },
      )

  pub front_element : FixedPtrQueue → Outcome ℕ
  front_element q = if is_empty q then alerted else returned (get_or q.elements q.front 0)

  pub back_element : FixedPtrQueue → Outcome ℕ
  back_element q =
      let back_index = if q.back == 0 then size - 1 else q.back - 1 in
      if is_empty q then alerted else returned (get_or q.elements (u8 back_index) 0)
