-- ===== src/FixedPtrQueue/Tests.antt =====
-- Runs of the queue of pointers, and the theorems at concrete queues.
use asx.Base.{◌≡◌, refl, arith, [], ◌∷◌, length, ◌==◌}
use asx.Base.Outcome.{returned}
use asx.FixedPtrQueue.{
  FixedPtrQueue, find, find_from, shift_loop, move_to_front, push, push_unique, pop, full, is_empty,
  front_element, back_element,
}
use asx.FixedPtrQueue.Places.{pushed, pushed_unique, popped}
use asx.FixedPtrQueue.Refine.{IsValid, contents, Leaves, Answers}
use asx.FixedPtrQueue.Ends.{refines_lem}

-- 5, 6 and 7, round the end of an array of four.
abbrev wrapped : FixedPtrQueue
wrapped = record { elements = 6 ∷ 7 ∷ 0 ∷ 5 ∷ []; front = 3; back = 2; count = 3 }

wrapped-IsValid : IsValid 4 wrapped
wrapped-IsValid = record {
  some_room = omega arith;
  small = omega arith;
  storage = omega arith;
  front_in = omega arith;
  count_in = omega arith;
  behind = refl;
}

-- The last one comes to the front, the others one place later.
push_unique-last :
    push_unique 4 5 wrapped 7
    ≡ returned (record { elements = 5 ∷ 6 ∷ 0 ∷ 7 ∷ []; front = 3; back = 2; count = 3 })
unfolding push_unique find find_from move_to_front shift_loop
push_unique-last = refl

push_unique-other :
    push_unique 4 5 wrapped 9
    ≡ returned (record { elements = 6 ∷ 7 ∷ 9 ∷ 5 ∷ []; front = 3; back = 3; count = 4 })
unfolding push_unique find find_from push full
push_unique-other = refl

refines_lem_example :
    Leaves 4 (push 4 wrapped 7) (pushed 4 (contents 4 wrapped) 7)
    × Leaves 4 (push_unique 4 5 wrapped 7) (pushed_unique 4 (contents 4 wrapped) 7)
    × Answers 4 (pop 4 wrapped) (popped (contents 4 wrapped))
    × (front_element 4 wrapped ≡ returned 5)
    × (back_element 4 wrapped ≡ returned 7)
    × (is_empty 4 wrapped ≡ (length (contents 4 wrapped) == 0))
    × (full 4 wrapped ≡ (length (contents 4 wrapped) == 4))
refines_lem_example = refines_lem 4 wrapped wrapped-IsValid 7
