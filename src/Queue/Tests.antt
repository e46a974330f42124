-- ===== src/Queue/Tests.antt =====
-- Runs of the queue, and the theorems at concrete queues.
use asx.Base.{◌≡◌, refl, arith, true, false, List, [], ◌∷◌, some, none, replicate}
use asx.Base.{pos, negsuc, ◌>>=◌}
use asx.Queue.{
  Queue, push, pop, pop_front, push_back, push_ring, store_single, store, load, advance, retreat,
  is_empty,
}
use asx.Queue.Ring.{IsValid}
use asx.Queue.Refine.{Implements}
use asx.Queue.Run.{
  Call, push_call, push_back_call, push_ring_call, pop_call, pop_front_call, is_empty_call,
  accepted, empty, popped, done, run, model_run, run_refines,
}
use asx.Queue.Single.{one_slot, store_single-pop-push}
use asx.Queue.Overflow.{push-push_negative}

-- 8, then 9, round the end of the buffer of three.
abbrev wrapped : Queue
wrapped = record { buffer = 9 ∷ 7 ∷ 8 ∷ []; head = pos 2; tail = pos 1; length = 2; nelem = 3 }

abbrev script : List Call
script =
    push_call 1
    ∷ push_call 2
    ∷ push_ring_call 3
    ∷ pop_front_call
    ∷ push_back_call 4
    ∷ pop_call
    ∷ is_empty_call
    ∷ []

run-wrapped :
    run wrapped script
    ≡ some (
      accepted true
          ∷ accepted false
          ∷ done
          ∷ popped (some 3)
          ∷ accepted true
          ∷ popped (some 4)
          ∷ empty false
          ∷ [],
      record { buffer = 9 ∷ 1 ∷ 4 ∷ []; head = pos 0; tail = pos 2; length = 2; nelem = 3 },
    )
unfolding run is_empty push pop pop_front push_back push_ring store load advance retreat
run-wrapped = refl

wrapped-IsValid : IsValid wrapped
wrapped-IsValid = record {
  some_room = omega arith;
  small = omega arith;
  storage = omega arith;
  head_in = omega arith;
  length_in = omega arith;
  indices = refl;
}

run_refines_example : Implements wrapped (run wrapped script) (model_run 3 (8 ∷ 9 ∷ []) script)
run_refines_example = run_refines script wrapped wrapped-IsValid

store_single-pop-push_example :
    (q : Queue) × ((store_single (one_slot 7 (pos 0) (pos 0) 0) 5 >>= pop) ≡ some (some 5, q))
    × (push q 6 ≡ none)
store_single-pop-push_example = store_single-pop-push 7 5 6 0 (pos 0) (pos 0)

-- 127 values in a queue of 200.
abbrev long : Queue
long = record { buffer = replicate 200 0; head = pos 0; tail = pos 127; length = 127; nelem = 200 }

push-push_negative_example :
    (q : Queue) × (push long 1 ≡ some (true, q)) × (q.tail ≡ negsuc 127) × (push q 2 ≡ none)
push-push_negative_example =
    push-push_negative long 1 2 (omega arith) (omega arith) (omega arith) (omega arith) refl
