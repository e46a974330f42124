-- ===== src/Queue/Run.antt =====
-- src/queue.c as its clients see it: sequences of calls and their answers.
use asx.Base.{
  ℕ, ◌%◌, ◌^◌, ◌≤◌, ◌<◌, ◌≡◌, ◌∙◌, ap, ap₂, refl, arith, Bool, Option, some, List, [], ◌∷◌, ◌>>=◌,
}
use asx.Base.{pos, length-replicate, replicate}
use asx.Queue.{Queue, init, is_empty, push, pop, pop_front, push_back, push_ring}
use asx.Queue.Ring.{IsValid, placed}
use asx.Queue.Refine.{
  contents, Implements, is_empty_refines, push_refines, push_back_refines, pop_refines,
  pop_front_refines, push_ring_refines,
}
use asx.Queue.Deque

-- The calls of a client.
pub data Call : Type 0 where
  push_call push_back_call push_ring_call : ℕ → Call
  pop_call pop_front_call is_empty_call : Call

-- What a call returns; `done` for the call that returns nothing.
pub data Answer : Type 0 where
  accepted empty : Bool → Answer
  popped : Option ℕ → Answer
  done : Answer

call : Queue → Call → Option (Answer × Queue)
call q (push_call v) = do r ← push q v; some (accepted r.0, r.1)
call q (push_back_call v) = do r ← push_back q v; some (accepted r.0, r.1)
call q (push_ring_call v) = do q' ← push_ring q v; some (done, q')
call q pop_call = do r ← pop q; some (popped r.0, r.1)
call q pop_front_call = do r ← pop_front q; some (popped r.0, r.1)
call q is_empty_call = some (empty (is_empty q), q)

-- The answers of a sequence of calls, and the queue behind them; `none` if one of them faults.
unfoldable pub run : Queue → List Call → Option (List Answer × Queue)
unfolding call
run q [] = some ([], q)
run q (c ∷ cs) = do r ← call q c; rest ← run r.1 cs; some (r.0 ∷ rest.0, rest.1)

model_call : ℕ → List ℕ → Call → Answer × List ℕ
model_call cap xs (push_call v) = let r = Deque.push cap xs v in (accepted r.0, r.1)
model_call cap xs (push_back_call v) = let r = Deque.push_back cap xs v in (accepted r.0, r.1)
model_call cap xs (push_ring_call v) = (done, Deque.push_ring cap xs v)
model_call cap xs pop_call = let r = Deque.pop xs in (popped r.0, r.1)
model_call cap xs pop_front_call = let r = Deque.pop_front xs in (popped r.0, r.1)
model_call cap xs is_empty_call = (empty (Deque.is_empty xs), xs)

pub model_run : ℕ → List ℕ → List Call → List Answer × List ℕ
unfolding model_call
model_run cap xs [] = ([], xs)
model_run cap xs (c ∷ cs) =
    let r = model_call cap xs c in let rest = model_run cap r.1 cs in (r.0 ∷ rest.0, rest.1)

-- The answer of an operation, wrapped.
wrap-Implements :
    {R S : Type 0} (q : Queue) (result : Option (R × Queue)) (model : R × List ℕ) (f : R → S)
    → Implements q result model
    → Implements q (result >>= λ r. some (f r.0, r.1)) (f model.0, model.1)
wrap-Implements q result model f (after, runs, valid, holds, room) =
    (after, ap (λ o. o >>= λ r. some (f r.0, r.1)) runs, valid, holds, room)

call-Implements :
    (q : Queue) (c : Call) → IsValid q → Implements q (call q c) (model_call q.nelem (contents q) c)
unfolding call model_call
call-Implements q (push_call v) ok = wrap-Implements q _ _ accepted (push_refines q ok v)
call-Implements q (push_back_call v) ok = wrap-Implements q _ _ accepted (push_back_refines q ok v)
call-Implements q (push_ring_call v) ok =
    let (after, runs, valid, holds, room) = push_ring_refines q ok v in
    (after, ap (λ o. o >>= λ r. some (done, r)) runs, valid, holds, room)
call-Implements q pop_call ok = wrap-Implements q _ _ popped (pop_refines q ok)
call-Implements q pop_front_call ok = wrap-Implements q _ _ popped (pop_front_refines q ok)
call-Implements q is_empty_call ok =
    (q, ap (λ b. some (empty b, q)) (is_empty_refines q), ok, refl, refl)

-- No sequence of calls faults on a valid queue, and none tells it from the bounded deque of its
-- contents: the answers are the deque's, and the queue ends valid, with the deque's values.
pub run_refines :
    (cs : List Call) (q : Queue)
    → IsValid q
    → Implements q (run q cs) (model_run q.nelem (contents q) cs)
unfolding run model_run
run_refines [] q ok = (q, refl, ok, refl, refl)
run_refines (c ∷ cs) q ok =
    let (q', runs, ok', holds, room) = call-Implements q c ok in
    let (after, rest, valid, holds', room') = run_refines cs q' ok' in
    (
      after,
      rw (runs, rest)
          (ap₂ (λ n xs. some ((model_call q.nelem (contents q) c).0 ∷ (model_run n xs cs).0, after))
            room holds),
      valid,
      holds' ∙ ap₂ (λ n xs. (model_run n xs cs).1) room holds,
      room' ∙ room,
    )

-- The empty queue of `n` elements.
abbrev fresh : ℕ → Queue
fresh n = placed (replicate n 0xffff) n 0 0

-- A queue made for 1 to 128 elements is valid, empty, and of that capacity.
pub init-IsValid :
    (old : Queue) (n : ℕ)
    → 0 < n
    → n ≤ 128
    → (q : Queue) × (init (some old) n ≡ some q) × IsValid q × (contents q ≡ []) × (q.nelem ≡ n)
unfolding init
init-IsValid old n some_room small =
    let whole : n % 256 ≡ n = omega arith in
    let room : n % 2 ^ 15 ≡ n = omega arith in
    (
      fresh n,
      rw (whole, room) (ap (λ t. some (record (fresh n) { tail = pos t })) (omega arith)),
      record {
        some_room = some_room;
        small = small;
        storage = omega (arith, length-replicate {A = ℕ} n 0xffff);
        head_in = some_room;
        length_in = omega arith;
        indices = refl;
      },
      refl,
      refl,
    )
