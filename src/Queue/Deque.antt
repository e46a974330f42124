-- ===== src/Queue/Deque.antt =====
-- What a queue promises: a sequence of at most `cap` values, the head end first.
use asx.Base.{
  ℕ, ◌<◌, ◌≤◌, Bool, true, false, Option, none, some, List, [], ◌∷◌, ◌++◌, ◌≡◌, refl, leb, ltb,
}
use asx.Base.{lt→ltb, le→ltb, lt→leb_false, le→leb}
use asx.Base.{if◌then◌else◌, length, tail}

unfoldable pub is_empty : List ℕ → Bool
is_empty [] = true
is_empty (x ∷ xs) = false

-- Take the value at the head end.
unfoldable pub pop : List ℕ → Option ℕ × List ℕ
pop [] = (none, [])
pop (x ∷ xs) = (some x, xs)

-- Take the value at the tail end.
unfoldable pub pop_front : List ℕ → Option ℕ × List ℕ
pop_front [] = (none, [])
pop_front (x ∷ []) = (some x, [])
pop_front (x ∷ y ∷ ys) = let (v, zs) = pop_front (y ∷ ys) in (v, x ∷ zs)

module _ (cap : ℕ) where
  -- Add at the tail end; a full queue refuses.
  unfoldable pub push : List ℕ → ℕ → Bool × List ℕ
  push xs v = if leb cap (length xs) then (false, xs) else (true, xs ++ (v ∷ []))

  -- Add at the head end; a full queue refuses.
  unfoldable pub push_back : List ℕ → ℕ → Bool × List ℕ
  push_back xs v = if leb cap (length xs) then (false, xs) else (true, v ∷ xs)

  -- Add at the tail end; a full queue loses the value at its head end.
  unfoldable pub push_ring : List ℕ → ℕ → List ℕ
  push_ring xs v = if ltb (length xs) cap then xs ++ (v ∷ []) else tail (xs ++ (v ∷ []))

  -- The tests of the operations, decided.
  pub push_room : (xs : List ℕ) (v : ℕ) → length xs < cap → push xs v ≡ (true, xs ++ (v ∷ []))
  unfolding push
  push_room xs v h = rw (lt→leb_false cap (length xs) h)

  pub push_full : (xs : List ℕ) (v : ℕ) → cap ≤ length xs → push xs v ≡ (false, xs)
  unfolding push
  push_full xs v h = rw (le→leb cap (length xs) h)

  pub push_back_room : (xs : List ℕ) (v : ℕ) → length xs < cap → push_back xs v ≡ (true, v ∷ xs)
  unfolding push_back
  push_back_room xs v h = rw (lt→leb_false cap (length xs) h)

  pub push_back_full : (xs : List ℕ) (v : ℕ) → cap ≤ length xs → push_back xs v ≡ (false, xs)
  unfolding push_back
  push_back_full xs v h = rw (le→leb cap (length xs) h)

  pub push_ring_room : (xs : List ℕ) (v : ℕ) → length xs < cap → push_ring xs v ≡ xs ++ (v ∷ [])
  unfolding push_ring
  push_ring_room xs v h = rw (lt→ltb (length xs) cap h)

  pub push_ring_full :
      (xs : List ℕ) (v : ℕ) → cap ≤ length xs → push_ring xs v ≡ tail (xs ++ (v ∷ []))
  unfolding push_ring
  push_ring_full xs v h = rw (le→ltb (length xs) cap h)

pub pop_front-append : (xs : List ℕ) (v : ℕ) → pop_front (xs ++ (v ∷ [])) ≡ (some v, xs)
unfolding pop_front
pop_front-append [] v = refl
pop_front-append (x ∷ []) v = refl
pop_front-append (x ∷ y ∷ ys) v = rw (pop_front-append (y ∷ ys) v)
