-- ===== src/FixedPtrQueue/Places.antt =====
-- What a `FixedPtrQueue` promises: a sequence of at most `size` pointers, the next one to pop first,
-- where `push_unique` moves a pointer that waits already to the front.
use asx.Base.{
  ℕ, zero, suc, ◌+◌, ◌≤◌, ◌<◌, ◌≡◌, ap, refl, arith, false, Option, none, some, List, [], ◌∷◌, ◌++◌,
  inl, inr,
}
use asx.Base.{leb, ltb, ◌==◌, if◌then◌else◌, length, get_or, Bool-cases}
use asx.Base.Outcome.{Outcome, returned, alerted}

abbrev pub occurrences : List ℕ → ℕ → ℕ
occurrences [] v = 0
occurrences (x ∷ xs) v = (if x == v then 1 else 0) + occurrences xs v

-- No pointer waits twice.
abbrev pub IsDistinct : List ℕ → Type 0
IsDistinct xs = (v : ℕ) → occurrences xs v ≤ 1

-- Without the first occurrence.
abbrev pub remove : List ℕ → ℕ → List ℕ
remove [] v = []
remove (x ∷ xs) v = if x == v then xs else x ∷ remove xs v

abbrev pub remove_at : ℕ → List ℕ → List ℕ
remove_at i [] = []
remove_at zero (x ∷ xs) = xs
remove_at (suc i) (x ∷ xs) = x ∷ remove_at i xs

-- Where the first occurrence is.
abbrev pub shifted : Option ℕ → Option ℕ
shifted none = none
shifted (some i) = some (suc i)

abbrev pub index_of : List ℕ → ℕ → Option ℕ
index_of [] v = none
index_of (x ∷ xs) v = if x == v then some 0 else shifted (index_of xs v)

abbrev pub pushed : ℕ → List ℕ → ℕ → Outcome (List ℕ)
pushed size xs v = if leb size (length xs) then alerted else returned (xs ++ (v ∷ []))

abbrev pub pushed_unique : ℕ → List ℕ → ℕ → Outcome (List ℕ)
pushed_unique size xs v =
    if ltb 0 (occurrences xs v) then returned (v ∷ remove xs v) else pushed size xs v

abbrev pub popped : List ℕ → Outcome (ℕ × List ℕ)
popped [] = alerted
popped (x ∷ xs) = returned (x, xs)

-- What the index of the first occurrence says.
abbrev pub IsFirstAt : List ℕ → ℕ → Option ℕ → Type 0
IsFirstAt xs v none = occurrences xs v ≡ 0
IsFirstAt xs v (some i) =
    (i < length xs) × (get_or xs i 0 ≡ v) × (0 < occurrences xs v) × (remove xs v ≡ remove_at i xs)

later_first :
    (x : ℕ) (xs : List ℕ) (v : ℕ) (o : Option ℕ)
    → (x == v) ≡ false
    → IsFirstAt xs v o
    → IsFirstAt (x ∷ xs) v (shifted o)
later_first x xs v none ne absent = ground (arith, ne, absent)
later_first x xs v (some i) ne (lt, here, occurs, same) =
    rw ne (omega (arith, lt), here, ground (arith, occurs), ap (λ l. x ∷ l) same)

first_step :
    (x : ℕ) (xs : List ℕ) (v : ℕ)
    → IsFirstAt xs v (index_of xs v)
    → IsFirstAt (x ∷ xs) v (index_of (x ∷ xs) v)
first_step x xs v rest = elim (Bool-cases (x == v)) [
  | inl e ↦ rw e (omega arith, ground (arith, e), ground (arith, e), ground (arith, e))
  | inr ne ↦ rw ne (later_first x xs v (index_of xs v) ne rest)
]

pub first_at : (xs : List ℕ) (v : ℕ) → IsFirstAt xs v (index_of xs v)
first_at [] v = refl
first_at (x ∷ xs) v = first_step x xs v (first_at xs v)

pub occurrences-append :
    (xs ys : List ℕ) (v : ℕ) → occurrences (xs ++ ys) v ≡ occurrences xs v + occurrences ys v
occurrences-append [] ys v = omega arith
occurrences-append (x ∷ xs) ys v = omega (arith, occurrences-append xs ys v)

-- Taking the first occurrence out and putting it in front keeps the number of each pointer.
pub occurrences-remove :
    (xs : List ℕ) (v w : ℕ)
    → 0 < occurrences xs v
    → occurrences (v ∷ remove xs v) w ≡ occurrences xs w
occurrences-remove [] v w occurs = absurd (omega (arith, occurs))
occurrences-remove (x ∷ xs) v w occurs = elim (Bool-cases (x == v)) [
  | inl e ↦ ground (arith, e)
  | inr ne ↦ ground (arith, ne, occurs, occurrences-remove xs v w (ground (arith, ne, occurs)))
]
