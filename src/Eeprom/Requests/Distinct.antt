-- ===== src/Eeprom/Requests/Distinct.antt =====
-- src/eeprom.cpp: lists in which no number stands twice, and the operations of the queue on them.
use native.Mathlib.Decide.{dec_lt}
use asx.Base.{
  ℕ, zero, suc, ◌+◌, ◌≤◌, ◌<◌, ◌≡◌, refl, sym, ◌∙◌, arith, List, [], ◌∷◌, ◌++◌, inl, inr,
}
use asx.Base.{◌==◌, length, Bool-cases, lt→leb_false, lt→ltb, length-append}
use asx.Base.Outcome.{returned}
use asx.FixedPtrQueue.Places.{
  occurrences, occurrences-append, occurrences-remove, IsDistinct, remove, pushed_unique,
}

-- Every number of the list is below `n`.
abbrev pub Below : ℕ → List ℕ → Type 0
Below n xs = (v : ℕ) → n ≤ v → occurrences xs v ≡ 0

-- How many of the numbers below `n` a list holds, each as often as it stands there.
total : ℕ → List ℕ → ℕ
total zero xs = 0
total (suc n) xs = occurrences xs n + total n xs

total_nil : (n : ℕ) → total n [] ≡ 0
unfolding total
total_nil zero = refl
total_nil (suc n) = omega (arith, total_nil n)

total_absent : (n x : ℕ) (xs : List ℕ) → n ≤ x → total n (x ∷ xs) ≡ total n xs
unfolding total
total_absent zero x xs le = refl
total_absent (suc n) x xs le = ground (arith, total_absent n x xs (omega (arith, le)), le)

total_cons : (n x : ℕ) (xs : List ℕ) → x < n → total n (x ∷ xs) ≡ suc (total n xs)
unfolding total
total_cons zero x xs lt = absurd (omega (arith, lt))
total_cons (suc n) x xs lt = elim (Bool-cases (x == n)) [
  | inl e ↦ ground (arith, e, total_absent n x xs (ground (arith, e)))
  | inr ne ↦ ground (arith, ne, total_cons n x xs (ground (arith, ne, lt)))
]

member-Below : (n x : ℕ) (xs : List ℕ) → Below n (x ∷ xs) → x < n
member-Below n x xs below = elim (dec_lt x n) [
  | yes lt ↦ lt
  | no le ↦ absurd (ground (arith, below x (omega (arith, le))))
]

rest-Below : (n x : ℕ) (xs : List ℕ) → Below n (x ∷ xs) → Below n xs
rest-Below n x xs below v le = omega (arith, below v le)

length-total : (n : ℕ) (xs : List ℕ) → Below n xs → length xs ≡ total n xs
length-total n [] below = sym (total_nil n)
length-total n (x ∷ xs) below = omega (
  arith,
  length-total n xs (rest-Below n x xs below),
  total_cons n x xs (member-Below n x xs below),
)

total_distinct : (n : ℕ) (xs : List ℕ) → IsDistinct xs → total n xs ≤ n
unfolding total
total_distinct zero xs distinct = omega arith
total_distinct (suc n) xs distinct = omega (arith, distinct n, total_distinct n xs distinct)

-- Distinct numbers below `n` are at most `n`.
length_distinct : (n : ℕ) (xs : List ℕ) → Below n xs → IsDistinct xs → length xs ≤ n
length_distinct n xs below distinct =
    omega (arith, length-total n xs below, total_distinct n xs distinct)

-- One that is missing makes room.
length_missing :
    (n v : ℕ) (xs : List ℕ)
    → v < n
    → Below n xs
    → IsDistinct xs
    → occurrences xs v ≡ 0
    → length xs < n
length_missing n v xs lt below distinct absent =
    length_distinct n (v ∷ xs) (λ w le. ground (arith, below w le, le, lt))
      (λ w. elim (Bool-cases (v == w)) [
        | inl e ↦ ground (arith, e, absent)
        | inr ne ↦ ground (arith, ne, distinct w)
      ])

-- `pushed_unique` of a number below `n` finds room among `n` places, and keeps the numbers distinct.
pub record Keeps (n v : ℕ) (xs ys : List ℕ) : Type 0 where
  pub below : Below n ys
  pub distinct : IsDistinct ys
  pub waits : 0 < length ys
  pub is_in : 0 < occurrences ys v
  pub keeps_all : (w : ℕ) → occurrences xs w ≤ occurrences ys w
  pub same : pushed_unique n xs v ≡ returned ys

pub pushed_unique-Keeps :
    (n v : ℕ) (xs : List ℕ) → v < n → Below n xs → IsDistinct xs → (ys : List ℕ) × Keeps n v xs ys
pushed_unique-Keeps n v xs lt below distinct = elim (dec_lt 0 (occurrences xs v)) [
  | yes occurs ↦ (
    v ∷ remove xs v,
    record {
      below = λ w le. occurrences-remove xs v w occurs ∙ below w le;
      distinct = λ w. omega (arith, occurrences-remove xs v w occurs, distinct w);
      waits = omega arith;
      is_in = omega (arith, occurrences-remove xs v v occurs, occurs);
      keeps_all = λ w. omega (arith, occurrences-remove xs v w occurs);
      same = rw (lt→ltb 0 (occurrences xs v) occurs) refl;
    },
  )
  | no absent ↦
      let none_yet : occurrences xs v ≡ 0 = omega (arith, absent) in
      let space = length_missing n v xs lt below distinct none_yet in
      (
        xs ++ (v ∷ []),
        record {
          below = λ w le. ground (arith, occurrences-append xs (v ∷ []) w, below w le, le, lt);
          distinct = λ w. elim (Bool-cases (v == w)) [
            | inl e ↦ ground (arith, e, none_yet, occurrences-append xs (v ∷ []) w)
            | inr ne ↦ ground (arith, ne, distinct w, occurrences-append xs (v ∷ []) w)
          ];
          waits = omega (arith, length-append xs (v ∷ []));
          is_in = ground (arith, occurrences-append xs (v ∷ []) v);
          keeps_all = λ w. omega (arith, occurrences-append xs (v ∷ []) w);
          same = rw (none_yet, lt→leb_false n (length xs) space) refl;
        },
      )
]
