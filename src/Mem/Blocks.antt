-- ===== src/Mem/Blocks.antt =====
-- src/mem.c: the block of an allocation, and what is left of the rest of the memory.
use asx.Base.{
  ℕ, zero, suc, ◌+◌, ◌-◌, ◌%◌, ◌^◌, some, lt→ltb, sym, Option, Bool, ==_true, ==_false, le→ltb, ◌<◌,
  ◌≤◌, ◌≡◌, ◌⊎◌, inl, inr, refl, arith, true, false, ◌==◌, Bool-cases, subst,
}
use mathlib.Core.Logic.{◌≢◌}
use asx.Base.Outcome.{returned, alerted}
use asx.Mem.{
  Heap, block_size, heap_stack_guard, plus, loop_rounds, untouched, memset, guarded, calloc,
}

same_byte : (ram : ℕ → ℕ) (a b : ℕ) → a ≡ b → ram a ≡ 0xaa → ram b ≡ 0xaa
same_byte ram a b e q = subst (λ x. ram x ≡ 0xaa) e q

-- What the loop over `n` bytes from `check` on has found.
abbrev Tests : (ℕ → ℕ) → ℕ → ℕ → Option Bool → Type 0
Tests ram check n o =
    ((o ≡ some true) × ((i : ℕ) → i < n → ram (check + i) ≡ 0xaa))
    ⊎ ((o ≡ some false) × ((i : ℕ) × (i < n) × (ram (check + i) ≢ 0xaa)))

touched_first :
    (ram : ℕ → ℕ) (check n : ℕ) (o : Option Bool)
    → ram check == 0xaa ≡ false
    → o ≡ some false
    → Tests ram check (suc n) o
touched_first ram check n o other e = inr (
  e,
  (0, omega arith, λ q. ground (arith, other, same_byte ram (check + 0) check (omega arith) q)),
)

same_first :
    (ram : ℕ → ℕ) (check n : ℕ) (o : Option Bool)
    → ram check == 0xaa ≡ true
    → Tests ram (check + 1) n o
    → Tests ram check (suc n) o
same_first ram check n o same (inl (e, later)) = inl (e, all)
  where
    all : (i : ℕ) → i < suc n → ram (check + i) ≡ 0xaa
    all zero lt = same_byte ram check (check + zero) (omega arith) (ground (arith, same))
    all (suc i) lt =
        same_byte ram (check + 1 + i) (check + suc i) (omega arith) (later i (omega (arith, lt)))
same_first ram check n o same (inr (e, (i, lt, other))) = inr (
  e,
  (
    suc i,
    omega (arith, lt),
    λ q. other (same_byte ram (check + suc i) (check + 1 + i) (omega arith) q),
  ),
)

-- The loop from `check` to `last`, which is further on.
untouched_lem :
    (n : ℕ) (ram : ℕ → ℕ) (check last : ℕ)
    → last ≡ check + suc n
    → last < 2 ^ 16
    → Tests ram check (suc n) (untouched (suc n) ram check last)
unfolding untouched
untouched_lem zero ram check last e lt =
    let here : plus check 1 ≡ last = omega (arith, e, lt) in
    elim (Bool-cases (ram check == 0xaa)) [
      | inr other ↦ touched_first ram check zero _ other (rw other refl)
      | inl same ↦ same_first ram check zero _ same (
          inl (
            rw (same, ==_true (plus check 1) last here) refl,
            λ i below. absurd (omega (arith, below)),
          ))
    ]
untouched_lem (suc n) ram check last e lt =
    let next : plus check 1 ≡ check + 1 = omega (arith, e, lt) in
    let later = untouched_lem n ram (check + 1) last (omega (arith, e)) lt in
    elim (Bool-cases (ram check == 0xaa)) [
      | inr other ↦ touched_first ram check (suc n) _ other (rw other refl)
      | inl same ↦ same_first ram check (suc n) _ same (
          subst (Tests ram (check + 1) (suc n))
            (sym (rw (same, next, ==_false (check + 1) last (λ q. omega (arith, q, e))) refl))
            later)
    ]

-- `loop_rounds` and `memset` where the addresses do not wrap around.
loop_rounds_lem : (check n : ℕ) → 0 < n → check + n < 2 ^ 16 → loop_rounds check (check + n) ≡ n
loop_rounds_lem check n positive lt = omega (arith, positive, lt)

memset_in :
    (ram : ℕ → ℕ) (start n a : ℕ)
    → start + n < 2 ^ 16
    → start ≤ a
    → a < start + n
    → memset ram start 0 n a ≡ 0
memset_in ram start n a fits ge lt =
    rw (lt→ltb ((a + 2 ^ 16 - start) % 2 ^ 16) n (omega (arith, fits, ge, lt))) refl

memset_out :
    (ram : ℕ → ℕ) (start n a : ℕ)
    → start + n < 2 ^ 16
    → a < 2 ^ 16
    → (a < start) ⊎ (start + n ≤ a)
    → memset ram start 0 n a ≡ ram a
memset_out ram start n a fits small out =
    rw (le→ltb ((a + 2 ^ 16 - start) % 2 ^ 16) n (omega (arith, fits, small, out))) refl

-- An allocation that, with the guard behind it, stays in the 16 bits of an address. It either finds a
-- byte of the block or of the guard touched, and stops the system; or all of them are untouched, and
-- then the block starts where the last one ended, is all 0, and the rest of the memory, with every
-- block that was allocated before, stays as it is.
pub calloc_lem :
    (nele size : ℕ) (h : Heap)
    → h.next_block + block_size nele size + heap_stack_guard < 2 ^ 16
    → ((calloc nele size h ≡ alerted)
        × ((i : ℕ) × (i < block_size nele size + heap_stack_guard)
            × (h.ram (h.next_block + i) ≢ 0xaa)))
      ⊎ ((h' : Heap) × (calloc nele size h ≡ returned (h.next_block, h'))
          × (h'.next_block ≡ h.next_block + block_size nele size)
          × ((i : ℕ)
              → i < block_size nele size + heap_stack_guard
              → h.ram (h.next_block + i) ≡ 0xaa)
          × ((a : ℕ) → h.next_block ≤ a → a < h'.next_block → h'.ram a ≡ 0)
          × ((a : ℕ) → a < 2 ^ 16 → (a < h.next_block) ⊎ (h'.next_block ≤ a) → h'.ram a ≡ h.ram a))
unfolding calloc guarded
calloc_lem nele size h fits = elim (tests) [
  | inr (e, touched) ↦ inl (rw (next, last, rounds, e) refl, touched)
  | inl (e, free) ↦ inr (
    record { next_block = start + n; ram = memset h.ram start 0 n },
    rw (next, last, rounds, e) refl,
    refl,
    free,
    λ a ge lt. memset_in h.ram start n a (omega (arith, fits)) ge lt,
    λ a small out. memset_out h.ram start n a (omega (arith, fits)) small out,
  )
]
  where
    start : ℕ
    start = h.next_block

    n : ℕ
    n = block_size nele size

    next : plus start n ≡ start + n
    next = omega (arith, fits)

    tested : ℕ
    tested = n + heap_stack_guard

    last : plus (start + n) heap_stack_guard ≡ start + tested
    last = omega (arith, fits)

    rounds : loop_rounds start (start + tested) ≡ tested
    rounds = loop_rounds_lem start tested (omega arith) (omega (arith, fits))

    one_less : suc (n + 31) ≡ tested
    one_less = omega arith

    tests : Tests h.ram start tested (untouched tested h.ram start (start + tested))
    tests =
        subst (λ k. Tests h.ram start k (untouched k h.ram start (start + k))) one_less
          (untouched_lem (n + 31) h.ram start (start + suc (n + 31)) refl (omega (arith, fits)))
