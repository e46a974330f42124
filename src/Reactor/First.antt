-- ===== src/Reactor/First.antt =====
-- src/reactor.c: the tests by which `reactor_run` finds the handle to serve.
use asx.Base.{
  ℕ, zero, suc, ◌+◌, ◌-◌, ◌*◌, ◌/◌, ◌%◌, ◌^◌, ◌<◌, ◌≡◌, ◌≢◌, refl, arith, bit_and, inl, inr, ap,
}
use asx.Base.{Bool, true, false, not, ◌&&◌, Option, none, some, ltb, ◌==◌, ==_iff, Bool-cases}
use asx.Base.Bits.{bit, all_below, all_below-true}
use asx.Reactor.{Reactor, first_bit, take_from, take_first, word}
use asx.Reactor.Pending.{pending, AreBytes, without_bit}

-- What `first_bit` finds, tested: the lowest bit of the byte, which it clears.
unfoldable finds : ℕ → Option (ℕ × ℕ) → Bool
finds b none = b == 0
finds b (some f) =
    (ltb f.0 8 && bit b f.0)
    && ((f.1 == bit_and b (255 - 2 ^ f.0)) && all_below f.0 (λ j. not (bit b j)))

finds_table : all_below 256 (λ b. finds b (first_bit b)) ≡ true
unfolding all_below finds bit first_bit
finds_table = refl

abbrev IsFirst : ℕ → Option (ℕ × ℕ) → Type 0
IsFirst b found =
    (i : ℕ) × (found ≡ some (i, bit_and b (255 - 2 ^ i)))
    × (i < 8)
    × (bit b i ≡ true)
    × ((j : ℕ) → j < i → bit b j ≡ false)

finds-IsFirst : (b : ℕ) (found : Option (ℕ × ℕ)) → b ≢ 0 → finds b found ≡ true → IsFirst b found
unfolding finds
finds-IsFirst b none some_bit h = absurd (some_bit ((==_iff b 0).0 h))
finds-IsFirst b (some (i, b')) some_bit h =
    let cleared : b' ≡ bit_and b (255 - 2 ^ i) = ground (arith, h) in
    let lowest : all_below i (λ j. not (bit b j)) ≡ true = ground (arith, h) in
    (
      i,
      ap (λ c. some (i, c)) cleared,
      ground (arith, h),
      ground (arith, h),
      λ j lt. ground (arith, all_below-true i (λ k. not (bit b k)) j lowest lt),
    )

zero_table : all_below 8 (λ j. not (bit 0 j)) ≡ true
unfolding all_below bit
zero_table = refl

bit_zero : (b j : ℕ) → b ≡ 0 → j < 8 → bit b j ≡ false
bit_zero b j e lt = rw e (ground (arith, all_below-true 8 (λ k. not (bit 0 k)) j zero_table lt))

-- `o` is the lowest pending handle, with the state in which it is pending no more.
abbrev pub TakesFirst : Reactor → Option (ℕ × Reactor) → Type 0
TakesFirst r o =
    (h : ℕ) × (h < 32)
    × (o ≡ some (h, record r { notifications = without_bit r.notifications h }))
    × (pending r.notifications h ≡ true)
    × ((j : ℕ) → j < h → pending r.notifications j ≡ false)

module _ (r : Reactor) (bytes : AreBytes r.notifications) where
  abbrev n : ℕ → ℕ
  n = r.notifications

  take_from_lem :
      (k : ℕ) → k < 4 → n k ≢ 0 → ((k' : ℕ) → k' < k → n k' ≡ 0) → TakesFirst r (take_from r k)
  unfolding take_from pending
  take_from_lem k lt here before =
      let (i, found, small, at_i, below) =
        finds-IsFirst (n k) (first_bit (n k)) here
          (all_below-true 256 _ (n k) finds_table (bytes k lt)) in
      let byte : (8 * k + i) / 8 ≡ k = omega arith in
      let place : (8 * k + i) % 8 ≡ i = omega arith in
      (
        8 * k + i,
        omega arith,
        rw (byte, place, found) refl,
        rw (byte, place) at_i,
        λ j lower. elim (Bool-cases (j / 8 == k)) [
          | inl e ↦ let same : j / 8 ≡ k = (==_iff _ _).0 e in rw same (below (j % 8) (omega arith))
          | inr e ↦
              let other : j / 8 ≢ k = λ q. absurd (ground (arith, e, q)) in
              bit_zero (n (j / 8)) (j % 8) (before (j / 8) (omega arith)) (omega arith)
        ],
      )

  set_in : (k : ℕ) → (n k == 0) ≡ false → n k ≢ 0
  set_in k h e = absurd (ground (arith, h, e))

  empty_in : (k : ℕ) → (n k == 0) ≡ true → n k ≡ 0
  empty_in k h = (==_iff _ _).0 h

  -- With a notification somewhere, `take_first` finds the lowest.
  pub take_first_lem : word n ≢ 0 → TakesFirst r (take_first r)
  unfolding take_first word
  take_first_lem some_bit = elim (Bool-cases (n 0 == 0)) [
    | inr here ↦
        rw here (take_from_lem 0 (omega arith) (set_in 0 here) (λ k lt. absurd (omega arith)))
    | inl none0 ↦ elim (Bool-cases (n 1 == 0)) [
      | inr here ↦
          rw (none0, here)
            (take_from_lem 1 (omega arith) (set_in 1 here) (below_one (empty_in 0 none0)))
      | inl none1 ↦ elim (Bool-cases (n 2 == 0)) [
        | inr here ↦
            rw (none0, none1, here)
              (take_from_lem 2 (omega arith) (set_in 2 here)
                (below_two (empty_in 0 none0) (empty_in 1 none1)))
        | inl none2 ↦
            rw (none0, none1, none2)
              (take_from_lem 3 (omega arith)
                (λ e.
                  some_bit (omega (arith, e, empty_in 0 none0, empty_in 1 none1, empty_in 2 none2)))
                (below_three (empty_in 0 none0) (empty_in 1 none1) (empty_in 2 none2)))
      ]
    ]
  ]
    where
      below_one : n 0 ≡ 0 → (k : ℕ) → k < 1 → n k ≡ 0
      below_one e zero lt = e
      below_one e (suc k) lt = absurd (omega arith)

      below_two : n 0 ≡ 0 → n 1 ≡ 0 → (k : ℕ) → k < 2 → n k ≡ 0
      below_two e d zero lt = e
      below_two e d (suc zero) lt = d
      below_two e d (suc (suc k)) lt = absurd (omega arith)

      below_three : n 0 ≡ 0 → n 1 ≡ 0 → n 2 ≡ 0 → (k : ℕ) → k < 3 → n k ≡ 0
      below_three e d c zero lt = e
      below_three e d c (suc zero) lt = d
      below_three e d c (suc (suc zero)) lt = c
      below_three e d c (suc (suc (suc k))) lt = absurd (omega arith)

zero_word : (n : ℕ → ℕ) (k : ℕ) → word n ≡ 0 → k < 4 → n k ≡ 0
unfolding word
zero_word n zero e lt = omega arith
zero_word n (suc zero) e lt = omega arith
zero_word n (suc (suc zero)) e lt = omega arith
zero_word n (suc (suc (suc zero))) e lt = omega arith
zero_word n (suc (suc (suc (suc k)))) e lt = absurd (omega arith)

-- The registers are zero exactly if nothing is pending.
pub none_pending : (n : ℕ → ℕ) → word n ≡ 0 → (j : ℕ) → j < 32 → pending n j ≡ false
unfolding pending
none_pending n e j lt =
    bit_zero (n (j / 8)) (j % 8) (zero_word n (j / 8) e (omega arith)) (omega arith)
