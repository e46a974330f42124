-- ===== src/Debouncer/Inputs.antt =====
-- include/asx/debouncer.hpp: each input is filtered by itself.
use asx.Base.{ℕ, zero, suc, ◌+◌, ◌-◌, ◌≤◌, ◌<◌, ◌≡◌, refl, ap, ◌∙◌, arith, inl, inr, subst, sym}
use asx.Base.{
  Bool, true, false, not, ◌&&◌, some, ◌==◌, ==_iff, ==_true, ==_false, if◌then◌else◌, Bool-cases,
}
use native.Mathlib.Nat.{one-le-pow}
use asx.BitStore.{BitStore, width, get, from_value, bitwise_xor, bitwise_and}
use asx.BitStore.Get.{IsStored, pow_fits, Updates, set-reset-toggle}
use asx.BitStore.Operators.{operators_lem}
use asx.Debouncer.{Debouncer, update, integrate, update_bit, append_from, append}

-- One input alone: its state behind a sample, from its integrator behind the sample.
abbrev pub filtered : ℕ → Bool → ℕ → Bool → Bool
filtered threshold true k before = if k == threshold then true else before
filtered threshold false k before = if k == 0 then false else before

-- The integrator of an input takes one step towards the level, and stays at both ends.
abbrev pub moved : ℕ → Bool → ℕ → ℕ
moved threshold true k = if k == threshold then k else k + 1
moved threshold false k = k - 1

moved_lem :
    (n threshold : ℕ) (level : Bool) (k : ℕ)
    → threshold < 256
    → k ≤ threshold
    → integrate n threshold level k ≡ moved threshold level k
unfolding integrate
moved_lem n threshold true k byte le = ground (arith, byte, le)
moved_lem n threshold false k byte le = ground arith

moved_below :
    (threshold : ℕ) (level : Bool) (k : ℕ) → k ≤ threshold → moved threshold level k ≤ threshold
moved_below threshold true k le = ground (arith, le)
moved_below threshold false k le = omega (arith, le)

keeps : (i j : ℕ) (b : ℕ → Bool) → b j ≡ (if i == j then b i else b j)
keeps i j b = elim (Bool-cases (i == j)) [
  | inl e ↦ rw e (ap b (sym ((==_iff i j).0 e)))
  | inr e ↦ rw e refl
]

-- Input `j` of `d` behind a sample, in `d'`: its integrator has moved, and it has turned on at the
-- threshold and off at zero.
abbrev pub Filters : ℕ → ℕ → BitStore → Debouncer → Debouncer → ℕ → Type 0
Filters n threshold sample d d' j =
    (d'.integrator j ≡ moved threshold (get n sample j) (d.integrator j))
    × (get n d'.inputs j ≡ filtered threshold (get n sample j) (d'.integrator j) (get n d.inputs j))
    × (d'.integrator j ≤ threshold)

-- The same by the integrator of the code.
abbrev Steps : ℕ → ℕ → BitStore → Debouncer → Debouncer → ℕ → Type 0
Steps n threshold sample d d' j =
    (d'.integrator j ≡ integrate n threshold (get n sample j) (d.integrator j))
    × (get n d'.inputs j
        ≡ filtered threshold (get n sample j)
            (integrate n threshold (get n sample j) (d.integrator j)) (get n d.inputs j))

module _ (n threshold : ℕ) (wide : n ≤ 16) where
  update_bit_lem :
      (level : Bool) (k i : ℕ) (s : BitStore)
      → i < n
      → IsStored n s
      → Updates n s i (filtered threshold level k (get n s i)) (update_bit n threshold level k s i)
  unfolding update_bit
  update_bit_lem true k i s lt small = elim (Bool-cases (k == threshold)) [
    | inl e ↦ rw e (set-reset-toggle n i s true wide lt small).0
    | inr e ↦ rw e (s, refl, small, λ j. keeps i j (get n s))
  ]
  update_bit_lem false k i s lt small = elim (Bool-cases (k == 0)) [
    | inl e ↦ rw e (let (_, r, _) = set-reset-toggle n i s true wide lt small in r)
    | inr e ↦ rw e (s, refl, small, λ j. keeps i j (get n s))
  ]

  -- The rounds from `i` on take the inputs from `i` on a step further.
  append_from_lem :
      (rounds i : ℕ) (sample : BitStore) (d : Debouncer)
      → i + rounds ≡ n
      → IsStored n d.inputs
      → (d' : Debouncer) × (append_from n threshold sample rounds i d ≡ some d')
        × IsStored n d'.inputs
        × ((j : ℕ) → i ≤ j → j < n → Steps n threshold sample d d' j)
        × ((j : ℕ)
            → j < i
            → (d'.integrator j ≡ d.integrator j) × (get n d'.inputs j ≡ get n d.inputs j))
  unfolding append_from
  append_from_lem zero i sample d e small =
      (d, refl, small, λ j le lt. absurd (omega arith), λ j lt. (refl, refl))
  append_from_lem (suc rounds) i sample d e small =
      let level : Bool = get n sample i in
      let k : ℕ = integrate n threshold level (d.integrator i) in
      let (s, runs, small', bits) = update_bit_lem level k i d.inputs (omega arith) small in
      let next : Debouncer = record { inputs = s; integrator = update d.integrator i k } in
      let (d', runs', small'', stepped, left) =
        append_from_lem rounds (i + 1) sample next (omega arith) small' in
      (
        d',
        rw runs runs',
        small'',
        λ j le lt. elim (Bool-cases (i == j)) [
          | inl same ↦
              let here : i ≡ j = (==_iff i j).0 same in
              let (a, b) = left i (omega arith) in
              subst (Steps n threshold sample d d') here
                (a ∙ rw (==_true i i refl) refl, b ∙ (bits i ∙ rw (==_true i i refl) refl))
          | inr other ↦
              let (a, b) = stepped j (above i j le other) lt in
              (a ∙ rw other refl, b ∙ rw (bits j, other) refl)
        ],
        λ j lt.
            let (a, b) = left j (omega arith) in
            let other = ==_false i j (λ q. absurd (omega (arith, q, lt))) in
            (a ∙ rw other refl, b ∙ (bits j ∙ rw other refl)),
      )
    where
      above : (i j : ℕ) → i ≤ j → (i == j) ≡ false → i + 1 ≤ j
      above i j le other = ground (arith, le, other)

-- The bits of the answer.
changed_bits :
    (n : ℕ) (before after : BitStore)
    → n ≤ 16
    → IsStored n before
    → IsStored n after
    → (j : ℕ)
    → get n (bitwise_and n (bitwise_xor n before after) after) j
      ≡ (not (get n before j) && get n after j)
unfolding bitwise_xor from_value
changed_bits n before after wide small small' j =
    let held = pow_fits n after.bits wide small' in
    let both =
      operators_lem n (bitwise_xor n before after) after (omega (arith, one-le-pow (width n) 2))
        held j in
    let differing = operators_lem n before after (pow_fits n before.bits wide small) held j in
    both.1 ∙ ground (arith, differing.0)

Steps-Filters :
    (n threshold : ℕ) (sample : BitStore) (d d' : Debouncer) (j : ℕ)
    → threshold < 256
    → d.integrator j ≤ threshold
    → Steps n threshold sample d d' j
    → Filters n threshold sample d d' j
Steps-Filters n threshold sample d d' j byte le (stepped, turned) =
    let here = stepped ∙ moved_lem n threshold (get n sample j) (d.integrator j) byte le in
    (
      here,
      turned ∙ ap (λ k. filtered threshold (get n sample j) k (get n d.inputs j)) (sym stepped),
      subst (λ k. k ≤ threshold) (sym here)
          (moved_below threshold (get n sample j) (d.integrator j) le),
    )

-- `append` of a sample filters each input by itself: its integrator moves by one towards the sampled
-- level and stays between zero and the threshold, the input turns on at the threshold and off at zero,
-- and the answer has the bits of the inputs that were off and are on now. (For at most 16 inputs, a
-- threshold of 8 bits, and integrators up to the threshold, as they are at first.)
pub append_lem :
    (n threshold : ℕ) (d : Debouncer) (raw_sample : ℕ)
    → n ≤ 16
    → threshold < 256
    → ((j : ℕ) → j < n → d.integrator j ≤ threshold)
    → IsStored n d.inputs
    → (changed : BitStore) × (d' : Debouncer) × (append n threshold d raw_sample
        ≡ some (changed, d'))
      × IsStored n d'.inputs
      × ((j : ℕ) → j < n → Filters n threshold (from_value n raw_sample) d d' j)
      × ((j : ℕ) → j < n → get n changed j ≡ (not (get n d.inputs j) && get n d'.inputs j))
unfolding append
append_lem n threshold d raw_sample wide byte bounded small =
    let (d', runs, small', steps, _) =
      append_from_lem n threshold wide n 0 (from_value n raw_sample) d (omega arith) small in
    (
      bitwise_and n (bitwise_xor n d.inputs d'.inputs) d'.inputs,
      d',
      rw runs refl,
      small',
      λ j lt.
          Steps-Filters n threshold (from_value n raw_sample) d d' j byte (bounded j lt)
            (steps j (omega arith) lt),
      λ j lt. changed_bits n d.inputs d'.inputs wide small small' j,
    )
