-- ===== src/BitStore/Single.antt =====
-- include/asx/bitstore.hpp: the specialization `BitStore<1>` and the general class at N = 1.
use asx.Base.{ℕ, zero, suc, ◌≡◌, refl, arith, Bool, true, false, some, ltb, ◌==◌, if◌then◌else◌}
use asx.BitStore.{
  BitStore, SingleStore, set, get, reset, toggle, bitwise_xor, bitwise_and, bitwise_or, equal,
  from_value, single_set, single_get, single_reset, single_toggle, single_xor, single_and,
  single_or, single_equal,
}

-- The same store in the general class.
abbrev pub general : SingleStore → BitStore
general s = record { bits = if s.bit then 1 else 0 }

-- The members that write or read position `pos`.
by_position :
    (b : Bool) (pos : ℕ) (value : Bool)
    → (set 1 (general (record { bit = b })) pos value
        ≡ some (general (single_set (record { bit = b }) pos value)))
      × (get 1 (general (record { bit = b })) pos ≡ single_get (record { bit = b }) pos)
      × (reset 1 (general (record { bit = b })) pos
          ≡ some (general (single_reset (record { bit = b }) pos)))
      × (toggle 1 (general (record { bit = b })) pos
          ≡ some (general (single_toggle (record { bit = b }) pos)))
unfolding set get reset toggle single_set single_get single_reset single_toggle
by_position true zero true = (refl, refl, refl, refl)
by_position true zero false = (refl, refl, refl, refl)
by_position false zero true = (refl, refl, refl, refl)
by_position false zero false = (refl, refl, refl, refl)
by_position b (suc pos) value =
    let above : ltb (suc pos) 1 ≡ false = ground arith in
    let not_first : (suc pos == 0) ≡ false = ground arith in
    rw (above, not_first) (refl, refl, refl, refl)

-- The operators.
by_bits :
    (b c : Bool)
    → (bitwise_xor 1 (general (record { bit = b })) (general (record { bit = c }))
        ≡ general (single_xor (record { bit = b }) (record { bit = c })))
      × (bitwise_and 1 (general (record { bit = b })) (general (record { bit = c }))
          ≡ general (single_and (record { bit = b }) (record { bit = c })))
      × (bitwise_or 1 (general (record { bit = b })) (general (record { bit = c }))
          ≡ general (single_or (record { bit = b }) (record { bit = c })))
      × (equal 1 (general (record { bit = b })) (general (record { bit = c }))
          ≡ single_equal (record { bit = b }) (record { bit = c }))
unfolding bitwise_xor bitwise_and bitwise_or from_value equal single_xor single_and single_or
    single_equal
by_bits true true = (refl, refl, refl, refl)
by_bits true false = (refl, refl, refl, refl)
by_bits false true = (refl, refl, refl, refl)
by_bits false false = (refl, refl, refl, refl)

-- The specialization for one bit and the general class do the same at every position: the members
-- that write, `get`, and the operators.
pub single_lem :
    (s other : SingleStore) (pos : ℕ) (value : Bool)
    → (set 1 (general s) pos value ≡ some (general (single_set s pos value)))
      × (get 1 (general s) pos ≡ single_get s pos)
      × (reset 1 (general s) pos ≡ some (general (single_reset s pos)))
      × (toggle 1 (general s) pos ≡ some (general (single_toggle s pos)))
      × (bitwise_xor 1 (general s) (general other) ≡ general (single_xor s other))
      × (bitwise_and 1 (general s) (general other) ≡ general (single_and s other))
      × (bitwise_or 1 (general s) (general other) ≡ general (single_or s other))
      × (equal 1 (general s) (general other) ≡ single_equal s other)
single_lem s other pos value =
    let (a, b, c, d) = by_position s.bit pos value in
    let (e, f, g, h) = by_bits s.bit other.bit in (a, b, c, d, e, f, g, h)
