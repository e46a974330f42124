-- ===== src/BitStore.antt =====
-- include/asx/bitstore.hpp: `BitStore<N>`, a set of N <= 32 bits in an unsigned integer, and its
-- specialization `BitStore<1>`. `none` is a shift by the width of its operand or more, which C++
-- leaves undefined: `1U` is an `unsigned int` of 16 bits.
pub mod Get
pub mod Operators
pub mod Wide
pub mod Single
pub mod Iterate
mod Tests
use asx.Base.{ℕ, zero, suc, ◌+◌, ◌-◌, ◌/◌, ◌%◌, ◌^◌, bit_and, bit_or, bit_xor}
use asx.Base.{Bool, true, false, not, Option, none, some, List, [], ◌∷◌, ◌>>=◌}
use asx.Base.{ltb, leb, ◌==◌, if◌then◌else◌}
use asx.Base.Digits.{xor}

-- The width of `storage_t`.
abbrev pub width : ℕ → ℕ
width n = if leb n 8 then 8 else if leb n 16 then 16 else 32

pub record BitStore : Type 0 where
  pub bits : ℕ

-- `1U << pos`, and `~` of an `unsigned int`.
abbrev pub one_shifted : ℕ → Option ℕ
one_shifted pos = if ltb pos 16 then some (2 ^ pos) else none

abbrev pub invert : ℕ → ℕ
invert mask = 2 ^ 16 - 1 - mask

-- The members of `BitStore<n>`.
module _ (n : ℕ) where
  -- A value that is assigned to the storage.
  abbrev pub stored : ℕ → BitStore
  stored value = record { bits = value % 2 ^ width n }

  -- The constructors.
  unfoldable pub empty : BitStore
  empty = stored 0

  unfoldable pub from_value : ℕ → BitStore
  from_value value = stored value

  unfoldable pub set : BitStore → ℕ → Bool → Option BitStore
  set s pos value =
      if ltb pos n
      then (do
        mask ← one_shifted pos
        some (if value then stored (bit_or s.bits mask) else stored (bit_and s.bits (invert mask))))
      else some s

  -- `bits >> pos`: the shift of a storage of fewer than 16 bits is that of an `int`.
  unfoldable pub get : BitStore → ℕ → Bool
  get s pos = if ltb pos n then bit_and (s.bits / 2 ^ pos) 1 == 1 else false

  unfoldable pub reset : BitStore → ℕ → Option BitStore
  reset s pos =
      if ltb pos n
      then (do mask ← one_shifted pos; some (stored (bit_and s.bits (invert mask))))
      else some s

  unfoldable pub toggle : BitStore → ℕ → Option BitStore
  toggle s pos =
      if ltb pos n then (do mask ← one_shifted pos; some (stored (bit_xor s.bits mask))) else some s

  unfoldable pub bitwise_xor : BitStore → BitStore → BitStore
  bitwise_xor s other = from_value (bit_xor s.bits other.bits)

  unfoldable pub bitwise_and : BitStore → BitStore → BitStore
  bitwise_and s other = from_value (bit_and s.bits other.bits)

  unfoldable pub bitwise_or : BitStore → BitStore → BitStore
  bitwise_or s other = from_value (bit_or s.bits other.bits)

  unfoldable pub equal : BitStore → BitStore → Bool
  equal s other = s.bits == other.bits

-- `BitStore<n>::Iterator`: the store that it looks at, and a position.
pub record Iterator : Type 0 where
  pub bit_store : BitStore
  pub pos : ℕ

module _ (n : ℕ) where
  unfoldable pub begin : BitStore → Iterator
  begin s = record { bit_store = s; pos = 0 }

  unfoldable pub end : BitStore → Iterator
  end s = record { bit_store = s; pos = n }

  unfoldable pub deref : Iterator → Bool
  deref it = get n it.bit_store it.pos

unfoldable pub increment : Iterator → Iterator
increment it = record it { pos = it.pos + 1 }

unfoldable pub differs : Iterator → Iterator → Bool
differs it other = not (it.pos == other.pos)

-- `BitStore<1>`
pub record SingleStore : Type 0 where
  pub bit : Bool

unfoldable pub single_set : SingleStore → ℕ → Bool → SingleStore
single_set s pos value = if pos == 0 then record { bit = value } else s

unfoldable pub single_get : SingleStore → ℕ → Bool
single_get s pos = if pos == 0 then s.bit else false

unfoldable pub single_reset : SingleStore → ℕ → SingleStore
single_reset s pos = if pos == 0 then record { bit = false } else s

unfoldable pub single_toggle : SingleStore → ℕ → SingleStore
single_toggle s pos = if pos == 0 then record { bit = not s.bit } else s

unfoldable pub single_xor : SingleStore → SingleStore → SingleStore
single_xor s other = record { bit = xor s.bit other.bit }

unfoldable pub single_and : SingleStore → SingleStore → SingleStore
single_and s other = record { bit = if s.bit then other.bit else false }

unfoldable pub single_or : SingleStore → SingleStore → SingleStore
single_or s other = record { bit = if s.bit then true else other.bit }

unfoldable pub single_equal : SingleStore → SingleStore → Bool
single_equal s other = not (xor s.bit other.bit)
