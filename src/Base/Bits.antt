-- ===== src/Base/Bits.antt =====
-- The bits of a byte under `|` and `&`: the facts hold of each byte by evaluation.
use Prim.Native.Nat.{ℕ, zero, suc, ◌-◌, ◌^◌, ◌<◌, bit_and, bit_or}
use mathlib.Core.Path.{◌≡◌, refl}
use mathlib.Core.Bool.{Bool, true, false, not, ◌&&◌, ◌||◌}
use native.Mathlib.Omega.{arith}
use asx.Base.Tests.{ltb, ◌==◌, ==_iff}

-- A test of every number below a bound, and what it shows.
unfoldable pub all_below : ℕ → (ℕ → Bool) → Bool
all_below zero p = true
all_below (suc n) p = all_below n p && p n

pub all_below-true : (n : ℕ) (p : ℕ → Bool) (x : ℕ) → all_below n p ≡ true → x < n → p x ≡ true
unfolding all_below
all_below-true zero p x h lt = absurd (omega arith)
all_below-true (suc n) p x h lt = ground (arith, all_below-true n p x)

-- An equation that a run over all values below `n` finds.
pub all_equal :
    (n : ℕ) (f g : ℕ → ℕ) (x : ℕ) → all_below n (λ i. f i == g i) ≡ true → x < n → f x ≡ g x
all_equal n f g x h lt = (==_iff (f x) (g x)).0 (all_below-true n (λ i. f i == g i) x h lt)

abbrev same : Bool → Bool → Bool
same true b = b
same false b = not b

same-true : (a b : Bool) → same a b ≡ true → a ≡ b
same-true a b h = ground arith

and_true : (a b : Bool) → (a && b) ≡ true → (a ≡ true) × (b ≡ true)
and_true a b h = ground arith

-- Bit `i` of a byte.
unfoldable pub bit : ℕ → ℕ → Bool
bit b i = not (bit_and b (2 ^ i) == 0)

set_table :
    all_below 256 (λ b. all_below 8 (λ i.
      ltb (bit_or b (2 ^ i)) 256
      && all_below 8 (λ j. same (bit (bit_or b (2 ^ i)) j) ((i == j) || bit b j))))
    ≡ true
unfolding all_below bit
set_table = refl

reset_table :
    all_below 256 (λ b. all_below 8 (λ i.
      ltb (bit_and b (255 - 2 ^ i)) 256
      && all_below 8 (λ j. same (bit (bit_and b (255 - 2 ^ i)) j) (not (i == j) && bit b j))))
    ≡ true
unfolding all_below bit
reset_table = refl

module _ (b i : ℕ) (byte : b < 256) (small : i < 8) where
  set_facts :
      (ltb (bit_or b (2 ^ i)) 256 ≡ true)
      × (all_below 8 (λ j. same (bit (bit_or b (2 ^ i)) j) ((i == j) || bit b j)) ≡ true)
  set_facts = and_true _ _ (all_below-true 8 _ i (all_below-true 256 _ b set_table byte) small)

  reset_facts :
      (ltb (bit_and b (255 - 2 ^ i)) 256 ≡ true)
      × (all_below 8 (λ j. same (bit (bit_and b (255 - 2 ^ i)) j) (not (i == j) && bit b j)) ≡ true)
  reset_facts = and_true _ _ (all_below-true 8 _ i (all_below-true 256 _ b reset_table byte) small)

  -- `b | (1 << i)` is a byte, with bit `i` set and the others as in `b`.
  pub bit_or_byte : bit_or b (2 ^ i) < 256
  bit_or_byte = ground (arith, set_facts.0)

  pub bit-bit_or : (j : ℕ) → j < 8 → bit (bit_or b (2 ^ i)) j ≡ ((i == j) || bit b j)
  bit-bit_or j lt = same-true _ _ (all_below-true 8 _ j set_facts.1 lt)

  -- `b & ~(1 << i)` is a byte, with bit `i` clear and the others as in `b`.
  pub bit_and_byte : bit_and b (255 - 2 ^ i) < 256
  bit_and_byte = ground (arith, reset_facts.0)

  pub bit-bit_and : (j : ℕ) → j < 8 → bit (bit_and b (255 - 2 ^ i)) j ≡ (not (i == j) && bit b j)
  bit-bit_and j lt = same-true _ _ (all_below-true 8 _ j reset_facts.1 lt)

all_ones_table : all_below 256 (λ b. bit_and b 255 == b) ≡ true
unfolding all_below
all_ones_table = refl

pub bit_and_all_ones : (b : ℕ) → b < 256 → bit_and b 255 ≡ b
bit_and_all_ones b byte = (==_iff _ _).0 (all_below-true 256 _ b all_ones_table byte)
