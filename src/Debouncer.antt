-- ===== src/Debouncer.antt =====
-- include/asx/debouncer.hpp: `Debouncer<N, THR>`, an integrator for each of N inputs that are sampled
-- together. `none` is a shift that C++ leaves undefined, in a store of more than 16 bits.
pub mod Inputs
mod Tests
use asx.Base.{ℕ, zero, suc, ◌+◌, ◌-◌, Bool, true, false, Option, some, ◌>>=◌}
use asx.Base.{u8, ltb, ◌==◌, if◌then◌else◌}
use asx.BitStore.{BitStore, set, get, reset, bitwise_xor, bitwise_and, from_value}

pub record Debouncer : Type 0 where
  pub inputs : BitStore
  pub integrator : ℕ → ℕ

abbrev pub update : (ℕ → ℕ) → ℕ → ℕ → ℕ → ℕ
update f i v j = if i == j then v else f j

module _ (n threshold : ℕ) where
  -- The integrator of an input behind a sample.
  unfoldable pub integrate : Bool → ℕ → ℕ
  integrate true k = if ltb k threshold then u8 (k + 1) else k
  integrate false k = if ltb 0 k then k - 1 else k

  -- What a round of the loop does to the bit of the input.
  unfoldable pub update_bit : Bool → ℕ → BitStore → ℕ → Option BitStore
  update_bit true k inputs i = if k == threshold then set n inputs i true else some inputs
  update_bit false k inputs i = if k == 0 then reset n inputs i else some inputs

  -- The rounds of the loop of `append` from `i` on.
  unfoldable pub append_from : BitStore → ℕ → ℕ → Debouncer → Option Debouncer
  append_from sample zero i d = some d
  append_from sample (suc rounds) i d =
      let level = get n sample i in
      let k = integrate level (d.integrator i) in
      update_bit level k d.inputs i >>= λ inputs.
      append_from sample rounds (i + 1)
        (record { inputs = inputs; integrator = update d.integrator i k })

  -- `append`: the inputs that have turned on, and the state.
  unfoldable pub append : Debouncer → ℕ → Option (BitStore × Debouncer)
  append d raw_sample = append_from (from_value n raw_sample) n 0 d >>= λ d'.
      some (bitwise_and n (bitwise_xor n d.inputs d'.inputs) d'.inputs, d')
