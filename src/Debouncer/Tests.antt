-- ===== src/Debouncer/Tests.antt =====
-- The theorem on the debouncer at concrete inputs.
use asx.Base.{ℕ, ◌<◌, ◌≡◌, arith, refl, not, ◌&&◌, some, if◌then◌else◌, ◌==◌}
use asx.BitStore.{BitStore, get, set, reset, from_value, bitwise_xor, bitwise_and}
use asx.BitStore.Get.{IsStored}
use asx.Debouncer.{Debouncer, integrate, update_bit, append_from, append}
use asx.Debouncer.Inputs.{Filters, append_lem}

-- Four inputs: number 1 is on, number 0 needs one more sample of three.
abbrev keys : Debouncer
keys = record {
  inputs = record { bits = 2 };
  integrator = λ i. if i == 0 then 2 else if i == 1 then 3 else 0;
}

append-keys :
    (d : Debouncer) × (append 4 3 keys 1 ≡ some (record { bits = 1 }, d))
    × (d.inputs ≡ record { bits = 3 })
unfolding append append_from integrate update_bit get set reset from_value bitwise_xor bitwise_and
append-keys = (_, refl, refl)

append_lem_example :
    (changed : BitStore) × (d : Debouncer) × (append 4 3 keys 1 ≡ some (changed, d))
    × IsStored 4 d.inputs
    × ((j : ℕ) → j < 4 → Filters 4 3 (from_value 4 1) keys d j)
    × ((j : ℕ) → j < 4 → get 4 changed j ≡ (not (get 4 keys.inputs j) && get 4 d.inputs j))
append_lem_example =
    append_lem 4 3 keys 1 (omega arith) (omega arith) (λ j lt. ground (arith, lt)) (omega arith)
