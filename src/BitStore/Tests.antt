-- ===== src/BitStore/Tests.antt =====
-- The theorems on stores at concrete ones.
use asx.Base.{ℕ, ◌<◌, ◌≡◌, refl, arith, true, false, not, none, some, ◌⊎◌, ◌≤◌, ◌^◌, ◌+◌}
use asx.BitStore.{
  BitStore, SingleStore, set, get, reset, toggle, bitwise_xor, bitwise_and, bitwise_or, equal,
  single_set, single_get, single_reset, single_toggle, single_xor, single_and, single_or,
  single_equal,
}
use asx.BitStore.Get.{Updates, set-reset-toggle}
use asx.BitStore.Wide.{reset_wide}
use asx.BitStore.Single.{general, single_lem}

-- Bits 0, 2 and 5.
abbrev three : BitStore
three = record { bits = 37 }

set-reset-toggle_example :
    Updates 6 three 2 true (set 6 three 2 true)
    × Updates 6 three 2 false (reset 6 three 2)
    × Updates 6 three 2 (not (get 6 three 2)) (toggle 6 three 2)
set-reset-toggle_example = set-reset-toggle 6 2 three true (omega arith) (omega arith) (omega arith)

-- Bits 3 and 20 of a store of 24: bit 20 is lost.
abbrev upper : BitStore
upper = record { bits = 2 ^ 20 + 8 }

reset_wide_example :
    ((16 ≤ 3)
      × (set 24 upper 3 true ≡ none)
      × (reset 24 upper 3 ≡ none)
      × (toggle 24 upper 3 ≡ none))
    ⊎ ((3 < 16)
        × ((after : BitStore) × (reset 24 upper 3 ≡ some after)
            × ((j : ℕ) → 16 ≤ j → get 24 after j ≡ false)))
reset_wide_example = reset_wide 24 3 upper true (omega arith) (omega arith) (omega arith)

reset-upper : (get 24 upper 20 ≡ true) × (reset 24 upper 3 ≡ some (record { bits = 0 }))
unfolding get reset
reset-upper = (refl, refl)

abbrev raised : SingleStore
raised = record { bit = true }

abbrev lowered : SingleStore
lowered = record { bit = false }

single_lem_example :
    (set 1 (general raised) 0 false ≡ some (general (single_set raised 0 false)))
    × (get 1 (general raised) 0 ≡ single_get raised 0)
    × (reset 1 (general raised) 0 ≡ some (general (single_reset raised 0)))
    × (toggle 1 (general raised) 0 ≡ some (general (single_toggle raised 0)))
    × (bitwise_xor 1 (general raised) (general lowered) ≡ general (single_xor raised lowered))
    × (bitwise_and 1 (general raised) (general lowered) ≡ general (single_and raised lowered))
    × (bitwise_or 1 (general raised) (general lowered) ≡ general (single_or raised lowered))
    × (equal 1 (general raised) (general lowered) ≡ single_equal raised lowered)
single_lem_example = single_lem raised lowered 0 false
