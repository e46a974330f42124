-- ===== src/Mem/Tests.antt =====
-- The theorem on the heap at a concrete one.
use asx.Base.{ℕ, ◌+◌, ◌^◌, ◌<◌, ◌≤◌, ◌≡◌, ◌⊎◌, refl, arith, ltb, if◌then◌else◌}
use mathlib.Core.Logic.{◌≢◌}
use asx.Base.Outcome.{returned, alerted}
use asx.Mem.{Heap, block_size, heap_stack_guard, untouched, guarded, memset, calloc}
use asx.Mem.Blocks.{calloc_lem}

-- Memory that is free up to address 200, where the stack is.
abbrev ram : ℕ → ℕ
ram a = if ltb a 200 then 0xaa else 7

abbrev heap : Heap
heap = record { next_block = 100; ram = ram }

calloc_lem_example :
    ((calloc 3 4 heap ≡ alerted)
      × ((i : ℕ) × (i < block_size 3 4 + heap_stack_guard) × (ram (100 + i) ≢ 0xaa)))
    ⊎ ((h' : Heap) × (calloc 3 4 heap ≡ returned (100, h'))
        × (h'.next_block ≡ 100 + block_size 3 4)
        × ((i : ℕ) → i < block_size 3 4 + heap_stack_guard → ram (100 + i) ≡ 0xaa)
        × ((a : ℕ) → 100 ≤ a → a < h'.next_block → h'.ram a ≡ 0)
        × ((a : ℕ) → a < 2 ^ 16 → (a < 100) ⊎ (h'.next_block ≤ a) → h'.ram a ≡ ram a))
calloc_lem_example = calloc_lem 3 4 heap (omega arith)

-- A block that does not fit in front of the stack and the guard, and a product of 2 ^ 16.
calloc-heap :
    (calloc 10 7 heap ≡ alerted)
    × (calloc 1 0x10000 heap
        ≡ returned (100, record { next_block = 100; ram = memset ram 100 0 0 }))
unfolding calloc guarded untouched
calloc-heap = (refl, refl)

-- A block of 65505 bytes: the pointer wraps around, one byte is tested, and all others are cleared,
-- the stack at address 200 with them.
calloc-wraps :
    calloc 1 65505 heap ≡ returned (100, record { next_block = 69; ram = memset ram 100 0 65505 })
unfolding calloc guarded untouched
calloc-wraps = refl

memset-stack : memset ram 100 0 65505 200 ≡ 0
memset-stack = refl
