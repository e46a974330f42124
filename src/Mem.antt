-- ===== src/Mem.antt =====
-- src/mem.c: the heap, which only grows. The start-up code fills the free memory with 0xaa, and a byte
-- with another value is taken for a part of the stack. A pointer is a 16-bit address.
pub mod Blocks
mod Tests
use asx.Base.{
  ℕ, zero, suc, ◌+◌, ◌-◌, ◌*◌, ◌%◌, ◌^◌, Bool, true, false, not, ltb, ◌==◌, if◌then◌else◌, Option,
  none, some,
}
use asx.Base.Outcome.{Outcome, returned, alerted, unfinished}

abbrev pub heap_stack_guard : ℕ
heap_stack_guard = 32

-- `_heap_allocation_next_block`, and the memory.
pub record Heap : Type 0 where
  pub next_block : ℕ
  pub ram : ℕ → ℕ

-- `__nele * __size`, of the 16 bits of a `size_t`.
abbrev pub block_size : ℕ → ℕ → ℕ
block_size nele size = nele * size % 2 ^ 16

-- The pointer `n` bytes behind another.
abbrev pub plus : ℕ → ℕ → ℕ
plus p n = (p + n) % 2 ^ 16

-- The rounds of a `do` loop that ends when the pointer, advanced by one in each, has come from `check`
-- to `last`: at least one, and once around the addresses if the two are equal.
abbrev pub loop_rounds : ℕ → ℕ → ℕ
loop_rounds check last = (last + (2 ^ 16 - 1) - check) % 2 ^ 16 + 1

-- That loop, which tests the byte at `check`, on fuel.
unfoldable pub untouched : ℕ → (ℕ → ℕ) → ℕ → ℕ → Option Bool
untouched zero ram check last = none
untouched (suc fuel) ram check last =
    let rest = untouched fuel ram (plus check 1) last in
    if not (ram check == 0xaa)
    then some false
    else (if plus check 1 == last then some true else rest)

-- `memset`
abbrev pub memset : (ℕ → ℕ) → ℕ → ℕ → ℕ → ℕ → ℕ
memset ram start value n a = if ltb ((a + 2 ^ 16 - start) % 2 ^ 16) n then value else ram a

-- What the loop decides: `unfinished` is fuel that ran out.
unfoldable pub guarded {ℓ} : {A : Type ℓ} → Option Bool → A → Outcome A
guarded none block = unfinished
guarded (some false) block = alerted
guarded (some true) block = returned block

-- `mem_calloc`: the address of the block, and the heap.
unfoldable pub calloc : ℕ → ℕ → Heap → Outcome (ℕ × Heap)
calloc nele size h =
    let n = block_size nele size in
    let next = plus h.next_block n in
    let last = plus next heap_stack_guard in
    guarded (untouched (loop_rounds h.next_block last) h.ram h.next_block last)
      (h.next_block, record { next_block = next; ram = memset h.ram h.next_block 0 n })
