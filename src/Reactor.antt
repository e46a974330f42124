-- ===== src/Reactor.antt =====
-- src/reactor.c: handlers in an array, and one notification bit for each, in the registers GPIO0 to
-- GPIO3. `none` is an access outside the array or the registers, or a call of a null pointer, which
-- C leaves undefined. The log, the debug pins and the watchdog are left out.
pub mod Register
pub mod Pending
pub mod Notify
pub mod Mask
pub mod First
pub mod Serve
pub mod Drain
mod Tests
use asx.Base.{ℕ, zero, suc, ◌+◌, ◌-◌, ◌*◌, ◌/◌, ◌%◌, ◌^◌, bit_and, bit_or}
use asx.Base.{Bool, true, false, not, ◌&&◌, Option, none, some, List, [], ◌∷◌, ◌>>=◌}
use asx.Base.{u8, ltb, ◌==◌, if◌then◌else◌, get_or}
use asx.Base.Outcome.{Outcome, returned, alerted, unfinished}

-- REACTOR_NULL_HANDLE and REACTOR_MAX_HANDLERS; a null pointer is 0.
abbrev pub null_handle : ℕ
null_handle = 255

abbrev pub max_handlers : ℕ
max_handlers = 32

abbrev pub prio_low : ℕ
prio_low = 0

-- `reactor_item_t`
pub record Item : Type 0 where
  pub handler : ℕ
  pub arg : ℕ

-- The static variables; `notifications` are the four registers.
pub record Reactor : Type 0 where
  pub handlers : ℕ → Item
  pub lock : Bool
  pub running_handle : ℕ
  pub notifications : ℕ → ℕ

-- An assignment to one item of an array.
abbrev pub update {ℓ} : {A : Type ℓ} → (ℕ → A) → ℕ → A → ℕ → A
update f i v j = if i == j then v else f j

abbrev pub bit_shift_table : List ℕ
bit_shift_table = 0x01 ∷ 0x02 ∷ 0x04 ∷ 0x08 ∷ 0x10 ∷ 0x20 ∷ 0x40 ∷ 0x80 ∷ []

-- The static initialisers, with the registers as a reset leaves them.
unfoldable pub init : Reactor
init = record {
  handlers = λ _. record { handler = 0; arg = 0 };
  lock = false;
  running_handle = null_handle;
  notifications = λ _. 0;
}

-- The loop of `reactor_register`: `step` is 1, or 255 for the `int8_t` -1 added to a `uint8_t`. It
-- goes on behind the slot that it takes, to count those that are left for the log.
unfoldable pub register_loop : ℕ → ℕ → ℕ → ℕ → (ℕ → Item) → ℕ → ℕ → Outcome (ℕ × (ℕ → Item))
register_loop zero handler step end handlers i retval = unfinished
register_loop (suc fuel) handler step end handlers i retval =
    let takes = ((handlers i).handler == 0) && (retval == null_handle) in
    let handlers' =
      if takes then update handlers i (record (handlers i) { handler = handler }) else handlers in
    let rest =
      register_loop fuel handler step end handlers' (u8 (i + step)) (if takes then i else retval) in
    if i == end then returned (retval, handlers) else rest

-- What `reactor_register` does with the slot found.
unfoldable pub found_slot : Reactor → Outcome (ℕ × (ℕ → Item)) → Outcome (ℕ × Reactor)
found_slot r (returned (retval, handlers)) =
    if retval == null_handle then alerted else returned (retval, record r { handlers = handlers })
found_slot r alerted = alerted
found_slot r unfinished = unfinished

-- `reactor_register`: the handle and the state.
unfoldable pub register : Reactor → ℕ → ℕ → Outcome (ℕ × Reactor)
register r handler priority =
    let low = priority == prio_low in
    let start = if low then max_handlers - 1 else 0 in
    let end = if low then 0 else max_handlers in
    let step = if low then 255 else 1 in
    if r.lock
    then alerted
    else found_slot r
        (register_loop (suc max_handlers) handler step end r.handlers start null_handle)

unfoldable pub null_notify_from_isr : Reactor → ℕ → Option Reactor
null_notify_from_isr r handle =
    let byte_index = handle / 8 in
    let byte = bit_or (r.notifications byte_index) (get_or bit_shift_table (handle % 8) 0) in
    if handle == null_handle
    then some r
    else if ltb byte_index 4
    then some (record r { notifications = update r.notifications byte_index byte })
    else none

-- `reactor_mask_of`, a `uint32_t` in which one of the four bytes is written.
unfoldable pub mask_of : ℕ → Option ℕ
mask_of handle =
    if handle == null_handle
    then some 0
    else if ltb (handle / 8) 4
    then some (get_or bit_shift_table (handle % 8) 0 * 256 ^ (handle / 8))
    else none

-- `__builtin_ctzl` of a 32-bit number that is not 0: the number of zeros behind its last bit.
unfoldable pub trailing_zeros : ℕ → ℕ → ℕ
trailing_zeros zero mask = 0
trailing_zeros (suc rounds) mask =
    let rest = suc (trailing_zeros rounds (mask / 2)) in if mask % 2 == 1 then 0 else rest

-- `reactor_mask_pop`: the handle, and the mask without it.
unfoldable pub mask_pop : ℕ → Option (ℕ × ℕ)
mask_pop mask =
    let pos = trailing_zeros 32 mask in
    if mask == 0
    then some (null_handle, mask)
    else mask_of pos >>= λ pop_msk. some (pos, bit_and mask (2 ^ 32 - 1 - pop_msk))

unfoldable pub notify : Reactor → ℕ → ℕ → Option Reactor
notify r handle value =
    if handle == null_handle
    then some r
    else if ltb handle max_handlers
    then null_notify_from_isr
        (record r {
          handlers = update r.handlers handle (record (r.handlers handle) { arg = value });
        })
        handle
    else none

-- `reactor_clear`, byte by byte.
unfoldable pub clear : Reactor → ℕ → Reactor
clear r mask = record r {
  notifications = λ k. bit_and (r.notifications k) (255 - mask / 256 ^ k % 256);
}

unfoldable pub yield : Reactor → ℕ → Option Reactor
yield r value = notify r r.running_handle value

-- A handler by its pointer: called with an argument in a state, it leaves a state.
abbrev pub Handlers : Type 0
Handlers = ℕ → ℕ → Reactor → Reactor

-- The call through a function pointer.
unfoldable pub call_item : Handlers → Item → Reactor → Option Reactor
call_item behaviour item r =
    if item.handler == 0 then none else some (behaviour item.handler item.arg r)

unfoldable pub invoke : Handlers → Reactor → ℕ → ℕ → Option Reactor
invoke behaviour r handle value =
    if handle == null_handle
    then some r
    else if ltb handle max_handlers
    then call_item behaviour (record (r.handlers handle) { arg = value }) r
    else none

-- The chain of tests of one register in `reactor_run`: the place of the bit, and the register with
-- the bit cleared. (`~1U` has 16 bits.)
unfoldable pub first_bit : ℕ → Option (ℕ × ℕ)
first_bit b =
    if not (bit_and b 1 == 0)
    then some (0, bit_and b (0xffff - 1))
    else if not (bit_and b 2 == 0)
    then some (1, bit_and b (0xffff - 2))
    else if not (bit_and b 4 == 0)
    then some (2, bit_and b (0xffff - 4))
    else if not (bit_and b 8 == 0)
    then some (3, bit_and b (0xffff - 8))
    else if not (bit_and b 16 == 0)
    then some (4, bit_and b (0xffff - 16))
    else if not (bit_and b 32 == 0)
    then some (5, bit_and b (0xffff - 32))
    else if not (bit_and b 64 == 0)
    then some (6, bit_and b (0xffff - 64))
    else if not (bit_and b 128 == 0)
    then some (7, bit_and b (0xffff - 128))
    else none

-- The index found in register `k`, and the state with its bit cleared.
unfoldable pub take_from : Reactor → ℕ → Option (ℕ × Reactor)
take_from r k = do
  found ← first_bit (r.notifications k)
  some (8 * k + found.0, record r { notifications = update r.notifications k found.1 })

-- The chain over the four registers.
unfoldable pub take_first : Reactor → Option (ℕ × Reactor)
take_first r =
    if not (r.notifications 0 == 0)
    then take_from r 0
    else if not (r.notifications 1 == 0)
    then take_from r 1
    else if not (r.notifications 2 == 0)
    then take_from r 2
    else take_from r 3

-- The four registers as one `uint32_t`.
unfoldable pub word : (ℕ → ℕ) → ℕ
word n = n 0 + 256 * n 1 + 2 ^ 16 * n 2 + 2 ^ 24 * n 3

-- A round of the loop of `reactor_run`: it sleeps, or serves one handler.
unfoldable pub run_round : Handlers → Reactor → Option Reactor
run_round behaviour r = if word r.notifications == 0 then some r else do
  found ← take_first r
  after ←
      call_item behaviour (found.1.handlers found.0) (record found.1 { running_handle = found.0 })
  some (record after { running_handle = null_handle })
