-- ===== src/I2c/Master.antt =====
-- src/i2c_master.cpp, include/asx/i2c_master.hpp: the master of an i2c bus, driven by the interrupts of
-- its peripheral. What it asks of the peripheral and of the reactor is a list of commands. `none` is an
-- access outside the three bytes of an address.
pub mod Send
pub mod Receive
pub mod Transfer
use asx.Base.{
  ℕ, suc, ◌+◌, ◌*◌, Bool, true, false, not, ◌&&◌, ◌||◌, Option, none, some, List, [], ◌∷◌, ◌++◌,
  ◌>>=◌,
}
use asx.Base.{u8, ltb, ◌==◌, if◌then◌else◌, bit_or}

-- `status_code_t`
pub data StatusCode : Type 0 where
  status_ok : StatusCode
  err_io_error : StatusCode
  err_flushed : StatusCode
  err_timeout : StatusCode
  err_bad_data : StatusCode
  err_protocol : StatusCode
  err_unsupported_dev : StatusCode
  err_no_memory : StatusCode
  err_invalid_arg : StatusCode
  err_bad_address : StatusCode
  err_busy : StatusCode
  err_bad_format : StatusCode
  err_no_timer : StatusCode
  err_timer_already_running : StatusCode
  err_timer_not_running : StatusCode
  operation_in_progress : StatusCode

-- `Package`; `buffer` is the memory behind the pointer, `on_complete` a function pointer or 0.
pub record Package : Type 0 where
  pub chip : ℕ
  pub addr : ℕ → ℕ
  pub addr_length : ℕ
  pub buffer : ℕ → ℕ
  pub length : ℕ
  pub on_complete : ℕ

-- The static variables that a transfer uses, and the register `MADDR`.
pub record Master : Type 0 where
  pub pkg : Package
  pub addr_count : ℕ
  pub data_count : ℕ
  pub read : Bool
  pub status : StatusCode
  pub maddr : ℕ

-- The writes to the other registers, and the notification of `react_on_complete`.
pub data Command : Type 0 where
  set_maddr : (value : ℕ) → Command
  set_mdata : (value : ℕ) → Command
  clear_arblost : Command
  stop : Command
  receive : Command
  nack_stop : Command
  complete : (code : StatusCode) → Command

-- The bits of `MSTATUS` that the interrupt handler tests, and `MDATA`.
pub record Interrupt : Type 0 where
  pub arblost : Bool
  pub buserr : Bool
  pub rxack : Bool
  pub wif : Bool
  pub rif : Bool
  pub mdata : ℕ

abbrev pub update : (ℕ → ℕ) → ℕ → ℕ → ℕ → ℕ
update f i v j = if i == j then v else f j

-- `pkg->addr[i]`
abbrev pub addr_at : Package → ℕ → Option ℕ
addr_at pkg i = if ltb i 3 then some (pkg.addr i) else none

unfoldable pub write_handler : Master → Option (Master × List Command)
write_handler m =
    if ltb m.addr_count m.pkg.addr_length
    then (do
      byte ← addr_at m.pkg m.addr_count
      some (record m { addr_count = m.addr_count + 1 }, set_mdata byte ∷ []))
    else if ltb m.data_count m.pkg.length
    then (if m.read
        then some (record m { maddr = bit_or m.maddr 1 }, set_maddr (bit_or m.maddr 1) ∷ [])
        else some (
          record m { data_count = u8 (m.data_count + 1) },
          set_mdata (m.pkg.buffer m.data_count) ∷ [],
        ))
    else some (record m { status = status_ok }, stop ∷ complete status_ok ∷ [])

unfoldable pub read_handler : ℕ → Master → Master × List Command
read_handler mdata m =
    let stored = record m {
      pkg = record m.pkg { buffer = update m.pkg.buffer m.data_count mdata };
      data_count = u8 (m.data_count + 1);
    } in
    if ltb m.data_count m.pkg.length
    then (if ltb (u8 (m.data_count + 1)) m.pkg.length
        then (stored, receive ∷ [])
        else (record stored { status = status_ok }, nack_stop ∷ complete status_ok ∷ []))
    else (record m { status = err_no_memory }, stop ∷ complete status_ok ∷ [])

unfoldable pub interrupt_handler : Interrupt → Master → Option (Master × List Command)
interrupt_handler i m =
    if i.arblost
    then some (record m { status = err_busy }, clear_arblost ∷ stop ∷ complete err_busy ∷ [])
    else if i.buserr || i.rxack
    then some (record m { status = err_io_error }, stop ∷ complete err_io_error ∷ [])
    else if i.wif
    then write_handler m
    else if i.rif
    then some (read_handler i.mdata m)
    else some (record m { status = err_protocol }, complete err_protocol ∷ [])

-- `transfer`, on an idle bus; `none` is the stop by the alert on a bus that is not.
unfoldable pub transfer : Bool → Package → Bool → Master → Option (Master × List Command)
transfer idle pkg read m =
    let chip = u8 (pkg.chip * 2) in
    let m' = record m { pkg = pkg; addr_count = 0; data_count = 0; read = read } in
    if not idle
    then none
    else if not (pkg.addr_length == 0) || not read
    then some (record m' { maddr = chip }, set_maddr chip ∷ [])
    else some (record m' { maddr = bit_or chip 1 }, set_maddr (bit_or chip 1) ∷ [])
