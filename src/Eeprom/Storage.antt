-- ===== src/Eeprom/Storage.antt =====
-- include/asx/eeprom.hpp: `Storage`, a value of `size` bytes in the user row, with a checksum in the last two
-- of its 32 bytes. The value is its bytes; a write to the row is complete at the end of `do_operation`,
-- which erases and writes what it has put there.
pub mod Sums
pub mod Recall
use asx.Base.{ℕ, zero, suc, ◌+◌, ◌*◌, ◌/◌, ◌%◌, ◌^◌, Bool, true, false, bit_or}
use asx.Base.{ltb, ◌==◌, if◌then◌else◌}

abbrev pub Bytes : Type 0
Bytes = ℕ → ℕ

-- `T`, the user row, and the static `formatted`.
pub record Storage : Type 0 where
  pub value : Bytes
  pub row : Bytes
  pub formatted : Bool

abbrev pub u16 : ℕ → ℕ
u16 n = n % 2 ^ 16

-- The loop of `calc_fletcher16`: both sums, behind the bytes from `index` on.
unfoldable pub fletcher_loop : ℕ → ℕ → Bytes → ℕ → ℕ → ℕ × ℕ
fletcher_loop zero index bytes sum1 sum2 = (sum1, sum2)
fletcher_loop (suc rounds) index bytes sum1 sum2 =
    let next = u16 (sum1 + bytes index) % 255 in
    fletcher_loop rounds (index + 1) bytes next (u16 (sum2 + next) % 255)

-- `*fletcher16_ptr`, in the byte order of the processor.
abbrev pub stored_sum : Bytes → ℕ
stored_sum row = row 30 + row 31 * 256

-- `memcpy` of the first bytes.
abbrev pub copied : ℕ → Bytes → Bytes → Bytes
copied size to from i = if ltb i size then from i else to i

-- The template's `DATA_VERSION` and `size`.
module _ (data_version size : ℕ) where
  unfoldable pub calc_fletcher16 : Bytes → ℕ
  calc_fletcher16 bytes =
      let (sum1, sum2) = fletcher_loop size 0 bytes (u16 data_version) 0xff in
      bit_or (u16 (sum2 * 256)) sum1

  unfoldable pub do_operation : Storage → Storage
  do_operation s =
      let sum = calc_fletcher16 s.value in
      record s {
        row = λ i.
            if i == 30
            then sum % 256
            else if i == 31
            then sum / 256
            else copied size s.row s.value i;
        formatted = false;
      }

  -- The constructor, on the row as it is found.
  unfoldable pub construct : Bytes → Bytes → Bool → Storage
  construct initial_data row formatted =
      if stored_sum row == calc_fletcher16 row
      then record { value = copied size initial_data row; row = row; formatted = formatted }
      else record (do_operation
          (record { value = initial_data; row = row; formatted = formatted })) { formatted = true }

  -- `operator=`
  unfoldable pub assign : Storage → Bytes → Storage
  assign s from = record s { value = copied size s.value from }
