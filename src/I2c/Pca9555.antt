-- ===== src/I2c/Pca9555.antt =====
-- src/pca9555.cpp, include/asx/pca9555.hpp: the port expander PCA9555 on the i2c bus. The package of the
-- module is static, and the master keeps a pointer to it: behind the start of a transfer it is the
-- package of the master, with the buffer of the class as its memory.
pub mod Words
use asx.Base.{ℕ, ◌+◌, ◌*◌, ◌/◌, ◌%◌, Bool, true, false, Option, List, bit_and, bit_or}
use asx.I2c.Master.{Package, Master, Command, update, transfer}

-- `command_t`
pub data CommandCode : Type 0 where
  read0 : CommandCode
  read1 : CommandCode
  write0 : CommandCode
  write1 : CommandCode
  set_pol0 : CommandCode
  set_pol1 : CommandCode
  set_dir0 : CommandCode
  set_dir1 : CommandCode

abbrev pub code_of : CommandCode → ℕ
code_of read0 = 0
code_of read1 = 1
code_of write0 = 2
code_of write1 = 3
code_of set_pol0 = 4
code_of set_pol1 = 5
code_of set_dir0 = 6
code_of set_dir1 = 7

abbrev pub base_chip_address : ℕ
base_chip_address = 0b0100000

-- `PCA9555`
pub record Pca9555 : Type 0 where
  pub chip : ℕ

-- The constructor, and the package with the buffer of the class.
unfoldable pub construct : ℕ → (ℕ → ℕ) → Package → Pca9555 × Package
construct chip buffer static =
    (record { chip = bit_or base_chip_address chip }, record static { buffer = buffer })

module _ (x : Pca9555) (static : Package) (on_complete : ℕ) where
  -- The package of `read`, and of the two functions `transfer`.
  abbrev pub read_package : ℕ → CommandCode → Package
  read_package count op = record static {
    chip = x.chip;
    addr = update static.addr 0 (code_of op);
    addr_length = 1;
    length = count;
    on_complete = on_complete;
  }

  abbrev pub word_package : CommandCode → ℕ → Package
  word_package op value = record static {
    chip = x.chip;
    addr =
        update (update (update static.addr 0 (code_of op)) 1 (value / 256)) 2 (bit_and value 0xff);
    addr_length = 3;
    on_complete = on_complete;
    length = 0;
  }

  abbrev pub byte_package : CommandCode → ℕ → Package
  byte_package op value = record static {
    chip = x.chip;
    addr = update (update static.addr 0 (code_of op)) 1 value;
    addr_length = 2;
    on_complete = on_complete;
    length = 0;
  }

  module _ (idle : Bool) (m : Master) where
    unfoldable pub read_bytes : ℕ → CommandCode → Option (Master × List Command)
    read_bytes count op = transfer idle (read_package count op) true m

    unfoldable pub transfer_word : CommandCode → ℕ → Option (Master × List Command)
    transfer_word op value = transfer idle (word_package op value) false m

    unfoldable pub transfer_byte : CommandCode → ℕ → Option (Master × List Command)
    transfer_byte op value = transfer idle (byte_package op value) false m

    -- The operations on both ports.
    unfoldable pub read : Option (Master × List Command)
    read = read_bytes 2 read1

    unfoldable pub set_value : ℕ → Option (Master × List Command)
    set_value value = transfer_word write1 value

    unfoldable pub set_dir : ℕ → Option (Master × List Command)
    set_dir dir = transfer_word set_dir1 dir

    unfoldable pub set_pol : ℕ → Option (Master × List Command)
    set_pol pol = transfer_word set_pol1 pol

    -- The operations on one port; `true` is port 1.
    unfoldable pub read_port : Bool → Option (Master × List Command)
    read_port true = read_bytes 1 read1
    read_port false = read_bytes 1 read0

    unfoldable pub set_value_port : Bool → ℕ → Option (Master × List Command)
    set_value_port true value = transfer_byte write1 value
    set_value_port false value = transfer_byte write0 value

    unfoldable pub set_dir_port : Bool → ℕ → Option (Master × List Command)
    set_dir_port true dir = transfer_byte set_dir1 dir
    set_dir_port false dir = transfer_byte set_dir0 dir

    unfoldable pub set_pol_port : Bool → ℕ → Option (Master × List Command)
    set_pol_port true pol = transfer_byte set_pol1 pol
    set_pol_port false pol = transfer_byte set_pol0 pol

-- `get_value<uint16_t>` and `get_value<uint8_t>`, of the buffer.
unfoldable pub get_word : (ℕ → ℕ) → ℕ
get_word buffer = bit_or (buffer 0 * 256) (buffer 1)

unfoldable pub get_byte : (ℕ → ℕ) → ℕ
get_byte buffer = buffer 0
