-- ===== src/Eeprom/Counter/Holds.antt =====
-- src/eeprom.cpp: a page and a counter that agree.
use asx.Base.{ℕ, ◌+◌, ◌*◌, ◌^◌, ◌<◌, ◌≡◌, ◌⊎◌, bit_and}
use asx.Base.{false, ◌&&◌, leb, ◌==◌}
use mathlib.Core.Logic.{◌≢◌}
use asx.Eeprom.Counter.{Bank, Counter, Page, complement, bits_mask, bank_count, bytes_in_bank}

-- What the hardware documents: a write without an erase clears bits and sets none.
abbrev pub Clears : (ℕ → ℕ → ℕ) → Type 0
Clears program = (held value : ℕ) → program held value ≡ bit_and held value

-- The bytes in front of the position are 0, the byte there is the mask of `bitpos` (or still erased),
-- the bytes behind it are erased.
pub record Marked (bit_bank : ℕ → ℕ) (bytepos bitpos : ℕ) : Type 0 where
  pub bytes_below : (j : ℕ) → j < bytepos → bit_bank j ≡ 0
  pub byte_at : (bit_bank bytepos ≡ bits_mask bitpos) ⊎ ((bitpos ≡ 0) × (bit_bank bytepos ≡ 0xff))
  pub bytes_above : (j : ℕ) → bytepos < j → j < bytes_in_bank → bit_bank j ≡ 0xff

-- The bank `bank` would not be chosen in place of one with the count `base`.
abbrev pub IsOlder : Bank → ℕ → Type 0
IsOlder bank base = ((bank.counter == complement bank.not_counter) && leb base bank.counter) ≡ false

-- The bank in use holds the count, and every other one is older.
pub record Holds (page : Page) (c : Counter) : Type 0 where
  pub bank_in_page : c.bankpos < bank_count
  pub byte_in_bank : c.bytepos < bytes_in_bank
  pub bit_in_byte : c.bitpos < 8
  pub total : c.counter ≡ (page c.bankpos).counter + 8 * c.bytepos + c.bitpos
  pub fits : c.counter < 2 ^ 32
  pub is_whole : (page c.bankpos).not_counter ≡ complement (page c.bankpos).counter
  pub marked : Marked (page c.bankpos).bit_bank c.bytepos c.bitpos
  pub others : (i : ℕ) → i < bank_count → i ≢ c.bankpos → IsOlder (page i) (page c.bankpos).counter
