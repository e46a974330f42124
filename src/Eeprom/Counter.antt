-- ===== src/Eeprom/Counter.antt =====
-- src/eeprom.cpp, include/asx/eeprom.hpp: `Counter`, a persistent counter in a page of the EEPROM. A page
-- has four banks; a bank holds a count and 64 bits, one of which is cleared for each further count. What
-- the hardware makes of a byte that is written without an erase is the parameter `program`.
pub mod Holds
pub mod Marks
pub mod Increment
pub mod Scan
pub mod Recover
pub mod Lifetime
use asx.Base.{ℕ, zero, suc, ◌+◌, ◌-◌, ◌%◌, ◌^◌, List, [], ◌∷◌}
use asx.Base.{Bool, true, false, ◌&&◌, leb, ◌==◌, if◌then◌else◌, get_or, u32}

-- `bank_t`, and the other constants of the pages of 64 bytes.
pub record Bank : Type 0 where
  pub counter : ℕ
  pub bit_bank : ℕ → ℕ
  pub not_counter : ℕ

abbrev pub bank_count : ℕ
bank_count = 4

abbrev pub bytes_in_bank : ℕ
bytes_in_bank = 8

pub data Op : Type 0 where
  idle : Op
  update_bits : Op
  new_bank_set_new : Op
  new_bank_erase_old : Op

-- The page is fixed and left out.
pub record Counter : Type 0 where
  pub counter : ℕ
  pub bankpos : ℕ
  pub bitpos : ℕ
  pub bytepos : ℕ
  pub op : Op

abbrev pub Page : Type 0
Page = ℕ → Bank

-- `~` of a `uint32_t`.
abbrev pub complement : ℕ → ℕ
complement n = 2 ^ 32 - 1 - n

abbrev pub bits_mask : ℕ → ℕ
bits_mask i =
    get_or
      (0b01111111 ∷ 0b00111111 ∷ 0b00011111 ∷ 0b00001111 ∷ 0b00000111 ∷ 0b00000011 ∷ 0b00000001
        ∷ 0b00000000 ∷ [])
      i 0

abbrev pub update {ℓ} : {A : Type ℓ} → (ℕ → A) → ℕ → A → ℕ → A
update f i v j = if i == j then v else f j

-- The bank that the constructor formats, and `new_bank_set_new` writes.
abbrev pub fresh_bank : ℕ → Bank
fresh_bank count = record { counter = count; bit_bank = λ i. 0xff; not_counter = complement count }

-- The loop over the banks in the constructor: the counter and the position of the bank.
unfoldable pub find_bank : ℕ → ℕ → Page → ℕ → ℕ → ℕ × ℕ
find_bank zero i page counter bankpos = (counter, bankpos)
find_bank (suc rounds) i page counter bankpos =
    let bank = page i in
    if (bank.counter == complement bank.not_counter) && leb counter bank.counter
    then find_bank rounds (i + 1) page bank.counter i
    else find_bank rounds (i + 1) page counter bankpos

-- The loop over the bits of a byte, from `bitpos` on.
unfoldable pub find_bits : ℕ → ℕ → ℕ → ℕ
find_bits zero bitpos value = bitpos
find_bits (suc rounds) bitpos value =
    let rest = find_bits rounds (bitpos + 1) value in
    if value == bits_mask bitpos then bitpos else rest

module _ (program : ℕ → ℕ → ℕ) where
  -- A byte of the bank in use that is written without an erase.
  abbrev pub write_byte : Counter → ℕ → Page → Page
  write_byte c value page =
      let bank = page c.bankpos in
      let byte = program (bank.bit_bank c.bytepos) value in
      update page c.bankpos (record bank { bit_bank = update bank.bit_bank c.bytepos byte })

  unfoldable pub do_operation : Counter → Page → Page
  do_operation c page = perform c.op
    where
      perform : Op → Page
      perform idle = page
      perform update_bits = write_byte c (bits_mask c.bitpos) page
      perform new_bank_set_new = update page c.bankpos (fresh_bank c.counter)
      perform new_bank_erase_old = page

  -- A byte in which some bits are cleared, in the constructor.
  unfoldable pub count_byte : ℕ → Counter → Page → Counter × Page
  count_byte value c page =
      let bitpos = find_bits 8 0 value in
      if bitpos == 8
      then (record c { counter = u32 (c.counter + 2 ^ 32 - 4); bitpos = 0 }, write_byte c 0xff page)
      else (record c { counter = u32 (c.counter + bitpos); bitpos = bitpos }, page)

  -- The loop over the bytes of the bank in the constructor.
  unfoldable pub count_bytes : ℕ → Counter → Page → Counter × Page
  count_bytes zero c page = (c, page)
  count_bytes (suc rounds) c page =
      let value = (page c.bankpos).bit_bank c.bytepos in
      let rest =
        count_bytes rounds (record c { counter = u32 (c.counter + 8); bytepos = c.bytepos + 1 })
          page in
      if value == 0 then rest else if value == 0xff then (c, page) else count_byte value c page

  -- The rest of the constructor: a full bank is left for the next one.
  unfoldable pub leave_full : Counter × Page → Counter × Page
  leave_full (c, page) =
      let next = record c {
        bytepos = 0;
        bitpos = 0;
        bankpos = (c.bankpos + 1) % bank_count;
        op = new_bank_set_new;
      } in
      if c.bytepos == bytes_in_bank then (next, do_operation next page) else (c, page)

  -- The constructor `Counter(PAGE)`.
  unfoldable pub construct : Page → Counter × Page
  construct page =
      let (counter, bankpos) = find_bank bank_count 0 page 0 0xff in
      let c : Counter = record {
        counter = counter;
        bankpos = bankpos;
        bitpos = 0;
        bytepos = 0;
        op = idle;
      } in
      leave_full (
        if bankpos == 0xff
        then (record c { bankpos = 0 }, update page 0 (fresh_bank 0))
        else count_bytes bytes_in_bank c page)

-- `increment`, without the request for the operation.
unfoldable pub increment : Counter → Counter
increment c =
    let next = record c { counter = u32 (c.counter + 1); bitpos = c.bitpos + 1 } in
    if c.bitpos + 1 == 8
    then (if c.bytepos + 1 == bytes_in_bank
        then record next {
          bitpos = 0;
          bytepos = 0;
          bankpos = (c.bankpos + 1) % bank_count;
          op = new_bank_set_new;
        }
        else record next { bitpos = 0; bytepos = c.bytepos + 1; op = update_bits })
    else record next { op = update_bits }

-- `get_count`
unfoldable pub get_count : Counter → ℕ
get_count c = c.counter
