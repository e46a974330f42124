-- ===== src/Modbus/Crc.antt =====
-- src/modbus_rtu.cpp: the checksum of a frame, updated byte by byte as the frame is received. The last
-- two bytes are the frame's own checksum, so that the sum is kept two bytes behind.
pub mod Stream
pub mod Detect
use asx.Base.{ℕ, zero, suc, ◌+◌, ◌/◌, ◌%◌, bit_and, bit_xor}
use asx.Base.{Bool, true, false, ◌&&◌, not, List, [], ◌∷◌}
use asx.Base.{u8, leb, ◌==◌, if◌then◌else◌}

-- `Crc`
pub record Crc : Type 0 where
  pub count : ℕ
  pub crc : ℕ
  pub n_minus_1 : ℕ
  pub n_minus_2 : ℕ

unfoldable pub reset : Crc → Crc
reset c = record c { crc = 0xffff; count = 0 }

-- A round of the loop of `update`.
unfoldable pub shift_round : ℕ → ℕ
shift_round crc = if not (bit_and crc 1 == 0) then bit_xor (crc / 2) 0xa001 else crc / 2

unfoldable pub shift_rounds : ℕ → ℕ → ℕ
shift_rounds zero crc = crc
shift_rounds (suc j) crc = shift_rounds j (shift_round crc)

-- `update(uint8_t)`, on the field `crc`.
unfoldable pub update : ℕ → ℕ → ℕ
update crc byte = shift_rounds 8 (bit_xor crc byte)

-- `operator()`
unfoldable pub append : Crc → ℕ → Crc
append c byte =
    let summed =
      if leb 2 c.count
      then record c { crc = update c.crc c.n_minus_2 }
      else record c { count = u8 (c.count + 1) } in
    record summed { n_minus_2 = c.n_minus_1; n_minus_1 = byte }

unfoldable pub check : Crc → Bool
check c =
    let msb = u8 (c.crc / 256) in
    let lsb = bit_and c.crc 0xff in (msb == c.n_minus_1) && (lsb == c.n_minus_2)

-- The loop of `update(std::string_view)`, and the function.
unfoldable pub update_all : ℕ → List ℕ → ℕ
update_all crc [] = crc
update_all crc (c ∷ view) = update_all (update crc c) view

unfoldable pub update_view : Crc → List ℕ → ℕ
update_view c view = update_all (reset c).crc view
