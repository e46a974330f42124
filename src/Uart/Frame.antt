-- ===== src/Uart/Frame.antt =====
-- include/asx/uart.hpp: what the registers say of the configuration.
use asx.Base.{ℕ, ◌≡◌, refl, bit_and, bit_or}
use asx.Base.{◌==◌, if◌then◌else◌}
use asx.Uart.{
  Config, Width, Parity, Stop, bits_5, bits_6, bits_7, bits_8, one, two, get_ctrl_c, char_size,
  parity_mode, stop_mode,
}

-- How the processor reads CTRLC: the fields CHSIZE, PMODE and SBMODE.
abbrev pub read_width : ℕ → Width
read_width r =
    let size = bit_and r 0x07 in
    if size == 0 then bits_5 else if size == 1 then bits_6 else if size == 2 then bits_7 else bits_8

abbrev pub read_parity : ℕ → Parity
read_parity r =
    let mode = bit_and r 0x30 in
    if mode == 0x30 then Parity.odd else if mode == 0x20 then Parity.even else Parity.none

abbrev pub read_stop : ℕ → Stop
read_stop r = if bit_and r 0x08 == 0 then one else two

-- CTRLC as `get_ctrl_c` puts it together.
abbrev ctrl_c : Width → Parity → Stop → ℕ
ctrl_c w p s = bit_or (bit_or (char_size w) (parity_mode p)) (stop_mode s)

fields :
    (w : Width) (p : Parity) (s : Stop)
    → (read_width (ctrl_c w p s) ≡ w)
      × (read_parity (ctrl_c w p s) ≡ p)
      × (read_stop (ctrl_c w p s) ≡ s)
fields bits_5 Parity.none one = (refl, refl, refl)
fields bits_5 Parity.none two = (refl, refl, refl)
fields bits_5 Parity.odd one = (refl, refl, refl)
fields bits_5 Parity.odd two = (refl, refl, refl)
fields bits_5 Parity.even one = (refl, refl, refl)
fields bits_5 Parity.even two = (refl, refl, refl)
fields bits_6 Parity.none one = (refl, refl, refl)
fields bits_6 Parity.none two = (refl, refl, refl)
fields bits_6 Parity.odd one = (refl, refl, refl)
fields bits_6 Parity.odd two = (refl, refl, refl)
fields bits_6 Parity.even one = (refl, refl, refl)
fields bits_6 Parity.even two = (refl, refl, refl)
fields bits_7 Parity.none one = (refl, refl, refl)
fields bits_7 Parity.none two = (refl, refl, refl)
fields bits_7 Parity.odd one = (refl, refl, refl)
fields bits_7 Parity.odd two = (refl, refl, refl)
fields bits_7 Parity.even one = (refl, refl, refl)
fields bits_7 Parity.even two = (refl, refl, refl)
fields bits_8 Parity.none one = (refl, refl, refl)
fields bits_8 Parity.none two = (refl, refl, refl)
fields bits_8 Parity.odd one = (refl, refl, refl)
fields bits_8 Parity.odd two = (refl, refl, refl)
fields bits_8 Parity.even one = (refl, refl, refl)
fields bits_8 Parity.even two = (refl, refl, refl)

-- The processor reads the width, the parity and the stop bits of the configuration back from the value of
-- `get_ctrl_c`, for each of the 24 frames.
pub frame_lem :
    (c : Config)
    → (read_width (get_ctrl_c c) ≡ c.width)
      × (read_parity (get_ctrl_c c) ≡ c.parity)
      × (read_stop (get_ctrl_c c) ≡ c.stop)
unfolding get_ctrl_c
frame_lem c = fields c.width c.parity c.stop
