-- ===== src/Uart/Tests.antt =====
-- The registers and a transmission of the UART at concrete values.
use asx.Base.{◌≡◌, refl, arith, true, false, [], ◌∷◌, bit_and, ◌==◌}
use asx.Uart.{
  Config, Uart, Parity, bits_8, two, txcie, tx_ready, send, get_baud_reg, get_ctrl_a, get_ctrl_b,
  get_ctrl_c,
}
use asx.Uart.Transmit.{interrupts, send_lem}

-- 9600 baud, 8 bits, even parity, two stop bits, on one wire.
abbrev line : Config
line = record {
  baud = 9600;
  width = bits_8;
  parity = Parity.even;
  stop = two;
  onewire = true;
  rs485 = false;
}

registers :
    (get_baud_reg 20000000 line ≡ 8333)
    × (get_ctrl_a line ≡ 0x08)
    × (get_ctrl_b line ≡ 0xc8)
    × (get_ctrl_c line ≡ 0x2b)
unfolding get_baud_reg get_ctrl_a get_ctrl_b get_ctrl_c
registers = (refl, refl, refl, refl)

-- The receiver interrupt is on.
abbrev idle : Uart
idle = record { ctrl_a = 0x80; to_send = [] }

send_lem_example :
    (after : Uart) × (tx_ready (send idle (1 ∷ 2 ∷ [])) ≡ false)
    × (interrupts 3 (send idle (1 ∷ 2 ∷ [])) ≡ (1 ∷ 2 ∷ [], after))
    × (tx_ready after ≡ true)
    × (after.to_send ≡ [])
    × (interrupts 9 after ≡ ([], after))
    × ((bit_and after.ctrl_a txcie == txcie) ≡ true)
send_lem_example = send_lem idle (1 ∷ 2 ∷ []) 3 9 (omega arith) (omega arith)
