-- ===== src/Uart.antt =====
-- include/asx/uart.hpp: the class template `Uart`: the values of its registers and its transmission. The
-- span to send is the list of its bytes; a value that an interrupt writes to TXDATAL is an answer.
pub mod Transmit
pub mod Frame
mod Tests
use asx.Base.{
  ℕ, zero, suc, ◌+◌, ◌-◌, ◌*◌, ◌/◌, ◌%◌, ◌^◌, Bool, not, Option, List, [], ◌∷◌, bit_and, bit_or,
}
use asx.Base.{u32, ◌==◌, if◌then◌else◌}

pub data Width : Type 0 where
  bits_5 bits_6 bits_7 bits_8 : Width

pub data Parity : Type 0 where
  none odd even : Parity

pub data Stop : Type 0 where
  one two : Stop

-- `CompileTimeConfig`, with its options `onewire` and `rs485`.
pub record Config : Type 0 where
  pub baud : ℕ
  pub width : Width
  pub parity : Parity
  pub stop : Stop
  pub onewire : Bool
  pub rs485 : Bool

-- The bits of the control registers (include/sim/avr/io.h).
abbrev pub dreie : ℕ
dreie = 0x20

abbrev pub txcie : ℕ
txcie = 0x40

-- `F_CPU` is a parameter of the build; `unsigned long` has 32 bits.
unfoldable pub get_baud_reg : ℕ → Config → ℕ
get_baud_reg f_cpu c = u32 (64 * f_cpu) / c.baud / 16 % 2 ^ 16

unfoldable pub get_ctrl_a : Config → ℕ
get_ctrl_a c =
    let retval = if c.rs485 then 0x01 else 0 in if c.onewire then bit_or retval 0x08 else retval

unfoldable pub get_ctrl_b : Config → ℕ
get_ctrl_b c = if c.onewire then bit_or (bit_or 0x80 0x40) 0x08 else bit_or 0x80 0x40

abbrev pub char_size : Width → ℕ
char_size bits_5 = 0x00
char_size bits_6 = 0x01
char_size bits_7 = 0x02
char_size bits_8 = 0x03

abbrev pub parity_mode : Parity → ℕ
parity_mode none = 0x00
parity_mode odd = 0x30
parity_mode even = 0x20

abbrev pub stop_mode : Stop → ℕ
stop_mode one = 0x00
stop_mode two = 0x08

unfoldable pub get_ctrl_c : Config → ℕ
get_ctrl_c c = bit_or (bit_or (char_size c.width) (parity_mode c.parity)) (stop_mode c.stop)

-- The register CTRLA and the view to transmit.
pub record Uart : Type 0 where
  pub ctrl_a : ℕ
  pub to_send : List ℕ

unfoldable pub tx_ready : Uart → Bool
tx_ready u = bit_and u.ctrl_a dreie == 0

unfoldable pub send : Uart → List ℕ → Uart
send u span_to_send = record u {
  to_send = span_to_send;
  ctrl_a = bit_or u.ctrl_a (bit_or dreie txcie);
}

-- `on_dre`: the byte for TXDATAL, if there is one.
unfoldable pub on_dre : Uart → Option ℕ × Uart
on_dre u = elim u.to_send [
  | front ∷ rest ↦ (Option.some front, record u { to_send = rest })
  | [] ↦ (Option.none, record u { ctrl_a = bit_and u.ctrl_a (0xff - dreie) })
]
