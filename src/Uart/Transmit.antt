-- ===== src/Uart/Transmit.antt =====
-- include/asx/uart.hpp: a transmission, interrupt by interrupt.
use asx.Base.{
  ℕ, zero, suc, ◌-◌, ◌<◌, ◌≡◌, refl, arith, Bool, true, false, not, none, some, List, [], ◌∷◌,
  bit_and, bit_or, length,
}
use asx.Base.{◌==◌, if◌then◌else◌}
use asx.Base.Bits.{all_below, all_below-true}
use asx.Uart.{Uart, dreie, txcie, tx_ready, send, on_dre}

-- Interrupts of the empty data register, which come while they are enabled: the bytes written.
unfoldable pub interrupts : ℕ → Uart → List ℕ × Uart
interrupts zero u = ([], u)
interrupts (suc n) u =
    let (byte, next) = on_dre u in
    let later = interrupts n next in
    if tx_ready u then ([], u) else elim byte [ some b ↦ (b ∷ later.0, later.1) | none ↦ later ]

-- CTRLA while it sends, and behind.
abbrev pub sending : ℕ → ℕ
sending a = bit_or a (bit_or dreie txcie)

abbrev pub sent : ℕ → ℕ
sent a = bit_and (sending a) (0xff - dreie)

false_from_not : (b : Bool) → not b ≡ true → b ≡ false
false_from_not true e = absurd (cc)
false_from_not false e = refl

sending_busy : (a : ℕ) → a < 256 → (bit_and (sending a) dreie == 0) ≡ false
unfolding all_below
sending_busy a lt =
    false_from_not _ (all_below-true 256 (λ x. not (bit_and (sending x) dreie == 0)) a refl lt)

sent_ready : (a : ℕ) → a < 256 → (bit_and (sent a) dreie == 0) ≡ true
unfolding all_below
sent_ready a lt = all_below-true 256 (λ x. bit_and (sent x) dreie == 0) a refl lt

-- The interrupt behind the last character stays enabled.
sent_last : (a : ℕ) → a < 256 → (bit_and (sent a) txcie == txcie) ≡ true
unfolding all_below
sent_last a lt = all_below-true 256 (λ x. bit_and (sent x) txcie == txcie) a refl lt

interrupts_ready :
    (n : ℕ) (u : Uart) → (bit_and u.ctrl_a dreie == 0) ≡ true → interrupts n u ≡ ([], u)
unfolding interrupts tx_ready
interrupts_ready zero u ready = refl
interrupts_ready (suc n) u ready = rw ready refl

interrupts_send :
    (bytes : List ℕ) (n a : ℕ)
    → a < 256
    → length bytes < n
    → interrupts n (record { ctrl_a = sending a; to_send = bytes })
      ≡ (bytes, record { ctrl_a = sent a; to_send = [] })
unfolding interrupts on_dre tx_ready
interrupts_send bytes zero a lt enough = absurd (omega (arith, enough))
interrupts_send [] (suc n) a lt enough =
    rw
      (
        sending_busy a lt,
        interrupts_ready n (record { ctrl_a = sent a; to_send = [] }) (sent_ready a lt),
      )
      refl
interrupts_send (b ∷ bytes) (suc n) a lt enough =
    rw (sending_busy a lt, interrupts_send bytes n a lt (omega (arith, enough))) refl

-- `send` makes the transmitter busy; more interrupts than there are bytes write exactly these bytes, in
-- order, and then the transmitter is ready and its interrupt off, so that no further one comes, and the
-- interrupt behind the last character is on.
pub send_lem :
    (u : Uart) (bytes : List ℕ) (n more : ℕ)
    → u.ctrl_a < 256
    → length bytes < n
    → (after : Uart) × (tx_ready (send u bytes) ≡ false)
      × (interrupts n (send u bytes) ≡ (bytes, after))
      × (tx_ready after ≡ true)
      × (after.to_send ≡ [])
      × (interrupts more after ≡ ([], after))
      × ((bit_and after.ctrl_a txcie == txcie) ≡ true)
unfolding tx_ready send
send_lem u bytes n more lt enough = (
  record { ctrl_a = sent u.ctrl_a; to_send = [] },
  sending_busy u.ctrl_a lt,
  interrupts_send bytes n u.ctrl_a lt enough,
  sent_ready u.ctrl_a lt,
  refl,
  interrupts_ready more (record { ctrl_a = sent u.ctrl_a; to_send = [] }) (sent_ready u.ctrl_a lt),
  sent_last u.ctrl_a lt,
)
