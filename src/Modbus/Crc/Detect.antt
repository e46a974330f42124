-- ===== src/Modbus/Crc/Detect.antt =====
-- src/modbus_rtu.cpp: what the checksum of a frame detects.
use asx.Base.{
  ℕ, zero, suc, ◌+◌, ◌*◌, ◌/◌, ◌%◌, ◌^◌, ◌<◌, ◌≡◌, refl, ap, sym, ◌∙◌, arith, bit_xor, List, [],
  ◌∷◌, ◌++◌, inl, inr,
}
use asx.Base.{true, false, ◌==◌, Bool-cases}
use asx.Base.Digits.{
  test_bit, test_bit-bit_xor, test_bit_above, test_bit_ext, width_from_bits, low_bit_clear,
  low_byte,
}
use mathlib.Core.Logic.{◌↔◌, ◌≢◌}
use asx.Modbus.Crc.Stream.{append_all, append_all-update_view}
use asx.Modbus.Crc.{Crc, reset, shift_round, shift_rounds, update, check, update_all, update_view}

xor-small : (w a b : ℕ) → a < 2 ^ w → b < 2 ^ w → bit_xor a b < 2 ^ w
xor-small w a b ha hb = width_from_bits w (bit_xor a b) (λ i le.
    test_bit-bit_xor a b i ∙ rw (test_bit_above w a i ha le, test_bit_above w b i hb le) refl)

-- `^` can be undone.
xor_cancel : (w a b c : ℕ) → a < 2 ^ w → b < 2 ^ w → bit_xor a c ≡ bit_xor b c → a ≡ b
xor_cancel w a b c ha hb e = test_bit_ext w a b ha hb (λ i lt.
    let bits = sym (test_bit-bit_xor a c i) ∙ ap (λ n. test_bit n i) e ∙ test_bit-bit_xor b c i in
    ground (arith, bits))

xor_cancel_left : (w a b c : ℕ) → a < 2 ^ w → b < 2 ^ w → bit_xor c a ≡ bit_xor c b → a ≡ b
xor_cancel_left w a b c ha hb e = test_bit_ext w a b ha hb (λ i lt.
    let bits = sym (test_bit-bit_xor c a i) ∙ ap (λ n. test_bit n i) e ∙ test_bit-bit_xor c b i in
    ground (arith, bits))

-- A round by its cases.
round_odd : (c : ℕ) → test_bit c 0 ≡ true → shift_round c ≡ bit_xor (c / 2) 0xa001
unfolding shift_round
round_odd c odd = rw (low_bit_clear c, odd) refl

round_even : (c : ℕ) → test_bit c 0 ≡ false → shift_round c ≡ c / 2
unfolding shift_round
round_even c even = rw (low_bit_clear c, even) refl

round_small : (c : ℕ) → c < 2 ^ 16 → shift_round c < 2 ^ 16
round_small c lt = elim (Bool-cases (test_bit c 0)) [
  | inl odd ↦ rw (round_odd c odd) (xor-small 16 (c / 2) 0xa001 (omega arith) (omega arith))
  | inr even ↦ rw (round_even c even) (omega arith)
]

-- The top bit behind a round is the bit that was shifted out.
top_bit-round : (c : ℕ) → c < 2 ^ 16 → test_bit (shift_round c) 15 ≡ test_bit c 0
top_bit-round c lt = elim (Bool-cases (test_bit c 0)) [
  | inl odd ↦
      rw
        (
          round_odd c odd,
          odd,
          test_bit-bit_xor (c / 2) 0xa001 15,
          test_bit_above 15 (c / 2) 15 (omega arith) (omega arith),
        )
        (unfold test_bit in refl)
  | inr even ↦
      rw (round_even c even, even) (test_bit_above 15 (c / 2) 15 (omega arith) (omega arith))
]

round_injective : (c d : ℕ) → c < 2 ^ 16 → d < 2 ^ 16 → shift_round c ≡ shift_round d → c ≡ d
round_injective c d hc hd e =
    let parity : test_bit c 0 ≡ test_bit d 0 =
      sym (top_bit-round c hc) ∙ ap (λ n. test_bit n 15) e ∙ top_bit-round d hd in
    elim (Bool-cases (test_bit c 0)) [
      | inl odd ↦
          let odd' = sym parity ∙ odd in
          let halves : c / 2 ≡ d / 2 =
            xor_cancel 15 (c / 2) (d / 2) 0xa001 (omega arith) (omega arith)
              (sym (round_odd c odd) ∙ e ∙ round_odd d odd') in
          same_halves c d halves parity
      | inr even ↦
          let even' = sym parity ∙ even in
          same_halves c d (sym (round_even c even) ∙ e ∙ round_even d even') parity
    ]
  where
    same_halves : (c d : ℕ) → c / 2 ≡ d / 2 → test_bit c 0 ≡ test_bit d 0 → c ≡ d
    same_halves c d halves parity =
        let last : (c % 2 == 1) ≡ (d % 2 == 1) = unfold test_bit in parity in
        let rest : c % 2 ≡ d % 2 = ground (arith, last) in omega (arith, halves, rest)

rounds_small : (j c : ℕ) → c < 2 ^ 16 → shift_rounds j c < 2 ^ 16
unfolding shift_rounds
rounds_small zero c lt = lt
rounds_small (suc j) c lt = rounds_small j (shift_round c) (round_small c lt)

rounds_injective :
    (j c d : ℕ) → c < 2 ^ 16 → d < 2 ^ 16 → shift_rounds j c ≡ shift_rounds j d → c ≡ d
unfolding shift_rounds
rounds_injective zero c d hc hd e = e
rounds_injective (suc j) c d hc hd e =
    round_injective c d hc hd
      (rounds_injective j (shift_round c) (shift_round d) (round_small c hc) (round_small d hd) e)

-- The bytes of a message.
abbrev pub AllBytes : List ℕ → Type 0
AllBytes [] = Unit {0}
AllBytes (b ∷ bs) = (b < 256) × AllBytes bs

module _ (b : ℕ) (byte : b < 256) where
  mixed_small : (v : ℕ) → v < 2 ^ 16 → bit_xor v b < 2 ^ 16
  mixed_small v lt = xor-small 16 v b lt (omega arith)

  update-small : (v : ℕ) → v < 2 ^ 16 → update v b < 2 ^ 16
  unfolding update
  update-small v lt = rounds_small 8 (bit_xor v b) (mixed_small v lt)

  update_injective : (u v : ℕ) → u < 2 ^ 16 → v < 2 ^ 16 → update u b ≡ update v b → u ≡ v
  unfolding update
  update_injective u v hu hv e =
      xor_cancel 16 u v b hu hv
        (rounds_injective 8 (bit_xor u b) (bit_xor v b) (mixed_small u hu) (mixed_small v hv) e)

update_injective_byte :
    (v a b : ℕ) → v < 2 ^ 16 → a < 256 → b < 256 → update v a ≡ update v b → a ≡ b
unfolding update
update_injective_byte v a b hv ha hb e = xor_cancel_left 8 a b v ha hb (
    rounds_injective 8 (bit_xor v a) (bit_xor v b) (mixed_small a ha v hv) (mixed_small b hb v hv)
      e)

update_all-small : (bs : List ℕ) (v : ℕ) → AllBytes bs → v < 2 ^ 16 → update_all v bs < 2 ^ 16
unfolding update_all
update_all-small [] v bytes lt = lt
update_all-small (b ∷ bs) v (h, bytes) lt =
    update_all-small bs (update v b) bytes (update-small b h v lt)

update_all_injective :
    (bs : List ℕ) (u v : ℕ)
    → AllBytes bs
    → u < 2 ^ 16
    → v < 2 ^ 16
    → update_all u bs ≡ update_all v bs
    → u ≡ v
unfolding update_all
update_all_injective [] u v bytes hu hv e = e
update_all_injective (b ∷ bs) u v (h, bytes) hu hv e = update_injective b h u v hu hv (
    update_all_injective bs (update u b) (update v b) bytes (update-small b h u hu)
      (update-small b h v hv) e)

-- Two messages that differ in one byte have different sums.
one_byte :
    (before after : List ℕ) (v a b : ℕ)
    → AllBytes before
    → AllBytes after
    → v < 2 ^ 16
    → a < 256
    → b < 256
    → update_all v (before ++ (a ∷ after)) ≡ update_all v (before ++ (b ∷ after))
    → a ≡ b
unfolding update_all
one_byte [] after v a b hbs has hv ha hb e = update_injective_byte v a b hv ha hb (
    update_all_injective after (update v a) (update v b) has (update-small a ha v hv)
      (update-small b hb v hv) e)
one_byte (x ∷ before) after v a b (hx, hbs) has hv ha hb e =
    one_byte before after (update v x) a b hbs has (update-small x hx v hv) ha hb e

AllBytes-append :
    (before after : List ℕ) (a : ℕ)
    → AllBytes before
    → AllBytes after
    → a < 256
    → AllBytes (before ++ (a ∷ after))
AllBytes-append [] after a hbs has ha = (ha, has)
AllBytes-append (x ∷ before) after a (hx, hbs) has ha =
    (hx, AllBytes-append before after a hbs has ha)

-- A frame passes the check exactly if its last two bytes are the sum of the message in front of them,
-- the lower byte first, whatever was received before the reset.
pub check_iff :
    (c : Crc) (message : List ℕ) (lo hi : ℕ)
    → AllBytes message
    → lo < 256
    → hi < 256
    → (check (append_all (reset c) (message ++ (lo ∷ hi ∷ []))) ≡ true)
      ↔ (lo + 256 * hi ≡ update_view c message)
unfolding check
check_iff c message lo hi bytes hlo hhi =
    let sum : ℕ = update_view c message in
    let small : sum < 2 ^ 16 =
      unfold update_view reset in update_all-small message 0xffff bytes (omega arith) in
    rw (append_all-update_view c message lo hi, low_byte sum)
      ((λ e. ground (arith, e, small)), (λ e. ground (arith, e, small)))

-- The check finds every change of one byte of the message: if a frame passes it, no frame that differs
-- in exactly that byte does.
pub check_detects :
    (c : Crc) (before after : List ℕ) (a b lo hi : ℕ)
    → AllBytes before
    → AllBytes after
    → a < 256
    → b < 256
    → a ≢ b
    → lo < 256
    → hi < 256
    → check (append_all (reset c) ((before ++ (a ∷ after)) ++ (lo ∷ hi ∷ []))) ≡ true
    → check (append_all (reset c) ((before ++ (b ∷ after)) ++ (lo ∷ hi ∷ []))) ≡ false
check_detects c before after a b lo hi hbs has ha hb differ hlo hhi passes =
    elim (Bool-cases (check (append_all (reset c) ((before ++ (b ∷ after)) ++ (lo ∷ hi ∷ []))))) [
      | inr fails ↦ fails
      | inl also ↦
          let left =
            (check_iff c (before ++ (a ∷ after)) lo hi (AllBytes-append before after a hbs has ha)
                hlo hhi).0
              passes in
          let right =
            (check_iff c (before ++ (b ∷ after)) lo hi (AllBytes-append before after b hbs has hb)
                hlo hhi).0
              also in
          absurd (
            differ (
              one_byte before after 0xffff a b hbs has (omega arith) ha hb
                (unfold update_view reset in (sym left ∙ right))))
    ]
