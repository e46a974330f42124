-- ===== src/DigitalInput/Direct/Flags.antt =====
-- src/digital_input.c: what an interrupt and an acknowledgment do to one pin.
use asx.Base.{
  ℕ, ◌%◌, ◌^◌, ◌<◌, ◌≡◌, ap, refl, ◌∙◌, arith, Bool, true, false, not, ◌&&◌, ◌||◌, some, ◌==◌,
  bit_and, bit_or,
}
use asx.Base.{if◌then◌else◌, lt→ltb, ==_true, ==_false}
use asx.Base.Digits.{
  test_bit, test_bit-bit_and, test_bit-bit_or, test_bit-complement, test_bit-pow, test_bit_above,
  width_from_bits,
}
use asx.Base.Outcome.{returned}
use asx.DigitalInput.Direct.{
  DirectInput, Direct, update, port_of, mask_of, pin_of, inverted, clear_interrupt,
  handle_pin_change_isr,
}
use asx.DigitalInput.Direct.Scan.{
  positions, latest, disabled, isr_loop_lem, latest_none, latest_lem, disabled_lem,
}

-- The bits that are new.
abbrev fresh : ℕ → ℕ → ℕ
fresh mask handling = bit_and mask (inverted handling)

pub and_width : (a b : ℕ) → a < 256 → bit_and a b < 256
and_width a b lt =
    width_from_bits 8 (bit_and a b)
      (λ i le. test_bit-bit_and a b i ∙ rw (test_bit_above 8 a i lt le) refl)

pub or_width : (a b : ℕ) → a < 256 → b < 256 → bit_or a b < 256
or_width a b lt lt' = width_from_bits 8 (bit_or a b) (λ i le.
    test_bit-bit_or a b i ∙ rw (test_bit_above 8 a i lt le, test_bit_above 8 b i lt' le) refl)

pub inverted_lem : (m i : ℕ) → m < 256 → i < 8 → test_bit (inverted m) i ≡ not (test_bit m i)
inverted_lem m i lt below = test_bit-complement 8 m i lt ∙ rw (lt→ltb i 8 below) refl

pub and_false : (b : Bool) → (b && false) ≡ false
and_false true = refl
and_false false = refl

pub pow_width : (k : ℕ) → k < 8 → 2 ^ k < 256
pow_width k below =
    width_from_bits 8 (2 ^ k)
      (λ i le. test_bit-pow k i ∙ ==_false k i (λ e. omega (arith, e, le, below)))

-- The mask of a pin, inverted, lacks its bit.
own_bit : (k : ℕ) → k < 8 → test_bit (inverted (2 ^ k)) k ≡ false
own_bit k below =
    inverted_lem (2 ^ k) k (pow_width k below) below ∙ ap not (test_bit-pow k k ∙ ==_true k k refl)

none_lost : (held asked : Bool) → (held || (asked && not held)) ≡ (held || asked)
none_lost true asked = refl
none_lost false true = refl
none_lost false false = refl

update_self : (f : ℕ → ℕ) (i v : ℕ) → update f i v i ≡ v
update_self f i v = rw (==_true i i refl) refl

-- A flag of a pin that is not being handled.
abbrev pub is_new : ℕ → ℕ → ℕ → Bool
is_new mask handling i = test_bit mask i && not (test_bit handling i)

-- What an interrupt of a port does.
pub record Interrupts (port value mask : ℕ) (d : Direct) : Type 0 where
  pub after : Direct
  pub ends : handle_pin_change_isr port value mask d ≡ returned after
  pub chain : after.first_direct ≡ d.first_direct
  pub stays :
      ((j : ℕ) → j < 8 → is_new mask (d.isr_bit_mask port) j ≡ false) → after.pending ≡ d.pending
  pub told :
      (i : ℕ)
      → i < 8
      → is_new mask (d.isr_bit_mask port) i ≡ true
      → ((j : ℕ) → i < j → j < 8 → is_new mask (d.isr_bit_mask port) j ≡ false)
      → after.pending ≡ some (record { pin = pin_of port i; value = not (value == 0) })
  pub handled :
      (i : ℕ)
      → i < 8
      → test_bit (after.isr_bit_mask port) i ≡ (test_bit (d.isr_bit_mask port) i || test_bit mask i)
  pub off :
      (i : ℕ)
      → i < 8
      → after.sense (pin_of port i)
        ≡ (if is_new mask (d.isr_bit_mask port) i then 0 else d.sense (pin_of port i))
  pub width : after.isr_bit_mask port < 256
  pub others : (p : ℕ) → port == p ≡ false → after.isr_bit_mask p ≡ d.isr_bit_mask p

module _ (port value mask : ℕ) (d : Direct) (byte : mask < 256)
    (handling_byte : d.isr_bit_mask port < 256) where
  abbrev pub new_bits : ℕ
  new_bits = fresh mask (d.isr_bit_mask port)

  pub new_bit : (i : ℕ) → i < 8 → test_bit new_bits i ≡ is_new mask (d.isr_bit_mask port) i
  new_bit i below =
      test_bit-bit_and mask _ i
      ∙ ap (λ b. test_bit mask i && b) (inverted_lem (d.isr_bit_mask port) i handling_byte below)

  pub isr_lem : Interrupts port value mask d
  unfolding handle_pin_change_isr
  isr_lem = record {
    after = record d {
      isr_bit_mask = update d.isr_bit_mask port (bit_or (d.isr_bit_mask port) new_bits);
      sense = disabled port (positions 8 0 new_bits) d.sense;
      pending = latest port value (positions 8 0 new_bits) d.pending;
    };
    ends =
        rw
          (isr_loop_lem 9 8 port value 0 new_bits d.pending d.sense (omega arith)
            (and_width mask _ byte))
          refl;
    chain = refl;
    stays = λ none_new.
        latest_none 8 port value 0 new_bits d.pending (λ j le lt. new_bit j lt ∙ none_new j lt);
    told = λ i below on highest.
        latest_lem 8 port value 0 i i new_bits d.pending below (omega arith) (new_bit i below ∙ on)
          (λ j le lt. new_bit j lt ∙ highest j (omega (arith, le)) lt);
    handled = λ i below.
        ap (λ m. test_bit m i) (update_self d.isr_bit_mask port _)
        ∙ test_bit-bit_or (d.isr_bit_mask port) new_bits i
        ∙ ap (λ b. test_bit (d.isr_bit_mask port) i || b) (new_bit i below)
        ∙ none_lost (test_bit (d.isr_bit_mask port) i) (test_bit mask i);
    off = λ i below.
        disabled_lem 8 port 0 i i new_bits d.sense below (omega arith)
        ∙ ap (λ b. if b then 0 else d.sense (pin_of port i)) (new_bit i below);
    width = omega (
      arith,
      update_self d.isr_bit_mask port (bit_or (d.isr_bit_mask port) new_bits),
      or_width (d.isr_bit_mask port) new_bits handling_byte (and_width mask _ byte),
    );
    others = λ p e. rw e refl;
  }

-- What the acknowledgment of an input leaves.
pub record Clears (di : DirectInput) (i : ℕ) (d : Direct) : Type 0 where
  pub cleared : Direct
  pub ends : clear_interrupt di d ≡ some cleared
  pub free : test_bit (cleared.isr_bit_mask (port_of di.pin)) i ≡ false
  pub on_again : cleared.sense di.pin ≡ di.sense_mode
  pub width : cleared.isr_bit_mask (port_of di.pin) < 256
  pub quiet : cleared.pending ≡ d.pending

pub clear_lem :
    (di : DirectInput) (d : Direct)
    → di.pin < 16
    → d.isr_bit_mask (port_of di.pin) < 256
    → Clears di (di.pin % 8) d
unfolding clear_interrupt
clear_lem di d in_range byte =
    let port = port_of di.pin in
    let held = d.isr_bit_mask port in
    let others = bit_and held (inverted (mask_of di.pin)) in
    record {
      cleared = record d {
        isr_bit_mask = update d.isr_bit_mask port others;
        sense = update d.sense di.pin di.sense_mode;
      };
      ends = rw (lt→ltb port 2 (omega (arith, in_range))) refl;
      free =
          ap (λ m. test_bit m (di.pin % 8)) (update_self d.isr_bit_mask port others)
          ∙ test_bit-bit_and held _ (di.pin % 8)
          ∙ ap (λ b. test_bit held (di.pin % 8) && b) (own_bit (di.pin % 8) (omega arith))
          ∙ and_false (test_bit held (di.pin % 8));
      on_again = update_self d.sense di.pin di.sense_mode;
      width = omega (
        arith,
        update_self d.isr_bit_mask port others,
        and_width held (inverted (mask_of di.pin)) byte,
      );
      quiet = refl;
    }
