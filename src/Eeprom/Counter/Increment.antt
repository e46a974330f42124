-- ===== src/Eeprom/Counter/Increment.antt =====
-- src/eeprom.cpp: an increment of the counter and its operation on the page.
use asx.Base.{ℕ, ◌+◌, ◌*◌, ◌%◌, ◌^◌, ◌<◌, ◌≡◌, refl, sym, inl, inr, arith}
use asx.Base.{◌==◌, ==_true, ==_iff, Bool-cases, subst}
use native.Mathlib.Decide.{dec_lt}
use mathlib.Core.Logic.{◌≢◌}
use asx.Eeprom.Counter.{
  Bank, Counter, Page, Op, update_bits, new_bank_set_new, complement, bits_mask, bank_count,
  bytes_in_bank,
}
use asx.Eeprom.Counter.{update, fresh_bank, write_byte, do_operation, increment}
use asx.Eeprom.Counter.Holds.{Clears, Marked, IsOlder, Holds}
use asx.Eeprom.Counter.Marks.{update_same, update_other, next_bit, next_byte}

-- A bank that is written over one of the page.
pub Holds-update :
    (page : Page) (c : Counter) (bank : Bank)
    → c.bankpos < bank_count
    → c.bytepos < bytes_in_bank
    → c.bitpos < 8
    → c.counter ≡ bank.counter + 8 * c.bytepos + c.bitpos
    → c.counter < 2 ^ 32
    → bank.not_counter ≡ complement bank.counter
    → Marked bank.bit_bank c.bytepos c.bitpos
    → ((i : ℕ) → i < bank_count → i ≢ c.bankpos → IsOlder (page i) bank.counter)
    → Holds (update page c.bankpos bank) c
Holds-update page c bank hp hk hb count fits whole marks older =
    let e : bank ≡ update page c.bankpos bank c.bankpos = sym (update_same page c.bankpos bank) in
    record {
      bank_in_page = hp;
      byte_in_bank = hk;
      bit_in_byte = hb;
      total = subst (λ x. c.counter ≡ x.counter + 8 * c.bytepos + c.bitpos) e count;
      fits = fits;
      is_whole = subst (λ x. x.not_counter ≡ complement x.counter) e whole;
      marked = subst (λ x. Marked x.bit_bank c.bytepos c.bitpos) e marks;
      others = λ i lt differ.
          subst (λ x. IsOlder x (update page c.bankpos bank c.bankpos).counter)
            (sym (update_other page c.bankpos i bank (λ q. differ (sym q))))
            (subst (λ x. IsOlder (page i) x.counter) e (older i lt differ));
    }

-- The next bank takes the place of the bank in use.
pub next_bank-Holds :
    (page : Page) (c : Counter) (o : Op)
    → c.bankpos < bank_count
    → c.counter < 2 ^ 32
    → (page c.bankpos).counter < c.counter
    → ((i : ℕ) → i < bank_count → i ≢ c.bankpos → IsOlder (page i) (page c.bankpos).counter)
    → let next = record c {
      bytepos = 0;
      bitpos = 0;
      bankpos = (c.bankpos + 1) % bank_count;
      op = o;
    } in
      Holds (update page next.bankpos (fresh_bank c.counter)) next
next_bank-Holds page c o hp fits greater older =
    Holds-update page
      (record c { bytepos = 0; bitpos = 0; bankpos = (c.bankpos + 1) % bank_count; op = o })
      (fresh_bank c.counter) (omega arith) (omega arith) (omega arith) (omega arith) fits refl
      (record {
        bytes_below = λ j below. absurd (omega (arith, below));
        byte_at = inr (refl, refl);
        bytes_above = λ j above small. refl;
      })
      (λ i lt differ. elim (Bool-cases (i == c.bankpos)) [
        | inl e ↦ rw ((==_iff i c.bankpos).0 e) (ground (arith, greater))
        | inr other ↦
            ground (arith, greater, older i lt (λ q. ground (arith, other, ==_true i c.bankpos q)))
      ])

module _ (program : ℕ → ℕ → ℕ) (clears : Clears program) (page : Page) (c : Counter) where
  -- The bits that are marked by an increment within the bank.
  next_mark-Holds :
      (k b : ℕ)
      → Holds page c
      → c.counter + 1 < 2 ^ 32
      → k < bytes_in_bank
      → b < 8
      → 8 * k + b ≡ 8 * c.bytepos + c.bitpos + 1
      → Marked
          (update (page c.bankpos).bit_bank k (program ((page c.bankpos).bit_bank k) (bits_mask b)))
          k
          b
      → let next = record c {
        counter = c.counter + 1;
        bytepos = k;
        bitpos = b;
        op = update_bits;
      } in
        Holds (write_byte program next (bits_mask b) page) next
  next_mark-Holds k b h fits hk hb at marks =
      let next : Counter = record c {
        counter = c.counter + 1;
        bytepos = k;
        bitpos = b;
        op = update_bits;
      } in
      let bank = page c.bankpos in
      Holds-update page next
        (record bank {
          bit_bank = update bank.bit_bank k (program (bank.bit_bank k) (bits_mask b));
        })
        h.bank_in_page hk hb (omega (arith, h.total, at)) fits h.is_whole marks h.others

  increment_bit :
      c.bitpos + 1 < 8
      → c.counter + 1 < 2 ^ 32
      → increment c ≡ record c { counter = c.counter + 1; bitpos = c.bitpos + 1; op = update_bits }
  unfolding increment
  increment_bit bit fits = ground arith

  increment_byte :
      c.bitpos ≡ 7
      → c.bytepos + 1 < bytes_in_bank
      → c.counter + 1 < 2 ^ 32
      → increment c ≡ record c {
        counter = c.counter + 1;
        bitpos = 0;
        bytepos = c.bytepos + 1;
        op = update_bits;
      }
  unfolding increment
  increment_byte bit byte fits = ground arith

  increment_bank :
      c.bitpos ≡ 7
      → c.bytepos ≡ 7
      → c.counter + 1 < 2 ^ 32
      → increment c ≡ record c {
        counter = c.counter + 1;
        bitpos = 0;
        bytepos = 0;
        bankpos = (c.bankpos + 1) % bank_count;
        op = new_bank_set_new;
      }
  unfolding increment
  increment_bank bit byte fits = ground arith

  -- An increment whose operation is done keeps page and counter in agreement.
  pub increment-Holds :
      Holds page c
      → c.counter + 1 < 2 ^ 32
      → Holds (do_operation program (increment c) page) (increment c)
        × ((increment c).counter ≡ c.counter + 1)
  unfolding do_operation
  increment-Holds h fits = elim (dec_lt (c.bitpos + 1) 8) [
    | yes bit ↦ rw (increment_bit bit fits) (
      next_mark-Holds c.bytepos (c.bitpos + 1) h fits h.byte_in_bank bit (omega arith) (
          next_bit program clears (page c.bankpos).bit_bank c.bytepos c.bitpos (omega (arith, bit))
            h.marked),
      refl,
    )
    | no last ↦
        let bitpos : c.bitpos ≡ 7 = omega (arith, last, h.bit_in_byte) in
        elim (dec_lt (c.bytepos + 1) 8) [
          | yes byte ↦ rw (increment_byte bitpos byte fits) (
            next_mark-Holds (c.bytepos + 1) 0 h fits byte (omega arith) (omega (arith, bitpos)) (
                next_byte program clears (page c.bankpos).bit_bank c.bytepos byte
                  (subst (Marked (page c.bankpos).bit_bank c.bytepos) bitpos h.marked)),
            refl,
          )
          | no full ↦
              let bytepos : c.bytepos ≡ 7 = omega (arith, full, h.byte_in_bank) in
              rw (increment_bank bitpos bytepos fits) (
                next_bank-Holds page (record c { counter = c.counter + 1 }) new_bank_set_new
                    h.bank_in_page fits (omega (arith, h.total)) h.others,
                refl,
              )
        ]
  ]
