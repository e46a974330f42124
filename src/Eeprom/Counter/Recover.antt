-- ===== src/Eeprom/Counter/Recover.antt =====
-- src/eeprom.cpp: what the constructor finds in a page that a counter has left.
use asx.Base.{ℕ, ◌+◌, ◌*◌, ◌^◌, ◌<◌, ◌≡◌, refl, ap, ◌∙◌, ◌⊎◌, inl, inr, arith, subst}
use asx.Base.{◌==◌, ==_false, ==_iff, Bool-cases, if◌then◌else◌}
use native.Mathlib.Decide.{dec_lt}
use asx.Eeprom.Counter.{Counter, Page, idle, new_bank_set_new, bits_mask, bank_count, bytes_in_bank}
use asx.Eeprom.Counter.{do_operation, count_bytes, leave_full, construct}
use asx.Eeprom.Counter.Holds.{Holds}
use asx.Eeprom.Counter.Increment.{next_bank-Holds}
use asx.Eeprom.Counter.Scan.{counted, counted_on, find_front, count_lem}

module _ (program : ℕ → ℕ → ℕ) (page : Page) (c : Counter) (h : Holds page c) where
  construct_found :
      c.counter + 1 < 2 ^ 32
      → construct program page ≡ leave_full program (counted_on page c h, page)
  unfolding construct
  construct_found room =
      rw
        (
          find_front page c h bank_count 0 0 0xff (omega arith) (omega arith) (omega arith),
          ==_false c.bankpos 0xff (λ q. omega (arith, q, h.bank_in_page)),
        )
        (subst
          (λ n.
            leave_full program (count_bytes program bytes_in_bank (start n) page)
            ≡ leave_full program (counted_on page c h, page))
          (omega arith)
          (ap (leave_full program)
            (count_lem page c h program room bytes_in_bank 0 refl (omega arith))))
    where
      start : ℕ → Counter
      start n = record { counter = n; bankpos = c.bankpos; bitpos = 0; bytepos = 0; op = idle }

  -- A byte that is full, in a bank that is not.
  full_byte-Holds :
      c.bitpos ≡ 7
      → c.bytepos + 1 < bytes_in_bank
      → c.counter + 1 < 2 ^ 32
      → Holds page (counted page c h (c.bytepos + 1))
  full_byte-Holds gone left room = record {
    bank_in_page = h.bank_in_page;
    byte_in_bank = left;
    bit_in_byte = omega arith;
    total = omega arith;
    fits = omega (arith, h.total, room, gone);
    is_whole = h.is_whole;
    marked = record {
      bytes_below = λ j below. elim (dec_lt j c.bytepos) [
        | yes lt ↦ h.marked.bytes_below j lt
        | no ge ↦
            subst (λ i. (page c.bankpos).bit_bank i ≡ 0) (omega (arith, ge, below))
              (last_zero h.marked.byte_at)
      ];
      byte_at = inr (refl, h.marked.bytes_above (c.bytepos + 1) (omega arith) left);
      bytes_above = λ j above small. h.marked.bytes_above j (omega (arith, above)) small;
    };
    others = h.others;
  }
    where
      last_zero :
          ((page c.bankpos).bit_bank c.bytepos ≡ bits_mask c.bitpos)
            ⊎ ((c.bitpos ≡ 0) × ((page c.bankpos).bit_bank c.bytepos ≡ 0xff))
          → (page c.bankpos).bit_bank c.bytepos ≡ 0
      last_zero (inl e) = e ∙ rw gone refl
      last_zero (inr (z, e)) = absurd (omega (arith, z, gone))

  stopped-Holds : Holds page (record c { op = idle })
  stopped-Holds = record {
    bank_in_page = h.bank_in_page;
    byte_in_bank = h.byte_in_bank;
    bit_in_byte = h.bit_in_byte;
    total = h.total;
    fits = h.fits;
    is_whole = h.is_whole;
    marked = h.marked;
    others = h.others;
  }

  -- The constructor finds the count again in a page that holds it, and leaves page and counter in
  -- agreement. But with seven bits of a byte used the byte is 0 and is taken for full: then the count
  -- that is found is one too high.
  pub construct_lem :
      c.counter + 1 < 2 ^ 32
      → Holds (construct program page).1 (construct program page).0
        × ((construct program page).0.counter
            ≡ (if c.bitpos == 7 then c.counter + 1 else c.counter))
  unfolding leave_full do_operation
  construct_lem room = elim (Bool-cases (c.bitpos == 7)) [
    | inr left ↦
        rw
          (construct_found room, left, ==_false c.bytepos 8 (λ q. omega (arith, q, h.byte_in_bank)))
          (stopped-Holds, refl)
    | inl gone ↦
        let seven : c.bitpos ≡ 7 = (==_iff c.bitpos 7).0 gone in
        let sum : (page c.bankpos).counter + 8 * (c.bytepos + 1) ≡ c.counter + 1 =
          omega (arith, h.total, seven) in
        elim (Bool-cases (c.bytepos + 1 == 8)) [
          | inr byte ↦
              rw (construct_found room, gone, byte)
                (full_byte-Holds seven (ground (arith, byte, h.byte_in_bank)) room, sum)
          | inl bank ↦
              rw (construct_found room, gone, bank)
                (
                  next_bank-Holds page (counted page c h (c.bytepos + 1)) new_bank_set_new
                      h.bank_in_page (omega (arith, sum, room)) (omega arith) h.others,
                  sum,
                )
        ]
  ]
