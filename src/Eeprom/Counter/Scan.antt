-- ===== src/Eeprom/Counter/Scan.antt =====
-- src/eeprom.cpp: the loops of the constructor, on a page that a counter has left.
use asx.Base.{
  ℕ, zero, suc, ◌+◌, ◌*◌, ◌^◌, ◌<◌, ◌≤◌, ◌≡◌, refl, ap, ◌∙◌, ◌⊎◌, inl, inr, arith, subst,
}
use asx.Base.{true, false, ◌&&◌, leb, ◌==◌, ==_false, ==_iff, Bool-cases, if◌then◌else◌, u32}
use native.Mathlib.Decide.{dec_lt}
use asx.Base.Bits.{all_below, all_equal}
use asx.Eeprom.Counter.{Counter, Page, idle, complement, bits_mask, bank_count, bytes_in_bank}
use asx.Eeprom.Counter.{find_bank, find_bits, count_byte, count_bytes}
use asx.Eeprom.Counter.Holds.{Holds}

module _ (page : Page) (c : Counter) (h : Holds page c) where
  abbrev pub base : ℕ
  base = (page c.bankpos).counter

  small_base : base < 2 ^ 32
  small_base = omega (arith, h.total, h.fits)

  -- Behind the bank in use the loop keeps it, and in front of it the loop comes to it.
  find_behind :
      (rounds i : ℕ)
      → c.bankpos < i
      → rounds + i ≡ bank_count
      → find_bank rounds i page base c.bankpos ≡ (base, c.bankpos)
  unfolding find_bank
  find_behind zero i lt e = refl
  find_behind (suc rounds) i lt e =
      rw (h.others i (omega (arith, e)) (λ q. omega (arith, q, lt)))
        (find_behind rounds (i + 1) (omega (arith, lt)) (omega (arith, e)))

  pub find_front :
      (rounds i counter bankpos : ℕ)
      → i ≤ c.bankpos
      → rounds + i ≡ bank_count
      → counter ≤ base
      → find_bank rounds i page counter bankpos ≡ (base, c.bankpos)
  unfolding find_bank
  find_front zero i counter bankpos le e bound = absurd (omega (arith, le, e, h.bank_in_page))
  find_front (suc rounds) i counter bankpos le e bound = elim (dec_lt i c.bankpos) [
    | yes lt ↦
        elim (Bool-cases
          (((page i).counter == complement (page i).not_counter) && leb counter (page i).counter)) [
            | inl better ↦ rw better (
                find_front rounds (i + 1) (page i).counter i (omega (arith, lt)) (omega (arith, e))
                  (ground (
                    arith,
                    better,
                    h.others i (omega (arith, lt, h.bank_in_page)) (λ q. omega (arith, q, lt)),
                  )))
            | inr worse ↦ rw worse (
                find_front rounds (i + 1) counter bankpos (omega (arith, lt)) (omega (arith, e))
                  bound)
          ]
    | no ge ↦
        let here : i ≡ c.bankpos = omega (arith, ge, le) in
        let chosen : ((base == complement (page c.bankpos).not_counter) && leb counter base)
            ≡ true =
          ground (arith, h.is_whole, small_base, bound) in
        rw (here, chosen)
          (find_behind rounds (c.bankpos + 1) (omega arith) (omega (arith, e, here)))
  ]

  -- The counter as the loop over the bytes has it in front of byte `k`.
  abbrev pub counted : ℕ → Counter
  counted k = record {
    counter = base + 8 * k;
    bankpos = c.bankpos;
    bitpos = 0;
    bytepos = k;
    op = idle;
  }

  -- The counter that the loop ends with: all bits of the byte in use may be gone, and then the count is
  -- one higher than before.
  abbrev pub counted_on : Counter
  counted_on = if c.bitpos == 7 then counted (c.bytepos + 1) else record c { op = idle }

  -- A byte by its mask.
  mask_found : (b : ℕ) → b < 7 → find_bits 8 0 (bits_mask b) ≡ b
  unfolding all_below find_bits
  mask_found b lt = all_equal 7 (λ i. find_bits 8 0 (bits_mask i)) (λ i. i) b refl lt

  mask_partial : (b : ℕ) → b < 7 → ((bits_mask b == 0) ≡ false) × ((bits_mask b == 0xff) ≡ false)
  unfolding all_below
  mask_partial b lt = ground (
    arith,
    all_equal 7 (λ i. if bits_mask i == 0 then 1 else 0) (λ i. 0) b refl lt,
    all_equal 7 (λ i. if bits_mask i == 0xff then 1 else 0) (λ i. 0) b refl lt,
  )

  module _ (program : ℕ → ℕ → ℕ) (room : c.counter + 1 < 2 ^ 32) where
    -- A byte of zeros is passed.
    count_zeros :
        (rounds k : ℕ)
        → base + 8 * k + 8 < 2 ^ 32
        → (page c.bankpos).bit_bank k ≡ 0
        → count_bytes program (suc rounds) (counted k) page
          ≡ count_bytes program rounds (counted (k + 1)) page
    unfolding count_bytes
    count_zeros rounds k fits e =
        let sum : u32 (base + 8 * k + 8) ≡ base + 8 * (k + 1) = omega (arith, fits) in
        rw (e, sum) refl

    -- An erased byte ends the loop, and so does the end of the bank.
    count_erased :
        (rounds k : ℕ)
        → rounds + k ≡ bytes_in_bank
        → (k < bytes_in_bank → (page c.bankpos).bit_bank k ≡ 0xff)
        → count_bytes program rounds (counted k) page ≡ (counted k, page)
    unfolding count_bytes
    count_erased zero k e erased = refl
    count_erased (suc rounds) k e erased = rw (erased (omega (arith, e))) refl

    count_mask :
        (rounds : ℕ)
        → c.bitpos < 7
        → (page c.bankpos).bit_bank c.bytepos ≡ bits_mask c.bitpos
        → count_bytes program (suc rounds) (counted c.bytepos) page ≡ (record c { op = idle }, page)
    unfolding count_bytes count_byte
    count_mask rounds lt e =
        let sum : u32 (base + 8 * c.bytepos + c.bitpos) ≡ c.counter =
          omega (arith, h.total, room) in
        rw
          (
            e,
            (mask_partial c.bitpos lt).0,
            (mask_partial c.bitpos lt).1,
            mask_found c.bitpos lt,
            ==_false c.bitpos 8 (λ q. omega (arith, q, lt)),
            sum,
          )
          refl

    count_here :
        (rounds : ℕ)
        → suc rounds + c.bytepos ≡ bytes_in_bank
        → ((page c.bankpos).bit_bank c.bytepos ≡ bits_mask c.bitpos)
          ⊎ ((c.bitpos ≡ 0) × ((page c.bankpos).bit_bank c.bytepos ≡ 0xff))
        → count_bytes program (suc rounds) (counted c.bytepos) page ≡ (counted_on, page)
    count_here rounds e (inr (none_gone, erased)) =
        let same : counted c.bytepos ≡ record c { op = idle } = grind (arith, h.total, none_gone) in
        rw (==_false c.bitpos 7 (λ q. omega (arith, q, none_gone)))
          (count_erased (suc rounds) c.bytepos e (λ lt. erased) ∙ ap (λ x. (x, page)) same)
    count_here rounds e (inl mask) = elim (Bool-cases (c.bitpos == 7)) [
      | inr some_left ↦
          rw some_left (count_mask rounds (ground (arith, some_left, h.bit_in_byte)) mask)
      | inl all_gone ↦
          let seven : c.bitpos ≡ 7 = (==_iff c.bitpos 7).0 all_gone in
          rw all_gone (
            count_zeros rounds c.bytepos (omega (arith, h.total, room, seven))
              (mask ∙ rw seven refl)
            ∙ count_erased rounds (c.bytepos + 1) (omega (arith, e))
                (λ lt. h.marked.bytes_above (c.bytepos + 1) (omega arith) lt))
    ]

    pub count_lem :
        (rounds k : ℕ)
        → rounds + k ≡ bytes_in_bank
        → k ≤ c.bytepos
        → count_bytes program rounds (counted k) page ≡ (counted_on, page)
    count_lem zero k e le = absurd (omega (arith, e, le, h.byte_in_bank))
    count_lem (suc rounds) k e le = elim (dec_lt k c.bytepos) [
      | yes lt ↦
          count_zeros rounds k (omega (arith, h.total, room, lt)) (h.marked.bytes_below k lt)
          ∙ count_lem rounds (k + 1) (omega (arith, e)) (omega (arith, lt))
      | no ge ↦
          let here : c.bytepos ≡ k = omega (arith, ge, le) in
          subst (λ i. count_bytes program (suc rounds) (counted i) page ≡ (counted_on, page)) here
            (count_here rounds (omega (arith, e, here)) h.marked.byte_at)
    ]
