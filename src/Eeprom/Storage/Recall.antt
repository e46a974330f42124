-- ===== src/Eeprom/Storage/Recall.antt =====
-- include/asx/eeprom.hpp: what the constructor of `Storage` finds in the user row.
use asx.Base.{ℕ, ◌%◌, ◌<◌, ◌≡◌, ◌≢◌, refl, sym, ◌∙◌, arith, Bool, true}
use asx.Base.{◌==◌, ==_true, ==_false, lt→ltb, if◌then◌else◌}
use asx.Eeprom.Storage.{
  Bytes, Storage, stored_sum, copied, calc_fletcher16, do_operation, construct, u16,
}
use asx.Eeprom.Storage.Sums.{AreBytes, calc_fletcher16_lem, fletcher_loop_ext, sum_of_change}

-- A row with another byte at `j`.
abbrev pub put : ℕ → ℕ → Bytes → Bytes
put j b row i = if j == i then b else row i

put_self : (j b : ℕ) (row : Bytes) → put j b row j ≡ b
put_self j b row = rw (==_true j j refl) refl

put_other : (j b : ℕ) (row : Bytes) (i : ℕ) → i ≢ j → put j b row i ≡ row i
put_other j b row i ne = rw (==_false j i (λ e. ne (sym e))) refl

put_small : (j b : ℕ) (row : Bytes) (i : ℕ) → b < 256 → row i < 256 → put j b row i < 256
put_small j b row i byte small = ground arith

-- The storage that the constructor leaves when the row is good, and when it is not.
abbrev pub recalled : ℕ → Bytes → Bytes → Bool → Storage
recalled size initial_data row formatted = record {
  value = copied size initial_data row;
  row = row;
  formatted = formatted;
}

module _ (data_version size : ℕ) where
  abbrev pub defaults : Bytes → Bytes → Bool → Storage
  defaults initial_data row formatted =
      record (do_operation data_version size
        (record { value = initial_data; row = row; formatted = formatted })) { formatted = true }

  module _ (version_in : data_version < 65281) (some_byte : 0 < size) (fits : size < 30) where
    sum_same :
        (p q : Bytes)
        → ((i : ℕ) → i < size → p i ≡ q i)
        → calc_fletcher16 data_version size p ≡ calc_fletcher16 data_version size q
    unfolding calc_fletcher16
    sum_same p q same =
        rw
          (fletcher_loop_ext size 0 p q (u16 data_version) 0xff
            (λ i lt. same i (omega (arith, lt))))
          refl

    good_row :
        (initial_data row : Bytes) (formatted : Bool)
        → stored_sum row ≡ calc_fletcher16 data_version size row
        → construct data_version size initial_data row formatted
          ≡ recalled size initial_data row formatted
    unfolding construct
    good_row initial_data row formatted good = rw (==_true _ _ good) refl

    bad_row :
        (initial_data row : Bytes) (formatted : Bool)
        → stored_sum row ≢ calc_fletcher16 data_version size row
        → construct data_version size initial_data row formatted
          ≡ defaults initial_data row formatted
    unfolding construct
    bad_row initial_data row formatted bad = rw (==_false _ _ bad) refl

    saved_row :
        (s : Storage) (i : ℕ) → i < size → (do_operation data_version size s).row i ≡ s.value i
    unfolding do_operation
    saved_row s i lt =
        rw
          (
            ==_false i 30 (λ e. omega (arith, e, lt, fits)),
            ==_false i 31 (λ e. omega (arith, e, lt, fits)),
            lt→ltb i size lt,
          )
          refl

    saved_sum :
        (s : Storage)
        → stored_sum (do_operation data_version size s).row
          ≡ calc_fletcher16 data_version size s.value
    unfolding do_operation
    saved_sum s = omega arith

    kept :
        (s : Storage) (initial_data : Bytes) (formatted : Bool)
        → construct data_version size initial_data (do_operation data_version size s).row formatted
          ≡ recalled size initial_data (do_operation data_version size s).row formatted
    kept s initial_data formatted =
        good_row initial_data _ formatted (saved_sum s ∙ sym (sum_same _ _ (saved_row s)))

    changed :
        (s : Storage) (initial_data : Bytes) (formatted : Bool) (j b : ℕ)
        → AreBytes size s.value
        → j < size
        → b < 256
        → b % 255 ≢ s.value j % 255
        → construct data_version size initial_data
            (put j b (do_operation data_version size s).row)
            formatted
          ≡ defaults initial_data (put j b (do_operation data_version size s).row) formatted
    changed s initial_data formatted j b small lt byte other =
        let saved = (do_operation data_version size s).row in
        let now = put j b saved in
        let saved_small : AreBytes size saved =
          λ i below. omega (arith, saved_row s i below, small i below) in
        let now_small : AreBytes size now =
          λ i below. put_small j b saved i byte (saved_small i below) in
        let before =
          (calc_fletcher16_lem data_version size saved version_in some_byte saved_small).1 in
        let after = (calc_fletcher16_lem data_version size now version_in some_byte now_small).1 in
        let sums =
          sum_of_change size 0 j now saved (omega arith) (omega (arith, lt))
            (put_other j b saved) in
        let sum_now = put_other j b saved 30 (λ e. omega (arith, e, lt, fits)) in
        let sum_now' = put_other j b saved 31 (λ e. omega (arith, e, lt, fits)) in
        bad_row initial_data now formatted (λ e. omega (
          arith,
          e,
          sum_now,
          sum_now',
          saved_sum s,
          sum_same _ _ (saved_row s),
          before,
          after,
          sums,
          put_self j b saved,
          saved_row s j lt,
          other,
        ))

    erased :
        (initial_data row : Bytes) (formatted : Bool)
        → AreBytes size row
        → row 30 ≡ 0xff
        → row 31 ≡ 0xff
        → construct data_version size initial_data row formatted
          ≡ defaults initial_data row formatted
    erased initial_data row formatted small low high =
        let whole = (calc_fletcher16_lem data_version size row version_in some_byte small).0 in
        bad_row initial_data row formatted (λ e. omega (arith, e, low, high, whole))

versioned :
    (data_version size : ℕ)
    → data_version < 65281
    → 0 < size
    → size < 30
    → (s : Storage) (initial_data : Bytes) (formatted : Bool) (other : ℕ) → AreBytes size s.value
    → other < 65281
    → other % 255 ≢ data_version % 255
    → construct other size initial_data (do_operation data_version size s).row formatted
      ≡ defaults other size initial_data (do_operation data_version size s).row formatted
versioned data_version size version_in some_byte fits s initial_data formatted other small other_in
      versions =
    let saved = (do_operation data_version size s).row in
    let same = saved_row data_version size version_in some_byte fits s in
    let saved_small : AreBytes size saved = λ i below. omega (arith, same i below, small i below) in
    let sum = saved_sum data_version size version_in some_byte fits s in
    let mine = (calc_fletcher16_lem data_version size saved version_in some_byte saved_small).1 in
    let theirs = (calc_fletcher16_lem other size saved other_in some_byte saved_small).1 in
    let equal = sum_same data_version size version_in some_byte fits saved s.value same in
    bad_row other size other_in some_byte fits initial_data saved formatted
      (λ e. omega (arith, e, sum, mine, theirs, equal, versions))

-- A storage of 1 to 29 bytes, with a version below 65281, after its operation. The constructor finds the
-- same bytes again and leaves the row as it is. It takes the default values and formats the row instead
-- when one byte of the data is another, except for 0 and 255 in place of each other, when it has another
-- version than the row was written with, modulo 255, and when the row is erased.
pub recall_lem :
    (data_version size : ℕ) (s : Storage) (initial_data : Bytes) (formatted : Bool) (j b other : ℕ)
    → data_version < 65281
    → size < 30
    → AreBytes size s.value
    → j < size
    → b < 256
    → b % 255 ≢ s.value j % 255
    → other < 65281
    → other % 255 ≢ data_version % 255
    → (construct data_version size initial_data (do_operation data_version size s).row formatted
        ≡ recalled size initial_data (do_operation data_version size s).row formatted)
      × (copied size initial_data (do_operation data_version size s).row j ≡ s.value j)
      × (construct data_version size initial_data
            (put j b (do_operation data_version size s).row)
            formatted
          ≡ defaults data_version size initial_data
              (put j b (do_operation data_version size s).row)
              formatted)
      × (construct other size initial_data (do_operation data_version size s).row formatted
          ≡ defaults other size initial_data (do_operation data_version size s).row formatted)
      × (construct data_version size initial_data (λ i. 0xff) formatted
          ≡ defaults data_version size initial_data (λ i. 0xff) formatted)
recall_lem data_version size s initial_data formatted j b other version_in fits small lt byte
      differs other_in versions =
    let some_byte : 0 < size = omega (arith, lt) in
    (
      kept data_version size version_in some_byte fits s initial_data formatted,
      rw (lt→ltb j size lt) (saved_row data_version size version_in some_byte fits s j lt),
      changed data_version size version_in some_byte fits s initial_data formatted j b small lt byte
          differs,
      versioned data_version size version_in some_byte fits s initial_data formatted other small
          other_in versions,
      erased data_version size version_in some_byte fits initial_data (λ i. 0xff) formatted
          (λ i below. omega arith) refl refl,
    )
