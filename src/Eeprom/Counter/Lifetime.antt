-- ===== src/Eeprom/Counter/Lifetime.antt =====
-- src/eeprom.cpp: the count over many power cycles.
use asx.Base.{ℕ, zero, suc, ◌+◌, ◌^◌, ◌<◌, ◌≤◌, ◌≡◌, refl, arith, List, [], ◌∷◌, length}
use asx.Base.{Bool, false, ◌==◌, inr, if◌then◌else◌}
use asx.Eeprom.Counter.{Counter, Page, idle, complement, bank_count, fresh_bank}
use asx.Eeprom.Counter.{do_operation, find_bank, leave_full, construct, increment, get_count}
use asx.Eeprom.Counter.Holds.{Clears, Holds}
use asx.Eeprom.Counter.Increment.{Holds-update, increment-Holds}
use asx.Eeprom.Counter.Recover.{construct_lem}

-- A page in which no bank is in use.
abbrev pub IsBlank : Page → Type 0
IsBlank page =
    (i : ℕ) → i < bank_count → ((page i).counter == complement (page i).not_counter) ≡ false

find_none :
    (page : Page) (rounds i : ℕ)
    → IsBlank page
    → rounds + i ≡ bank_count
    → find_bank rounds i page 0 0xff ≡ (0, 0xff)
unfolding find_bank
find_none page zero i blank e = refl
find_none page (suc rounds) i blank e =
    rw (blank i (omega (arith, e))) (find_none page rounds (i + 1) blank (omega (arith, e)))

module _ (program : ℕ → ℕ → ℕ) where
  -- So many increments, each one written before the next.
  unfoldable pub count_times : ℕ → Counter × Page → Counter × Page
  count_times zero m = m
  count_times (suc n) (c, page) =
      count_times n (increment c, do_operation program (increment c) page)

  -- The increments between two power cycles, behind each of which the constructor runs again.
  unfoldable pub lifetime : List ℕ → Counter × Page → Counter × Page
  lifetime [] m = m
  lifetime (n ∷ ns) m = lifetime ns (construct program (count_times n m).1)

-- The increments in all.
abbrev pub total : List ℕ → ℕ
total [] = 0
total (n ∷ ns) = n + total ns

module _ (program : ℕ → ℕ → ℕ) (clears : Clears program) where
  pub formatted-Holds :
      (page : Page)
      → IsBlank page
      → Holds (construct program page).1 (construct program page).0
        × ((construct program page).0.counter ≡ 0)
  unfolding construct leave_full
  formatted-Holds page blank = rw (find_none page bank_count 0 blank refl) (
    Holds-update page c (fresh_bank 0) (omega arith) (omega arith) (omega arith) refl (omega arith)
        refl
        (record {
          bytes_below = λ j below. absurd (omega (arith, below));
          byte_at = inr (refl, refl);
          bytes_above = λ j above small. refl;
        })
        (λ i lt differ. rw (blank i lt) refl),
    refl,
  )
    where
      c : Counter
      c = record { counter = 0; bankpos = 0; bitpos = 0; bytepos = 0; op = idle }

  pub count_times-Holds :
      (n : ℕ) (c : Counter) (page : Page)
      → Holds page c
      → c.counter + n < 2 ^ 32
      → let m = count_times program n (c, page) in Holds m.1 m.0 × (m.0.counter ≡ c.counter + n)
  unfolding count_times
  count_times-Holds zero c page h fits = (h, omega arith)
  count_times-Holds (suc n) c page h fits =
      let (h', next) = increment-Holds program clears page c h (omega (arith, fits)) in
      let (h'', rest) =
        count_times-Holds n (increment c) (do_operation program (increment c) page) h'
          (omega (arith, fits, next)) in
      (h'', omega (arith, rest, next))

  lifetime-bounds :
      (ns : List ℕ) (c : Counter) (page : Page)
      → Holds page c
      → c.counter + total ns + length ns < 2 ^ 32
      → let m = lifetime program ns (c, page) in
        (c.counter + total ns ≤ get_count m.0) × (get_count m.0 ≤ c.counter + total ns + length ns)
  unfolding lifetime get_count
  lifetime-bounds [] c page h fits = (omega arith, omega arith)
  lifetime-bounds (n ∷ ns) c page h fits =
      let m = count_times program n (c, page) in
      let (h', counted) = count_times-Holds n c page h (omega (arith, fits)) in
      let (h'', found) = construct_lem program m.1 m.0 h' (omega (arith, fits, counted)) in
      let (low, high) = at_most_one (m.0.bitpos == 7) m.0.counter in
      let (below, above) =
        lifetime-bounds ns (construct program m.1).0 (construct program m.1).1 h''
          (omega (arith, fits, counted, found, high)) in
      (omega (arith, below, counted, found, low), omega (arith, above, counted, found, high))
    where
      at_most_one :
          (b : Bool) (n : ℕ) → (n ≤ (if b then n + 1 else n)) × ((if b then n + 1 else n) ≤ n + 1)
      at_most_one b n = ground arith

  -- The counter survives power cycles: from a page with no bank in use on, whatever is counted between
  -- them (each increment written before the next one), the count that is found at the end is at least
  -- the number of increments, and too high by at most one for each power cycle.
  pub lifetime_lem :
      (page : Page) (ns : List ℕ)
      → IsBlank page
      → total ns + length ns < 2 ^ 32
      → (total ns ≤ get_count (lifetime program ns (construct program page)).0)
        × (get_count (lifetime program ns (construct program page)).0 ≤ total ns + length ns)
  lifetime_lem page ns blank fits =
      let (h, none_yet) = formatted-Holds page blank in
      let (below, above) =
        lifetime-bounds ns (construct program page).0 (construct program page).1 h
          (omega (arith, fits, none_yet)) in
      (omega (arith, below, none_yet), omega (arith, above, none_yet))
