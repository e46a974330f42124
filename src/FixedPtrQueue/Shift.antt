-- ===== src/FixedPtrQueue/Shift.antt =====
-- include/asx/utils.hpp: the loop of `move_to_front`, and the window of the array behind it.
use native.Mathlib.Nat.{mod-eq_of_lt, add-zero}
use native.Mathlib.Decide.{dec_lt}
use asx.Base.{
  ℕ, zero, suc, ◌+◌, ◌-◌, ◌%◌, ◌≤◌, ◌<◌, ◌≡◌, ◌≢◌, ap, ap₂, subst, refl, sym, ◌∙◌, arith, List, ◌∷◌,
}
use asx.Base.{
  false, leb, ◌==◌, if◌then◌else◌, length, length-set, get_or, set, get_or-set_self, get_or-set_ne,
  tabulate, tabulate_ext, ==_true, ==_false,
}
use asx.Base.Outcome.{returned}
use asx.FixedPtrQueue.{shift_loop}
use asx.FixedPtrQueue.Places.{remove_at}
use asx.Queue.Ring.{index_ne, index_back, mod_wrap}
use asx.Queue.Window.{window}

-- The value at `j` in front, those in front of it one place later.
abbrev pub rotated : (ℕ → ℕ) → ℕ → ℕ → ℕ
rotated f j k = if k == 0 then f j else if leb k j then f (k - 1) else f k

without : (ℕ → ℕ) → ℕ → ℕ → ℕ
without f j k = if leb (suc k) j then f k else f (suc k)

tabulate-without :
    (m : ℕ) (f : ℕ → ℕ) (j : ℕ)
    → j ≤ m
    → tabulate m (without f j) ≡ remove_at j (tabulate (suc m) f)
unfolding without
tabulate-without m f zero le = tabulate_ext m _ _ (λ k lt. ground arith)
tabulate-without zero f (suc j) le = absurd (omega (arith, le))
tabulate-without (suc m) f (suc j) le = ap₂ ◌∷◌ (ground arith) (
    tabulate_ext m _ (without (λ k. f (suc k)) j) (λ k lt. unfold without in ground arith)
    ∙ tabulate-without m (λ k. f (suc k)) j (omega (arith, le)))

pub tabulate-rotated :
    (m : ℕ) (f : ℕ → ℕ) (j : ℕ)
    → j < m
    → tabulate m (rotated f j) ≡ f j ∷ remove_at j (tabulate m f)
tabulate-rotated zero f j lt = absurd (omega (arith, lt))
tabulate-rotated (suc m) f j lt =
    ap (λ l. f j ∷ l)
      (tabulate_ext m (λ k. rotated f j (suc k)) (without f j)
          (λ k below. unfold without in ground arith)
        ∙ tabulate-without m f j (omega (arith, lt)))

module _ (n h : ℕ) (in_range : h < n) where
  abbrev pub at : List ℕ → ℕ → ℕ
  at xs k = get_or xs ((h + k) % n) 0

  -- The array that the loop leaves when it starts at the `j`-th place.
  abbrev pub slide : ℕ → List ℕ → List ℕ
  slide zero xs = xs
  slide (suc j) xs = slide j (set xs ((h + suc j) % n) (at xs j))

  at-set_self : (xs : List ℕ) (j v : ℕ) → n ≤ length xs → at (set xs ((h + j) % n) v) j ≡ v
  at-set_self xs j v storage = get_or-set_self xs ((h + j) % n) v 0 (omega (arith, storage))

  pub places_differ : (j k : ℕ) → j < n → k < n → j ≢ k → (h + j) % n ≢ (h + k) % n
  places_differ j k lt below ne = elim (dec_lt j k) [
    | yes less ↦ λ e. index_ne h n in_range j k less below (sym e)
    | no more ↦ index_ne h n in_range k j (omega (arith, more, ne)) lt
  ]

  at-set_ne :
      (xs : List ℕ) (j k v : ℕ) → j < n → k < n → j ≢ k → at (set xs ((h + j) % n) v) k ≡ at xs k
  at-set_ne xs j k v lt below ne = get_or-set_ne xs _ _ v 0 (places_differ j k lt below ne)

  pub length-slide : (j : ℕ) (xs : List ℕ) → length (slide j xs) ≡ length xs
  length-slide zero xs = refl
  length-slide (suc j) xs = length-slide j _ ∙ length-set xs _ _

  one_place :
      (f g : ℕ → ℕ) (j k : ℕ)
      → ((i : ℕ) → i < n → suc j ≢ i → g i ≡ f i)
      → g (suc j) ≡ f j
      → suc j < n
      → k < n
      → (if k == 0 then g 0 else if leb k j then g (k - 1) else g k)
        ≡ (if k == 0 then f 0 else if leb k (suc j) then f (k - 1) else f k)
  one_place f g j k later here lt below =
      grind (arith, later 0, later k, later (k - 1), here, lt, below)

  at-slide :
      (j : ℕ) (xs : List ℕ) (k : ℕ)
      → n ≤ length xs
      → j < n
      → k < n
      → at (slide j xs) k ≡ (if k == 0 then at xs 0 else if leb k j then at xs (k - 1) else at xs k)
  at-slide zero xs k storage lt below = ground arith
  at-slide (suc j) xs k storage lt below =
      let moved = set xs ((h + suc j) % n) (at xs j) in
      let later : (i : ℕ) → i < n → suc j ≢ i → at moved i ≡ at xs i =
        λ i less. at-set_ne xs (suc j) i (at xs j) lt less in
      let here = at-set_self xs (suc j) (at xs j) storage in
      let rest =
        at-slide j moved k (omega (arith, storage, length-set xs ((h + suc j) % n) (at xs j)))
          (omega (arith, lt)) below in
      rest ∙ one_place (at xs) (at moved) j k later here lt below

  pub shift_loop-slide :
      (fuel j : ℕ) (xs : List ℕ)
      → j < fuel
      → j < n
      → shift_loop n fuel h ((h + j) % n) xs ≡ returned (slide j xs)
  unfolding shift_loop
  shift_loop-slide zero j xs enough lt = absurd (omega (arith, enough))
  shift_loop-slide (suc fuel) zero xs enough lt =
      rw (==_true ((h + 0) % n) h (rw add-zero (mod-eq_of_lt in_range))) refl
  shift_loop-slide (suc fuel) (suc j) xs enough lt =
      let away : ((h + suc j) % n == h) ≡ false = ==_false _ _ (λ e.
        places_differ (suc j) 0 lt (omega arith) (λ q. absurd (omega (arith, q)))
          (e ∙ sym (rw add-zero (mod-eq_of_lt in_range)))) in
      let before : (if (h + suc j) % n == 0 then n - 1 else (h + suc j) % n - 1) ≡ (h + j) % n =
        ground (
          arith,
          index_back h n in_range j (omega (arith, lt)),
          mod_wrap n ((h + suc j) % n + (n - 1)),
        ) in
      rw (away, before) (shift_loop-slide fuel j _ (omega (arith, enough)) (omega (arith, lt)))

  -- Behind the loop and the store at the front, the `j`-th pointer stands in front.
  pub window-slide :
      (j m : ℕ) (xs : List ℕ)
      → n ≤ length xs
      → j < m
      → m ≤ n
      → window (set (slide j xs) h (at xs j)) n h m ≡ at xs j ∷ remove_at j (window xs n h m)
  window-slide j m xs storage lt fits =
      let front : (h + 0) % n ≡ h = rw add-zero (mod-eq_of_lt in_range) in
      tabulate_ext m _ (rotated (at xs) j) (λ k below.
        let slid = at-slide j xs k storage (omega (arith, lt)) (omega (arith, below)) in
        subst (λ i. at (set (slide j xs) i (at xs j)) k ≡ rotated (at xs) j k) front
          (elim (dec_lt 0 k) [
            | yes later ↦
                at-set_ne (slide j xs) 0 k (at xs j) (omega arith) (omega (arith, below))
                  (λ e. omega (arith, e, later))
                ∙ slid
                ∙ ground (arith, later)
            | no first ↦
                let here =
                  at-set_self (slide j xs) 0 (at xs j)
                    (omega (arith, length-slide j xs, storage)) in
                subst (λ i. at (set (slide j xs) ((h + 0) % n) (at xs j)) i ≡ rotated (at xs) j i)
                  (omega (arith, first)) here
          ]))
      ∙ tabulate-rotated m (at xs) j lt

pub tabulate_first : (m : ℕ) (f : ℕ → ℕ) → 0 < m → tabulate m f ≡ f 0 ∷ remove_at 0 (tabulate m f)
tabulate_first zero f some_value = absurd (omega (arith, some_value))
tabulate_first (suc m) f some_value = refl

pub get_or-tabulate : (m : ℕ) (f : ℕ → ℕ) (j : ℕ) → j < m → get_or (tabulate m f) j 0 ≡ f j
get_or-tabulate zero f j lt = absurd (omega (arith, lt))
get_or-tabulate (suc m) f zero lt = refl
get_or-tabulate (suc m) f (suc j) lt = get_or-tabulate m (λ k. f (suc k)) j (omega (arith, lt))
