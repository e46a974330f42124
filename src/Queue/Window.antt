-- ===== src/Queue/Window.antt =====
-- How one store or one step of an index changes the values seen from the head of the ring.
use native.Mathlib.Nat.{mod-eq_of_lt, add-zero, add-mod_right}
use asx.Base.{
  ℕ, suc, ◌+◌, ◌-◌, ◌%◌, ◌≤◌, ◌<◌, ◌≡◌, ap, ap₂, subst, ◌∙◌, sym, arith, List, [], ◌∷◌, ◌++◌,
}
use asx.Base.{
  length, set, get_or, tail, tabulate, tabulate_ext, tabulate-suc, get_or-set_self, get_or-set_ne,
}
use asx.Queue.Ring.{index_ne, index_right, index_left}

-- The `m` values of the ring from index `h` on.
abbrev pub window : List ℕ → ℕ → ℕ → ℕ → List ℕ
window buf n h m = tabulate m (λ k. get_or buf ((h + k) % n) 0)

module _ (buf : List ℕ) (n h : ℕ) (v : ℕ) (in_range : h < n) (storage : n ≤ length buf) where
  -- A store behind the last value appends it.
  pub window-set_last :
      (m : ℕ) → m < n → window (set buf ((h + m) % n) v) n h (suc m) ≡ window buf n h m ++ (v ∷ [])
  window-set_last m lt =
      tabulate-suc m _
      ∙ ap₂ (λ (xs : List ℕ) (x : ℕ). xs ++ (x ∷ []))
          (tabulate_ext m _ _
            (λ k below. get_or-set_ne buf _ _ v 0 (index_ne h n in_range k m below lt)))
          (get_or-set_self buf ((h + m) % n) v 0 (omega arith))

  -- A store one step before the first value puts it in front.
  pub window-set_first :
      (m : ℕ)
      → m < n
      → window (set buf ((h + (n - 1)) % n) v) n ((h + (n - 1)) % n) (suc m) ≡ v ∷ window buf n h m
  window-set_first m lt =
      ap₂ ◌∷◌ front
        (tabulate_ext m _ _ λ k below. rw (index_left h n in_range k (omega arith)) (other k below))
    where
      h' : ℕ
      h' = (h + (n - 1)) % n

      front : get_or (set buf h' v) ((h' + 0) % n) 0 ≡ v
      front =
          rw (add-zero, mod-eq_of_lt {n = h'} {m = n} (omega arith))
            (get_or-set_self buf h' v 0 (omega arith))

      other : (k : ℕ) → k < m → get_or (set buf h' v) ((h + k) % n) 0 ≡ get_or buf ((h + k) % n) 0
      other k below =
          get_or-set_ne buf h' _ v 0 (index_ne h n in_range k (n - 1) (omega arith) (omega arith))

module _ (buf : List ℕ) (n h : ℕ) (in_range : h < n) where
  -- The first value, and the window behind it.
  pub window_first :
      (m : ℕ) → window buf n h (suc m) ≡ get_or buf h 0 ∷ window buf n ((h + 1) % n) m
  window_first m =
      ap₂ ◌∷◌ (ap (λ i. get_or buf i 0) (rw add-zero (mod-eq_of_lt in_range)))
        (tabulate_ext m _ _ λ k below. ap (λ i. get_or buf i 0) (sym (index_right h n in_range k)))

  -- The last value, and the window before it.
  pub window_last :
      (m : ℕ) → window buf n h (suc m) ≡ window buf n h m ++ (get_or buf ((h + m) % n) 0 ∷ [])
  window_last m = tabulate-suc m _

  -- In a full ring a store at the head, which becomes the last index, drops the first value.
  pub window-set_full :
      (v : ℕ)
      → n ≤ length buf
      → window (set buf h v) n ((h + 1) % n) n ≡ tail (window buf n h n ++ (v ∷ []))
  window-set_full v storage =
      subst (λ m. window (set buf h v) n h' m ≡ tail (window buf n h m ++ (v ∷ []))) whole
        (stored ∙ ap (λ l. tail (l ++ (v ∷ []))) (sym (window_first (n - 1))))
    where
      h' : ℕ
      h' = (h + 1) % n

      whole : suc (n - 1) ≡ n
      whole = omega arith

      last_index : (h' + (n - 1)) % n ≡ h
      last_index =
          index_right h n in_range (n - 1)
          ∙ ap (λ i. i % n) (omega arith)
          ∙ add-mod_right h n
          ∙ mod-eq_of_lt in_range

      stored : window (set buf h v) n h' (suc (n - 1)) ≡ window buf n h' (n - 1) ++ (v ∷ [])
      stored =
          subst (λ i. window (set buf i v) n h' (suc (n - 1)) ≡ window buf n h' (n - 1) ++ (v ∷ []))
            last_index (window-set_last buf n h' v (omega arith) storage (n - 1) (omega arith))
