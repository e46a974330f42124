-- ===== src/BitStore/Iterate.antt =====
-- include/asx/bitstore.hpp: the iterator from `begin` to `end`.
use asx.Base.{
  ℕ, zero, suc, ◌+◌, ◌<◌, ◌≡◌, refl, ap, ap₂, ◌∙◌, arith, Bool, false, ◌==◌, ==_true, ==_false,
}
use asx.Base.{Option, none, some, List, [], ◌∷◌, ◌>>=◌, if◌then◌else◌, tabulate, tabulate_ext}
use asx.BitStore.{BitStore, Iterator, get, begin, end, deref, increment, differs}

-- `for (bool b : store)`: the values that the loop sees, if it ends in as many rounds.
unfoldable pub loop : ℕ → ℕ → Iterator → Iterator → Option (List Bool)
loop n zero it last = none
loop n (suc fuel) it last =
    if differs it last
    then (do rest ← loop n fuel (increment it) last; some (deref n it ∷ rest))
    else some []

loop_from :
    (n k fuel : ℕ) (s : BitStore) (p : ℕ)
    → p + k ≡ n
    → k < fuel
    → loop n fuel (record { bit_store = s; pos = p }) (end n s)
      ≡ some (tabulate k (λ i. get n s (p + i)))
unfolding loop differs increment deref end
loop_from n k zero s p e lt = absurd (omega arith)
loop_from n zero (suc fuel) s p e lt = let here : p ≡ n = omega arith in rw (==_true p n here) refl
loop_from n (suc k) (suc fuel) s p e lt =
    let there : (p == n) ≡ false = ==_false p n (λ q. absurd (omega (arith, q, e))) in
    rw (there, loop_from n k fuel s (p + 1) (omega arith) (omega arith))
      (ap₂ (λ b l. some (b ∷ l)) (ap (get n s) (omega arith))
        (tabulate_ext k (λ i. get n s (p + 1 + i)) (λ i. get n s (p + suc i))
          (λ i below. ap (get n s) (omega arith))))

-- A range-based loop over a store sees the bits of the positions from 0 to n - 1 in order, and ends.
pub loop-begin-end :
    (n fuel : ℕ) (s : BitStore)
    → n < fuel
    → loop n fuel (begin n s) (end n s) ≡ some (tabulate n (get n s))
unfolding begin
loop-begin-end n fuel s lt =
    loop_from n n fuel s 0 (omega arith) lt
    ∙ ap (λ l. some l)
        (tabulate_ext n (λ i. get n s (0 + i)) (get n s) (λ i below. ap (get n s) (omega arith)))
