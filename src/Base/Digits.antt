-- ===== src/Base/Digits.antt =====
-- The binary digits of a number of any width, and what `|`, `&` and `^` do to them.
use Prim.Native.Nat.{ℕ, zero, suc, ◌+◌, ◌-◌, ◌*◌, ◌/◌, ◌%◌, ◌^◌, ◌≤◌, ◌<◌, min, max, digits, differ}
use Prim.Native.Nat.{bit_and, bit_or, bit_xor, bit_and-bitwise, bit_or-bitwise, bit_xor-bitwise}
use native.Mathlib.Nat.{pow-suc}
use mathlib.Core.Path.{◌≡◌, refl, ap, sym, ◌∙◌}
use mathlib.Core.Bool.{Bool, true, false, not, ◌&&◌, ◌||◌}
use native.Mathlib.Omega.{arith}
use asx.Base.Tests.{ltb, ◌==◌}

unfoldable pub test_bit : ℕ → ℕ → Bool
test_bit n zero = n % 2 == 1
test_bit n (suc i) = test_bit (n / 2) i

pub test_bit-zero : (i : ℕ) → test_bit 0 i ≡ false
unfolding test_bit
test_bit-zero zero = refl
test_bit-zero (suc i) = test_bit-zero i

-- The bits of a number by its last digit.
test_bit_last : (q d : ℕ) → d < 2 → test_bit (q * 2 + d) 0 ≡ (d == 1)
unfolding test_bit
test_bit_last q d lt = let e : (q * 2 + d) % 2 ≡ d = omega arith in rw e refl

test_bit_rest : (q d i : ℕ) → d < 2 → test_bit (q * 2 + d) (suc i) ≡ test_bit q i
unfolding test_bit
test_bit_rest q d i lt = let e : (q * 2 + d) / 2 ≡ q = omega arith in rw e refl

-- An operation `f` on digits that acts as `g` on bits, and `z` where the first number has run out.
module _ (z : ℕ → ℕ) (f : ℕ → ℕ → ℕ) (g : Bool → Bool → Bool)
    (digit : (d e : ℕ) → d < 2 → e < 2 → f d e < 2)
    (acts : (d e : ℕ) → d < 2 → e < 2 → (f d e == 1) ≡ g (d == 1) (e == 1))
    (ends : (b i : ℕ) → test_bit (z b) i ≡ g false (test_bit b i)) where
  ended : (b i : ℕ) → test_bit (z b) i ≡ g (test_bit 0 i) (test_bit b i)
  ended b i = rw test_bit-zero (ends b i)

  test_bit-digits :
      (fuel a b i : ℕ)
      → a ≤ fuel
      → test_bit (digits z f fuel a b) i ≡ g (test_bit a i) (test_bit b i)
  test_bit-digits zero zero b i le = ended b i
  test_bit-digits zero (suc a) b i le = absurd (omega arith)
  test_bit-digits (suc fuel) zero b i le = ended b i
  test_bit-digits (suc fuel) (suc a) b zero le =
      test_bit_last (digits z f fuel (suc a / 2) (b / 2)) (f (suc a % 2) (b % 2))
        (digit (suc a % 2) (b % 2) (omega arith) (omega arith))
      ∙ (acts (suc a % 2) (b % 2) (omega arith) (omega arith) ∙ unfold test_bit in refl)
  test_bit-digits (suc fuel) (suc a) b (suc i) le =
      test_bit_rest (digits z f fuel (suc a / 2) (b / 2)) (f (suc a % 2) (b % 2)) i
        (digit (suc a % 2) (b % 2) (omega arith) (omega arith))
      ∙ (test_bit-digits fuel (suc a / 2) (b / 2) i (omega arith) ∙ unfold test_bit in refl)

pub test_bit-bit_and : (a b i : ℕ) → test_bit (bit_and a b) i ≡ (test_bit a i && test_bit b i)
test_bit-bit_and a b i =
    ap (λ n. test_bit n i) (bit_and-bitwise a b)
    ∙ test_bit-digits (λ _. 0) min ◌&&◌ (λ d e p q. omega arith) (λ d e p q. ground arith)
        (λ c j. test_bit-zero j) a a b i (omega arith)

pub test_bit-bit_or : (a b i : ℕ) → test_bit (bit_or a b) i ≡ (test_bit a i || test_bit b i)
test_bit-bit_or a b i =
    ap (λ n. test_bit n i) (bit_or-bitwise a b)
    ∙ test_bit-digits (λ c. c) max ◌||◌ (λ d e p q. omega arith) (λ d e p q. ground arith)
        (λ c j. refl) a a b i (omega arith)

abbrev pub xor : Bool → Bool → Bool
xor true b = not b
xor false b = b

differ_digit :
    (d e : ℕ) → d < 2 → e < 2 → (differ d e < 2) × ((differ d e == 1) ≡ xor (d == 1) (e == 1))
differ_digit zero zero p q = (omega arith, refl)
differ_digit zero (suc zero) p q = (omega arith, refl)
differ_digit (suc zero) zero p q = (omega arith, refl)
differ_digit (suc zero) (suc zero) p q = (omega arith, refl)
differ_digit (suc (suc d)) e p q = absurd (omega arith)
differ_digit zero (suc (suc e)) p q = absurd (omega arith)
differ_digit (suc zero) (suc (suc e)) p q = absurd (omega arith)

pub test_bit-bit_xor : (a b i : ℕ) → test_bit (bit_xor a b) i ≡ xor (test_bit a i) (test_bit b i)
test_bit-bit_xor a b i =
    ap (λ n. test_bit n i) (bit_xor-bitwise a b)
    ∙ test_bit-digits (λ c. c) differ xor (λ d e p q. (differ_digit d e p q).0)
        (λ d e p q. (differ_digit d e p q).1) (λ c j. refl) a a b i (omega arith)

-- A power of two has one bit.
pub test_bit-pow : (p i : ℕ) → test_bit (2 ^ p) i ≡ (p == i)
unfolding test_bit
test_bit-pow zero zero = refl
test_bit-pow zero (suc i) = test_bit-zero i ∙ ground arith
test_bit-pow (suc p) zero =
    let e : 2 ^ suc p % 2 ≡ 0 = omega (arith, pow-suc 2 p) in rw e (ground arith)
test_bit-pow (suc p) (suc i) =
    let e : 2 ^ suc p / 2 ≡ 2 ^ p = omega (arith, pow-suc 2 p) in
    rw e (test_bit-pow p i ∙ ground arith)

-- No bit stands at the width or above.
pub test_bit_above : (w n i : ℕ) → n < 2 ^ w → w ≤ i → test_bit n i ≡ false
unfolding test_bit
test_bit_above zero n i lt le = let e : n ≡ 0 = omega arith in rw e (test_bit-zero i)
test_bit_above (suc w) n zero lt le = absurd (omega arith)
test_bit_above (suc w) n (suc i) lt le =
    test_bit_above w (n / 2) i (omega (arith, pow-suc 2 w)) (omega arith)

-- Two numbers of a width with the same bits are equal.
pub test_bit_ext :
    (w a b : ℕ) → a < 2 ^ w → b < 2 ^ w → ((i : ℕ) → i < w → test_bit a i ≡ test_bit b i) → a ≡ b
unfolding test_bit
test_bit_ext zero a b ha hb same = omega arith
test_bit_ext (suc w) a b ha hb same =
    let halves : a / 2 ≡ b / 2 =
      test_bit_ext w (a / 2) (b / 2) (omega (arith, pow-suc 2 w)) (omega (arith, pow-suc 2 w))
        (λ i lt. same (suc i) (omega arith)) in
    let last : (a % 2 == 1) ≡ (b % 2 == 1) = same 0 (omega arith) in
    let digits_same : a % 2 ≡ b % 2 = ground (arith, last) in omega (arith, halves, digits_same)

-- A number with no bit at the width or above is of that width.
none_set : (fuel n : ℕ) → n ≤ fuel → ((i : ℕ) → test_bit n i ≡ false) → n ≡ 0
unfolding test_bit
none_set zero n le none = omega arith
none_set (suc fuel) n le none =
    let half : n / 2 ≤ fuel → n / 2 ≡ 0 = λ h. none_set fuel (n / 2) h (λ i. none (suc i)) in
    let last : n % 2 ≡ 0 = ground (arith, none 0) in omega (arith, half (omega arith), last)

pub width_from_bits : (w n : ℕ) → ((i : ℕ) → w ≤ i → test_bit n i ≡ false) → n < 2 ^ w
unfolding test_bit
width_from_bits zero n none =
    let e : n ≡ 0 = none_set n n (omega arith) (λ i. none i (omega arith)) in omega (arith, e)
width_from_bits (suc w) n none =
    let half = width_from_bits w (n / 2) (λ i le. none (suc i) (omega arith)) in
    omega (arith, pow-suc 2 w, half)

-- The complement in a width has the other bits.
pub test_bit-complement :
    (w m i : ℕ) → m < 2 ^ w → test_bit (2 ^ w - 1 - m) i ≡ (ltb i w && not (test_bit m i))
unfolding test_bit
test_bit-complement zero m i lt =
    let e : 2 ^ 0 - 1 - m ≡ 0 = omega arith in rw e (test_bit-zero i ∙ ground arith)
test_bit-complement (suc w) m zero lt =
    let e : (2 ^ suc w - 1 - m) % 2 ≡ 1 - m % 2 = omega (arith, pow-suc 2 w) in rw e (ground arith)
test_bit-complement (suc w) m (suc i) lt =
    let e : (2 ^ suc w - 1 - m) / 2 ≡ 2 ^ w - 1 - m / 2 = omega (arith, pow-suc 2 w) in
    rw e (test_bit-complement w (m / 2) i (omega (arith, pow-suc 2 w)) ∙ ground arith)

-- `n & 1` is the last bit.
pub low_bit : (x : ℕ) → (bit_and x 1 == 1) ≡ test_bit x 0
low_bit x =
    let small : bit_and x 1 < 2 ^ 1 =
      width_from_bits 1 (bit_and x 1)
        (λ i le. test_bit-bit_and x 1 i ∙ and_false _ _ (test_bit_above 1 1 i (omega arith) le)) in
    let kept : test_bit (bit_and x 1) 0 ≡ test_bit x 0 =
      test_bit-bit_and x 1 0 ∙ unfold test_bit in and_true_right (test_bit x 0) in
    last_digit (bit_and x 1) (omega (arith, small)) ∙ kept
  where
    and_false : (a b : Bool) → b ≡ false → (a && b) ≡ false
    and_false a b e = ground (arith, e)

    and_true_right : (a : Bool) → (a && true) ≡ a
    and_true_right a = ground arith

    last_digit : (m : ℕ) → m < 2 → (m == 1) ≡ test_bit m 0
    last_digit zero lt = unfold test_bit in refl
    last_digit (suc zero) lt = unfold test_bit in refl
    last_digit (suc (suc m)) lt = absurd (omega arith)

pub low_bit_clear : (x : ℕ) → not (bit_and x 1 == 0) ≡ test_bit x 0
low_bit_clear x =
    let small : bit_and x 1 < 2 ^ 1 = width_from_bits 1 (bit_and x 1) (λ i le.
      test_bit-bit_and x 1 i
      ∙ ap (λ b. test_bit x i && b) (test_bit_above 1 1 i (omega arith) le)
      ∙ nothing (test_bit x i)) in
    other (bit_and x 1) (omega (arith, small)) ∙ low_bit x
  where
    nothing : (a : Bool) → (a && false) ≡ false
    nothing a = ground arith

    other : (m : ℕ) → m < 2 → not (m == 0) ≡ (m == 1)
    other m lt = ground arith

-- The lower bits of a number.
test_bit_low : (w q r i : ℕ) → r < 2 ^ w → i < w → test_bit (q * 2 ^ w + r) i ≡ test_bit r i
unfolding test_bit
test_bit_low zero q r i small lt = absurd (omega arith)
test_bit_low (suc w) q r zero small lt =
    let double : q * 2 ^ suc w ≡ 2 * (q * 2 ^ w) =
      omega (arith, ap (λ (t : ℕ). q * t) (pow-suc 2 w)) in
    let e : (q * 2 ^ suc w + r) % 2 ≡ r % 2 = omega (arith, double) in rw e refl
test_bit_low (suc w) q r (suc i) small lt =
    let double : q * 2 ^ suc w ≡ 2 * (q * 2 ^ w) =
      omega (arith, ap (λ (t : ℕ). q * t) (pow-suc 2 w)) in
    let e : (q * 2 ^ suc w + r) / 2 ≡ q * 2 ^ w + r / 2 = omega (arith, double) in
    rw e (test_bit_low w q (r / 2) i (omega (arith, pow-suc 2 w)) (omega arith))

-- `n & 0xff`
pub low_byte : (n : ℕ) → bit_and n 0xff ≡ n % 256
low_byte n =
    test_bit_ext 8 (bit_and n 0xff) (n % 256)
      (width_from_bits 8 (bit_and n 0xff) (λ i le.
        test_bit-bit_and n 0xff i
        ∙ nothing (test_bit n i) (test_bit_above 8 0xff i (omega arith) le)))
      (omega arith)
      (λ i lt.
        test_bit-bit_and n 0xff i
        ∙ (ap (λ b. test_bit n i && b) (mask i lt)
            ∙ (all (test_bit n i)
                ∙ (ap (λ k. test_bit k i) (parts n)
                    ∙ test_bit_low 8 (n / 256) (n % 256) i (omega arith) lt))))
  where
    nothing : (a : Bool) {b : Bool} → b ≡ false → (a && b) ≡ false
    nothing a e = ground (arith, e)

    all : (a : Bool) → (a && true) ≡ a
    all a = ground arith

    mask : (i : ℕ) → i < 8 → test_bit 0xff i ≡ true
    mask i lt = test_bit-complement 8 0 i (omega arith) ∙ rw test_bit-zero (ground arith)

    parts : (n : ℕ) → n ≡ n / 256 * 2 ^ 8 + n % 256
    parts n = omega arith

-- The bits of a number behind those of another one.
test_bit_joined :
    (w a b i : ℕ)
    → b < 2 ^ w
    → test_bit (a * 2 ^ w + b) i ≡ (test_bit (a * 2 ^ w) i || test_bit b i)
unfolding test_bit
test_bit_joined zero a b i lt =
    let none_left : b ≡ 0 = omega arith in
    let same : a * 1 + 0 ≡ a * 1 = omega arith in
    rw (none_left, same, test_bit-zero i) (ground arith)
test_bit_joined (suc w) a b zero lt =
    let double : a * 2 ^ suc w ≡ 2 * (a * 2 ^ w) = rw (pow-suc 2 w) (omega arith) in
    let parity : (2 * (a * 2 ^ w) + b) % 2 ≡ b % 2 = omega arith in
    let even : 2 * (a * 2 ^ w) % 2 ≡ 0 = omega arith in rw (double, parity, even) refl
test_bit_joined (suc w) a b (suc i) lt =
    let double : a * 2 ^ suc w ≡ 2 * (a * 2 ^ w) = rw (pow-suc 2 w) (omega arith) in
    let halves : (2 * (a * 2 ^ w) + b) / 2 ≡ a * 2 ^ w + b / 2 = omega arith in
    let half : 2 * (a * 2 ^ w) / 2 ≡ a * 2 ^ w = omega arith in
    rw (double, halves, half) (test_bit_joined w a (b / 2) i (omega (arith, pow-suc 2 w)))

-- Two bytes side by side.
pub join_bytes : (a b : ℕ) → a < 256 → b < 256 → bit_or (a * 256) b ≡ a * 256 + b
join_bytes a b ha hb =
    test_bit_ext 16 (bit_or (a * 256) b) (a * 256 + b)
      (width_from_bits 16 (bit_or (a * 256) b) (λ i le.
        test_bit-bit_or (a * 256) b i
        ∙ rw
            (test_bit_above 16 (a * 256) i (omega arith) le, test_bit_above 16 b i (omega arith) le)
            refl))
      (omega arith) (λ i lt. test_bit-bit_or (a * 256) b i ∙ sym (test_bit_joined 8 a b i hb))
