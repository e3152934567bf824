-- ===== src/Base/Bits.antt =====
-- The binary digits of a native number, and what the bit operations do to each digit.
use Prim.Native.Nat.{
  ℕ, zero, suc, ◌+◌, ◌-◌, ◌*◌, ◌/◌, ◌%◌, ◌^◌, ◌≤◌, ◌<◌, min, max, bit_and, bit_or, digits,
  bit_and-bitwise, bit_or-bitwise,
}
use mathlib.Core.Path.{◌≡◌, refl, sym, ap, subst, ◌∙◌}
use mathlib.Core.Logic.{◌≢◌}
use native.Mathlib.Omega.{arith}
use native.Mathlib.Decide.{ℕ_discrete}
use native.Mathlib.Nat.{pow-suc}

-- Digit k, the lowest being digit 0.
unfoldable pub bit : ℕ → ℕ → ℕ
bit zero w = w % 2
bit (suc k) w = bit k (w / 2)

pub bit-le-one : (k w : ℕ) → bit k w ≤ 1
unfolding bit
bit-le-one zero w = omega arith
bit-le-one (suc k) w = bit-le-one k (w / 2)

pub bit-zero : (k : ℕ) → bit k 0 ≡ 0
unfolding bit
bit-zero zero = refl
bit-zero (suc k) = bit-zero k

-- One step of the recursion that the native operations stand for, digit by digit.
module _ (z : ℕ → ℕ) (f : ℕ → ℕ → ℕ) (small : (x y : ℕ) → f (x % 2) (y % 2) ≤ 1)
    (ends : (k y : ℕ) → bit k (z y) ≡ f 0 (bit k y)) where
  bit-digits : (n k a b : ℕ) → a ≤ n → bit k (digits z f n a b) ≡ f (bit k a) (bit k b)
  unfolding bit
  bit-digits zero k zero b h = ends k b ∙ ap (λ x. f x (bit k b)) (omega (arith, bit-zero k))
  bit-digits zero k (suc a) b h = absurd (omega arith)
  bit-digits (suc n) k zero b h = ends k b ∙ ap (λ x. f x (bit k b)) (omega (arith, bit-zero k))
  bit-digits (suc n) zero (suc a) b h = omega (arith, small (suc a) b)
  bit-digits (suc n) (suc k) (suc a) b h =
      ap (bit k) (
        let d = digits z f n (suc a / 2) (b / 2) in
        let e : (d * 2 + f (suc a % 2) (b % 2)) / 2 ≡ d = omega (arith, small (suc a) b) in e)
      ∙ bit-digits n k (suc a / 2) (b / 2) (omega arith)

pub bit-bit_or : (k a b : ℕ) → bit k (bit_or a b) ≡ max (bit k a) (bit k b)
bit-bit_or k a b =
    ap (bit k) (bit_or-bitwise a b)
    ∙ bit-digits (λ y. y) max (λ x y. omega arith) (λ k y. omega arith) a k a b (omega arith)

pub bit-bit_and : (k a b : ℕ) → bit k (bit_and a b) ≡ min (bit k a) (bit k b)
bit-bit_and k a b =
    ap (bit k) (bit_and-bitwise a b)
    ∙ bit-digits (λ y. 0) min (λ x y. omega arith) (λ k y. omega (arith, bit-zero k)) a k a b
        (omega arith)

-- A number with no digit set is zero.
eq-zero_fuel : (n w : ℕ) → w ≤ n → ((k : ℕ) → bit k w ≡ 0) → w ≡ 0
unfolding bit
eq-zero_fuel zero w h z = omega arith
eq-zero_fuel (suc n) w h z =
    omega (arith, z 0, eq-zero_fuel n (w / 2) (omega arith) (λ k. z (suc k)))

pub eq-zero_of_bits : (w : ℕ) → ((k : ℕ) → bit k w ≡ 0) → w ≡ 0
eq-zero_of_bits w z = eq-zero_fuel w w (omega arith) z

pub bit-two-pow_self : (k : ℕ) → bit k (2 ^ k) ≡ 1
unfolding bit
bit-two-pow_self zero = refl
bit-two-pow_self (suc k) =
    ap (bit k) (let e : 2 ^ suc k / 2 ≡ 2 ^ k = omega (arith, pow-suc 2 k) in e)
    ∙ bit-two-pow_self k

pub bit-two-pow_ne : (j k : ℕ) → j ≢ k → bit j (2 ^ k) ≡ 0
unfolding bit
bit-two-pow_ne zero zero h = absurd (h refl)
bit-two-pow_ne zero (suc k) h = omega (arith, pow-suc 2 k)
bit-two-pow_ne (suc j) zero h = bit-zero j
bit-two-pow_ne (suc j) (suc k) h =
    ap (bit j) (let e : 2 ^ suc k / 2 ≡ 2 ^ k = omega (arith, pow-suc 2 k) in e)
    ∙ bit-two-pow_ne j k (λ e. h (ap suc e))

-- The complement in a word of n digits.
pub bit-complement : (n j x : ℕ) → j < n → x < 2 ^ n → bit j (2 ^ n - 1 - x) + bit j x ≡ 1
unfolding bit
bit-complement zero j x h q = elim h [ ]
bit-complement (suc n) zero x h q = omega (arith, pow-suc 2 n)
bit-complement (suc n) (suc j) x h q =
    ap (λ y. bit j y + bit j (x / 2))
      (let e : (2 ^ suc n - 1 - x) / 2 ≡ 2 ^ n - 1 - x / 2 = omega (arith, pow-suc 2 n) in e)
    ∙ bit-complement n j (x / 2) (omega arith) (omega (arith, pow-suc 2 n))

-- The C test `w & (1 << k)` asks for digit k.
pub bit_and-two-pow-ne-zero : (w k : ℕ) → bit k w ≡ 1 → bit_and w (2 ^ k) ≢ 0
bit_and-two-pow-ne-zero w k h e =
    omega (arith, ap (bit k) e, bit-zero k, bit-bit_and k w (2 ^ k), bit-two-pow_self k)

pub bit_and-two-pow-eq-zero : (w k : ℕ) → bit k w ≡ 0 → bit_and w (2 ^ k) ≡ 0
bit_and-two-pow-eq-zero w k h = eq-zero_of_bits (bit_and w (2 ^ k)) (λ j. elim (ℕ_discrete j k) [
  | yes e ↦
      subst (λ i. bit i (bit_and w (2 ^ k)) ≡ 0) (sym e) (omega (arith, bit-bit_and k w (2 ^ k)))
  | no ne ↦ omega (arith, bit-bit_and j w (2 ^ k), bit-two-pow_ne j k ne)
])

-- A number is below 2 ^ n exactly when its digits from n on are zero.
pub lt-two-pow_of_bits : (n w : ℕ) → ((k : ℕ) → n ≤ k → bit k w ≡ 0) → w < 2 ^ n
unfolding bit
lt-two-pow_of_bits zero w z = omega (arith, eq-zero_of_bits w (λ k. z k (omega arith)))
lt-two-pow_of_bits (suc n) w z =
    omega (arith, pow-suc 2 n, lt-two-pow_of_bits n (w / 2) (λ k h. z (suc k) (omega arith)))

pub bit-eq-zero_of_lt : (n k w : ℕ) → w < 2 ^ n → n ≤ k → bit k w ≡ 0
unfolding bit
bit-eq-zero_of_lt zero k w h q = ap (bit k) (let e : w ≡ 0 = omega arith in e) ∙ bit-zero k
bit-eq-zero_of_lt (suc n) zero w h q = absurd (omega arith)
bit-eq-zero_of_lt (suc n) (suc k) w h q =
    bit-eq-zero_of_lt n k (w / 2) (omega (arith, pow-suc 2 n)) (omega arith)

pub bit_or-lt : (n a b : ℕ) → a < 2 ^ n → b < 2 ^ n → bit_or a b < 2 ^ n
bit_or-lt n a b ha hb = lt-two-pow_of_bits n (bit_or a b) (λ k h.
    omega (arith, bit-bit_or k a b, bit-eq-zero_of_lt n k a ha h, bit-eq-zero_of_lt n k b hb h))

pub bit_and-lt : (n a b : ℕ) → a < 2 ^ n → bit_and a b < 2 ^ n
bit_and-lt n a b ha =
    lt-two-pow_of_bits n (bit_and a b)
      (λ k h. omega (arith, bit-bit_and k a b, bit-eq-zero_of_lt n k a ha h))
