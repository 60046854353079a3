-- ===== src/Prelude/Bits.antt =====
-- Two bit operations as arithmetic, from the recursion on binary digits that they stand for: `|` of
-- a number with one that is shifted past it is a sum, and `&` with k ones is a remainder.
use Prim.Native.Nat.{
  ℕ, zero, suc, ◌+◌, ◌-◌, ◌*◌, ◌/◌, ◌%◌, ◌^◌, ◌≤◌, ◌<◌, min, max, digits, bit_and, bit_or,
  bit_and-bitwise, bit_or-bitwise,
}
use mathlib.Core.Path.{◌≡◌, refl, ap, ◌∙◌}
use native.Mathlib.Nat.{pow-suc, one-le-pow, le_refl, div-add-mod'}
use native.Mathlib.Omega.{arith}

abbrev or_digits : ℕ → ℕ → ℕ → ℕ
or_digits n a b = digits (λ b. b) max n a b

abbrev and_digits : ℕ → ℕ → ℕ → ℕ
and_digits n a b = digits (λ b. 0) min n a b

-- b * 2 ^ (k + 1) is even, and its half is b * 2 ^ k.
double : (b k : ℕ) → b * 2 ^ suc k ≡ b * 2 ^ k * 2
double b k = omega (arith, ap (λ (p : ℕ). b * p) (pow-suc 2 k))

or_digits_shifted : (n k a b : ℕ) → a ≤ n → a < 2 ^ k → or_digits n a (b * 2 ^ k) ≡ a + b * 2 ^ k
or_digits_shifted zero k zero b h l = omega arith
or_digits_shifted zero k (suc a) b h l = absurd (omega arith)
or_digits_shifted (suc n) k zero b h l = omega arith
or_digits_shifted (suc n) zero (suc a) b h l = absurd (omega arith)
or_digits_shifted (suc n) (suc k) (suc a) b h l =
    let half : b * 2 ^ suc k / 2 ≡ b * 2 ^ k = omega (arith, double b k) in
    let ih = or_digits_shifted n k (suc a / 2) b (omega arith) (omega (arith, pow-suc 2 k)) in
    rw half (rw ih (omega (arith, double b k)))

and_digits_zero : (n a : ℕ) → and_digits n a 0 ≡ 0
and_digits_zero zero a = refl
and_digits_zero (suc n) zero = refl
and_digits_zero (suc n) (suc a) = omega (arith, and_digits_zero n (suc a / 2))

and_digits_ones :
    (n k a q r : ℕ) → a ≤ n → r < 2 ^ k → a ≡ r + q * 2 ^ k → and_digits n a (2 ^ k - 1) ≡ r
and_digits_ones zero k zero q r h l e = omega arith
and_digits_ones zero k (suc a) q r h l e = absurd (omega arith)
and_digits_ones (suc n) k zero q r h l e = omega arith
and_digits_ones (suc n) zero (suc a) q r h l e = omega (arith, and_digits_zero (suc n) (suc a))
and_digits_ones (suc n) (suc k) (suc a) q r h l e =
    let half : (2 ^ suc k - 1) / 2 ≡ 2 ^ k - 1 = omega (arith, pow-suc 2 k, one-le-pow k 2) in
    let ih =
      and_digits_ones n k (suc a / 2) q (r / 2) (omega arith) (omega (arith, pow-suc 2 k))
        (omega (arith, double q k)) in
    rw half (rw ih (omega (arith, double q k, pow-suc 2 k, one-le-pow k 2)))

pub bit_or_shifted : (a b k : ℕ) → a < 2 ^ k → bit_or a (b * 2 ^ k) ≡ a + b * 2 ^ k
bit_or_shifted a b k h = bit_or-bitwise a (b * 2 ^ k) ∙ or_digits_shifted a k a b (le_refl a) h

pub bit_and_ones : (a k : ℕ) → bit_and a (2 ^ k - 1) ≡ a % 2 ^ k
bit_and_ones a k =
    bit_and-bitwise a (2 ^ k - 1)
    ∙ and_digits_ones a k a (a / 2 ^ k) (a % 2 ^ k) (le_refl a) (omega (arith, one-le-pow k 2))
        (omega (arith, div-add-mod' a (2 ^ k)))
