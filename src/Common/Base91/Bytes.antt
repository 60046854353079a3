-- ===== src/Common/Base91/Bytes.antt =====
-- A number as little-endian bytes, and the powers of two between the queues of common/base91.go.
use safe.Prelude.{
  ℕ, zero, suc, ◌+◌, ◌-◌, ◌*◌, ◌/◌, ◌%◌, ◌^◌, ◌≡◌, ◌<◌, ◌≤◌, refl, sym, GoString, [], ◌∷◌, ◌++◌,
  arith, ltb, true, false,
}
use native.Mathlib.Nat.{pow-suc, mul_assoc}
use safe.Common.Base91.{drain}

-- The k low bytes of a number, and what is left of it.
abbrev pub bytes_of : ℕ → ℕ → GoString
bytes_of zero x = []
bytes_of (suc k) x = (x % 256) ∷ bytes_of k (x / 256)

abbrev pub shift : ℕ → ℕ → ℕ
shift zero x = x
shift (suc k) x = shift k (x / 256)

-- 2 ^ (8 * k)
abbrev pub byte_power : ℕ → ℕ
byte_power zero = 1
byte_power (suc k) = 256 * byte_power k

pub pow-add : (m n : ℕ) → 2 ^ (m + n) ≡ 2 ^ m * 2 ^ n
pow-add m zero = grind arith
pow-add m (suc n) =
    let e : m + suc n ≡ suc (m + n) = omega arith in
    rw (e, pow-suc 2 (m + n), pow-suc 2 n, pow-add m n) (mul_assoc (2 ^ m) (2 ^ n) 2)

pub pow_bytes : (k e : ℕ) → 2 ^ (8 * k + e) ≡ byte_power k * 2 ^ e
pow_bytes zero e = grind arith
pow_bytes (suc k) e =
    let s : 8 * suc k + e ≡ 8 + (8 * k + e) = omega arith in
    rw (s, pow-add 8 (8 * k + e), pow_bytes k e) (sym (mul_assoc 256 (byte_power k) (2 ^ e)))

pub shift-lt : (k n x : ℕ) → x < byte_power k * n → shift k x < n
shift-lt zero n x h = omega arith
shift-lt (suc k) n x h = shift-lt k n (x / 256) (omega (arith, mul_assoc 256 (byte_power k) n))

-- The bytes of a sum whose second part lies above the first k bytes.
pub bytes_of-add :
    (k j x y : ℕ)
    → bytes_of (k + j) (x + byte_power k * y) ≡ bytes_of k x ++ bytes_of j (shift k x + y)
bytes_of-add zero j x y =
    let z : 0 + j ≡ j = omega arith in let o : x + 1 * y ≡ x + y = omega arith in rw (z, o) refl
bytes_of-add (suc k) j x y =
    let s : suc k + j ≡ suc (k + j) = omega arith in
    let a = mul_assoc 256 (byte_power k) y in
    let low : (x + 256 * byte_power k * y) % 256 ≡ x % 256 = omega (arith, a) in
    let high : (x + 256 * byte_power k * y) / 256 ≡ x / 256 + byte_power k * y = omega (arith, a) in
    rw (s, low, high, bytes_of-add k j (x / 256) y) refl

pub drain_lem :
    (fuel k e x : ℕ)
    → k < fuel
    → e ≤ 7
    → drain fuel x (8 * suc k + e) ≡ (bytes_of (suc k) x, shift (suc k) x, e)
unfolding drain
drain_lem zero k e x h l = absurd (omega arith)
drain_lem (suc fuel) zero e x h l =
    let n : 8 + e - 8 ≡ e = omega arith in
    let stop : ltb 7 e ≡ false = ground arith in rw (n, stop) refl
drain_lem (suc fuel) (suc k) e x h l =
    let n : 8 * suc (suc k) + e - 8 ≡ 8 * suc k + e = omega arith in
    let go : ltb 7 (8 * suc k + e) ≡ true = ground arith in
    rw (n, go, drain_lem fuel k e (x / 256) (omega arith) l) refl
