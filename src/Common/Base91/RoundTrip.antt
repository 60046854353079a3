-- ===== src/Common/Base91/RoundTrip.antt =====
-- `Base91Decode` after `Base91Encode`: between two pairs of letters the encoder holds the bits that
-- the decoder lacks, `d` bits there and `n` bits here, whole bytes together.
use Prim.Native.Nat.{bit_or}
use safe.Prelude.{
  ℕ, suc, ◌+◌, ◌-◌, ◌*◌, ◌/◌, ◌%◌, ◌^◌, ◌≡◌, ◌<◌, ◌≤◌, refl, ap, GoString, [], ◌∷◌, ◌++◌, some, All,
  arith, ltb, true, false, inl, inr, Bool-cases,
}
use safe.Prelude.Bits.{bit_and_ones}
use native.Mathlib.Nat.{
  mul-le-mul_left, mod-lt, div-lt_iff_lt-mul, le_of_lt, mul-add, one-le-pow, mul_assoc,
}
use mathlib.Core.List.{append_assoc}
use safe.Common.Hex.RoundTrip.{IsByte}
use safe.Common.Base91.{put_pair, encode_tail, encode_loop, base91_encode, base91_decode}
use safe.Common.Base91.Bytes.{
  pow-add, pow_bytes, bytes_of, shift, byte_power, shift-lt, bytes_of-add,
}
use safe.Common.Base91.Pairs.{
  queue_or, bits_of, Decodes, low_bits, bits_of_lem13, bits_of_lem14, take-Decodes,
}
use safe.Common.Base91.Tail.{encode_tail-Decodes}

queue-lt : (dq d q n : ℕ) → dq < 2 ^ d → q < 2 ^ n → dq + 2 ^ d * q < 2 ^ (d + n)
queue-lt dq d q n h l =
    rw (pow-add d n) (omega (arith, mul-le-mul_left (2 ^ d) l, mul-add (2 ^ d) q 1))

-- The text of `src` behind any bits of an encoder that are in order.
abbrev EncodesRest : GoString → Type 0
EncodesRest src =
    (q n dq d m : ℕ)
    → q < 2 ^ n
    → n ≤ 13
    → dq < 2 ^ d
    → d ≤ 7
    → d + n ≡ 8 * m
    → Decodes (encode_loop src q n) dq d (bytes_of m (dq + 2 ^ d * q) ++ src)

take_step :
    (src : GoString) (q n dq d m t : ℕ)
    → EncodesRest src
    → bits_of (q % 2 ^ t) ≡ t
    → q % 2 ^ t < 2 ^ 13 + 89
    → q < 2 ^ n
    → n ≤ 21
    → 13 ≤ t
    → t ≤ n
    → dq < 2 ^ d
    → d ≤ 7
    → d + n ≡ 8 * m
    → Decodes
        (put_pair (q % 2 ^ t) (encode_loop src (q / 2 ^ t) (n - t)))
        dq
        d
        (bytes_of m (dq + 2 ^ d * q) ++ src)
take_step src q n dq d m t ih b hv hq hn ht htn hdq hd h =
    let k = (d + t) / 8 - 1 in
    let e = (d + t) % 8 in
    let j = m - suc k in
    let y = dq + 2 ^ d * (q % 2 ^ t) in
    let parts : d + t ≡ 8 * suc k + e = omega arith in
    let whole : m ≡ suc k + j = omega arith in
    let low : shift (suc k) y < 2 ^ e = shift-lt (suc k) (2 ^ e) y (
      omega (
        arith,
        pow_bytes (suc k) e,
        ap (λ (x : ℕ). 2 ^ x) parts,
        queue-lt dq d (q % 2 ^ t) t hdq (mod-lt q (one-le-pow t 2 (omega arith))),
      )) in
    let high : q / 2 ^ t < 2 ^ (n - t) =
      let n' : n - t + t ≡ n = omega arith in
      (div-lt_iff_lt-mul (one-le-pow t 2 (omega arith))).1
        (omega (arith, pow-add (n - t) t, ap (λ (x : ℕ). 2 ^ x) n')) in
    rw whole (
      take-Decodes q dq d k e t j (encode_loop src (q / 2 ^ t) (n - t)) src b hv hdq hd
        (omega arith) parts
        (ih (q / 2 ^ t) (n - t) (shift (suc k) y) e j high (omega arith) low (omega arith)
          (omega arith)))

-- A byte that comes into the encoder's queue.
push_byte :
    (src : GoString) (b q n dq d m : ℕ)
    → b < 256
    → q < 2 ^ n
    → dq < 2 ^ d
    → d + n ≡ 8 * m
    → bytes_of (m + 1) (dq + 2 ^ d * (q + 2 ^ n * b)) ++ src
      ≡ bytes_of m (dq + 2 ^ d * q) ++ (b ∷ src)
push_byte src b q n dq d m hb hq hdq h =
    let x = dq + 2 ^ d * q in
    let p : byte_power m ≡ 2 ^ d * 2 ^ n =
      let z : d + n ≡ 8 * m + 0 = omega arith in
      omega (arith, pow_bytes m 0, ap (λ (y : ℕ). 2 ^ y) z, pow-add d n) in
    let sum : dq + 2 ^ d * (q + 2 ^ n * b) ≡ x + byte_power m * b =
      rw p (omega (arith, mul-add (2 ^ d) q (2 ^ n * b), mul_assoc (2 ^ d) (2 ^ n) b)) in
    let none_left : shift m x < 1 =
      shift-lt m 1 x (omega (arith, p, pow-add d n, queue-lt dq d q n hdq hq)) in
    let byte : (shift m x + b) % 256 ≡ b = omega arith in
    rw (sum, bytes_of-add m 1 x b, byte, append_assoc) refl

encode_step_stay :
    (src : GoString) (b q n : ℕ)
    → n ≤ 5
    → encode_loop (b ∷ src) q n ≡ encode_loop src (bit_or q (b * 2 ^ n % 2 ^ 64)) (n + 8)
unfolding encode_loop
encode_step_stay src b q n h = let t : ltb 13 (n + 8) ≡ false = ground arith in rw t refl

encode_step_take13 :
    (src : GoString) (b q n q' : ℕ)
    → 5 < n
    → bit_or q (b * 2 ^ n % 2 ^ 64) ≡ q'
    → 88 < q' % 2 ^ 13
    → encode_loop (b ∷ src) q n
      ≡ put_pair (q' % 2 ^ 13) (encode_loop src (q' / 2 ^ 13) (n + 8 - 13))
unfolding encode_loop
encode_step_take13 src b q n q' h e l =
    let t : ltb 13 (n + 8) ≡ true = ground arith in
    let u : ltb 88 (q' % 8192) ≡ true = ground arith in rw (t, e, low_bits q', u) refl

encode_step_take14 :
    (src : GoString) (b q n q' : ℕ)
    → 5 < n
    → bit_or q (b * 2 ^ n % 2 ^ 64) ≡ q'
    → q' % 2 ^ 13 ≤ 88
    → encode_loop (b ∷ src) q n
      ≡ put_pair (q' % 2 ^ 14) (encode_loop src (q' / 2 ^ 14) (n + 8 - 14))
unfolding encode_loop
encode_step_take14 src b q n q' h e l =
    let t : ltb 13 (n + 8) ≡ true = ground arith in
    let u : ltb 88 (q' % 8192) ≡ false = ground arith in
    rw (t, e, low_bits q', u, bit_and_ones q' 14) refl

step-Decodes :
    (src : GoString) (b q n dq d m : ℕ)
    → EncodesRest src
    → b < 256
    → q < 2 ^ n
    → n ≤ 13
    → dq < 2 ^ d
    → d ≤ 7
    → d + n ≡ 8 * m
    → Decodes
        (encode_loop (b ∷ src) q n)
        dq
        d
        (bytes_of (m + 1) (dq + 2 ^ d * (q + 2 ^ n * b)) ++ src)
step-Decodes src b q n dq d m ih hb hq hn hdq hd h =
    let q' = q + 2 ^ n * b in
    let o = queue_or q b n hq (omega arith) hn in
    let hq' : q' < 2 ^ (n + 8) = omega (
      arith,
      pow-add n 8,
      mul-le-mul_left (2 ^ n) (le_of_lt hb),
      mul-le-mul_left (2 ^ n) hb,
      mul-add (2 ^ n) b 1,
    ) in
    elim (Bool-cases (ltb 5 n)) [
      | inr e ↦
          rw (encode_step_stay src b q n (ground arith), o)
            (ih q' (n + 8) dq d (m + 1) hq' (ground arith) hdq hd (omega arith))
      | inl e ↦ elim (Bool-cases (ltb 88 (q' % 2 ^ 13))) [
        | inl l ↦ rw (encode_step_take13 src b q n q' (ground arith) o (ground arith)) (
            take_step src q' (n + 8) dq d (m + 1) 13 ih (bits_of_lem13 (q' % 2 ^ 13) (ground arith))
              (omega arith) hq' (omega arith) (omega arith) (ground arith) hdq hd (omega arith))
        | inr l ↦ rw (encode_step_take14 src b q n q' (ground arith) o (ground arith)) (
            take_step src q' (n + 8) dq d (m + 1) 14 ih (bits_of_lem14 (q' % 2 ^ 14) (ground arith))
              (ground arith) hq' (omega arith) (omega arith) (ground arith) hdq hd (omega arith))
      ]
    ]

encode_loop_nil : (q n : ℕ) → encode_loop [] q n ≡ encode_tail q n
unfolding encode_loop
encode_loop_nil q n = refl

-- The text of `src` behind the bits that the encoder holds decodes to those bytes and `src`.
encode_loop-Decodes : (src : GoString) → All IsByte src → EncodesRest src
encode_loop-Decodes [] s q n dq d m hq hn hdq hd h =
    rw (encode_loop_nil q n) (encode_tail-Decodes q n dq d m hq hn hdq hd h)
encode_loop-Decodes (b ∷ src) s q n dq d m hq hn hdq hd h =
    rw (← push_byte src b q n dq d m s.0 hq hdq h)
      (step-Decodes src b q n dq d m (encode_loop-Decodes src s.1) s.0 hq hn hdq hd h)

-- Every list of bytes has a base91 text, and decoding that text gives the bytes.
pub base91_decode-base91_encode :
    (src : GoString)
    → All IsByte src
    → (text : GoString) × (base91_encode src ≡ some text) × (base91_decode text ≡ some src)
unfolding base91_encode base91_decode
base91_decode-base91_encode src s =
    encode_loop-Decodes src s 0 0 0 0 0 (omega arith) (omega arith) (omega arith) (omega arith) refl
