-- ===== src/Common/Base91/Tail.antt =====
-- The letters that `Encode` of common/base91.go writes after its loop.
use safe.Prelude.{
  ◌||◌, ℕ, zero, suc, ◌+◌, ◌-◌, ◌*◌, ◌%◌, ◌^◌, ◌≡◌, ◌≢◌, ◌<◌, ◌≤◌, refl, [], ◌∷◌, ◌++◌, some, arith,
  ltb, ◌==◌, true, false, inl, inr, Bool-cases,
}
use native.Mathlib.Nat.{pow-le-pow_right}
use safe.Common.Base91.{put_pair, encode_tail, decode_loop}
use safe.Common.Base91.Alphabet.{letter}
use safe.Common.Base91.Bytes.{bytes_of}
use safe.Common.Base91.Pairs.{queue_or, bits_of, Decodes, bits_of_le, put_pair-Decodes}

-- Nothing is left.
tail_empty-Decodes :
    (q dq d m : ℕ)
    → d ≤ 7
    → d + 0 ≡ 8 * m
    → Decodes (encode_tail q 0) dq d (bytes_of m (dq + 2 ^ d * q) ++ [])
unfolding encode_tail decode_loop
tail_empty-Decodes q dq d m hd h = let z : m ≡ 0 = omega arith in ([], refl, rw z refl)

-- Two letters are left.
tail_pair-Decodes :
    (q n dq d m : ℕ)
    → q < 2 ^ n
    → 7 ≤ n
    → n ≤ 13
    → dq < 2 ^ d
    → d ≤ 7
    → d + n ≡ 8 * m
    → Decodes (put_pair q (some [])) dq d (bytes_of m (dq + 2 ^ d * q) ++ [])
unfolding decode_loop
tail_pair-Decodes q n dq d m hq ln hn hdq hd h =
    let bound : 2 ^ n ≤ 2 ^ 13 = pow-le-pow_right {n = 2} (omega arith) hn in
    let k = m - 1 in
    let whole : m ≡ suc k = omega arith in
    let e = d + bits_of q - 8 * m in
    let fits : (13 ≤ bits_of q) × (bits_of q ≤ 14) = bits_of_le q in
    rw whole (
      put_pair-Decodes q dq d k e (some []) [] (omega arith) hdq hd (omega arith) (omega arith)
        ([], refl, refl))

-- One letter is left.
tail_single-Decodes :
    (q n dq d m : ℕ)
    → q < 2 ^ n
    → n ≢ 0
    → n ≤ 7
    → q ≤ 90
    → dq < 2 ^ d
    → d ≤ 7
    → d + n ≡ 8 * m
    → Decodes (encode_tail q n) dq d (bytes_of m (dq + 2 ^ d * q) ++ [])
unfolding encode_tail decode_loop
tail_single-Decodes q n dq d m hq nz ln lq hdq hd h =
    let (c, l, x) = letter q (omega arith) in
    let some_left : (n == 0) ≡ false = ground arith in
    let narrow : ltb 7 n ≡ false = ground arith in
    let low : ltb 90 q ≡ false = ground arith in
    let digit : q % 91 ≡ q = omega arith in
    let not_ff : (q == 0xff) ≡ false = ground arith in
    let one : m ≡ 1 = omega arith in
    (
      c ∷ [],
      rw (some_left, narrow, low, digit, l) refl,
      rw (x, not_ff, queue_or dq q d hdq (omega arith) (omega arith), one) refl,
    )

encode_tail_pair :
    (q n : ℕ) → n ≢ 0 → (ltb 7 n || ltb 90 q) ≡ true → encode_tail q n ≡ put_pair q (some [])
unfolding encode_tail
encode_tail_pair q n h e = let some_left : (n == 0) ≡ false = ground arith in rw (some_left, e) refl

-- More than 90 takes 7 bits.
seven_bits : (q n : ℕ) → q < 2 ^ n → (ltb 7 n || ltb 90 q) ≡ true → 7 ≤ n
seven_bits q n h e = elim (Bool-cases (ltb n 7)) [
  | inr l ↦ ground arith
  | inl l ↦
      let six : n ≤ 6 = ground arith in
      let bound : 2 ^ n ≤ 2 ^ 6 = pow-le-pow_right {n = 2} (omega arith) six in
      let low : q ≤ 90 = omega arith in ground arith
]

-- The text that ends in the last letters decodes to the bytes that are left.
pub encode_tail-Decodes :
    (q n dq d m : ℕ)
    → q < 2 ^ n
    → n ≤ 13
    → dq < 2 ^ d
    → d ≤ 7
    → d + n ≡ 8 * m
    → Decodes (encode_tail q n) dq d (bytes_of m (dq + 2 ^ d * q) ++ [])
encode_tail-Decodes q zero dq d m hq hn hdq hd h = tail_empty-Decodes q dq d m hd h
encode_tail-Decodes q (suc n) dq d m hq hn hdq hd h =
    elim (Bool-cases (ltb 7 (suc n) || ltb 90 q)) [
      | inl e ↦
          rw (encode_tail_pair q (suc n) (omega arith) e)
            (tail_pair-Decodes q (suc n) dq d m hq (seven_bits q (suc n) hq e) hn hdq hd h)
      | inr e ↦
          tail_single-Decodes q (suc n) dq d m hq (omega arith) (ground arith) (ground arith) hdq hd
            h
    ]
