-- ===== src/Common/Base91/Pairs.antt =====
-- A pair of letters in the loops of common/base91.go: a value of 13 or 14 bits, which the encoder
-- takes from its queue and the decoder drains into bytes.
use Prim.Native.Nat.{bit_and, bit_or}
use safe.Prelude.{
  ℕ, suc, ◌+◌, ◌*◌, ◌/◌, ◌%◌, ◌^◌, ◌≡◌, ◌<◌, ◌≤◌, refl, sym, ap, ◌∙◌, GoString, ◌∷◌, ◌++◌, Option,
  none, some, arith, ltb, ◌==◌, if◌then◌else◌, true, false,
}
use safe.Prelude.Bits.{bit_or_shifted, bit_and_ones}
use native.Mathlib.Nat.{
  mod-add-div, mul-le-mul_right, le_of_lt, mul-add, pow-le-pow_right, mul_assoc, mul_comm,
}
use mathlib.Core.List.{append_assoc}
use safe.Common.Base91.{letter_at, decode_map, put_pair, drain, decode_loop}
use safe.Common.Base91.Alphabet.{letter}
use safe.Common.Base91.Bytes.{
  pow-add, pow_bytes, bytes_of, shift, byte_power, bytes_of-add, drain_lem,
}

-- The shifted byte fits a queue.
pub queue_or :
    (q b n : ℕ) → q < 2 ^ n → b < 2 ^ 14 → n ≤ 13 → bit_or q (b * 2 ^ n % 2 ^ 64) ≡ q + 2 ^ n * b
queue_or q b n h l m =
    let small : b * 2 ^ n < 2 ^ 64 =
      omega
        (arith, mul-le-mul_right (2 ^ n) (le_of_lt l), pow-le-pow_right {n = 2} (omega arith) m) in
    let same : b * 2 ^ n % 2 ^ 64 ≡ b * 2 ^ n = omega (arith, small) in
    rw same (bit_or_shifted q b n h ∙ omega (arith, mul_comm b (2 ^ n)))

-- How many bits a value carries.
abbrev pub bits_of : ℕ → ℕ
bits_of v = if ltb 88 (bit_and v 8191) then 13 else 14

-- What `out` is to the decoder: some text, decoded to `bytes` from a queue of `d` bits.
abbrev pub Decodes : Option GoString → ℕ → ℕ → GoString → Type 0
Decodes o dq d bytes = (out : GoString) × (o ≡ some out) × (decode_loop out dq d none ≡ some bytes)

put_pair_lem :
    (v lo hi : ℕ) (rest : Option GoString) (out : GoString)
    → letter_at (v % 91) ≡ some lo
    → letter_at (v / 91) ≡ some hi
    → rest ≡ some out
    → put_pair v rest ≡ some (lo ∷ hi ∷ out)
unfolding put_pair
put_pair_lem v lo hi rest out l h o = rw (put_pair, l, h, o) refl

-- Two letters are a value, which is added to the queue and drained.
decode_pair_lem :
    (v lo hi dq d : ℕ) (out bytes : GoString) (drained : GoString × ℕ × ℕ)
    → decode_map lo ≡ v % 91
    → decode_map hi ≡ v / 91
    → v < 2 ^ 13 + 89
    → dq < 2 ^ d
    → d ≤ 7
    → drain (d + bits_of v) (dq + 2 ^ d * v) (d + bits_of v) ≡ drained
    → decode_loop out drained.1 drained.2 none ≡ some bytes
    → decode_loop (lo ∷ hi ∷ out) dq d none ≡ some (drained.0 ++ bytes)
unfolding decode_loop
decode_pair_lem v lo hi dq d out bytes drained l h hv hq hd e r =
    let not_ff : (v % 91 == 0xff) ≡ false = ground arith in
    let not_ff' : (v / 91 == 0xff) ≡ false = ground arith in
    let w : v % 91 + v / 91 * 91 ≡ v = omega arith in
    let q = queue_or dq v d hq (omega arith) (omega arith) in
    rw (l, h, not_ff, not_ff', w, q, e, r) (rw (l, h, w, q, e) refl)

pub low_bits : (v : ℕ) → bit_and v 8191 ≡ v % 2 ^ 13
low_bits v = bit_and_ones v 13

pub bits_of_lem13 : (v : ℕ) → 88 < v % 2 ^ 13 → bits_of v ≡ 13
bits_of_lem13 v h = let t : ltb 88 (v % 8192) ≡ true = ground arith in rw (low_bits v, t) refl

pub bits_of_lem14 : (v : ℕ) → v % 2 ^ 13 ≤ 88 → bits_of v ≡ 14
bits_of_lem14 v h = let t : ltb 88 (v % 8192) ≡ false = ground arith in rw (low_bits v, t) refl

pub bits_of_le : (v : ℕ) → (13 ≤ bits_of v) × (bits_of v ≤ 14)
bits_of_le v = ground arith

-- A pair of letters in front of a text.
pub put_pair-Decodes :
    (v dq d k e : ℕ) (rest : Option GoString) (bytes : GoString)
    → v < 2 ^ 13 + 89
    → dq < 2 ^ d
    → d ≤ 7
    → e ≤ 7
    → d + bits_of v ≡ 8 * suc k + e
    → Decodes rest (shift (suc k) (dq + 2 ^ d * v)) e bytes
    → Decodes (put_pair v rest) dq d (bytes_of (suc k) (dq + 2 ^ d * v) ++ bytes)
put_pair-Decodes v dq d k e rest bytes hv hq hd he b (out, o, r) =
    let (lo, l, x) = letter (v % 91) (omega arith) in
    let (hi, h, y) = letter (v / 91) (omega arith) in
    (
      lo ∷ hi ∷ out,
      put_pair_lem v lo hi rest out l h o,
      decode_pair_lem v lo hi dq d out bytes
          (bytes_of (suc k) (dq + 2 ^ d * v), shift (suc k) (dq + 2 ^ d * v), e) x y hv hq hd
          (rw b (drain_lem (8 * suc k + e) k e (dq + 2 ^ d * v) (omega arith) he)) r,
    )

-- The bits of the encoder's queue above the value that it gives away come to lie above the bytes
-- that the decoder has written.
pub queue_parts :
    (dq d k e t q : ℕ)
    → d + t ≡ 8 * suc k + e
    → dq + 2 ^ d * (q % 2 ^ t) + byte_power (suc k) * (2 ^ e * (q / 2 ^ t)) ≡ dq + 2 ^ d * q
queue_parts dq d k e t q h =
    let p : byte_power (suc k) * 2 ^ e ≡ 2 ^ d * 2 ^ t =
      sym (pow_bytes (suc k) e) ∙ ap (λ (x : ℕ). 2 ^ x) (sym h) ∙ pow-add d t in
    let a : byte_power (suc k) * (2 ^ e * (q / 2 ^ t)) ≡ 2 ^ d * (2 ^ t * (q / 2 ^ t)) =
      sym (mul_assoc (byte_power (suc k)) (2 ^ e) (q / 2 ^ t))
      ∙ ap (λ (x : ℕ). x * (q / 2 ^ t)) p
      ∙ mul_assoc (2 ^ d) (2 ^ t) (q / 2 ^ t) in
    let s : q % 2 ^ t + 2 ^ t * (q / 2 ^ t) ≡ q = mod-add-div q (2 ^ t) in
    rw a (
      omega (arith, mul-add (2 ^ d) (q % 2 ^ t) (2 ^ t * (q / 2 ^ t)), ap (λ (x : ℕ). 2 ^ d * x) s))

pub take-Decodes :
    (q dq d k e t j : ℕ) (rest : Option GoString) (src : GoString)
    → bits_of (q % 2 ^ t) ≡ t
    → q % 2 ^ t < 2 ^ 13 + 89
    → dq < 2 ^ d
    → d ≤ 7
    → e ≤ 7
    → d + t ≡ 8 * suc k + e
    → Decodes rest
        (shift (suc k) (dq + 2 ^ d * (q % 2 ^ t)))
        e
        (bytes_of j (shift (suc k) (dq + 2 ^ d * (q % 2 ^ t)) + 2 ^ e * (q / 2 ^ t)) ++ src)
    → Decodes (put_pair (q % 2 ^ t) rest) dq d (bytes_of (suc k + j) (dq + 2 ^ d * q) ++ src)
take-Decodes q dq d k e t j rest src b hv hq hd he h r =
    rw
      (
        ← queue_parts dq d k e t q h,
        bytes_of-add (suc k) j (dq + 2 ^ d * (q % 2 ^ t)) (2 ^ e * (q / 2 ^ t)),
        append_assoc,
      )
      (put_pair-Decodes (q % 2 ^ t) dq d k e rest _ hv hq hd he (ap (λ (x : ℕ). d + x) b ∙ h) r)
