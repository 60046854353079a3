-- ===== src/Common/Base91/Alphabet.antt =====
-- The alphabet of common/base91.go, and `decodeMap` as its inverse.
use safe.Prelude.{
  ℕ, zero, suc, ◌≡◌, ◌<◌, Bool, true, false, ◌&&◌, Option, none, some, ◌==◌, arith, refl,
}
use native.Mathlib.Decide.{ℕ_discrete}
use safe.Common.Base91.{letter_at, fill_decode_map, decode_map}

abbrev inverse_at : ℕ → Bool
inverse_at i = elim (letter_at i) [ none ↦ false | some c ↦ decode_map c == i ]

abbrev all_below : ℕ → (ℕ → Bool) → Bool
all_below zero p = true
all_below (suc n) p = p n && all_below n p

at_below : (n : ℕ) (p : ℕ → Bool) → all_below n p ≡ true → (i : ℕ) → i < n → p i ≡ true
at_below zero p h i l = absurd (omega arith)
at_below (suc n) p h i l = elim (ℕ_discrete i n) [
  | yes e ↦ rw e (ground arith)
  | no e ↦ let h' : all_below n p ≡ true = ground arith in at_below n p h' i (omega arith)
]

inverse_below : all_below 91 inverse_at ≡ true
unfolding decode_map fill_decode_map letter_at
inverse_below = refl

letter_of :
    (i : ℕ) (o : Option ℕ)
    → elim o [ none ↦ false | some c ↦ decode_map c == i ] ≡ true
    → (c : ℕ) × (o ≡ some c) × (decode_map c ≡ i)
letter_of i none h = cc
letter_of i (some c) h = (c, refl, ground arith)

-- The letter of a digit, which `decodeMap` takes back to it.
pub letter : (i : ℕ) → i < 91 → (c : ℕ) × (letter_at i ≡ some c) × (decode_map c ≡ i)
letter i h = letter_of i (letter_at i) (at_below 91 inverse_at inverse_below i h)
