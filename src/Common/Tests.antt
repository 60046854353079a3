-- ===== src/Common/Tests.antt =====
-- Runs of the definitions of `common`, and the theorems at concrete inputs. A coder on lists of bytes
-- and a uuid whose text is its bytes stand for the libraries.
use safe.Prelude.{
  ℕ, ◌≡◌, ◌↔◌, ◌⊎◌, ◌+◌, ◌<◌, refl, Option, none, some, GoString, [], ◌∷◌, ◌++◌, length, take, drop,
  take-append, drop-append, arith, ltb, ◌==◌, if◌then◌else◌, length-append,
}
use safe.Common.Constants.{chain_bitcoin, chain_ethereum, chain_litecoin, chain_polygon}
use safe.Common.Chain.{normalize_curve, safe_curve_chain, safe_chain_curve}
use safe.Common.Chain.Curves.{chain_curve_inverse, safe_curve_normalizes}
use safe.Prelude.Text.{codes}
use safe.Common.Base91.{
  base91_encode, base91_decode, encode_loop, encode_tail, put_pair, letter_at, decode_loop,
  decode_map, fill_decode_map, drain,
}
use safe.Common.Base91.RoundTrip.{base91_decode-base91_encode}
use safe.Common.Hex.{encode_hex}
use safe.Common.Operation.{Coder, Uuid, Operation, encode, decode_operation}
use safe.Common.Operation.RoundTrip.{CoderLaws, UuidLaws, encode-decode}

abbrev pub take_bytes : GoString → ℕ → Option (GoString × GoString)
take_bytes d n = if ltb (length d) n then none else some (take n d, drop n d)

abbrev pub take_byte : GoString → Option (ℕ × GoString)
take_byte [] = none
take_byte (b ∷ d) = some (b, d)

abbrev pub byte_coder : Coder GoString GoString
byte_coder = record {
  new_encoder = [];
  write = λ e b. e ++ b;
  write_byte = λ e b. some (e ++ (b ∷ []));
  bytes = λ e. e;
  new_decoder = λ b. b;
  read_byte = take_byte;
  read = take_bytes;
}

take_bytes_short : (d : GoString) (n : ℕ) → length d < n → take_bytes d n ≡ none
take_bytes_short d n h = ground arith

take_bytes-append : (xs rest : GoString) → take_bytes (xs ++ rest) (length xs) ≡ some (xs, rest)
take_bytes-append xs rest = rw (length-append, take-append, drop-append) (ground arith)

take_byte_ok :
    (d : GoString) (b : ℕ) (rest : GoString)
    → d ≡ b ∷ rest
    → (d' : GoString) × (take_byte d ≡ some (b, d')) × (d' ≡ rest)
take_byte_ok d b rest h = (rest, rw h refl, refl)

byte_coder_laws : CoderLaws byte_coder (λ d. d)
byte_coder_laws = record {
  bytes-new = refl;
  bytes-write = λ e b. refl;
  write_byte_ok = λ e b. (e ++ (b ∷ []), refl, refl);
  left-new = λ b. refl;
  read_byte_ok = take_byte_ok;
  read_ok = λ d xs rest h. (rest, rw h (take_bytes-append xs rest), refl);
  read_short = λ d n h. take_bytes_short d n h;
}

abbrev sixteen : GoString → Option GoString
sixteen b = if length b == 16 then some b else none

abbrev pub byte_uuid : Uuid
byte_uuid = record { parse = sixteen; format = sixteen }

byte_uuid_laws : UuidLaws byte_uuid
byte_uuid_laws = record {
  parse-format = λ b id h. ground arith;
  format_ok = λ b h. (b, ground arith);
}

abbrev pub uid : GoString
uid = 1 ∷ 2 ∷ 3 ∷ 4 ∷ 5 ∷ 6 ∷ 7 ∷ 8 ∷ 9 ∷ 10 ∷ 11 ∷ 12 ∷ 13 ∷ 14 ∷ 15 ∷ 16 ∷ []

abbrev sample : Operation
sample = record {
  id = uid;
  typ = 110;
  curve = 101;
  public = encode_hex (2 ∷ 255 ∷ []);
  extra = 7 ∷ [];
}

encode-decode_example :
    (b : GoString) × (encode byte_coder byte_uuid sample ≡ some b)
    × (length b ≡ 20 + 2 + 1)
    × (decode_operation byte_coder byte_uuid b ≡ some sample)
unfolding normalize_curve
encode-decode_example =
    encode-decode byte_coder byte_uuid (λ d. d) byte_coder_laws byte_uuid_laws uid uid
      (2 ∷ 255 ∷ []) (7 ∷ []) 110 101 1 refl refl refl (omega arith, (omega arith, tt))
      (omega arith) (omega arith)

chain_curve_inverse_example : (safe_curve_chain 112 ≡ some 6) ↔ (safe_chain_curve 6 ≡ some 112)
chain_curve_inverse_example = chain_curve_inverse 112 6

-- Polygon has the keys of Ethereum.
safe_curve_normalizes_example :
    (((chain_polygon ≡ chain_bitcoin) ⊎ (chain_polygon ≡ chain_litecoin))
      × (normalize_curve 112 ≡ some 1))
    ⊎ (((chain_polygon ≡ chain_ethereum) ⊎ (chain_polygon ≡ chain_polygon))
        × (normalize_curve 112 ≡ some 2))
unfolding safe_chain_curve
safe_curve_normalizes_example = safe_curve_normalizes chain_polygon 112 refl

base91_decode-base91_encode_example :
    (text : GoString) × (base91_encode (0 ∷ 171 ∷ 255 ∷ []) ≡ some text)
    × (base91_decode text ≡ some (0 ∷ 171 ∷ 255 ∷ []))
base91_decode-base91_encode_example =
    base91_decode-base91_encode (0 ∷ 171 ∷ 255 ∷ []) (omega arith, (omega arith, (omega arith, tt)))

-- The four bytes of "safe", one pair in the loop and the last three letters.
base91_encode_safe : base91_encode (codes "safe") ≡ some (codes "HEufZ")
unfolding base91_encode encode_loop encode_tail put_pair letter_at
base91_encode_safe = refl

base91_decode_safe : base91_decode (codes "HEufZ") ≡ some (codes "safe")
unfolding base91_decode decode_loop decode_map fill_decode_map drain
base91_decode_safe = refl

-- A letter that is not in the alphabet.
base91_decode_quote : base91_decode (codes "HE'") ≡ none
unfolding base91_decode decode_loop decode_map fill_decode_map drain
base91_decode_quote = refl
