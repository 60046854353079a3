-- ===== src/Common/Hex.antt =====
-- encoding/hex of Go's standard library, on bytes: `EncodeToString` and `DecodeString`.
pub mod RoundTrip
use safe.Prelude.{
  ℕ, ◌+◌, ◌-◌, ◌*◌, ◌/◌, ◌%◌, GoString, [], ◌∷◌, Option, none, some, leb, ◌&&◌, if◌then◌else◌,
}

-- The lower-case digit of a number below 16.
unfoldable pub hex_digit : ℕ → ℕ
hex_digit n = if leb n 9 then n + b'0' else n - 10 + b'a'

unfoldable pub encode_hex : GoString → GoString
unfolding hex_digit
encode_hex [] = []
encode_hex (b ∷ bs) = hex_digit (b / 16) ∷ hex_digit (b % 16) ∷ encode_hex bs

-- Both cases are read; any other byte, and an odd length, are errors.
unfoldable pub from_hex_digit : ℕ → Option ℕ
from_hex_digit c =
    if leb b'0' c && leb c b'9'
    then some (c - b'0')
    else if leb b'a' c && leb c b'f'
    then some (c - b'a' + 10)
    else if leb b'A' c && leb c b'F'
    then some (c - b'A' + 10)
    else none

abbrev pub join_digits : Option ℕ → Option ℕ → Option GoString → Option GoString
join_digits none lo rest = none
join_digits (some hi) none rest = none
join_digits (some hi) (some lo) none = none
join_digits (some hi) (some lo) (some bs) = some ((hi * 16 + lo) ∷ bs)

unfoldable pub decode_hex : GoString → Option GoString
unfolding from_hex_digit
decode_hex [] = some []
decode_hex (c ∷ []) = none
decode_hex (c ∷ d ∷ rest) = join_digits (from_hex_digit c) (from_hex_digit d) (decode_hex rest)

parse_hex_from : ℕ → GoString → Option ℕ
parse_hex_from acc [] = some acc
parse_hex_from acc (c ∷ s) = elim (from_hex_digit c) [
  | none ↦ none
  | some d ↦ parse_hex_from (acc * 16 + d) s
]

-- `SetString(s, 16)` of math/big, on a text with no sign.
unfoldable pub parse_hex : GoString → Option ℕ
unfolding parse_hex_from from_hex_digit
parse_hex [] = none
parse_hex (c ∷ s) = parse_hex_from 0 (c ∷ s)
