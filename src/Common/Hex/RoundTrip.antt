-- ===== src/Common/Hex/RoundTrip.antt =====
-- Decoding after encoding, for the hexadecimal text of encoding/hex.
use safe.Prelude.{ℕ, ◌≡◌, refl, ◌<◌, ◌/◌, ◌%◌, [], ◌∷◌, GoString, some, All, arith}
use safe.Common.Hex.{hex_digit, encode_hex, from_hex_digit, decode_hex}

abbrev pub IsByte : ℕ → Type 0
IsByte b = b < 256

from_hex_digit-hex_digit : (n : ℕ) → n < 16 → from_hex_digit (hex_digit n) ≡ some n
unfolding from_hex_digit hex_digit
from_hex_digit-hex_digit n h = ground arith

-- Decoding the lower-case hexadecimal text of bytes gives the bytes.
pub decode_hex-encode_hex : (bs : GoString) → All IsByte bs → decode_hex (encode_hex bs) ≡ some bs
unfolding decode_hex encode_hex
decode_hex-encode_hex [] h = refl
decode_hex-encode_hex (b ∷ bs) h =
    rw
      (
        from_hex_digit-hex_digit (b / 16) (omega arith),
        from_hex_digit-hex_digit (b % 16) (omega arith),
        decode_hex-encode_hex bs h.1,
      )
      (ground arith)
