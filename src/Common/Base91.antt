-- ===== src/Common/Base91.antt =====
-- common/base91.go: base91 text of bytes. An index out of range is a panic, `none`.
pub mod Alphabet
pub mod Bytes
pub mod Pairs
pub mod Tail
pub mod RoundTrip
use Prim.Native.Nat.{bit_and, bit_or}
use safe.Prelude.{
  ℕ, zero, suc, ◌+◌, ◌-◌, ◌*◌, ◌/◌, ◌%◌, ◌^◌, GoString, ◌||◌, [], ◌∷◌, ◌++◌, Option, none, some,
  ltb, ◌==◌, if◌then◌else◌, get_elem?,
}
use safe.Prelude.Text.{codes}

-- The alphabet: the 91 bytes of `encodeStd`, `Encoding.encode`.
abbrev pub encode_std : GoString
encode_std =
    codes
      "ABCDEFGHIJKLMNOPQRSTUVWXYZabcdefghijklmnopqrstuvwxyz0123456789!#$%&()*+,./:;<=>?@[]^_`{|}~-"

-- `enc.encode[i]`
unfoldable pub letter_at : ℕ → Option ℕ
letter_at i = get_elem? encode_std i

-- `newEncoding`: the entry of `c` after the loop that assigns `decodeMap[encoder[i]] = i`.
unfoldable pub fill_decode_map : GoString → ℕ → ℕ → ℕ → ℕ
fill_decode_map [] i entry c = entry
fill_decode_map (x ∷ encoder) i entry c =
    fill_decode_map encoder (i + 1) (if x == c then i else entry) c

unfoldable pub decode_map : ℕ → ℕ
unfolding fill_decode_map
decode_map c = fill_decode_map encode_std 0 0xff c

-- `enc.encode[v%91]` and then `enc.encode[v/91]` are written.
unfoldable pub put_pair : ℕ → Option GoString → Option GoString
put_pair v rest = elim (letter_at (v % 91)) [
  | none ↦ none
  | some lo ↦ elim (letter_at (v / 91)) [
    | none ↦ none
    | some hi ↦ elim rest [ none ↦ none | some out ↦ some (lo ∷ hi ∷ out) ]
  ]
]

-- What `Encode` writes after the loop.
unfoldable pub encode_tail : ℕ → ℕ → Option GoString
unfolding put_pair
encode_tail queue num_bits =
    if num_bits == 0
    then some []
    else if ltb 7 num_bits || ltb 90 queue
    then put_pair queue (some [])
    else elim (letter_at (queue % 91)) [ none ↦ none | some c ↦ some (c ∷ []) ]

-- The loop of `Encode`; `queue` and `num_bits` are Go's 64-bit `uint`.
unfoldable pub encode_loop : GoString → ℕ → ℕ → Option GoString
unfolding encode_tail
encode_loop [] queue num_bits = encode_tail queue num_bits
encode_loop (b ∷ src) queue num_bits =
    let q = bit_or queue (b * 2 ^ num_bits % 2 ^ 64) in
    let n = num_bits + 8 in
    let stay = encode_loop src q n in
    let take13 = encode_loop src (q / 2 ^ 13) (n - 13) in
    let take14 = encode_loop src (q / 2 ^ 14) (n - 14) in
    if ltb 13 n
    then (if ltb 88 (bit_and q 8191)
        then put_pair (bit_and q 8191) take13
        else put_pair (bit_and q 16383) take14)
    else stay

-- `Base91Encode`
unfoldable pub base91_encode : GoString → Option GoString
unfolding encode_loop
base91_encode src = encode_loop src 0 0

-- `for ok := true; ok; ok = numBits > 7`: the bytes written, and the queue and bits that are left.
-- The loop is entered with at least 13 bits and goes on while there are more than 7, so the
-- subtraction does not wrap.
unfoldable pub drain : ℕ → ℕ → ℕ → GoString × ℕ × ℕ
drain zero queue num_bits = ([], queue, num_bits)
drain (suc fuel) queue num_bits =
    let byte = queue % 256 in
    let q = queue / 2 ^ 8 in
    let n = num_bits - 8 in
    let more = drain fuel q n in
    if ltb 7 n then (byte ∷ more.0, more.1, more.2) else (byte ∷ [], q, n)

-- The invalid-character error is `none`; `v` is `none` where the source has -1.
unfoldable pub decode_loop : GoString → ℕ → ℕ → Option ℕ → Option GoString
unfolding decode_map drain
decode_loop [] queue num_bits none = some []
decode_loop [] queue num_bits (some v) = some (bit_or queue (v * 2 ^ num_bits % 2 ^ 64) % 256 ∷ [])
decode_loop (c ∷ src) queue num_bits none =
    let rest = decode_loop src queue num_bits (some (decode_map c)) in
    if decode_map c == 0xff then none else rest
decode_loop (c ∷ src) queue num_bits (some v) =
    let w = v + decode_map c * 91 in
    let q = bit_or queue (w * 2 ^ num_bits % 2 ^ 64) in
    let n = num_bits + (if ltb 88 (bit_and w 8191) then 13 else 14) in
    let out = drain n q n in
    let rest = decode_loop src out.1 out.2 none in
    if decode_map c == 0xff
    then none
    else elim rest [ none ↦ none | some bytes ↦ some (out.0 ++ bytes) ]

-- `Base91Decode`
unfoldable pub base91_decode : GoString → Option GoString
unfolding decode_loop
base91_decode src = decode_loop src 0 0 none
