-- ===== src/Common/Operation/RoundTrip.antt =====
-- `DecodeOperation` after `Encode` of common/operation.go, by what the encoder and the decoder of the
-- mixin kernel library and the uuid library do.
use safe.Prelude.{
  ℕ, ◌+◌, ◌%◌, ◌≤◌, ◌<◌, ◌≡◌, sym, ap, ◌∙◌, GoString, none, some, [], ◌∷◌, ◌++◌, length,
  length-append, All, arith, ltb, not, true,
}
use mathlib.Core.List.{append_assoc, append-nil}
use safe.Common.Chain.{normalize_curve}
use safe.Common.Hex.{encode_hex}
use safe.Common.Hex.RoundTrip.{IsByte, decode_hex-encode_hex}
use safe.Common.Operation.{
  Coder, Uuid, Operation, write_uuid, write_bytes, encode, read_uuid, read_bytes, decode_operation,
}

-- What the encoder and the decoder do, by the bytes `left` in a decoder: writes append, reads take
-- from the front exactly what they ask for, and fail where less is left.
pub record CoderLaws {Encoder Decoder : Type 0} (coder : Coder Encoder Decoder)
    (left : Decoder → GoString) : Type 0 where
  pub bytes-new : coder.bytes coder.new_encoder ≡ []
  pub bytes-write :
      (e : Encoder) (b : GoString) → coder.bytes (coder.write e b) ≡ coder.bytes e ++ b
  pub write_byte_ok :
      (e : Encoder) (b : ℕ)
      → (e' : Encoder) × (coder.write_byte e b ≡ some e')
        × (coder.bytes e' ≡ coder.bytes e ++ (b ∷ []))
  pub left-new : (b : GoString) → left (coder.new_decoder b) ≡ b
  pub read_byte_ok :
      (d : Decoder) (b : ℕ) (rest : GoString)
      → left d ≡ b ∷ rest
      → (d' : Decoder) × (coder.read_byte d ≡ some (b, d')) × (left d' ≡ rest)
  pub read_ok :
      (d : Decoder) (xs rest : GoString)
      → left d ≡ xs ++ rest
      → (d' : Decoder) × (coder.read d (length xs) ≡ some (xs, d')) × (left d' ≡ rest)
  pub read_short : (d : Decoder) (n : ℕ) → length (left d) < n → coder.read d n ≡ none

-- The text of a uuid has 16 bytes and is read back.
pub record UuidLaws (uuid : Uuid) : Type 0 where
  pub parse-format : (b id : GoString) → uuid.format b ≡ some id → uuid.parse id ≡ some b
  pub format_ok : (b : GoString) → length b ≡ 16 → (id : GoString) × (uuid.format b ≡ some id)

-- The bytes of an operation: its uuid, type and curve, then two strings behind their lengths.
abbrev frame : GoString → ℕ → ℕ → GoString → GoString → GoString
frame uid typ curve public extra =
    uid ++ (typ ∷ curve ∷ length public ∷ (public ++ (length extra ∷ extra)))

fits : (n : ℕ) → n ≤ 200 → not (ltb 200 n) ≡ true
fits n h = ground arith

small : (n : ℕ) → n ≤ 200 → n % 256 ≡ n
small n h = omega arith

module _ {Encoder Decoder : Type 0} (coder : Coder Encoder Decoder) (uuid : Uuid)
    (left : Decoder → GoString) (laws : CoderLaws coder left) (uuid_laws : UuidLaws uuid) where
  write_bytes_ok :
      (e : Encoder) (b : GoString)
      → length b ≤ 200
      → (e' : Encoder) × (write_bytes coder uuid e b ≡ some e')
        × (coder.bytes e' ≡ coder.bytes e ++ (length b ∷ b))
  unfolding write_bytes
  write_bytes_ok e b h =
      let (e', w, l) = laws.write_byte_ok e (length b) in
      (
        coder.write e' b,
        rw (fits (length b) h, small (length b) h, w),
        rw (laws.bytes-write, l) (append_assoc (coder.bytes e) (length b ∷ []) b),
      )

  read_bytes_ok :
      (d : Decoder) (xs rest : GoString)
      → left d ≡ length xs ∷ (xs ++ rest)
      → (d' : Decoder) × (read_bytes coder uuid d ≡ some (xs, d')) × (left d' ≡ rest)
  unfolding read_bytes
  read_bytes_ok d [] rest h = let (d', r, l) = laws.read_byte_ok d 0 rest h in (d', rw r, l)
  read_bytes_ok d (x ∷ xs) rest h =
      let (d', r, l) = laws.read_byte_ok d (length (x ∷ xs)) ((x ∷ xs) ++ rest) h in
      let (d'', r', l') = laws.read_ok d' (x ∷ xs) rest l in (d'', rw (r, r') (ground arith), l')

  module _ (uid id public extra : GoString) (typ curve c : ℕ) (format : uuid.format uid ≡ some id)
      (size : length uid ≡ 16) (normal : normalize_curve curve ≡ some c)
      (octets : All IsByte public) (short : length public ≤ 200) (short' : length extra ≤ 200) where
    abbrev pub operation : Operation
    operation = record {
      id = id;
      typ = typ;
      curve = curve;
      public = encode_hex public;
      extra = extra;
    }

    encode_operation_lem : encode coder uuid operation ≡ some (frame uid typ curve public extra)
    unfolding encode write_uuid
    encode_operation_lem =
        let (e2, w2, l2) = laws.write_byte_ok (coder.write coder.new_encoder uid) typ in
        let (e3, w3, l3) = laws.write_byte_ok e2 curve in
        let (e4, w4, l4) = write_bytes_ok e3 public short in
        let (e5, w5, l5) = write_bytes_ok e4 extra short' in
        rw
          (
            normal,
            decode_hex-encode_hex public octets,
            uuid_laws.parse-format uid id format,
            w2,
            w3,
            w4,
            w5,
            l5,
            l4,
            l3,
            l2,
            laws.bytes-write,
            laws.bytes-new,
          )
          (simp append_assoc)

    decode-frame : decode_operation coder uuid (frame uid typ curve public extra) ≡ some operation
    unfolding decode_operation read_uuid
    decode-frame =
        let b = frame uid typ curve public extra in
        let (d1, r1, m1) = laws.read_ok (coder.new_decoder b) uid _ (laws.left-new b) in
        let (d2, r2, m2) = laws.read_byte_ok d1 typ _ m1 in
        let (d3, r3, m3) = laws.read_byte_ok d2 curve _ m2 in
        let (d4, r4, m4) = read_bytes_ok d3 public (length extra ∷ extra) m3 in
        let (d5, r5, m5) =
          read_bytes_ok d4 extra []
            (m4 ∙ sym (ap (λ (l : GoString). length extra ∷ l) (append-nil extra))) in
        rw (← size, r1, format, r2, r3, r4, r5)

    length-frame : length (frame uid typ curve public extra) ≡ 20 + length public + length extra
    length-frame = rw (length-append, length-append) (omega arith)

    -- An operation with a curve that is known, a uuid of 16 bytes, and a public key and an extra of at
    -- most 200 bytes each is encoded, in 20 bytes and those two, and decoding gives it back.
    pub encode-decode :
        (b : GoString) × (encode coder uuid operation ≡ some b)
        × (length b ≡ 20 + length public + length extra)
        × (decode_operation coder uuid b ≡ some operation)
    encode-decode =
        (frame uid typ curve public extra, encode_operation_lem, length-frame, decode-frame)
