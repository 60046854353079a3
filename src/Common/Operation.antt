-- ===== src/Common/Operation.antt =====
-- common/operation.go: the operation that a memo or a message carries. A panic and an error are
-- `none`. The encoder and decoder of the mixin kernel library and the uuid library are parameters.
pub mod RoundTrip
use safe.Prelude.{ℕ, ◌%◌, GoString, Option, none, some, length, ltb, not, ◌==◌, if◌then◌else◌, []}
use safe.Prelude.Maybe.{◌>>=◌, ◌>>◌, guard}
use safe.Common.Chain.{normalize_curve}
use safe.Common.Hex.{encode_hex, decode_hex}

-- `common.Encoder` and `common.Decoder` of github.com/MixinNetwork/mixin/common.
pub record Coder (Encoder Decoder : Type 0) : Type 0 where
  pub new_encoder : Encoder
  pub write : Encoder → GoString → Encoder
  pub write_byte : Encoder → ℕ → Option Encoder
  pub bytes : Encoder → GoString
  pub new_decoder : GoString → Decoder
  pub read_byte : Decoder → Option (ℕ × Decoder)
  pub read : Decoder → ℕ → Option (GoString × Decoder)

-- `FromString(…).Bytes()` and `FromBytes(…).String()` of github.com/gofrs/uuid.
pub record Uuid : Type 0 where
  pub parse : GoString → Option GoString
  pub format : GoString → Option GoString

pub record Operation : Type 0 where
  pub id : GoString
  pub typ : ℕ
  pub curve : ℕ
  pub public : GoString
  pub extra : GoString

module _ {Encoder Decoder : Type 0} (coder : Coder Encoder Decoder) (uuid : Uuid) where
  unfoldable pub write_uuid : Encoder → GoString → Option Encoder
  write_uuid enc id = do uid ← uuid.parse id; some (coder.write enc uid)

  unfoldable pub write_bytes : Encoder → GoString → Option Encoder
  write_bytes enc b = do
    guard (not (ltb 200 (length b)))
    enc' ← coder.write_byte enc (length b % 256)
    some (coder.write enc' b)

  -- Operation.Encode
  unfoldable pub encode : Operation → Option GoString
  unfolding write_uuid write_bytes
  encode o = do
    normalize_curve o.curve
    public ← decode_hex o.public
    e1 ← write_uuid coder.new_encoder o.id
    e2 ← coder.write_byte e1 o.typ
    e3 ← coder.write_byte e2 o.curve
    e4 ← write_bytes e3 public
    e5 ← write_bytes e4 o.extra
    some (coder.bytes e5)

  unfoldable pub read_uuid : Decoder → Option (GoString × Decoder)
  read_uuid dec = do (b, dec') ← coder.read dec 16; id ← uuid.format b; some (id, dec')

  unfoldable pub read_bytes : Decoder → Option (GoString × Decoder)
  read_bytes dec = do
    (l, dec') ← coder.read_byte dec
    if l == 0 then some ([], dec') else coder.read dec' l

  -- DecodeOperation
  unfoldable pub decode_operation : GoString → Option Operation
  unfolding read_uuid read_bytes
  decode_operation b = do
    (id, d1) ← read_uuid (coder.new_decoder b)
    (typ, d2) ← coder.read_byte d1
    (curve, d3) ← coder.read_byte d2
    (public, d4) ← read_bytes d3
    (extra, d5) ← read_bytes d4
    some (record { id = id; typ = typ; curve = curve; public = encode_hex public; extra = extra })
