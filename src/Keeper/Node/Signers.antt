-- ===== src/Keeper/Node/Signers.antt =====
-- keeper/signer.go: the transactions that ask the signer group for keys and signatures. The outer
-- `none` is a panic, the inner one a transaction that is not built.
use safe.Prelude.{
  ℕ, zero, suc, ◌+◌, Bool, GoString, List, [], ◌∷◌, ◌++◌, Option, none, some, ◌||◌, ◌==◌, length,
  take,
}
use safe.Prelude.Maybe.{◌>>=◌, ◌>>◌, guard}
use safe.Prelude.Text.{codes}
use safe.Prelude.Decimal.{show, show_padded}
use safe.Common.Constants.{
  operation_type_keygen_input, operation_type_sign_input, curve_secp256k1_ecdsa_bitcoin,
  curve_secp256k1_ecdsa_ethereum,
}
use safe.Common.Chain.{normalize_curve}
use safe.Common.Hex.{encode_hex, decode_hex}
use safe.Common.Operation.{Operation}
use safe.Common.Request.{Action, Request}
use safe.Keeper.Store.Tables.{SignatureRequest}
use safe.Keeper.Node.World.{Node}
use safe.Keeper.Node.Build.{unique_id, build_signer_transaction}

abbrev pub is_signer_curve : ℕ → Bool
is_signer_curve crv =
    crv == curve_secp256k1_ecdsa_bitcoin || (crv == curve_secp256k1_ecdsa_ethereum)

-- `%v` of a list of strings, without its brackets.
abbrev join : List GoString → GoString
join [] = []
join (s ∷ ss) = s ++ elim ss [ [] ↦ [] | _ ∷ _ ↦ b' ' ∷ join ss ]

module _ {T E D : Type 0} (node : Node T E D) where
  -- The operation of the i-th key of processSignerKeygenRequests.
  unfoldable pub keygen_operation : Request → ℕ → ℕ → Operation
  unfolding unique_id
  keygen_operation req crv i = record {
    id = unique_id node (unique_id node req.id (show_padded i)) (
        codes "MTG:["
        ++ (join node.conf.signers ++ (codes "]:" ++ show node.conf.signer_threshold)));
    typ = operation_type_keygen_input;
    curve = crv;
    public = [];
    extra = [];
  }

  -- The loop of processSignerKeygenRequests, with the rounds that are left.
  unfoldable pub keygen_transactions :
      Request → Action → ℕ → ℕ → ℕ → List T → Option (Option (List T))
  keygen_transactions req act crv i zero built = some (some built)
  keygen_transactions req act crv i (suc left) built =
      build_signer_transaction node act built (keygen_operation req crv i) >>= λ tx. elim tx [
        | none ↦ some none
        | some t ↦ keygen_transactions req act crv (i + 1) left (built ++ (t ∷ []))
      ]

  -- The operation of a signature request in buildSignerSignRequests.
  unfoldable pub sign_operation : SignatureRequest → GoString → Option Operation
  sign_operation sr path = do
    crv ← normalize_curve sr.curve
    guard (is_signer_curve crv)
    fp ← decode_hex path
    guard (length fp == 4)
    message ← decode_hex sr.message
    some (record {
      id = sr.request_id;
      typ = operation_type_sign_input;
      curve = crv;
      public = encode_hex (take 8 (node.crypto.sha256 sr.signer) ++ fp);
      extra = message;
    })

  -- The loop of buildSignerSignRequests; it returns no transaction where one is not built.
  unfoldable pub sign_transactions :
      Action → GoString → List SignatureRequest → List T → Option (List T)
  sign_transactions act path [] built = some built
  sign_transactions act path (sr ∷ srs) built = do
    op ← sign_operation sr path
    tx ← build_signer_transaction node act built op
    elim tx [ none ↦ some [] | some t ↦ sign_transactions act path srs (built ++ (t ∷ [])) ]
