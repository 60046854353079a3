-- ===== src/Keeper/Node/Requests.antt =====
-- keeper/request.go and common/request.go: how the node reads a request out of an action of the
-- group. In the results the outer `none` is a panic, and the inner one an error.
use safe.Prelude.{
  ℕ, GoString, Bool, true, false, List, [], ◌∷◌, Option, none, some, not, ◌&&◌, ◌||◌, ltb, ◌==◌,
  if◌then◌else◌, length, str_eq,
}
use safe.Prelude.Maybe.{◌>>=◌}
use safe.Prelude.Text.{codes}
use safe.Common.Constants.{
  request_role_holder, request_role_signer, request_role_observer, request_state_initial,
  curve_secp256k1_ecdsa_bitcoin, curve_secp256k1_ecdsa_litecoin,
}
use safe.Common.Hex.{encode_hex}
use safe.Common.Operation.{Operation, decode_operation}
use safe.Common.Request.{Action, Request}
use safe.Keeper.Node.World.{Node}
use safe.Keeper.Node.Keys.{is_ethereum_curve}
use safe.Keeper.Node.Extras.{nil_uuid}

-- The text of a hash without a value.
abbrev pub empty_hash : GoString
empty_hash = codes "0000000000000000000000000000000000000000000000000000000000000000"

-- What an operation and an action say of a request.
abbrev pub request_of : Action → Operation → GoString → ℕ → Request
request_of out op hash role = record {
  id = op.id;
  mixin_hash = hash;
  mixin_index = out.output_index;
  asset_id = out.asset_id;
  amount = out.amount;
  role = role;
  action = op.typ;
  curve = op.curve;
  holder = op.public;
  extra_hex = encode_hex op.extra;
  state = request_state_initial;
  created_at = out.sequencer_created_at;
  sequence = out.sequence;
  output = some out;
}

module _ {T E D : Type 0} (node : Node T E D) where
  -- The asset is written as a uuid is, and is not nil.
  unfoldable pub is_asset_id : GoString → Bool
  is_asset_id asset_id = elim (node.uuid.parse asset_id >>= node.uuid.format) [
    | none ↦ false
    | some text ↦ not (str_eq text nil_uuid) && str_eq text asset_id
  ]

  -- The switch of VerifyFormat on the curve.
  unfoldable pub is_holder_key : Request → Bool
  is_holder_key r =
      if r.curve == curve_secp256k1_ecdsa_bitcoin || (r.curve == curve_secp256k1_ecdsa_litecoin)
      then node.bitcoin.verify_holder_key r.holder
      else if is_ethereum_curve r.curve
      then node.ethereum.verify_holder_key r.holder
      else false

  -- VerifyFormat: a panic on a request with no time, and whether it is valid.
  unfoldable pub verify_format : Request → Option Bool
  unfolding is_asset_id is_holder_key
  verify_format r =
      if r.created_at == 0
      then none
      else some (
          not (r.action == 0 || (r.role == 0) || (r.state == 0))
          && is_asset_id r.asset_id
          && not (r.amount == 0)
          && not (str_eq r.mixin_hash empty_hash)
          && is_holder_key r)

  -- DecodeRequest
  unfoldable pub decode_request : Action → GoString → ℕ → Option (Option Request)
  decode_request out b role = elim (decode_operation node.coder node.uuid b) [
    | none ↦ some none
    | some op ↦ elim (node.crypto.hash_from_string out.transaction_hash) [
      | none ↦ some none
      | some hash ↦ verify_format (request_of out op hash role) >>= λ valid.
          some (if valid then some (request_of out op hash role) else none)
    ]
  ]

  -- requestRole
  unfoldable pub request_role : GoString → ℕ
  request_role asset_id =
      if str_eq asset_id node.conf.asset_id
      then request_role_signer
      else if str_eq asset_id node.conf.observer_asset_id
      then request_role_observer
      else request_role_holder

  -- The extra of an action, which must be for this application: a panic otherwise.
  unfoldable pub extra_of : Action → Option (Option GoString)
  extra_of out =
      let (a, m) = node.group.decode_mixin_extra out.extra in
      if str_eq a node.conf.app_id then some m else none

  -- The request in an extra that is encrypted with a key.
  unfoldable pub encrypted_request : GoString → Action → Option GoString → Option (Option Request)
  unfolding decode_request
  encrypted_request key out none = some none
  encrypted_request key out (some m) =
      if ltb (length m) 12
      then some none
      else decode_request out (node.crypto.aes_decrypt key m) (request_role out.asset_id)

  -- parseSignerResponse
  unfoldable pub parse_signer_response : Action → Option (Option Request)
  unfolding extra_of encrypted_request
  parse_signer_response out = do m ← extra_of out; encrypted_request node.conf.signer_aes_key out m

  -- The test of parseObserverRequest on the senders; a list of none is a panic.
  unfoldable pub is_from_observer : List GoString → Option Bool
  is_from_observer [] = none
  is_from_observer (s ∷ ss) = elim ss [
    | [] ↦ some true
    | _ ∷ _ ↦ some (str_eq s node.conf.observer_user_id)
  ]

  -- parseObserverRequest
  unfoldable pub parse_observer_request : Action → Option (Option Request)
  unfolding is_from_observer extra_of encrypted_request
  parse_observer_request out = do
    from_observer ← is_from_observer out.senders
    if not from_observer
        then some none
        else do m ← extra_of out; encrypted_request node.conf.observer_aes_key out m

  -- parseHolderRequest
  unfoldable pub parse_holder_request : Action → Option (Option Request)
  unfolding extra_of decode_request
  parse_holder_request out = do
    m ← extra_of out
    elim m [ none ↦ some none | some b ↦ decode_request out b (request_role out.asset_id) ]

  -- parseRequest: a payment of the signers' or the observer's asset is one unit of it at least.
  unfoldable pub parse_request : Action → Option (Option Request)
  unfolding parse_signer_response parse_observer_request parse_holder_request
  parse_request out =
      if str_eq out.asset_id node.conf.asset_id
      then if ltb out.amount 100_000_000 then none else parse_signer_response out
      else if str_eq out.asset_id node.conf.observer_asset_id
      then if ltb out.amount 100_000_000 then none else parse_observer_request out
      else parse_holder_request out
