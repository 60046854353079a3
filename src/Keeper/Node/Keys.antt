-- ===== src/Keeper/Node/Keys.antt =====
-- keeper/group.go (processKeyAdd), keeper/signer.go (processSignerKeygenRequests),
-- keeper/bitcoin.go (deriveBIP32WithPath), and keeper/common.go: the bond of an asset, the refund
-- of a request, and the signature of a message by the holder or the observer.
use safe.Prelude.{
  ℕ, zero, suc, ◌+◌, GoString, Bool, true, false, List, [], ◌∷◌, Option, none, some, not, ◌&&◌,
  ◌||◌, ltb, leb, ◌==◌, if◌then◌else◌, length, get_or, take, drop,
}
use safe.Prelude.Maybe.{is_none}
use safe.Prelude.Text.{codes}
use safe.Common.Constants.{
  request_role_signer, request_role_observer, request_flag_none, request_flag_custom_observer_key,
  action_observer_request_signer_keys, curve_secp256k1_ecdsa_bitcoin,
  curve_secp256k1_ecdsa_ethereum, curve_secp256k1_ecdsa_mvm, curve_secp256k1_ecdsa_polygon,
  chain_polygon,
}
use safe.Common.Chain.{normalize_curve, safe_chain_curve}
use safe.Common.Hex.{decode_hex, parse_hex}
use safe.Common.Request.{Request}
use safe.Keeper.Store.Tables.{Safe}
use safe.Keeper.Store.Keys.{read_key}
use safe.Keeper.Store.Balances.{check_migrate_asset}
use safe.Keeper.Calls.{fail_request_c, write_key_c}
use safe.Keeper.Node.World.{Node, Asset, Decimal}
use safe.Keeper.Node.Handler.{
  Handler, pure, panics, answer, look, need, or_else, require, ◌>>=◌, ◌>>◌, ask, call, fail_request,
  found, check,
}
use safe.Keeper.Node.Build.{build_transaction}
use safe.Keeper.Node.Signers.{is_signer_curve, keygen_transactions}

abbrev pub is_ethereum_curve : ℕ → Bool
is_ethereum_curve crv =
    crv == curve_secp256k1_ecdsa_ethereum
    || (crv == curve_secp256k1_ecdsa_mvm)
    || (crv == curve_secp256k1_ecdsa_polygon)

abbrev pub signer_keygen_maximum : ℕ
signer_keygen_maximum = 128

-- The amount of a request, in units of 10^-8.
abbrev pub amount_of : Request → Decimal
amount_of req = record { units = req.amount; precision = 8 }

-- CheckDerivation, over the indices that are left.
unfoldable pub check_derivation_from :
    (GoString → GoString → List ℕ → Option GoString) → GoString → GoString → ℕ → ℕ → Bool
check_derivation_from derive public chain_code i zero = true
check_derivation_from derive public chain_code i (suc left) =
    elim (derive public chain_code (i ∷ i ∷ i ∷ [])) [
      | none ↦ false
      | some _ ↦ check_derivation_from derive public chain_code (i + 1) left
    ]

module _ {T E D : Type 0} (node : Node T E D) where
  -- deriveBIP32WithPath; a key that is not stored is a nil pointer, `none` an error.
  unfoldable pub derive_bip32_with_path : GoString → GoString → Handler T (Option GoString)
  derive_bip32_with_path public path = do
    require (not (length path == 0))
    let n = get_or path 0 0
    require (leb n 3 && ltb n (length path))
    row ← look (λ db. read_key db public)
    k ← need row
    chain_code ← need (decode_hex k.extra)
    pure (node.bitcoin.derive_bip32 public chain_code (take n (drop 1 path)))

  -- fetchBondAssetReceiver
  unfoldable pub fetch_bond_asset_receiver : GoString → GoString → Handler T GoString
  fetch_bond_asset_receiver address asset_id = do
    migrated ← ask (check_migrate_asset address asset_id)
    pure (
        if migrated
        then node.conf.polygon_observer_deposit_entry
        else node.conf.polygon_keeper_deposit_entry)

  -- getBondAssetId
  unfoldable pub get_bond_asset_id : GoString → GoString → GoString → Handler T GoString
  get_bond_asset_id entry asset_id holder = do
    asset ← need (node.assets.fetch_asset_meta asset_id)
    let key = node.assets.get_factory_asset_address entry asset_id asset.symbol asset.name holder
    require (node.assets.verify_asset_key key)
    pure (node.assets.generate_asset_id chain_polygon key)

  -- The asset that a bond's token stands for, where its contract is deployed; the handlers panic
  -- where the number of the contract is not positive, and on a number that is no uuid.
  unfoldable pub deployed_asset_id : Asset → Handler T GoString
  deployed_asset_id meta = do
    deployed ← need (node.assets.check_factory_asset_deployed meta.asset_key)
    require (not (length deployed == 0))
    need (node.uuid.format deployed)

module _ {T E D : Type 0} (node : Node T E D) (now : ℕ) (req : Request) where
  -- refundAndFailRequest
  unfoldable pub refund_and_fail_request : {A : Type 0} → List GoString → ℕ → Handler T A
  refund_and_fail_request receivers threshold = do
    act ← need req.output
    t ←
        or_else
          (build_transaction node act [] node.conf.app_id req.asset_id receivers threshold
            (amount_of req) (codes "refund") req.id)
          (fail_request node now req req.asset_id)
    call node (fail_request_c now req [] (t ∷ []))
    answer (t ∷ []) []

  -- The check of the key by the curve, in processKeyAdd.
  unfoldable pub check_added_key : GoString → Handler T (Unit {0})
  unfolding check_derivation_from
  check_added_key chain_code =
      if req.curve == curve_secp256k1_ecdsa_bitcoin
      then check node now req
          (check_derivation_from node.bitcoin.derive_bip32 req.holder chain_code 0 1001)
      else if is_ethereum_curve req.curve
      then check node now req (node.ethereum.verify_holder_key req.holder)
      else panics

  -- processKeyAdd
  unfoldable pub process_key_add : Handler T (Unit {0})
  unfolding check_added_key
  process_key_add = do
    old ← look (λ db. read_key db req.holder)
    check node now req (is_none old)
    extra ← need (decode_hex req.extra_hex)
    check node now req (length extra == 34)
    let role = get_or extra 0 0
    let flags = get_or extra 33 0
    check node now req (role == request_role_signer || (role == request_role_observer))
    check node now req (req.role == role)
    check node now req (flags == request_flag_none || (flags == request_flag_custom_observer_key))
    check_added_key (take 32 (drop 1 extra))
    call node (write_key_c now req role (take 32 (drop 1 extra)) flags)
    answer [] []

  -- processSignerKeygenRequests
  unfoldable pub process_signer_keygen_requests : Handler T (Unit {0})
  process_signer_keygen_requests = do
    require (req.role == request_role_observer)
    require (req.action == action_observer_request_signer_keys)
    crv ← need (normalize_curve req.curve)
    check node now req (is_signer_curve crv)
    batch ← found node now req (parse_hex req.extra_hex)
    check node now req (leb 1 batch && leb batch signer_keygen_maximum)
    act ← need req.output
    txs ← need (keygen_transactions node req act crv 0 batch [])
    built ← found node now req txs
    call node (fail_request_c now req [] built)
    answer built []

  -- The observer's turn in verifySafeMessageSignatureWithHolderOrObserver, on Bitcoin.
  unfoldable pub verify_observer : Safe → GoString → GoString → Handler T Bool
  verify_observer safe msg sig = do
    path ← need (decode_hex safe.path)
    odk ← derive_bip32_with_path node safe.observer path
    pure (elim odk [ none ↦ false | some k ↦ node.bitcoin.verify_signature_der k msg sig ])

  unfoldable pub verify_holder : Safe → GoString → GoString → Handler T Bool
  verify_holder safe msg sig =
      if node.bitcoin.verify_signature_der safe.holder msg sig
      then pure true
      else verify_observer safe msg sig

  -- verifySafeMessageSignatureWithHolderOrObserver
  unfoldable pub verify_holder_or_observer : Safe → GoString → GoString → Handler T Bool
  verify_holder_or_observer safe ms sig = do
    chain_curve ← need (safe_chain_curve safe.chain)
    crv ← need (normalize_curve chain_curve)
    if crv == curve_secp256k1_ecdsa_bitcoin
        then verify_holder safe (node.bitcoin.hash_message ms safe.chain) sig
        else if crv == curve_secp256k1_ecdsa_ethereum
        then pure (
            node.ethereum.verify_message_signature safe.holder ms sig
            || node.ethereum.verify_message_signature safe.observer ms sig)
        else panics
