-- ===== src/Keeper/Node/Revoking.antt =====
-- keeper/group.go: the revocation of a transaction, the response of the signers, and the check of
-- the assets that come in; keeper/migrate.go: the request that migrates a token.
use safe.Prelude.{
  ℕ, GoString, Bool, false, [], ◌∷◌, ◌++◌, not, ◌||◌, ltb, ◌==◌, if◌then◌else◌, length, drop, any,
  str_eq,
}
use safe.Prelude.Text.{codes}
use safe.Common.Constants.{
  request_role_observer, request_role_signer, request_state_initial, request_state_done,
  chain_polygon,
}
use safe.Common.Hex.{decode_hex}
use safe.Common.Request.{Request}
use safe.Keeper.Store.Tables.{Safe, SafeBalance, Transaction}
use safe.Keeper.Store.Balances.{read_ethereum_balance}
use safe.Keeper.Store.Listing.{read_all_ethereum_token_balances}
use safe.Keeper.Store.Requests.{read_request}
use safe.Keeper.Store.Safes.{read_safe}
use safe.Keeper.Store.Signatures.{read_signature_request}
use safe.Keeper.Store.Transactions.{read_transaction, read_transaction_by_request_id}
use safe.Keeper.Calls.{revoke_c}
use safe.Keeper.Node.World.{Node}
use safe.Keeper.Node.Handler.{
  Handler, pure, panics, answer, look, need, or_else, require, ◌>>=◌, ◌>>◌, ask, call, fail_request,
  found, check,
}
use safe.Keeper.Node.Build.{build_transaction}
use safe.Keeper.Node.Keys.{
  amount_of, fetch_bond_asset_receiver, get_bond_asset_id, verify_holder_or_observer,
}
use safe.Keeper.Node.Extras.{leading_uuid}
use safe.Keeper.Node.Accounts.{safe_of_holder}
use safe.Keeper.Node.Deposits.{is_bitcoin_chain, is_ethereum_chain}
use safe.Keeper.Node.Bitcoin.Signing.{process_bitcoin_safe_signature_response}
use safe.Keeper.Node.Ethereum.Response.{process_ethereum_safe_signature_response}

module _ {T E D : Type 0} (node : Node T E D) where
  -- handleBondAsset: whether the asset is a bond that comes for the first time.
  unfoldable pub handle_bond_asset : GoString → Handler T Bool
  handle_bond_asset asset_id = do
    meta ← need (node.assets.fetch_asset_meta asset_id)
    if not (meta.chain == chain_polygon) then pure false else do
      deployed ← need (node.assets.check_factory_asset_deployed meta.asset_key)
      if length deployed == 0 then pure false else do
        id ← need (node.uuid.format deployed)
        need (node.assets.fetch_asset_meta id)
        pure (not (node.group.has_spent_outputs asset_id))

-- The bonds of two deposits that came after the migration.
unfoldable pub after_migration : GoString → GoString
after_migration asset_id =
    if str_eq asset_id (codes "1a528bf8-198c-35f3-a2d7-910252395f06")
    then codes "b5a91ff6-a78b-3838-9fa5-225636c093d0"
    else if str_eq asset_id (codes "c0a82655-b1c1-3029-8fbe-ad8e78404d0e")
    then codes "ea7a8468-8d0a-361c-8580-fab2c4a75a7e"
    else []

module _ {T E D : Type 0} (node : Node T E D) (now : ℕ) (req : Request) where
  -- The initial transaction of a request, of this holder.
  unfoldable pub initial_transaction_of : GoString → Handler T Transaction
  initial_transaction_of rid = do
    row ← look (λ db. read_transaction_by_request_id db rid)
    tx ← found node now req row
    check node now req (str_eq tx.holder req.holder)
    check node now req (tx.state == request_state_initial)
    pure tx

  -- The bond of an asset, by the hash of its identifier.
  unfoldable pub revoked_bond : Safe → Transaction → Handler T GoString
  revoked_bond safe tx = do
    entry ← fetch_bond_asset_receiver node safe.address tx.asset_id
    safe_asset_id ← get_bond_asset_id node entry tx.asset_id tx.holder
    bond ← need (node.assets.fetch_asset_meta (node.crypto.sha256_text safe_asset_id))
    pure bond.asset_id

  -- processSafeRevokeTransaction
  unfoldable pub process_safe_revoke_transaction : Handler T (Unit {0})
  process_safe_revoke_transaction = do
    require (req.role == request_role_observer)
    safe ← safe_of_holder node now req
    extra ← need (decode_hex req.extra_hex)
    check node now req (not (ltb (length extra) 64))
    rid ← leading_uuid node now req extra
    tx ← initial_transaction_of rid
    row ← look (λ db. read_request db rid)
    tx_request ← found node now req row
    signed ←
        verify_holder_or_observer node now req safe
          (codes "REVOKE:" ++ (rid ++ (codes ":" ++ tx.transaction_hash))) (drop 16 extra)
    check node now req signed
    bond ← revoked_bond safe tx
    act ← need req.output
    t ←
        or_else
          (build_transaction node act [] node.conf.app_id bond safe.receivers safe.threshold
            (amount_of tx_request) (codes "refund") req.id)
          (fail_request node now req bond)
    call node (revoke_c now tx safe req (t ∷ []))
    answer (t ∷ []) []

  -- processSignerSignatureResponse
  unfoldable pub process_signer_signature_response : Handler T (Unit {0})
  process_signer_signature_response = do
    require (req.role == request_role_signer)
    row ← look (λ db. read_signature_request db req.id)
    old ← found node now req row
    check node now req (not (old.state == request_state_done))
    trx ← look (λ db. read_transaction db old.transaction_hash)
    tx ← need trx
    holder ← look (λ db. read_safe db tx.holder)
    safe ← need holder
    check node now req (str_eq safe.signer req.holder)
    if is_bitcoin_chain safe.chain
        then process_bitcoin_safe_signature_response node now req safe tx old
        else if is_ethereum_chain safe.chain
        then process_ethereum_safe_signature_response node now req safe tx old
        else panics

  -- The check of the token of a safe, at the end of checkSafeTokenMigration.
  unfoldable pub require_migrated_token : Safe → Handler T (Unit {0})
  require_migrated_token safe =
      if is_bitcoin_chain safe.chain
      then require (str_eq safe.safe_asset_id req.asset_id)
      else if is_ethereum_chain safe.chain
      then (do
        rows ← look (λ db. read_all_ethereum_token_balances db safe.address)
        bs ← need rows
        require (
            any (λ (sb : SafeBalance). str_eq sb.safe_asset_id req.asset_id) bs
            || str_eq req.asset_id safe.safe_asset_id))
      else pure tt

  -- checkSafeTokenMigration: it always ends as a failed request, or panics.
  unfoldable pub check_safe_token_migration : Handler T (Unit {0})
  unfolding require_migrated_token
  check_safe_token_migration = do
    meta ← need (node.assets.fetch_asset_meta req.asset_id)
    check node now req (meta.chain == chain_polygon)
    deployed ← need (node.assets.check_factory_asset_deployed meta.asset_key)
    check node now req (not (length deployed == 0))
    id ← need (node.uuid.format deployed)
    need (node.assets.fetch_asset_meta id)
    extra ← need (decode_hex req.extra_hex)
    check node now req (length extra == 20)
    let receiver = node.ethereum.address_text extra
    require (str_eq receiver node.conf.polygon_observer_deposit_entry)
    if not (str_eq (after_migration req.asset_id) [])
        then (do
          ask (read_ethereum_balance now receiver id (after_migration req.asset_id))
          fail_request node now req [])
        else do
          row ← look (λ db. read_safe db req.holder)
          safe ← found node now req row
          check node now req (safe.state == request_state_done)
          require_migrated_token safe
          fail_request node now req []
