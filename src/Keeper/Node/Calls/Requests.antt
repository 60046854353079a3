-- ===== src/Keeper/Node/Calls/Requests.antt =====
-- The calls of the requests of keeper/group.go, keeper/signer.go and keeper/migrate.go.
use safe.Prelude.{ℕ, GoString}
use safe.Common.Request.{Request}
use safe.Keeper.Store.Tables.{Safe, Transaction}
use safe.Keeper.Node.World.{Node}
use safe.Keeper.Node.Calls.{Makes}
use safe.Keeper.Node.Calls.Shared.{makes_shared}
use safe.Keeper.Node.Keys.{check_added_key, process_key_add, process_signer_keygen_requests}
use safe.Keeper.Node.Revoking.{
  handle_bond_asset, initial_transaction_of, revoked_bond, process_safe_revoke_transaction,
  process_signer_signature_response, require_migrated_token, check_safe_token_migration,
}
use safe.Keeper.Node.Calls.Signing.{Makes-process_bitcoin_safe_signature_response}
use safe.Keeper.Node.Calls.Ethereum.{Makes-process_ethereum_safe_signature_response}

module _ {T E D : Type 0} (node : Node T E D) (now : ℕ) (req : Request) where
  pub Makes-check_added_key : (text : GoString) → Makes node (check_added_key node now req text)
  unfolding check_added_key
  Makes-check_added_key text = search (makes_shared) depth 30

  pub Makes-process_key_add : Makes node (process_key_add node now req)
  unfolding process_key_add
  Makes-process_key_add = search (makes_shared, Makes-check_added_key) depth 30

  pub Makes-process_signer_keygen_requests :
      Makes node (process_signer_keygen_requests node now req)
  unfolding process_signer_keygen_requests
  Makes-process_signer_keygen_requests = search (makes_shared) depth 30

module _ {T E D : Type 0} (node : Node T E D) where
  pub Makes-handle_bond_asset : (text : GoString) → Makes node (handle_bond_asset node text)
  unfolding handle_bond_asset
  Makes-handle_bond_asset text = search (makes_shared) depth 30

module _ {T E D : Type 0} (node : Node T E D) (now : ℕ) (req : Request) where
  pub Makes-initial_transaction_of :
      (text : GoString) → Makes node (initial_transaction_of node now req text)
  unfolding initial_transaction_of
  Makes-initial_transaction_of text = search (makes_shared) depth 30

  pub Makes-revoked_bond :
      (safe : Safe) (tx : Transaction) → Makes node (revoked_bond node now req safe tx)
  unfolding revoked_bond
  Makes-revoked_bond safe tx = search (makes_shared) depth 30

  pub Makes-process_safe_revoke_transaction :
      Makes node (process_safe_revoke_transaction node now req)
  unfolding process_safe_revoke_transaction
  Makes-process_safe_revoke_transaction =
      search (makes_shared, Makes-initial_transaction_of, Makes-revoked_bond) depth 40

  pub Makes-process_signer_signature_response :
      Makes node (process_signer_signature_response node now req)
  unfolding process_signer_signature_response
  Makes-process_signer_signature_response =
      search
        (
          makes_shared, Makes-process_bitcoin_safe_signature_response,
          Makes-process_ethereum_safe_signature_response,
        )
        depth 30

  pub Makes-require_migrated_token :
      (safe : Safe) → Makes node (require_migrated_token node now req safe)
  unfolding require_migrated_token
  Makes-require_migrated_token safe = search (makes_shared) depth 30

  pub Makes-check_safe_token_migration : Makes node (check_safe_token_migration node now req)
  unfolding check_safe_token_migration
  Makes-check_safe_token_migration = search (makes_shared, Makes-require_migrated_token) depth 40
