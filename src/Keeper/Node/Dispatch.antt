-- ===== src/Keeper/Node/Dispatch.antt =====
-- keeper/group.go: the role that may send an action, and the handler that an action has.
use safe.Prelude.{ℕ, ◌≡◌, ◌↔◌, Option, none, some, arith, ◌||◌, ◌==◌, if◌then◌else◌}
use safe.Common.Constants.{
  operation_type_keygen_output, operation_type_sign_output, request_role_holder,
  request_role_signer, request_role_observer, action_migrate_safe_token, action_terminate,
  action_observer_add_key, action_observer_request_signer_keys,
  action_observer_update_network_status, action_observer_holder_deposit,
  action_observer_set_operation_params, action_bitcoin_safe_propose_account,
  action_bitcoin_safe_approve_account, action_bitcoin_safe_propose_transaction,
  action_bitcoin_safe_approve_transaction, action_bitcoin_safe_revoke_transaction,
  action_bitcoin_safe_close_account, action_ethereum_safe_propose_account,
  action_ethereum_safe_approve_account, action_ethereum_safe_propose_transaction,
  action_ethereum_safe_approve_transaction, action_ethereum_safe_revoke_transaction,
  action_ethereum_safe_close_account, action_ethereum_safe_refund_transaction,
}

-- getActionRole
unfoldable pub get_action_role : ℕ → ℕ
get_action_role act =
    if act == operation_type_keygen_output
    then request_role_signer
    else if act == operation_type_sign_output
    then request_role_signer
    else if act == action_terminate
    then request_role_observer
    else if act == action_observer_add_key
    then request_role_observer
    else if act == action_observer_request_signer_keys
    then request_role_observer
    else if act == action_observer_update_network_status
    then request_role_observer
    else if act == action_observer_holder_deposit
    then request_role_observer
    else if act == action_observer_set_operation_params
    then request_role_observer
    else if act == action_migrate_safe_token
    then request_role_holder
    else if act == action_bitcoin_safe_propose_account
        || (act == action_ethereum_safe_propose_account)
    then request_role_holder
    else if act == action_bitcoin_safe_approve_account
        || (act == action_ethereum_safe_approve_account)
    then request_role_observer
    else if act == action_bitcoin_safe_propose_transaction
        || (act == action_ethereum_safe_propose_transaction)
    then request_role_holder
    else if act == action_bitcoin_safe_approve_transaction
        || (act == action_ethereum_safe_approve_transaction)
    then request_role_observer
    else if act == action_bitcoin_safe_revoke_transaction
        || (act == action_ethereum_safe_revoke_transaction)
    then request_role_observer
    else if act == action_bitcoin_safe_close_account || (act == action_ethereum_safe_close_account)
    then request_role_observer
    else if act == action_ethereum_safe_refund_transaction
    then request_role_observer
    else 0

-- The methods of the node that processRequest calls, by their names.
pub data Handler : Type 0 where
  call_process_key_add call_process_signer_signature_response call_terminate
        call_process_signer_keygen_requests call_write_network_info call_create_holder_deposit
        call_write_operation_params call_check_safe_token_migration
        call_process_bitcoin_safe_propose_account call_process_bitcoin_safe_approve_account
        call_process_bitcoin_safe_propose_transaction call_process_bitcoin_safe_approve_transaction
        call_process_safe_revoke_transaction call_process_bitcoin_safe_close_account
        call_process_ethereum_safe_propose_account call_process_ethereum_safe_approve_account
        call_process_ethereum_safe_propose_transaction
        call_process_ethereum_safe_approve_transaction call_process_ethereum_safe_close_account
        call_process_ethereum_safe_refund_transaction :
      Handler

-- The switch of processRequest; `none` is its panic.
unfoldable pub handler_of : ℕ → Option Handler
handler_of act =
    if act == operation_type_keygen_output
    then some call_process_key_add
    else if act == operation_type_sign_output
    then some call_process_signer_signature_response
    else if act == action_terminate
    then some call_terminate
    else if act == action_observer_add_key
    then some call_process_key_add
    else if act == action_observer_request_signer_keys
    then some call_process_signer_keygen_requests
    else if act == action_observer_update_network_status
    then some call_write_network_info
    else if act == action_observer_holder_deposit
    then some call_create_holder_deposit
    else if act == action_observer_set_operation_params
    then some call_write_operation_params
    else if act == action_migrate_safe_token
    then some call_check_safe_token_migration
    else if act == action_bitcoin_safe_propose_account
    then some call_process_bitcoin_safe_propose_account
    else if act == action_bitcoin_safe_approve_account
    then some call_process_bitcoin_safe_approve_account
    else if act == action_bitcoin_safe_propose_transaction
    then some call_process_bitcoin_safe_propose_transaction
    else if act == action_bitcoin_safe_approve_transaction
    then some call_process_bitcoin_safe_approve_transaction
    else if act == action_bitcoin_safe_revoke_transaction
    then some call_process_safe_revoke_transaction
    else if act == action_bitcoin_safe_close_account
    then some call_process_bitcoin_safe_close_account
    else if act == action_ethereum_safe_propose_account
    then some call_process_ethereum_safe_propose_account
    else if act == action_ethereum_safe_approve_account
    then some call_process_ethereum_safe_approve_account
    else if act == action_ethereum_safe_propose_transaction
    then some call_process_ethereum_safe_propose_transaction
    else if act == action_ethereum_safe_revoke_transaction
    then some call_process_safe_revoke_transaction
    else if act == action_ethereum_safe_approve_transaction
    then some call_process_ethereum_safe_approve_transaction
    else if act == action_ethereum_safe_close_account
    then some call_process_ethereum_safe_close_account
    else if act == action_ethereum_safe_refund_transaction
    then some call_process_ethereum_safe_refund_transaction
    else none

-- An action has no role exactly when it has no handler, so that no request that passes the check of
-- its role reaches the panic of processRequest.
pub role_iff_handler : (act : ℕ) → (get_action_role act ≡ 0) ↔ (handler_of act ≡ none)
unfolding get_action_role handler_of
role_iff_handler act = (λ h. ground arith, λ h. ground arith)
