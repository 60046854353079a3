-- ===== src/Keeper/Calls.antt =====
-- The methods of keeper/store that write, as calls: a node calls them one after the other, each
-- under the mutex of the store, so that a history of the database is a list of calls.

pub mod History
pub mod Atomicity
pub mod Spending
pub mod Deposits
pub mod Answers
pub mod Finishing
use safe.Prelude.{Option, ℕ, GoString, List, [], ◌∷◌}
use safe.Common.Request.{Request}
use safe.Keeper.Store.Tables.{
  Db, NetworkInfo, OperationParams, SafeProposal, Safe, SafeBalance, Transaction, SignatureRequest,
}
use safe.Keeper.Store.Tx.{Outcome, Tx, pure, ◌>>=◌, ◌>>◌, transact}
use safe.Keeper.Store.Requests.{write_request_if_not_exist, fail_request, fail_action}
use safe.Keeper.Store.Keys.{write_key_from_request, assign_signer_and_observer_to_holder}
use safe.Keeper.Store.Safes.{
  write_unfinished_safe, write_safe_proposal_with_request,
  write_ethereum_safe_proposal_with_request, write_safe_with_request, finish_safe_with_request,
}
use safe.Keeper.Store.Outputs.{Input, write_bitcoin_output_from_request}
use safe.Keeper.Store.Balances.{create_ethereum_balance_deposit_from_request}
use safe.Keeper.Store.Networks.{
  write_network_info_from_request, write_operation_params_from_request, write_terminate,
}
use safe.Keeper.Store.Transactions.{
  TransactionInput, close_account_by_transaction_with_request, write_transaction_with_request,
  revoke_transaction_with_request, fail_transaction_with_request,
}
use safe.Keeper.Store.Signatures.{
  close_account_by_signature_requests_with_request, write_signature_requests_with_request,
  finish_signature_request, finish_transaction_signatures_with_request,
}

-- A call and its arguments; the first number of most is the wall clock.
pub data Call (T : Type 0) : Type 0 where
  write_request_c : Request → Call T
  fail_request_c : ℕ → Request → GoString → List T → Call T
  fail_action_c : ℕ → Request → Call T
  write_key_c : ℕ → Request → ℕ → GoString → ℕ → Call T
  assign_c : ℕ → Request → ℕ → GoString → Call T
  write_proposal_c : ℕ → SafeProposal → List T → Request → Call T
  write_ethereum_proposal_c : ℕ → SafeProposal → Transaction → List T → Request → Call T
  write_unfinished_safe_c : Safe → Call T
  write_safe_c : ℕ → Safe → List T → Request → Call T
  finish_safe_c : ℕ → GoString → GoString → Request → Safe → List T → Call T
  write_output_c : ℕ → Safe → Input → Request → GoString → GoString → List T → Call T
  create_deposit_c :
      ℕ → Safe → SafeBalance → GoString → ℕ → ℕ → GoString → Request → List T → Call T
  write_network_info_c : ℕ → NetworkInfo → Request → Call T
  write_operation_params_c : ℕ → OperationParams → Request → Call T
  write_terminate_c : ℕ → Call T
  close_account_c : ℕ → Transaction → List TransactionInput → ℕ → List T → Request → Call T
  write_transaction_c : ℕ → Transaction → List TransactionInput → List T → Request → Call T
  revoke_c : ℕ → Transaction → Safe → Request → List T → Call T
  fail_transaction_c : ℕ → Transaction → Safe → Request → List SafeBalance → List T → Call T
  close_account_by_signatures_c :
      ℕ → List SignatureRequest → GoString → GoString → Request → List T → Call T
  write_signature_requests_c :
      ℕ → List SignatureRequest → GoString → GoString → Request → List T → Call T
  finish_signature_c : Request → Call T
  finish_transaction_c :
      ℕ → GoString → GoString → Request → ℕ → Safe → List SafeBalance → List T → Call T

module _ {T : Type 0} (serialize : List T → GoString)
    (psbt_inputs : GoString → Option (List TransactionInput)) where
  unfoldable pub method : Call T → Tx (Unit {0})
  method (write_request_c req) = write_request_if_not_exist req
  method (fail_request_c now req compaction txs) = fail_request serialize now req compaction txs
  method (fail_action_c now req) = fail_action serialize now req
  method (write_key_c now req role extra flags) =
      write_key_from_request serialize now req role extra flags
  method (assign_c now req maturity pref) =
      assign_signer_and_observer_to_holder now req maturity pref >>= λ _. pure tt
  method (write_proposal_c now sp txs req) =
      write_safe_proposal_with_request serialize now sp txs req
  method (write_ethereum_proposal_c now sp trx txs req) =
      write_ethereum_safe_proposal_with_request serialize now sp trx txs req
  method (write_unfinished_safe_c safe) = write_unfinished_safe safe
  method (write_safe_c now safe txs req) = write_safe_with_request serialize now safe txs req
  method (finish_safe_c now hash raw req safe txs) =
      finish_safe_with_request serialize now hash raw req safe txs
  method (write_output_c now safe utxo req asset sender txs) =
      write_bitcoin_output_from_request serialize now safe utxo req asset sender txs
  method (create_deposit_c now safe sb hash index amount sender req txs) =
      create_ethereum_balance_deposit_from_request serialize now safe sb hash index amount sender
        req txs
  method (write_network_info_c now info req) =
      write_network_info_from_request serialize now info req
  method (write_operation_params_c now params req) =
      write_operation_params_from_request serialize now params req
  method (write_terminate_c now) = write_terminate now
  method (close_account_c now trx utxos utxo_state txs req) =
      close_account_by_transaction_with_request serialize now trx utxos utxo_state txs req
  method (write_transaction_c now trx utxos txs req) =
      write_transaction_with_request serialize now trx utxos txs req
  method (revoke_c now trx safe req txs) =
      revoke_transaction_with_request serialize psbt_inputs now trx safe req txs
  method (fail_transaction_c now trx safe req bm txs) =
      fail_transaction_with_request serialize now trx safe req bm txs
  method (close_account_by_signatures_c now srs hash raw req txs) =
      close_account_by_signature_requests_with_request serialize now srs hash raw req txs
  method (write_signature_requests_c now srs hash raw req txs) =
      write_signature_requests_with_request serialize now srs hash raw req txs
  method (finish_signature_c req) = finish_signature_request req
  method (finish_transaction_c now hash psbt req num safe bm txs) =
      finish_transaction_signatures_with_request serialize now hash psbt req num safe bm txs

  -- One call: what it returns, and the database after it.
  unfoldable pub run : Call T → Db → Outcome (Unit {0}) × Db
  run c db = transact (method c) db

  -- The database after calls, whatever they return.
  unfoldable pub run_all : List (Call T) → Db → Db
  run_all [] db = db
  run_all (c ∷ cs) db = run_all cs (run c db).1
