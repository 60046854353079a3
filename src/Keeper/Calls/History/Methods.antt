-- ===== src/Keeper/Calls/History/Methods.antt =====
-- The relation `Later` and the methods of keeper/store.
use safe.Prelude.{GoString, List, [], ◌∷◌, Option}
use safe.Keeper.Store.Tables.{Db}
use safe.Keeper.Store.Tx.Rules.{Keeps, transact-keeps}
use safe.Keeper.Store.Requests.{write_request_if_not_exist, fail_request, fail_action}
use safe.Keeper.Calls.History.{Later, Later-refl}
use safe.Keeper.Store.Keys.{write_key_from_request, assign_signer_and_observer_to_holder}
use safe.Keeper.Store.Safes.{
  write_unfinished_safe, write_safe_proposal_with_request,
  write_ethereum_safe_proposal_with_request, write_safe_with_request, finish_safe_with_request,
}
use safe.Keeper.Store.Outputs.{write_bitcoin_output_from_request}
use safe.Keeper.Store.Balances.{create_ethereum_balance_deposit_from_request}
use safe.Keeper.Store.Networks.{
  write_network_info_from_request, write_operation_params_from_request, write_property,
  write_terminate,
}
use safe.Keeper.Store.Transactions.{
  TransactionInput, close_account_by_transaction_with_request, write_transaction_with_request,
  revoke_transaction_with_request, fail_transaction_with_request,
}
use safe.Keeper.Store.Signatures.{
  close_account_by_signature_requests_with_request, write_signature_requests_with_request,
  finish_signature_request, finish_transaction_signatures_with_request,
}
use safe.Keeper.Calls.{Call, write_request_c, method, run, run_all}
use safe.Keeper.Calls.History.Steps.{later_rules}

module _ {T : Type 0} (serialize : List T → GoString)
    (inputs : GoString → Option (List TransactionInput)) where
  Later-method : (s : Db) (c : Call T) → Keeps (Later s) (method serialize inputs c)
  unfolding method write_request_if_not_exist fail_request fail_action write_key_from_request
      assign_signer_and_observer_to_holder write_safe_proposal_with_request
      write_ethereum_safe_proposal_with_request write_unfinished_safe write_safe_with_request
      finish_safe_with_request write_bitcoin_output_from_request
      create_ethereum_balance_deposit_from_request write_network_info_from_request
      write_operation_params_from_request write_terminate write_property
      close_account_by_transaction_with_request write_transaction_with_request
      revoke_transaction_with_request fail_transaction_with_request
      close_account_by_signature_requests_with_request write_signature_requests_with_request
      finish_signature_request finish_transaction_signatures_with_request
  Later-method s (write_request_c req) = search later_rules depth 24
  Later-method s _ = search later_rules depth 24

  call-Later : (s db : Db) (c : Call T) → Later s db → Later s (run serialize inputs c db).1
  unfolding run
  call-Later s db c h = transact-keeps (method serialize inputs c) db (Later-method s c) h

  calls-Later :
      (s db : Db) (cs : List (Call T)) → Later s db → Later s (run_all serialize inputs cs db)
  unfolding run_all
  calls-Later s db [] h = h
  calls-Later s db (c ∷ cs) h = calls-Later s (run serialize inputs c db).1 cs (call-Later s db c h)

  -- After any calls, whatever they return, no row of any table is deleted or loses its identity;
  -- results, proposals, deposits, network infos, operation parameters, migrated assets and
  -- properties do not change; a request never returns to its initial state; a key keeps its
  -- holder; a closed safe stays closed and an approved safe is not pending again; what a
  -- signature request signs does not change, and once it has left its initial state it does not
  -- return to it and keeps its signature.
  pub history_kept : (db : Db) (cs : List (Call T)) → Later db (run_all serialize inputs cs db)
  history_kept db cs = calls-Later db db cs (Later-refl db)
