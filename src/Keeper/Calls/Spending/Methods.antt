-- ===== src/Keeper/Calls/Spending/Methods.antt =====
-- The invariant `OutputsOk` and the methods of keeper/store.
use safe.Prelude.{ℕ, GoString, ◌≡◌, ◌⊎◌, refl, List, [], ◌∷◌, Option, none, some, inl, inr, All}
use safe.Common.Constants.{request_state_pending, request_state_done}
use safe.Common.Request.{Request}
use safe.Keeper.Store.Tables.{Db, Safe, SafeBalance, Transaction, BitcoinOutput, SignatureRequest}
use safe.Keeper.Store.Tx.{Tx, transact}
use safe.Keeper.Store.Tx.Rules.{Keeps, Keeps-pure, Keeps-bind, keeps_rules, transact-keeps}
use safe.Keeper.Store.Schema.{finish_request, for_each}
use safe.Keeper.Store.Requests.{
  write_request_if_not_exist, write_action_result, fail_request, fail_action,
}
use safe.Keeper.Calls.Spending.{OutputsOk}
use safe.Keeper.Calls.Spending.Statements.{spending_statements}
use safe.Keeper.Store.Keys.{
  write_key_from_request, set_key_holder, assign_signer_and_observer_to_holder,
}
use safe.Keeper.Store.Safes.{
  write_unfinished_safe, write_safe_proposal_with_request,
  write_ethereum_safe_proposal_with_request, write_safe_with_request, finish_safe_with_request,
}
use safe.Keeper.Store.Outputs.{write_bitcoin_output_from_request}
use safe.Keeper.Store.Balances.{
  create_or_update_ethereum_balance, create_ethereum_balance_deposit_from_request,
}
use safe.Keeper.Store.Networks.{
  write_network_info_from_request, write_operation_params_from_request, write_property,
  write_terminate,
}
use safe.Keeper.Store.Transactions.{
  TransactionInput, check_receiver, release_output, close_safe, fail_transaction_in,
  close_account_by_transaction_with_request, write_transaction_with_request,
  revoke_transaction_with_request, fail_transaction_with_request,
}
use safe.Keeper.Store.Signatures.{
  insert_signature_requests, put_signature_requests, set_raw_transaction, finish_outputs,
  close_account_by_signature_requests_with_request, write_signature_requests_with_request,
  finish_signature_request, finish_transaction_signatures_with_request,
}
use safe.Keeper.Calls.{
  Call, write_request_c, close_account_c, write_transaction_c, method, run, run_all,
}
use safe.Keeper.Calls.Spending.Insertion.{OutputsOk-insert_transaction_with_request}

OutputsOk-finish_request : (now : ℕ) (id : GoString) → Keeps OutputsOk (finish_request now id)
unfolding finish_request
OutputsOk-finish_request now id = search spending_statements

OutputsOk-write_action_result :
    {T : Type 0} (serialize : List T → GoString) (now : ℕ) (o c : GoString) (txs : List T)
    (r : GoString)
    → Keeps OutputsOk (write_action_result serialize now o c txs r)
unfolding write_action_result
OutputsOk-write_action_result serialize now o c txs r = search (keeps_rules, spending_statements)

OutputsOk-for_each :
    {A : Type 0} (f : A → Tx (Unit {0})) (xs : List A)
    → ((a : A) → Keeps OutputsOk (f a))
    → Keeps OutputsOk (for_each f xs)
unfolding for_each
OutputsOk-for_each f [] h = Keeps-pure tt
OutputsOk-for_each f (x ∷ xs) h = Keeps-bind _ _ (h x) (λ _. OutputsOk-for_each f xs h)

OutputsOk-check_receiver :
    (safe : Safe) (o : Option BitcoinOutput) → Keeps OutputsOk (check_receiver safe o)
unfolding check_receiver
OutputsOk-check_receiver safe none = search keeps_rules
OutputsOk-check_receiver safe (some o) = search keeps_rules

OutputsOk-release_output :
    (trx : Transaction) (safe : Safe) (req : Request) (utxo : TransactionInput)
    → Keeps OutputsOk (release_output trx safe req utxo)
unfolding release_output
OutputsOk-release_output trx safe req utxo =
    search (keeps_rules, spending_statements, OutputsOk-check_receiver) depth 8

OutputsOk-create_or_update_ethereum_balance :
    (now : ℕ) (sb : SafeBalance) → Keeps OutputsOk (create_or_update_ethereum_balance now sb)
unfolding create_or_update_ethereum_balance
OutputsOk-create_or_update_ethereum_balance now sb =
    search (keeps_rules, spending_statements) depth 8

OutputsOk-put_signature_requests :
    (now : ℕ) (srs : List SignatureRequest) (hash : GoString) (req : Request)
    → Keeps OutputsOk (put_signature_requests now srs hash req)
unfolding put_signature_requests insert_signature_requests
OutputsOk-put_signature_requests now [] hash req = search (keeps_rules, OutputsOk-finish_request)
OutputsOk-put_signature_requests now (r ∷ rs) hash req =
    search (keeps_rules, spending_statements, OutputsOk-finish_request, OutputsOk-for_each) depth 12

ruleset spending_rules = (
  keeps_rules, spending_statements, OutputsOk-finish_request, OutputsOk-write_action_result,
  OutputsOk-for_each, OutputsOk-release_output, OutputsOk-insert_transaction_with_request,
  OutputsOk-create_or_update_ethereum_balance, OutputsOk-put_signature_requests, inl, inr, refl,
)

-- A call that closes an account by a transaction spends its outputs as pending or as done.
abbrev pub SpendsAs : {T : Type 0} → Call T → Type 0
SpendsAs (close_account_c now trx utxos state txs req) =
    (state ≡ request_state_pending) ⊎ (state ≡ request_state_done)
SpendsAs _ = Unit

module _ {T : Type 0} (serialize : List T → GoString)
    (inputs : GoString → Option (List TransactionInput)) where
  OutputsOk-method : (c : Call T) → SpendsAs c → Keeps OutputsOk (method serialize inputs c)
  unfolding method write_request_if_not_exist fail_request fail_action write_key_from_request
      assign_signer_and_observer_to_holder write_safe_proposal_with_request
      write_ethereum_safe_proposal_with_request write_unfinished_safe write_safe_with_request
      finish_safe_with_request write_bitcoin_output_from_request
      create_ethereum_balance_deposit_from_request write_network_info_from_request
      write_operation_params_from_request write_terminate write_property
      close_account_by_transaction_with_request write_transaction_with_request
      revoke_transaction_with_request fail_transaction_with_request
      close_account_by_signature_requests_with_request write_signature_requests_with_request
      finish_signature_request finish_transaction_signatures_with_request close_safe
      fail_transaction_in set_raw_transaction finish_outputs set_key_holder
  OutputsOk-method (write_request_c req) s = search spending_rules depth 24
  OutputsOk-method (write_transaction_c now trx utxos txs req) s =
      Keeps-bind _ _
        (OutputsOk-insert_transaction_with_request trx now utxos request_state_pending (inl refl))
        (λ _. search spending_rules depth 24)
  OutputsOk-method _ s = search spending_rules depth 24

  -- Whatever calls are made and whatever they return, every output stays initial and unspent, or
  -- pending or done and spent by a transaction that is stored, if it was so before, and if the calls
  -- that close an account by a transaction spend as pending or done.
  pub outputs_accounted :
      (db : Db) (cs : List (Call T))
      → OutputsOk db
      → All SpendsAs cs
      → OutputsOk (run_all serialize inputs cs db)
  unfolding run_all run
  outputs_accounted db [] h s = h
  outputs_accounted db (c ∷ cs) h s =
      outputs_accounted (transact (method serialize inputs c) db).1 cs
        (transact-keeps (method serialize inputs c) db (OutputsOk-method c s.0) h) s.1
