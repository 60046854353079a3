-- ===== src/Keeper/Calls/Atomicity.antt =====
-- The commits of the methods of keeper/store, and what a method leaves that returns an error.
use safe.Prelude.{
  ℕ, GoString, ◌≡◌, ◌⊎◌, ◌≢◌, arith, List, [], ◌∷◌, Option, none, some, count, update, str_eq,
}
use safe.Common.Request.{Request}
use safe.Common.Constants.{request_state_done}
use safe.Keeper.Store.Tables.{
  Db, RequestRow, Safe, SafeBalance, Transaction, BitcoinOutput, SignatureRequest,
}
use safe.Keeper.Store.Tx.{
  ok, Tx, ◌>>=◌, transact, pure, deref, commit, insert_one, update_one, update_multiple,
}
use safe.Keeper.Store.Tx.Atomic.{
  Quiet, Settles, Quiet-pure, Quiet-bind, Settles-then_pure, quiet_rules, settles_rules,
  atomic_of_Settles,
}
use safe.Keeper.Store.Schema.{finish_request, for_each, set_request_state}
use safe.Keeper.Store.Requests.{
  write_request_if_not_exist, write_action_result, fail_request, fail_action,
}
use safe.Keeper.Store.Keys.{
  write_key_from_request, set_key_holder, assign_signer_and_observer_to_holder,
}
use safe.Keeper.Store.Safes.{
  write_unfinished_safe, write_safe_proposal_with_request,
  write_ethereum_safe_proposal_with_request, write_safe_with_request, finish_safe_with_request,
}
use safe.Keeper.Store.Outputs.{write_bitcoin_output_from_request}
use safe.Keeper.Store.Balances.{
  create_or_update_ethereum_balance, create_ethereum_balance_deposit_from_request,
}
use safe.Keeper.Store.Networks.{
  write_network_info_from_request, write_operation_params_from_request, write_property,
  write_terminate,
}
use safe.Keeper.Store.Transactions.{
  TransactionInput, spend_output, insert_transaction_with_request, check_receiver, release_output,
  close_safe, fail_transaction_in, close_account_by_transaction_with_request,
  write_transaction_with_request, revoke_transaction_with_request, fail_transaction_with_request,
}
use safe.Keeper.Store.Signatures.{
  insert_signature_requests, put_signature_requests, set_raw_transaction, finish_outputs,
  close_account_by_signature_requests_with_request, write_signature_requests_with_request,
  finish_signature_request, finish_transaction_signatures_with_request,
}
use safe.Keeper.Calls.{
  Call, write_request_c, assign_c, close_account_by_signatures_c, write_signature_requests_c,
  method, run,
}

pub Quiet-finish_request : (now : ℕ) (id : GoString) → Quiet (finish_request now id)
unfolding finish_request
Quiet-finish_request now id = search quiet_rules

pub Quiet-write_action_result :
    {T : Type 0} (serialize : List T → GoString) (now : ℕ) (o c : GoString) (txs : List T)
    (r : GoString)
    → Quiet (write_action_result serialize now o c txs r)
unfolding write_action_result
Quiet-write_action_result serialize now o c txs r = search quiet_rules

pub Quiet-for_each :
    {A : Type 0} (f : A → Tx (Unit {0})) (xs : List A)
    → ((a : A) → Quiet (f a))
    → Quiet (for_each f xs)
unfolding for_each
Quiet-for_each f [] h = Quiet-pure tt
Quiet-for_each f (x ∷ xs) h = Quiet-bind _ _ (h x) (λ _. Quiet-for_each f xs h)

pub Quiet-spend_output :
    (trx : Transaction) (state : ℕ) (utxo : TransactionInput) → Quiet (spend_output trx state utxo)
unfolding spend_output
Quiet-spend_output trx state utxo = search quiet_rules

pub Quiet-insert_transaction_with_request :
    (now : ℕ) (trx : Transaction) (utxos : List TransactionInput) (state : ℕ)
    → Quiet (insert_transaction_with_request now trx utxos state)
unfolding insert_transaction_with_request
Quiet-insert_transaction_with_request now trx utxos state =
    search (quiet_rules, Quiet-finish_request, Quiet-for_each, Quiet-spend_output) depth 12

pub Quiet-check_receiver : (safe : Safe) (o : Option BitcoinOutput) → Quiet (check_receiver safe o)
unfolding check_receiver
Quiet-check_receiver safe none = search quiet_rules
Quiet-check_receiver safe (some o) = search quiet_rules

pub Quiet-release_output :
    (trx : Transaction) (safe : Safe) (req : Request) (utxo : TransactionInput)
    → Quiet (release_output trx safe req utxo)
unfolding release_output
Quiet-release_output trx safe req utxo = search (quiet_rules, Quiet-check_receiver) depth 8

pub Quiet-close_safe : (now : ℕ) (holder : GoString) → Quiet (close_safe now holder)
unfolding close_safe
Quiet-close_safe now holder = search quiet_rules

pub Quiet-fail_transaction_in :
    (state : ℕ) (trx : Transaction) (req : Request) → Quiet (fail_transaction_in state trx req)
unfolding fail_transaction_in
Quiet-fail_transaction_in state trx req = search quiet_rules

pub Quiet-create_or_update_ethereum_balance :
    (now : ℕ) (sb : SafeBalance) → Quiet (create_or_update_ethereum_balance now sb)
unfolding create_or_update_ethereum_balance
Quiet-create_or_update_ethereum_balance now sb = search quiet_rules depth 8

pub Quiet-insert_signature_requests :
    (first : SignatureRequest) (rest : List SignatureRequest) (hash : GoString) (req : Request)
    → Quiet (insert_signature_requests first rest hash req)
unfolding insert_signature_requests
Quiet-insert_signature_requests first rest hash req = search (quiet_rules, Quiet-for_each) depth 10

pub Quiet-set_raw_transaction :
    (now : ℕ) (hash raw : GoString) → Quiet (set_raw_transaction now hash raw)
unfolding set_raw_transaction
Quiet-set_raw_transaction now hash raw = search quiet_rules

pub Quiet-finish_outputs :
    (hash : GoString) (req : Request) (num : ℕ) → Quiet (finish_outputs hash req num)
unfolding finish_outputs
Quiet-finish_outputs hash req num = search quiet_rules

pub Quiet-set_key_holder :
    (req : Request) (public : GoString) (role crv : ℕ) → Quiet (set_key_holder req public role crv)
unfolding set_key_holder
Quiet-set_key_holder req public role crv = search quiet_rules

pub ruleset quiet_methods = (
  quiet_rules, Quiet-finish_request, Quiet-write_action_result, Quiet-for_each,
  Quiet-insert_transaction_with_request, Quiet-release_output, Quiet-close_safe,
  Quiet-fail_transaction_in, Quiet-create_or_update_ethereum_balance,
  Quiet-insert_signature_requests, Quiet-set_raw_transaction, Quiet-finish_outputs,
  Quiet-set_key_holder,
)

ruleset call_rules = (settles_rules, quiet_methods)

-- A call that writes signature requests is given one at least.
abbrev pub HasRequests : {T : Type 0} → Call T → Type 0
HasRequests (close_account_by_signatures_c now [] hash raw req txs) = ⊥
HasRequests (write_signature_requests_c now [] hash raw req txs) = ⊥
HasRequests _ = Unit

module _ {T : Type 0} (serialize : List T → GoString)
    (inputs : GoString → Option (List TransactionInput)) where
  Settles-method : (c : Call T) → HasRequests c → Settles (method serialize inputs c)
  unfolding method write_request_if_not_exist fail_request fail_action write_key_from_request
      assign_signer_and_observer_to_holder write_safe_proposal_with_request
      write_ethereum_safe_proposal_with_request write_unfinished_safe write_safe_with_request
      finish_safe_with_request write_bitcoin_output_from_request
      create_ethereum_balance_deposit_from_request write_network_info_from_request
      write_operation_params_from_request write_terminate write_property
      close_account_by_transaction_with_request write_transaction_with_request
      revoke_transaction_with_request fail_transaction_with_request
      close_account_by_signature_requests_with_request write_signature_requests_with_request
      put_signature_requests finish_signature_request finish_transaction_signatures_with_request
  Settles-method (close_account_by_signatures_c now [] hash raw req txs) h = absurd h
  Settles-method (close_account_by_signatures_c now (r ∷ rs) hash raw req txs) h =
      search call_rules depth 24
  Settles-method (write_signature_requests_c now [] hash raw req txs) h = absurd h
  Settles-method (write_signature_requests_c now (r ∷ rs) hash raw req txs) h =
      search call_rules depth 24
  Settles-method (assign_c now req maturity pref) h =
      Settles-then_pure _ _ (search call_rules depth 24)
  Settles-method (write_request_c req) h = search call_rules depth 24
  Settles-method _ h = search call_rules depth 24

  -- A call that is given a signature request wherever it writes some is atomic: the database is as
  -- it was, or the call returned with no error.
  pub call_atomic :
      (c : Call T) (db : Db)
      → HasRequests c
      → ((run serialize inputs c db).1 ≡ db)
        ⊎ ((a : Unit {0}) × ((run serialize inputs c db).0 ≡ ok a))
  unfolding run
  call_atomic c db h = atomic_of_Settles (method serialize inputs c) db (Settles-method c h)

  -- With no signature request, `WriteSignatureRequestsWithRequest` on a request that is stored once
  -- marks the request as done and commits that, and then does not return without an error: no
  -- result of the action is stored.
  pub no_requests_not_atomic :
      (now : ℕ) (hash raw : GoString) (req : Request) (txs : List T) (db : Db)
      → count (λ (r : RequestRow). str_eq r.columns.id req.id) db.requests ≡ 1
      → ((run serialize inputs (write_signature_requests_c now [] hash raw req txs) db).1
          ≡ record db {
            requests =
                update
                  (λ r. str_eq r.columns.id req.id)
                  (set_request_state request_state_done now)
                  db.requests;
          })
        × ((run serialize inputs (write_signature_requests_c now [] hash raw req txs) db).0 ≢ ok tt)
  unfolding run method transact write_signature_requests_with_request put_signature_requests
      set_raw_transaction finish_request update_one update_multiple insert_one commit deref
      write_action_result pure ◌>>=◌
  no_requests_not_atomic now hash raw req txs db one = (ground arith, ground arith)
