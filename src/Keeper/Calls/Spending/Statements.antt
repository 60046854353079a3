-- ===== src/Keeper/Calls/Spending/Statements.antt =====
-- The invariant `OutputsOk` and the statements of the methods of keeper/store.
use safe.Prelude.{
  ℕ, GoString, ◌≡◌, ◌⊎◌, refl, inl, inr, Bool, true, false, List, [], ◌∷◌, ◌++◌, Option, none, some,
  arith, ◌&&◌, str_eq,
}
use safe.Common.Constants.{request_state_initial, request_state_done}
use safe.Common.Request.{Request}
use safe.Keeper.Store.Tables.{
  RequestRow, ActionResultRow, NetworkInfo, OperationParams, Key, SafeProposal, Safe, BitcoinOutput,
  SafeBalance, Deposit, Transaction, SignatureRequest, Property,
}
use safe.Keeper.Store.Clashes.{null_eq}
use safe.Keeper.Store.Tx.{insert_one, update_one, update_rows, update_multiple, update_unique}
use safe.Keeper.Store.Tx.Rules.{
  Keeps, Keeps-insert_one, Keeps-update_one, Keeps-update_rows, Keeps-update_multiple,
  Keeps-update_unique,
}
use safe.Keeper.Store.Schema.{
  requests, action_results, network_infos, operation_params, keys, safe_proposals, safes,
  bitcoin_outputs, ethereum_balances, deposits, transactions, signature_requests, properties,
}
use safe.Keeper.Store.Outputs.{Input, output_of_input}
use safe.Keeper.Calls.Spending.{
  OutputsOk, OutputOk, unspent, spent, OutputOk-more, has_transaction-append,
  has_transaction-update, All-map, All-update, All-append-one,
}

pub OutputsOk-insert_requests : (r : RequestRow) → Keeps OutputsOk (insert_one requests r)
OutputsOk-insert_requests r = Keeps-insert_one requests r (λ db c h. h)

pub OutputsOk-insert_action_results :
    (r : ActionResultRow) → Keeps OutputsOk (insert_one action_results r)
OutputsOk-insert_action_results r = Keeps-insert_one action_results r (λ db c h. h)

pub OutputsOk-insert_network_infos :
    (r : NetworkInfo) → Keeps OutputsOk (insert_one network_infos r)
OutputsOk-insert_network_infos r = Keeps-insert_one network_infos r (λ db c h. h)

pub OutputsOk-insert_operation_params :
    (r : OperationParams) → Keeps OutputsOk (insert_one operation_params r)
OutputsOk-insert_operation_params r = Keeps-insert_one operation_params r (λ db c h. h)

pub OutputsOk-insert_keys : (r : Key) → Keeps OutputsOk (insert_one keys r)
OutputsOk-insert_keys r = Keeps-insert_one keys r (λ db c h. h)

pub OutputsOk-insert_safe_proposals :
    (r : SafeProposal) → Keeps OutputsOk (insert_one safe_proposals r)
OutputsOk-insert_safe_proposals r = Keeps-insert_one safe_proposals r (λ db c h. h)

pub OutputsOk-insert_safes : (r : Safe) → Keeps OutputsOk (insert_one safes r)
OutputsOk-insert_safes r = Keeps-insert_one safes r (λ db c h. h)

pub OutputsOk-insert_ethereum_balances :
    (r : SafeBalance) → Keeps OutputsOk (insert_one ethereum_balances r)
OutputsOk-insert_ethereum_balances r = Keeps-insert_one ethereum_balances r (λ db c h. h)

pub OutputsOk-insert_deposits : (r : Deposit) → Keeps OutputsOk (insert_one deposits r)
OutputsOk-insert_deposits r = Keeps-insert_one deposits r (λ db c h. h)

pub OutputsOk-insert_signature_requests :
    (r : SignatureRequest) → Keeps OutputsOk (insert_one signature_requests r)
OutputsOk-insert_signature_requests r = Keeps-insert_one signature_requests r (λ db c h. h)

pub OutputsOk-insert_properties : (r : Property) → Keeps OutputsOk (insert_one properties r)
OutputsOk-insert_properties r = Keeps-insert_one properties r (λ db c h. h)

pub OutputsOk-update_requests :
    (p : RequestRow → Bool) (f : RequestRow → RequestRow)
    → Keeps OutputsOk (update_one requests p f)
OutputsOk-update_requests p f = Keeps-update_one requests p f (λ db h. h)

pub OutputsOk-update_safes :
    (p : Safe → Bool) (f : Safe → Safe) → Keeps OutputsOk (update_one safes p f)
OutputsOk-update_safes p f = Keeps-update_one safes p f (λ db h. h)

pub OutputsOk-update_ethereum_balances :
    (p : SafeBalance → Bool) (f : SafeBalance → SafeBalance)
    → Keeps OutputsOk (update_one ethereum_balances p f)
OutputsOk-update_ethereum_balances p f = Keeps-update_one ethereum_balances p f (λ db h. h)

pub OutputsOk-update_signature_requests :
    (p : SignatureRequest → Bool) (f : SignatureRequest → SignatureRequest)
    → Keeps OutputsOk (update_one signature_requests p f)
OutputsOk-update_signature_requests p f = Keeps-update_one signature_requests p f (λ db h. h)

pub OutputsOk-update_keys :
    (p : Key → Bool) (f : Key → Key) → Keeps OutputsOk (update_unique keys p f)
OutputsOk-update_keys p f = Keeps-update_unique keys p f (λ db h. h)

pub OutputsOk-update_all_signature_requests :
    (p : SignatureRequest → Bool) (f : SignatureRequest → SignatureRequest)
    → Keeps OutputsOk (update_rows signature_requests p f)
OutputsOk-update_all_signature_requests p f = Keeps-update_rows signature_requests p f (λ db h. h)

pub OutputsOk-insert_transaction :
    (trx : Transaction) → Keeps OutputsOk (insert_one transactions trx)
OutputsOk-insert_transaction trx = Keeps-insert_one transactions trx (λ db c h.
    All-map _ _ db.bitcoin_outputs
      (OutputOk-more db.transactions (db.transactions ++ (trx ∷ []))
        (λ hash k. has_transaction-append hash db.transactions (trx ∷ []) k))
      h)

pub OutputsOk-update_transactions :
    (p : Transaction → Bool) (f : Transaction → Transaction)
    → ((t : Transaction) → (f t).transaction_hash ≡ t.transaction_hash)
    → Keeps OutputsOk (update_one transactions p f)
OutputsOk-update_transactions p f k = Keeps-update_one transactions p f (λ db h.
    All-map _ _ db.bitcoin_outputs
      (OutputOk-more db.transactions _
        (λ hash e. rw (has_transaction-update hash p f db.transactions k) e))
      h)

-- A new output is unspent.
pub OutputsOk-insert_output :
    (safe : Safe) (utxo : Input) (req : Request)
    → Keeps OutputsOk (insert_one bitcoin_outputs (output_of_input safe utxo req))
OutputsOk-insert_output safe utxo req =
    Keeps-insert_one bitcoin_outputs _
      (λ db c h. All-append-one _ db.bitcoin_outputs _ h (unspent refl refl))

-- An output that is released is unspent again.
pub OutputsOk-release :
    (p : BitcoinOutput → Bool) (now : ℕ)
    → Keeps OutputsOk (
        update_one bitcoin_outputs p
          (λ o. record o { state = request_state_initial; spent_by = none; updated_at = now }))
OutputsOk-release p now =
    Keeps-update_one bitcoin_outputs p _
      (λ db h. All-update _ p _ db.bitcoin_outputs (λ o k e. unspent refl refl) h)

null_eq→eq :
    (a : Option GoString) (b : GoString) → null_eq a (some b) ≡ true → (h : GoString) × (a ≡ some h)
null_eq→eq none b e = cc
null_eq→eq (some h) b e = (h, refl)

done_ok :
    (trxs : List Transaction) (o : BitcoinOutput) (hash : GoString) (now : ℕ)
    → OutputOk trxs o
    → null_eq o.spent_by (some hash) ≡ true
    → OutputOk trxs (record o { state = request_state_done; updated_at = now })
done_ok trxs o hash now (unspent a b) e = let (h, k) = null_eq→eq o.spent_by hash e in cc
done_ok trxs o hash now (spent h a b c) e = spent h (inr refl) b c

-- What a transaction spends is done when its signatures are finished.
pub OutputsOk-finish :
    (n : ℕ) (hash : GoString) (now : ℕ)
    → Keeps OutputsOk (
        update_multiple bitcoin_outputs n
          (λ o. null_eq o.spent_by (some hash))
          (λ o. record o { state = request_state_done; updated_at = now }))
OutputsOk-finish n hash now = Keeps-update_multiple bitcoin_outputs n _ _ (λ db h.
    All-update _ _ _ db.bitcoin_outputs (λ o k e. done_ok db.transactions o hash now k e) h)

pub ruleset spending_statements = (
  OutputsOk-insert_requests, OutputsOk-insert_action_results, OutputsOk-insert_network_infos,
  OutputsOk-insert_operation_params, OutputsOk-insert_keys, OutputsOk-insert_safe_proposals,
  OutputsOk-insert_safes, OutputsOk-insert_ethereum_balances, OutputsOk-insert_deposits,
  OutputsOk-insert_signature_requests, OutputsOk-insert_properties, OutputsOk-update_requests,
  OutputsOk-update_safes, OutputsOk-update_ethereum_balances, OutputsOk-update_signature_requests,
  OutputsOk-update_keys, OutputsOk-update_all_signature_requests, OutputsOk-insert_transaction,
  OutputsOk-update_transactions, OutputsOk-insert_output, OutputsOk-release, OutputsOk-finish, refl,
)
