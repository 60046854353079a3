-- ===== src/Keeper/Store/Signatures.antt =====
-- keeper/store/signature.go
use safe.Prelude.{
  ℕ, GoString, ◌&&◌, ◌||◌, List, [], ◌∷◌, Option, some, str_eq, ltb, ◌==◌, if◌then◌else◌, find,
  filter, least,
}
use safe.Prelude.Int.{suc_ℤ, eq_ℤ}
use safe.Common.Constants.{request_state_initial, request_state_pending, request_state_done}
use safe.Common.Request.{Request}
use safe.Keeper.Store.Tables.{Db, Safe, SafeBalance, SignatureRequest}
use safe.Keeper.Store.Clashes.{null_eq}
use safe.Keeper.Store.Tx.{
  Tx, pure, deref, ◌>>=◌, ◌>>◌, commit, insert_one, update_one, update_rows, update_multiple,
  check_existence,
}
use safe.Keeper.Store.Schema.{
  transactions, safes, bitcoin_outputs, signature_requests, finish_request, for_each,
  transaction_has_outputs, transaction_has_balance,
}
use safe.Keeper.Store.Requests.{write_action_result}
use safe.Keeper.Store.Balances.{create_or_update_ethereum_balance}
use safe.Keeper.Store.Transactions.{close_safe}

-- The rest of writeSignatureRequestsWithRequest, for one request or more.
unfoldable pub insert_signature_requests :
    SignatureRequest → List SignatureRequest → GoString → Request → Tx (Unit {0})
insert_signature_requests first rest transaction_hash req = do
  existed ←
      check_existence signature_requests
        (λ r. str_eq r.request_id first.request_id && (r.state == request_state_initial))
  if existed then pure tt else do
    update_one transactions
        (λ t.
          str_eq t.transaction_hash transaction_hash
          && (t.state == request_state_initial || (t.state == request_state_pending)))
        (λ t. record t { state = request_state_pending; updated_at = req.created_at })
    for_each (λ r. insert_one signature_requests r) (first ∷ rest)

-- writeSignatureRequestsWithRequest: with no request it commits, and the caller goes on.
unfoldable pub put_signature_requests :
    ℕ → List SignatureRequest → GoString → Request → Tx (Unit {0})
put_signature_requests now [] transaction_hash req = do finish_request now req.id; commit
put_signature_requests now (first ∷ rest) transaction_hash req = do
  finish_request now req.id
  insert_signature_requests first rest transaction_hash req

-- UPDATE transactions SET raw_transaction=?, updated_at=? WHERE transaction_hash=?
unfoldable pub set_raw_transaction : ℕ → GoString → GoString → Tx (Unit {0})
set_raw_transaction now transaction_hash raw =
    if str_eq raw []
    then pure tt
    else update_one transactions (λ t. str_eq t.transaction_hash transaction_hash)
        (λ t. record t { raw_transaction = raw; updated_at = now })

-- FinishSignatureRequest
unfoldable pub finish_signature_request : Request → Tx (Unit {0})
finish_signature_request req = do
  existed ←
      check_existence signature_requests
        (λ r. str_eq r.request_id req.id && (r.state == request_state_pending))
  if existed then pure tt else do
    update_one signature_requests
        (λ r. str_eq r.request_id req.id && (r.state == request_state_initial))
        (λ r. record r {
          signature = some req.extra_hex;
          state = request_state_pending;
          updated_at = req.created_at;
        })
    commit

-- The update of the outputs that a transaction spends in FinishTransactionSignaturesWithRequest.
unfoldable pub finish_outputs : GoString → Request → ℕ → Tx (Unit {0})
finish_outputs transaction_hash req num =
    update_multiple bitcoin_outputs num (λ o. null_eq o.spent_by (some transaction_hash))
      (λ o. record o { state = request_state_done; updated_at = req.created_at })

module _ {T : Type 0} (serialize : List T → GoString) where
  -- CloseAccountBySignatureRequestsWithRequest
  unfoldable pub close_account_by_signature_requests_with_request :
      ℕ → List SignatureRequest → GoString → GoString → Request → List T → Tx (Unit {0})
  close_account_by_signature_requests_with_request now srs transaction_hash raw req txs = do
    close_safe req.created_at req.holder
    put_signature_requests now srs transaction_hash req
    set_raw_transaction now transaction_hash raw
    output ← deref req.output
    write_action_result serialize now output.output_id [] txs req.id
    commit

  -- WriteSignatureRequestsWithRequest
  unfoldable pub write_signature_requests_with_request :
      ℕ → List SignatureRequest → GoString → GoString → Request → List T → Tx (Unit {0})
  write_signature_requests_with_request now srs transaction_hash raw req txs = do
    put_signature_requests now srs transaction_hash req
    set_raw_transaction now transaction_hash raw
    output ← deref req.output
    write_action_result serialize now output.output_id [] txs req.id
    commit

  -- FinishTransactionSignaturesWithRequest
  unfoldable pub finish_transaction_signatures_with_request :
      ℕ → GoString → GoString → Request → ℕ → Safe → List SafeBalance → List T → Tx (Unit {0})
  finish_transaction_signatures_with_request now transaction_hash psbt req num safe bm txs = do
    update_rows signature_requests (λ r. str_eq r.transaction_hash transaction_hash)
        (λ r. record r { state = request_state_done; updated_at = req.created_at })
    update_one transactions (λ t. str_eq t.transaction_hash transaction_hash)
        (λ t. record t {
          raw_transaction = psbt;
          state = request_state_done;
          updated_at = req.created_at;
        })
    has_outputs ← deref (transaction_has_outputs safe.chain)
    if has_outputs then finish_outputs transaction_hash req num else pure tt
    has_balance ← deref (transaction_has_balance safe.chain)
    if has_balance then for_each (create_or_update_ethereum_balance now) bm else pure tt
    update_one safes (λ s. str_eq s.holder safe.holder && eq_ℤ s.nonce safe.nonce)
        (λ s. record s { nonce = suc_ℤ safe.nonce; updated_at = now })
    finish_request now req.id
    output ← deref req.output
    write_action_result serialize now output.output_id [] txs req.id
    commit

-- ReadSignatureRequest
unfoldable pub read_signature_request : Db → GoString → Option SignatureRequest
read_signature_request db id =
    find (λ (r : SignatureRequest). str_eq r.request_id id) db.signature_requests

-- ReadPendingSignatureRequestByTransactionIndex: ORDER BY state DESC, created_at DESC
unfoldable pub read_pending_signature_request_by_transaction_index :
    Db → GoString → ℕ → Option SignatureRequest
read_pending_signature_request_by_transaction_index db transaction_hash index =
    least (λ a b. ltb b.state a.state || ((a.state == b.state) && ltb b.created_at a.created_at))
      (filter
        (λ (r : SignatureRequest).
          str_eq r.transaction_hash transaction_hash && (r.input_index == index))
        db.signature_requests)
