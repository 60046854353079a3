-- ===== src/Keeper/Store/Transactions.antt =====
-- keeper/store/transaction.go. The inputs of a raw Bitcoin transaction are what btcd parses of the
-- PSBT, `psbt_inputs`: `none` where it finds no PSBT, whose transaction the code then reads from nil.
use safe.Prelude.{
  ℕ, GoString, Bool, ◌&&◌, ◌||◌, List, [], Option, none, some, str_eq, ◌==◌, if◌then◌else◌, find,
  filter, count,
}
use safe.Prelude.Int.{pred_ℤ, eq_ℤ}
use safe.Common.Constants.{
  request_state_initial, request_state_pending, request_state_done, request_state_failed,
}
use safe.Common.Hex.{decode_hex}
use safe.Common.Request.{Request}
use safe.Keeper.Store.Tables.{Db, Safe, SafeBalance, Transaction, BitcoinOutput}
use safe.Keeper.Store.Clashes.{null_eq}
use safe.Keeper.Store.Tx.{
  Tx, pure, fail, no_rows, query, deref, ◌>>=◌, ◌>>◌, assert, commit, insert_one, update_one,
  check_existence,
}
use safe.Keeper.Store.Schema.{
  transactions, safes, bitcoin_outputs, finish_request, for_each, transaction_has_outputs,
}
use safe.Keeper.Store.Requests.{write_action_result}
use safe.Keeper.Store.Outputs.{is_output}
use safe.Keeper.Store.Balances.{create_or_update_ethereum_balance}

pub record TransactionInput : Type 0 where
  pub hash : GoString
  pub index : ℕ

-- readTransaction, ReadTransaction
unfoldable pub read_transaction : Db → GoString → Option Transaction
read_transaction db hash =
    find (λ (t : Transaction). str_eq t.transaction_hash hash) db.transactions

-- ReadTransactionByRequestId
unfoldable pub read_transaction_by_request_id : Db → GoString → Option Transaction
unfolding read_transaction
read_transaction_by_request_id db request_id =
    elim (find (λ (t : Transaction). str_eq t.request_id request_id) db.transactions) [
      | none ↦ none
      | some t ↦ read_transaction db t.transaction_hash
    ]

abbrev pub is_unfinished : GoString → Transaction → Bool
is_unfinished holder t =
    str_eq t.holder holder
    && (t.state == request_state_initial || (t.state == request_state_pending))

-- CountTransactionsByState, CountUnfinishedTransactionsByHolder and
-- ReadUnfinishedTransactionsByHolder
unfoldable pub count_transactions_by_state : Db → ℕ → ℕ
count_transactions_by_state db state = count (λ (t : Transaction). t.state == state) db.transactions

unfoldable pub count_unfinished_transactions_by_holder : Db → GoString → ℕ
count_unfinished_transactions_by_holder db holder = count (is_unfinished holder) db.transactions

unfoldable pub read_unfinished_transactions_by_holder : Db → GoString → List Transaction
read_unfinished_transactions_by_holder db holder = filter (is_unfinished holder) db.transactions

-- The update of one spent output in writeTransactionWithRequest.
unfoldable pub spend_output : Transaction → ℕ → TransactionInput → Tx (Unit {0})
spend_output trx utxo_state utxo = update_one bitcoin_outputs (is_output utxo.hash utxo.index) (λ o.
    record o {
      state = utxo_state;
      spent_by = some trx.transaction_hash;
      updated_at = trx.updated_at;
    })

-- writeTransactionWithRequest
unfoldable pub insert_transaction_with_request :
    ℕ → Transaction → List TransactionInput → ℕ → Tx (Unit {0})
insert_transaction_with_request now trx utxos utxo_state = do
  insert_one transactions trx
  finish_request now trx.request_id
  has_outputs ← deref (transaction_has_outputs trx.chain)
  if has_outputs then for_each (spend_output trx utxo_state) utxos else pure tt

-- The check on the receiver of a released output: `sql.ErrNoRows`, or the panic.
unfoldable pub check_receiver : Safe → Option BitcoinOutput → Tx (Unit {0})
check_receiver safe none = fail no_rows
check_receiver safe (some o) = assert (str_eq o.address safe.address)

-- The update of one input in RevokeTransactionWithRequest, and the check on its receiver.
unfoldable pub release_output : Transaction → Safe → Request → TransactionInput → Tx (Unit {0})
release_output trx safe req utxo = do
  update_one bitcoin_outputs
      (λ o. is_output utxo.hash utxo.index o && null_eq o.spent_by (some trx.transaction_hash))
      (λ o. record o {
        state = request_state_initial;
        spent_by = none;
        updated_at = req.created_at;
      })
  row ← query (λ db. find (is_output utxo.hash utxo.index) db.bitcoin_outputs)
  check_receiver safe row

-- UPDATE safes SET state=?, updated_at=? WHERE holder=? AND state=?, to close an approved safe.
unfoldable pub close_safe : ℕ → GoString → Tx (Unit {0})
close_safe updated_at holder =
    update_one safes (λ s. str_eq s.holder holder && (s.state == request_state_done))
      (λ s. record s { state = request_state_failed; updated_at = updated_at })

-- UPDATE transactions SET state=?, updated_at=? WHERE transaction_hash=? AND state=?
unfoldable pub fail_transaction_in : ℕ → Transaction → Request → Tx (Unit {0})
fail_transaction_in state trx req =
    update_one transactions
      (λ t. str_eq t.transaction_hash trx.transaction_hash && (t.state == state))
      (λ t. record t { state = request_state_failed; updated_at = req.created_at })

module _ {T : Type 0} (serialize : List T → GoString) where
  -- CloseAccountByTransactionWithRequest
  unfoldable pub close_account_by_transaction_with_request :
      ℕ → Transaction → List TransactionInput → ℕ → List T → Request → Tx (Unit {0})
  close_account_by_transaction_with_request now trx utxos utxo_state txs req = do
    existed ← check_existence transactions (λ t. str_eq t.transaction_hash trx.transaction_hash)
    if existed then finish_request now trx.request_id else do
      close_safe trx.created_at trx.holder
      insert_transaction_with_request now trx utxos utxo_state
    output ← deref req.output
    write_action_result serialize now output.output_id [] txs trx.request_id
    commit

  -- WriteTransactionWithRequest
  unfoldable pub write_transaction_with_request :
      ℕ → Transaction → List TransactionInput → List T → Request → Tx (Unit {0})
  write_transaction_with_request now trx utxos txs req = do
    insert_transaction_with_request now trx utxos request_state_pending
    output ← deref req.output
    write_action_result serialize now output.output_id [] txs trx.request_id
    commit

  -- RevokeTransactionWithRequest
  unfoldable pub revoke_transaction_with_request :
      (GoString → Option (List TransactionInput))
      → ℕ
      → Transaction
      → Safe
      → Request
      → List T
      → Tx (Unit {0})
  revoke_transaction_with_request psbt_inputs now trx safe req txs = do
    has_outputs ← deref (transaction_has_outputs trx.chain)
    if has_outputs
        then (do
          raw ← deref (decode_hex trx.raw_transaction)
          utxos ← deref (psbt_inputs raw)
          for_each (release_output trx safe req) utxos)
        else pure tt
    fail_transaction_in request_state_initial trx req
    finish_request now req.id
    output ← deref req.output
    write_action_result serialize now output.output_id [] txs req.id
    commit

  -- FailTransactionWithRequest; `bm` is the map of balances in the order of its iteration.
  unfoldable pub fail_transaction_with_request :
      ℕ → Transaction → Safe → Request → List SafeBalance → List T → Tx (Unit {0})
  fail_transaction_with_request now trx safe req bm txs = do
    fail_transaction_in request_state_done trx req
    update_one safes
        (λ s.
          str_eq s.holder safe.holder && eq_ℤ s.nonce safe.nonce && (s.state == request_state_done))
        (λ s. record s { nonce = pred_ℤ safe.nonce; updated_at = now })
    finish_request now req.id
    for_each (create_or_update_ethereum_balance now) bm
    output ← deref req.output
    write_action_result serialize now output.output_id [] txs req.id
    commit
