-- ===== src/Keeper/Calls/Spending/Insertion.antt =====
-- The order of the writes in `writeTransactionWithRequest` of keeper/store/transaction.go: the
-- transaction first, and the outputs that it spends after it.
use safe.Prelude.{
  ℕ, GoString, ◌≡◌, ◌⊎◌, refl, Bool, true, false, List, [], ◌∷◌, ◌++◌, Option, none, some, inl, inr,
  Bool-cases, if◌then◌else◌, any, All,
}
use safe.Common.Constants.{request_state_pending, request_state_done}
use safe.Keeper.Store.Tables.{Db, Transaction, BitcoinOutput}
use safe.Keeper.Store.Clashes.{transaction_clash}
use safe.Keeper.Store.Tx.{
  Outcome, ok, err, panic, Txn, Tx, ◌>>=◌, continue, pure, deref, insert_one, update_one,
  update_multiple, update_rows, check_affected,
}
use safe.Keeper.Store.Tx.Rules.{Keeps}
use safe.Keeper.Store.Schema.{transactions, finish_request, for_each, transaction_has_outputs}
use safe.Keeper.Calls.Atomicity.{Quiet-insert_transaction_with_request}
use safe.Keeper.Calls.Spending.{
  OutputsOk, OutputOk, spent, has_transaction, has_transaction_last, OutputOk-more,
  has_transaction-append, All-map, All-update,
}
use safe.Keeper.Store.Transactions.{TransactionInput, spend_output, insert_transaction_with_request}

-- What `m` does to the view of the transaction.
record Works (W : Db → Type 0) {A : Type 0} (m : Tx A) : Type 0 where
  at : (t : Txn) → W t.work → W (m t).1.work

module _ {W : Db → Type 0} where
  Works-pure : {A : Type 0} (a : A) → Works W (pure a)
  unfolding pure
  Works-pure a = record { at = λ t h. h }

  Works-deref : {A : Type 0} (o : Option A) → Works W (deref o)
  unfolding deref
  Works-deref none = record { at = λ t h. h }
  Works-deref (some a) = record { at = λ t h. h }

  Works-bind :
      {A B : Type 0} (m : Tx A) (f : A → Tx B)
      → Works W m
      → ((a : A) → Works W (f a))
      → Works W (m >>= f)
  unfolding ◌>>=◌
  Works-bind {A} m f km kf = record { at = λ t h. after (m t).0 (m t).1 (km.at t h) }
    where
      after : (r : Outcome A) (t : Txn) → W t.work → W (continue r f t).1.work
      after (ok a) t h = (kf a).at t h
      after (err e) t h = h
      after panic t h = h

-- The outputs are in order, and the transaction that spends some is stored.
abbrev Spends : GoString → Db → Type 0
Spends hash db = OutputsOk db × (has_transaction hash db.transactions ≡ true)

module _ (trx : Transaction) where
  Works-finish_request :
      (now : ℕ) (id : GoString) → Works (Spends trx.transaction_hash) (finish_request now id)
  unfolding finish_request update_one update_multiple update_rows check_affected ◌>>=◌
  Works-finish_request now id = record {
    at = λ t h. elim (Bool-cases t.closed) [ inl e ↦ rw e h | inr e ↦ rw e h ];
  }

  spend_ok :
      (state : ℕ) (utxo : TransactionInput) (db : Db)
      → (state ≡ request_state_pending) ⊎ (state ≡ request_state_done)
      → has_transaction trx.transaction_hash db.transactions ≡ true
      → (o : BitcoinOutput) → OutputOk db.transactions o
      → OutputOk db.transactions (record o {
        state = state;
        spent_by = some trx.transaction_hash;
        updated_at = trx.updated_at;
      })
  spend_ok state utxo db s k o h = spent trx.transaction_hash s refl k

  Works-spend_output :
      (state : ℕ) (utxo : TransactionInput)
      → (state ≡ request_state_pending) ⊎ (state ≡ request_state_done)
      → Works (Spends trx.transaction_hash) (spend_output trx state utxo)
  unfolding spend_output update_one update_multiple update_rows check_affected ◌>>=◌
  Works-spend_output state utxo s = record {
    at = λ t h. elim (Bool-cases t.closed) [
      | inl e ↦ rw e h
      | inr e ↦ rw e (
        All-update _ _ _ t.work.bitcoin_outputs (λ o k _. spend_ok state utxo t.work s h.1 o k) h.0,
        h.1,
      )
    ];
  }

  Works-for_each :
      (state : ℕ) (utxos : List TransactionInput)
      → (state ≡ request_state_pending) ⊎ (state ≡ request_state_done)
      → Works (Spends trx.transaction_hash) (for_each (spend_output trx state) utxos)
  unfolding for_each
  Works-for_each state [] s = Works-pure tt
  Works-for_each state (u ∷ us) s =
      Works-bind _ _ (Works-spend_output state u s) (λ _. Works-for_each state us s)

  Works-spend_if :
      (b : Bool) (state : ℕ) (utxos : List TransactionInput)
      → (state ≡ request_state_pending) ⊎ (state ≡ request_state_done)
      → Works
          (Spends trx.transaction_hash)
          (if b then for_each (spend_output trx state) utxos else pure tt)
  Works-spend_if true state utxos s = Works-for_each state utxos s
  Works-spend_if false state utxos s = Works-pure tt

  -- What follows the insertion of the transaction.
  abbrev after_insertion : ℕ → List TransactionInput → ℕ → Tx (Unit {0})
  after_insertion now utxos state = finish_request now trx.request_id >>= λ _.
      deref (transaction_has_outputs trx.chain) >>= λ b.
      if b then for_each (spend_output trx state) utxos else pure tt

  Works-after :
      (now : ℕ) (utxos : List TransactionInput) (state : ℕ)
      → (state ≡ request_state_pending) ⊎ (state ≡ request_state_done)
      → Works (Spends trx.transaction_hash) (after_insertion now utxos state)
  Works-after now utxos state s =
      Works-bind _ _ (Works-finish_request now trx.request_id)
        (λ _. Works-bind _ _ (Works-deref _) (λ b. Works-spend_if b state utxos s))

  more_ok :
      (db : Db) → OutputsOk db → All (OutputOk (db.transactions ++ (trx ∷ []))) db.bitcoin_outputs
  more_ok db h =
      All-map _ _ db.bitcoin_outputs
        (OutputOk-more db.transactions (db.transactions ++ (trx ∷ []))
          (λ hash k. has_transaction-append hash db.transactions (trx ∷ []) k))
        h

  -- The insertion keeps the outputs in order, and after it the transaction is stored.
  insert_spends :
      (t : Txn)
      → OutputsOk t.work
      → OutputsOk (insert_one transactions trx t).1.work
        × ((insert_one transactions trx t).0 ≡ ok tt
            → has_transaction trx.transaction_hash
                (insert_one transactions trx t).1.work.transactions
              ≡ true)
  unfolding insert_one
  insert_spends t h = elim (Bool-cases t.closed) [
    | inl e ↦ rw e (h, λ x. cc)
    | inr e ↦ rw e (elim (Bool-cases (any (transaction_clash trx) t.work.transactions)) [
      | inl c ↦ rw c (h, λ x. cc)
      | inr c ↦ rw c (more_ok t.work h, λ x. has_transaction_last trx t.work.transactions)
    ])
  ]

  continue_spends :
      (r : Outcome (Unit {0})) (t : Txn) (now : ℕ) (utxos : List TransactionInput) (state : ℕ)
      → (state ≡ request_state_pending) ⊎ (state ≡ request_state_done)
      → OutputsOk t.work
      → (r ≡ ok tt → has_transaction trx.transaction_hash t.work.transactions ≡ true)
      → OutputsOk (continue r (λ _. after_insertion now utxos state) t).1.work
  continue_spends (ok a) t now utxos state s h k =
      ((Works-after now utxos state s).at t (h, k refl)).0
  continue_spends (err e) t now utxos state s h k = h
  continue_spends panic t now utxos state s h k = h

  work_after_insertion :
      (now : ℕ) (utxos : List TransactionInput) (state : ℕ) (t : Txn)
      → (state ≡ request_state_pending) ⊎ (state ≡ request_state_done)
      → OutputsOk t.work
      → OutputsOk (insert_transaction_with_request now trx utxos state t).1.work
  unfolding insert_transaction_with_request ◌>>=◌
  work_after_insertion now utxos state t s k =
      let (h, stored) = insert_spends t k in
      continue_spends (insert_one transactions trx t).0 (insert_one transactions trx t).1 now utxos
        state s h stored

  pub OutputsOk-insert_transaction_with_request :
      (now : ℕ) (utxos : List TransactionInput) (state : ℕ)
      → (state ≡ request_state_pending) ⊎ (state ≡ request_state_done)
      → Keeps OutputsOk (insert_transaction_with_request now trx utxos state)
  OutputsOk-insert_transaction_with_request now utxos state s = record {
    at = λ t h k. (
      rw ((Quiet-insert_transaction_with_request now trx utxos state).at t) h,
      work_after_insertion now utxos state t s k,
    );
  }
