-- ===== src/Keeper/Calls/History/Steps.antt =====
-- The relation `Later` and the steps that the methods of keeper/store share.
use safe.Prelude.{
  ℕ, GoString, ◌≢◌, ◌==◌, ◌&&◌, str_eq, refl, ap, Bool, List, [], ◌∷◌, Option, none, some, arith,
}
use safe.Common.Constants.{
  request_state_initial, request_state_pending, request_state_done, request_state_failed,
}
use safe.Common.Request.{Request}
use safe.Keeper.Store.Tables.{
  Db, RequestRow, Safe, SafeBalance, Transaction, BitcoinOutput, SignatureRequest,
}
use safe.Keeper.Store.Tx.{Tx, update_one, update_rows}
use safe.Keeper.Store.Tx.Rules.{Keeps, Keeps-pure, Keeps-bind, keeps_rules}
use safe.Keeper.Store.Schema.{
  requests, safes, signature_requests, finish_request, for_each, set_request_state,
}
use safe.Keeper.Store.Requests.{write_action_result}
use safe.Keeper.Calls.History.{Later, RequestMoves, SafeMoves}
use safe.Keeper.Calls.History.Statements.{
  Later-update_requests, Later-update_keys, Later-update_signature_requests,
  Later-update_all_signature_requests, Later-update_safes, later_statements,
}
use safe.Keeper.Store.Keys.{set_key_holder}
use safe.Keeper.Store.Safes.{is_pending_safe, finish_safe_row}
use safe.Keeper.Store.Balances.{create_or_update_ethereum_balance}
use safe.Keeper.Store.Transactions.{
  TransactionInput, spend_output, insert_transaction_with_request, check_receiver, release_output,
  close_safe, fail_transaction_in,
}
use safe.Keeper.Store.Signatures.{
  insert_signature_requests, put_signature_requests, set_raw_transaction, finish_outputs,
}

RequestMoves-set :
    (state now : ℕ) (x y : RequestRow)
    → state ≢ request_state_initial
    → RequestMoves x y
    → RequestMoves x (set_request_state state now y)
RequestMoves-set state now x y n h = (ap (λ (c : Request). record c { state = state }) h.0, λ _. n)

module _ {s : Db} where
  pub Later-finish_request : (now : ℕ) (id : GoString) → Keeps (Later s) (finish_request now id)
  unfolding finish_request
  Later-finish_request now id =
      Later-update_requests _ _
        (λ x y h e. RequestMoves-set request_state_done now x y (omega arith) h)

  pub Later-fail_request_row :
      (now : ℕ) (p : RequestRow → Bool)
      → Keeps (Later s) (update_one requests p (set_request_state request_state_failed now))
  Later-fail_request_row now p =
      Later-update_requests _ _
        (λ x y h e. RequestMoves-set request_state_failed now x y (omega arith) h)

  pub Later-write_action_result :
      {T : Type 0} (serialize : List T → GoString) (now : ℕ) (o c : GoString) (txs : List T)
      (r : GoString)
      → Keeps (Later s) (write_action_result serialize now o c txs r)
  unfolding write_action_result
  Later-write_action_result serialize now o c txs r = search (keeps_rules, later_statements)

  pub Later-for_each :
      {A : Type 0} (f : A → Tx (Unit {0})) (xs : List A)
      → ((a : A) → Keeps (Later s) (f a))
      → Keeps (Later s) (for_each f xs)
  unfolding for_each
  Later-for_each f [] h = Keeps-pure tt
  Later-for_each f (x ∷ xs) h = Keeps-bind _ _ (h x) (λ _. Later-for_each f xs h)

  pub Later-spend_output :
      (trx : Transaction) (state : ℕ) (utxo : TransactionInput)
      → Keeps (Later s) (spend_output trx state utxo)
  unfolding spend_output
  Later-spend_output trx state utxo = search (keeps_rules, later_statements)

  pub Later-check_receiver :
      (safe : Safe) (o : Option BitcoinOutput) → Keeps (Later s) (check_receiver safe o)
  unfolding check_receiver
  Later-check_receiver safe none = search keeps_rules
  Later-check_receiver safe (some o) = search keeps_rules

  pub Later-release_output :
      (trx : Transaction) (safe : Safe) (req : Request) (utxo : TransactionInput)
      → Keeps (Later s) (release_output trx safe req utxo)
  unfolding release_output
  Later-release_output trx safe req utxo =
      search (keeps_rules, later_statements, Later-check_receiver) depth 8

  pub Later-insert_transaction_with_request :
      (now : ℕ) (trx : Transaction) (utxos : List TransactionInput) (state : ℕ)
      → Keeps (Later s) (insert_transaction_with_request now trx utxos state)
  unfolding insert_transaction_with_request
  Later-insert_transaction_with_request now trx utxos state =
      search
        (keeps_rules, later_statements, Later-finish_request, Later-for_each, Later-spend_output)
        depth 12

  -- An approved safe is closed.
  pub Later-close_safe : (now : ℕ) (holder : GoString) → Keeps (Later s) (close_safe now holder)
  unfolding close_safe
  Later-close_safe now holder =
      Later-update_safes _ _
        (λ x y h e. (h.0, h.1, h.2, h.3, h.4, h.5, λ _. refl, λ _. omega arith))

  -- A pending safe is approved.
  pub Later-finish_safe :
      (now : ℕ) (safe : Safe)
      → Keeps (Later s) (update_one safes (is_pending_safe safe) (finish_safe_row now safe))
  Later-finish_safe now safe =
      Later-update_safes _ _
        (λ x y h e. (h.0, h.1, h.2, h.3, h.4, h.5, λ f. ground (arith, h.6 f), λ _. omega arith))

  -- The nonce of a safe is counted, its state stays.
  pub Later-count_nonce :
      (p : Safe → Bool) (f : Safe → Safe)
      → ((x y : Safe) → SafeMoves x y → SafeMoves x (f y))
      → Keeps (Later s) (update_one safes p f)
  Later-count_nonce p f k = Later-update_safes p f (λ x y h e. k x y h)

  pub Later-fail_transaction_in :
      (state : ℕ) (trx : Transaction) (req : Request)
      → Keeps (Later s) (fail_transaction_in state trx req)
  unfolding fail_transaction_in
  Later-fail_transaction_in state trx req = search later_statements

  pub Later-create_or_update_ethereum_balance :
      (now : ℕ) (sb : SafeBalance) → Keeps (Later s) (create_or_update_ethereum_balance now sb)
  unfolding create_or_update_ethereum_balance
  Later-create_or_update_ethereum_balance now sb = search (keeps_rules, later_statements) depth 8

  pub Later-insert_signature_requests :
      (first : SignatureRequest) (rest : List SignatureRequest) (hash : GoString) (req : Request)
      → Keeps (Later s) (insert_signature_requests first rest hash req)
  unfolding insert_signature_requests
  Later-insert_signature_requests first rest hash req =
      search (keeps_rules, later_statements, Later-for_each) depth 10

  pub Later-put_signature_requests :
      (now : ℕ) (srs : List SignatureRequest) (hash : GoString) (req : Request)
      → Keeps (Later s) (put_signature_requests now srs hash req)
  unfolding put_signature_requests
  Later-put_signature_requests now [] hash req = search (keeps_rules, Later-finish_request)
  Later-put_signature_requests now (r ∷ rs) hash req =
      search (keeps_rules, Later-finish_request, Later-insert_signature_requests)

  pub Later-set_raw_transaction :
      (now : ℕ) (hash raw : GoString) → Keeps (Later s) (set_raw_transaction now hash raw)
  unfolding set_raw_transaction
  Later-set_raw_transaction now hash raw = search (keeps_rules, later_statements)

  pub Later-finish_outputs :
      (hash : GoString) (req : Request) (num : ℕ) → Keeps (Later s) (finish_outputs hash req num)
  unfolding finish_outputs
  Later-finish_outputs hash req num = search later_statements

  -- Only a key with no holder is given one.
  pub Later-set_key_holder :
      (req : Request) (public : GoString) (role crv : ℕ)
      → Keeps (Later s) (set_key_holder req public role crv)
  unfolding set_key_holder
  Later-set_key_holder req public role crv =
      Later-update_keys _ _ (λ x y h e. (h.0, h.1, h.2, h.3, λ t o. ground (arith, h.4 t o)))

module _ {s : Db} where
  -- The requests for the signatures of a transaction are done.
  pub Later-done_signatures :
      (now : ℕ) (p : SignatureRequest → Bool)
      → Keeps (Later s) (
          update_rows signature_requests p
            (λ r. record r { state = request_state_done; updated_at = now }))
  Later-done_signatures now p =
      Later-update_all_signature_requests _ _
        (λ x y h e. (h.0, h.1, h.2, h.3, h.4, h.5, λ _. omega arith, h.7))

  -- Only an initial request for a signature is given one.
  pub Later-sign :
      (now : ℕ) (id signature : GoString)
      → Keeps (Later s) (
          update_one signature_requests
            (λ r. str_eq r.request_id id && (r.state == request_state_initial))
            (λ r. record r {
              signature = some signature;
              state = request_state_pending;
              updated_at = now;
            }))
  Later-sign now id signature =
      Later-update_signature_requests _ _
        (λ x y h e. (h.0, h.1, h.2, h.3, h.4, h.5, λ _. omega arith, λ n. ground (arith, h.6 n, e)))

pub ruleset later_rules = (
  Later-done_signatures, Later-sign, keeps_rules, later_statements, Later-finish_request,
  Later-fail_request_row, Later-write_action_result, Later-for_each,
  Later-insert_transaction_with_request, Later-release_output, Later-close_safe, Later-finish_safe,
  Later-count_nonce, Later-fail_transaction_in, Later-create_or_update_ethereum_balance,
  Later-put_signature_requests, Later-set_raw_transaction, Later-finish_outputs,
  Later-set_key_holder,
)
