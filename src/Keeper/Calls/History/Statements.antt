-- ===== src/Keeper/Calls/History/Statements.antt =====
-- The relation `Later` and the statements of the methods of keeper/store.
use safe.Prelude.{ℕ, ◌≡◌, Bool, true, [], ◌∷◌}
use safe.Prelude.Grows.{Grows-append, Grows-update}
use safe.Keeper.Store.Tables.{
  Db, RequestRow, ActionResultRow, NetworkInfo, OperationParams, Key, SafeProposal, Safe,
  BitcoinOutput, SafeBalance, Deposit, Transaction, SignatureRequest, Property,
}
use safe.Keeper.Store.Tx.{insert_one, update_one, update_rows, update_multiple, update_unique}
use safe.Keeper.Store.Tx.Rules.{
  Keeps, Keeps-insert_one, Keeps-update_one, Keeps-update_rows, Keeps-update_multiple,
  Keeps-update_unique,
}
use safe.Keeper.Store.Schema.{
  requests, action_results, network_infos, operation_params, keys, safe_proposals, safes,
  bitcoin_outputs, ethereum_balances, deposits, transactions, signature_requests, properties,
}
use safe.Keeper.Calls.History.{
  Later, RequestMoves, KeyMoves, SafeMoves, OutputMoves, TransactionMoves, BalanceMoves,
  SignatureMoves,
}

module _ {s : Db} where
  pub Later-insert_requests : (r : RequestRow) → Keeps (Later s) (insert_one requests r)
  Later-insert_requests r =
      Keeps-insert_one requests r (λ db c h.
        assumption (Grows-append RequestMoves s.requests db.requests (r ∷ []) h.requests))

  pub Later-insert_action_results :
      (r : ActionResultRow) → Keeps (Later s) (insert_one action_results r)
  Later-insert_action_results r = Keeps-insert_one action_results r (λ db c h.
      assumption (Grows-append ◌≡◌ s.action_results db.action_results (r ∷ []) h.action_results))

  pub Later-insert_keys : (r : Key) → Keeps (Later s) (insert_one keys r)
  Later-insert_keys r =
      Keeps-insert_one keys r
        (λ db c h. assumption (Grows-append KeyMoves s.keys db.keys (r ∷ []) h.keys))

  pub Later-insert_safe_proposals :
      (r : SafeProposal) → Keeps (Later s) (insert_one safe_proposals r)
  Later-insert_safe_proposals r = Keeps-insert_one safe_proposals r (λ db c h.
      assumption (Grows-append ◌≡◌ s.safe_proposals db.safe_proposals (r ∷ []) h.safe_proposals))

  pub Later-insert_safes : (r : Safe) → Keeps (Later s) (insert_one safes r)
  Later-insert_safes r =
      Keeps-insert_one safes r
        (λ db c h. assumption (Grows-append SafeMoves s.safes db.safes (r ∷ []) h.safes))

  pub Later-insert_bitcoin_outputs :
      (r : BitcoinOutput) → Keeps (Later s) (insert_one bitcoin_outputs r)
  Later-insert_bitcoin_outputs r = Keeps-insert_one bitcoin_outputs r (λ db c h.
      assumption
        (Grows-append OutputMoves s.bitcoin_outputs db.bitcoin_outputs (r ∷ []) h.bitcoin_outputs))

  pub Later-insert_deposits : (r : Deposit) → Keeps (Later s) (insert_one deposits r)
  Later-insert_deposits r =
      Keeps-insert_one deposits r
        (λ db c h. assumption (Grows-append ◌≡◌ s.deposits db.deposits (r ∷ []) h.deposits))

  pub Later-insert_transactions : (r : Transaction) → Keeps (Later s) (insert_one transactions r)
  Later-insert_transactions r = Keeps-insert_one transactions r (λ db c h.
      assumption
        (Grows-append TransactionMoves s.transactions db.transactions (r ∷ []) h.transactions))

  pub Later-insert_network_infos : (r : NetworkInfo) → Keeps (Later s) (insert_one network_infos r)
  Later-insert_network_infos r = Keeps-insert_one network_infos r (λ db c h.
      assumption (Grows-append ◌≡◌ s.network_infos db.network_infos (r ∷ []) h.network_infos))

  pub Later-insert_operation_params :
      (r : OperationParams) → Keeps (Later s) (insert_one operation_params r)
  Later-insert_operation_params r = Keeps-insert_one operation_params r (λ db c h.
      assumption
        (Grows-append ◌≡◌ s.operation_params db.operation_params (r ∷ []) h.operation_params))

  pub Later-insert_properties : (r : Property) → Keeps (Later s) (insert_one properties r)
  Later-insert_properties r =
      Keeps-insert_one properties r
        (λ db c h. assumption (Grows-append ◌≡◌ s.properties db.properties (r ∷ []) h.properties))

  pub Later-insert_ethereum_balances :
      (r : SafeBalance) → Keeps (Later s) (insert_one ethereum_balances r)
  Later-insert_ethereum_balances r = Keeps-insert_one ethereum_balances r (λ db c h. assumption (
      Grows-append BalanceMoves s.ethereum_balances db.ethereum_balances (r ∷ [])
        h.ethereum_balances))

  pub Later-insert_signature_requests :
      (r : SignatureRequest) → Keeps (Later s) (insert_one signature_requests r)
  Later-insert_signature_requests r = Keeps-insert_one signature_requests r (λ db c h. assumption (
      Grows-append SignatureMoves s.signature_requests db.signature_requests (r ∷ [])
        h.signature_requests))

  pub Later-update_ethereum_balances :
      (p : SafeBalance → Bool) (f : SafeBalance → SafeBalance)
      → ((x y : SafeBalance) → BalanceMoves x y → p y ≡ true → BalanceMoves x (f y))
      → Keeps (Later s) (update_one ethereum_balances p f)
  Later-update_ethereum_balances p f k = Keeps-update_one ethereum_balances p f (λ db h.
      assumption (
        Grows-update BalanceMoves p f s.ethereum_balances db.ethereum_balances k
          h.ethereum_balances))

  pub Later-update_signature_requests :
      (p : SignatureRequest → Bool) (f : SignatureRequest → SignatureRequest)
      → ((x y : SignatureRequest) → SignatureMoves x y → p y ≡ true → SignatureMoves x (f y))
      → Keeps (Later s) (update_one signature_requests p f)
  Later-update_signature_requests p f k = Keeps-update_one signature_requests p f (λ db h.
      assumption (
        Grows-update SignatureMoves p f s.signature_requests db.signature_requests k
          h.signature_requests))

  pub Later-update_all_signature_requests :
      (p : SignatureRequest → Bool) (f : SignatureRequest → SignatureRequest)
      → ((x y : SignatureRequest) → SignatureMoves x y → p y ≡ true → SignatureMoves x (f y))
      → Keeps (Later s) (update_rows signature_requests p f)
  Later-update_all_signature_requests p f k = Keeps-update_rows signature_requests p f (λ db h.
      assumption (
        Grows-update SignatureMoves p f s.signature_requests db.signature_requests k
          h.signature_requests))

  pub Later-update_requests :
      (p : RequestRow → Bool) (f : RequestRow → RequestRow)
      → ((x y : RequestRow) → RequestMoves x y → p y ≡ true → RequestMoves x (f y))
      → Keeps (Later s) (update_one requests p f)
  Later-update_requests p f k =
      Keeps-update_one requests p f
        (λ db h. assumption (Grows-update RequestMoves p f s.requests db.requests k h.requests))

  pub Later-update_keys :
      (p : Key → Bool) (f : Key → Key)
      → ((x y : Key) → KeyMoves x y → p y ≡ true → KeyMoves x (f y))
      → Keeps (Later s) (update_unique keys p f)
  Later-update_keys p f k =
      Keeps-update_unique keys p f
        (λ db h. assumption (Grows-update KeyMoves p f s.keys db.keys k h.keys))

  pub Later-update_safes :
      (p : Safe → Bool) (f : Safe → Safe)
      → ((x y : Safe) → SafeMoves x y → p y ≡ true → SafeMoves x (f y))
      → Keeps (Later s) (update_one safes p f)
  Later-update_safes p f k =
      Keeps-update_one safes p f
        (λ db h. assumption (Grows-update SafeMoves p f s.safes db.safes k h.safes))

  pub Later-update_bitcoin_outputs :
      (p : BitcoinOutput → Bool) (f : BitcoinOutput → BitcoinOutput)
      → ((x y : BitcoinOutput) → OutputMoves x y → p y ≡ true → OutputMoves x (f y))
      → Keeps (Later s) (update_one bitcoin_outputs p f)
  Later-update_bitcoin_outputs p f k = Keeps-update_one bitcoin_outputs p f (λ db h.
      assumption
        (Grows-update OutputMoves p f s.bitcoin_outputs db.bitcoin_outputs k h.bitcoin_outputs))

  pub Later-update_transactions :
      (p : Transaction → Bool) (f : Transaction → Transaction)
      → ((x y : Transaction) → TransactionMoves x y → p y ≡ true → TransactionMoves x (f y))
      → Keeps (Later s) (update_one transactions p f)
  Later-update_transactions p f k = Keeps-update_one transactions p f (λ db h.
      assumption
        (Grows-update TransactionMoves p f s.transactions db.transactions k h.transactions))

  pub Later-update_many_bitcoin_outputs :
      (n : ℕ) (p : BitcoinOutput → Bool) (f : BitcoinOutput → BitcoinOutput)
      → ((x y : BitcoinOutput) → OutputMoves x y → p y ≡ true → OutputMoves x (f y))
      → Keeps (Later s) (update_multiple bitcoin_outputs n p f)
  Later-update_many_bitcoin_outputs n p f k = Keeps-update_multiple bitcoin_outputs n p f (λ db h.
      assumption
        (Grows-update OutputMoves p f s.bitcoin_outputs db.bitcoin_outputs k h.bitcoin_outputs))

pub ruleset later_statements = (
  Later-insert_requests, Later-insert_action_results, Later-insert_keys,
  Later-insert_safe_proposals, Later-insert_safes, Later-insert_bitcoin_outputs,
  Later-insert_deposits, Later-insert_transactions, Later-insert_network_infos,
  Later-insert_operation_params, Later-insert_properties, Later-insert_ethereum_balances,
  Later-insert_signature_requests, Later-update_ethereum_balances, Later-update_bitcoin_outputs,
  Later-update_many_bitcoin_outputs, Later-update_transactions,
)
