-- ===== src/Keeper/Calls/History.antt =====
-- The relation of the database of keeper/store to an earlier one: what rows may become of rows.
pub mod Statements
pub mod Steps
pub mod Methods
use safe.Prelude.{
  ℕ, GoString, ◌≡◌, ◌≢◌, refl, ap, ◌∙◌, ◌⊎◌, inl, inr, Bool, true, false, List, [], ◌∷◌, Option,
  none, some, arith,
}
use safe.Prelude.Grows.{Grows, Grows-refl, Grows-append, Grows-update}
use safe.Common.Constants.{
  request_state_initial, request_state_pending, request_state_done, request_state_failed,
}
use safe.Keeper.Store.Tables.{
  Db, RequestRow, ActionResultRow, Key, SafeProposal, Safe, BitcoinOutput, SafeBalance, Deposit,
  Transaction, SignatureRequest,
}

-- The state may change, but not back to initial.
abbrev pub RequestMoves : RequestRow → RequestRow → Type 0
RequestMoves x y =
    (y.columns ≡ record x.columns { state = y.columns.state })
    × (x.columns.state ≢ request_state_initial → y.columns.state ≢ request_state_initial)

-- A holder may be set once.
abbrev pub KeyMoves : Key → Key → Type 0
KeyMoves x y =
    (y.public ≡ x.public)
    × (y.curve ≡ x.curve)
    × (y.role ≡ x.role)
    × (y.request_id ≡ x.request_id)
    × ((h : GoString) → x.holder ≡ some h → y.holder ≡ some h)

-- Pending, then approved (done), then closed (failed); the identity stays.
abbrev pub SafeMoves : Safe → Safe → Type 0
SafeMoves x y =
    (y.holder ≡ x.holder)
    × (y.signer ≡ x.signer)
    × (y.observer ≡ x.observer)
    × (y.address ≡ x.address)
    × (y.chain ≡ x.chain)
    × (y.request_id ≡ x.request_id)
    × (x.state ≡ request_state_failed → y.state ≡ request_state_failed)
    × (x.state ≡ request_state_done → y.state ≢ request_state_pending)

abbrev pub OutputMoves : BitcoinOutput → BitcoinOutput → Type 0
OutputMoves x y =
    (y.transaction_hash ≡ x.transaction_hash)
    × (y.output_index ≡ x.output_index)
    × (y.address ≡ x.address)
    × (y.satoshi ≡ x.satoshi)
    × (y.request_id ≡ x.request_id)

abbrev pub TransactionMoves : Transaction → Transaction → Type 0
TransactionMoves x y =
    (y.transaction_hash ≡ x.transaction_hash)
    × (y.holder ≡ x.holder)
    × (y.chain ≡ x.chain)
    × (y.request_id ≡ x.request_id)

-- The amount of a balance changes, and what it is the balance of stays.
abbrev pub BalanceMoves : SafeBalance → SafeBalance → Type 0
BalanceMoves x y =
    (y.address ≡ x.address)
    × (y.asset_id ≡ x.asset_id)
    × (y.asset_address ≡ x.asset_address)
    × (y.safe_asset_id ≡ x.safe_asset_id)

-- A signature is set once, while the request for it is initial, and what it signs stays.
abbrev pub SignatureMoves : SignatureRequest → SignatureRequest → Type 0
SignatureMoves x y =
    (y.request_id ≡ x.request_id)
    × (y.transaction_hash ≡ x.transaction_hash)
    × (y.input_index ≡ x.input_index)
    × (y.signer ≡ x.signer)
    × (y.curve ≡ x.curve)
    × (y.message ≡ x.message)
    × (x.state ≢ request_state_initial → y.state ≢ request_state_initial)
    × (x.state ≢ request_state_initial → y.signature ≡ x.signature)

-- The second database is one that calls may leave of the first.
pub record Later (a b : Db) : Type 0 where
  pub requests : Grows RequestMoves a.requests b.requests
  pub action_results : Grows ◌≡◌ a.action_results b.action_results
  pub keys : Grows KeyMoves a.keys b.keys
  pub safe_proposals : Grows ◌≡◌ a.safe_proposals b.safe_proposals
  pub safes : Grows SafeMoves a.safes b.safes
  pub bitcoin_outputs : Grows OutputMoves a.bitcoin_outputs b.bitcoin_outputs
  pub deposits : Grows ◌≡◌ a.deposits b.deposits
  pub transactions : Grows TransactionMoves a.transactions b.transactions
  pub network_infos : Grows ◌≡◌ a.network_infos b.network_infos
  pub operation_params : Grows ◌≡◌ a.operation_params b.operation_params
  pub ethereum_balances : Grows BalanceMoves a.ethereum_balances b.ethereum_balances
  pub signature_requests : Grows SignatureMoves a.signature_requests b.signature_requests
  pub migrate_assets : Grows ◌≡◌ a.migrate_assets b.migrate_assets
  pub properties : Grows ◌≡◌ a.properties b.properties

pub Later-refl : (a : Db) → Later a a
Later-refl a = record {
  requests = Grows-refl _ a.requests (λ x. (refl, λ h. h));
  action_results = Grows-refl _ a.action_results (λ x. refl);
  keys = Grows-refl _ a.keys (λ x. (refl, refl, refl, refl, λ h e. e));
  safe_proposals = Grows-refl _ a.safe_proposals (λ x. refl);
  safes =
      Grows-refl _ a.safes (λ x. (refl, refl, refl, refl, refl, refl, λ h. h, λ h. ground arith));
  bitcoin_outputs = Grows-refl _ a.bitcoin_outputs (λ x. (refl, refl, refl, refl, refl));
  deposits = Grows-refl _ a.deposits (λ x. refl);
  transactions = Grows-refl _ a.transactions (λ x. (refl, refl, refl, refl));
  network_infos = Grows-refl _ a.network_infos (λ x. refl);
  operation_params = Grows-refl _ a.operation_params (λ x. refl);
  ethereum_balances = Grows-refl _ a.ethereum_balances (λ x. (refl, refl, refl, refl));
  signature_requests =
      Grows-refl _ a.signature_requests
        (λ x. (refl, refl, refl, refl, refl, refl, λ h. h, λ h. refl));
  migrate_assets = Grows-refl _ a.migrate_assets (λ x. refl);
  properties = Grows-refl _ a.properties (λ x. refl);
}
