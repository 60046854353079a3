-- ===== src/Keeper/Store/Tables.antt =====
-- keeper/store/schema.sql and the structs of keeper/store/*.go: a row of each table, and the
-- database. An `int64` count or satoshi is a natural number where the code never makes it negative.
use safe.Prelude.{ℕ, GoString, List, Option, []}
use safe.Prelude.Int.{ℤ}
use safe.Common.Request.{Request}

-- `requests`: `columns` is the request, without its pointer to the action.
pub record RequestRow : Type 0 where
  pub columns : Request
  pub updated_at : ℕ

-- `action_results`
pub record ActionResultRow : Type 0 where
  pub output_id : GoString
  pub compaction : GoString
  pub transactions : GoString
  pub request_id : GoString
  pub created_at : ℕ

-- `network_infos`
pub record NetworkInfo : Type 0 where
  pub request_id : GoString
  pub chain : ℕ
  pub fee : ℕ
  pub height : ℕ
  pub hash : GoString
  pub created_at : ℕ

-- `operation_params`; the amounts are numbers of units of 10^-8.
pub record OperationParams : Type 0 where
  pub request_id : GoString
  pub chain : ℕ
  pub operation_price_asset : GoString
  pub operation_price_amount : ℕ
  pub transaction_minimum : ℕ
  pub created_at : ℕ

-- `keys`
pub record Key : Type 0 where
  pub public : GoString
  pub curve : ℕ
  pub request_id : GoString
  pub role : ℕ
  pub extra : GoString
  pub flags : ℕ
  pub holder : Option GoString
  pub created_at : ℕ
  pub updated_at : ℕ

-- `safe_proposals`
pub record SafeProposal : Type 0 where
  pub request_id : GoString
  pub chain : ℕ
  pub holder : GoString
  pub signer : GoString
  pub observer : GoString
  pub timelock : ℕ
  pub path : GoString
  pub address : GoString
  pub extra : GoString
  pub receivers : List GoString
  pub threshold : ℕ
  pub created_at : ℕ
  pub updated_at : ℕ

-- `safes`
pub record Safe : Type 0 where
  pub holder : GoString
  pub chain : ℕ
  pub signer : GoString
  pub observer : GoString
  pub timelock : ℕ
  pub path : GoString
  pub address : GoString
  pub extra : GoString
  pub receivers : List GoString
  pub threshold : ℕ
  pub request_id : GoString
  pub nonce : ℤ
  pub state : ℕ
  pub safe_asset_id : GoString
  pub created_at : ℕ
  pub updated_at : ℕ

-- `bitcoin_outputs`
pub record BitcoinOutput : Type 0 where
  pub transaction_hash : GoString
  pub output_index : ℕ
  pub address : GoString
  pub satoshi : ℕ
  pub script : GoString
  pub sequence : ℕ
  pub chain : ℕ
  pub state : ℕ
  pub spent_by : Option GoString
  pub request_id : GoString
  pub created_at : ℕ
  pub updated_at : ℕ

-- `ethereum_balances`; the balance is the number whose decimal digits are stored.
pub record SafeBalance : Type 0 where
  pub address : GoString
  pub asset_id : GoString
  pub asset_address : GoString
  pub safe_asset_id : GoString
  pub balance : ℕ
  pub latest_tx_hash : GoString
  pub updated_at : ℕ

-- `deposits`; the amount is the number whose decimal digits are stored.
pub record Deposit : Type 0 where
  pub transaction_hash : GoString
  pub output_index : ℕ
  pub asset_id : GoString
  pub amount : ℕ
  pub receiver : GoString
  pub sender : GoString
  pub state : ℕ
  pub chain : ℕ
  pub holder : GoString
  pub category : ℕ
  pub created_at : ℕ
  pub updated_at : ℕ

-- `transactions`
pub record Transaction : Type 0 where
  pub transaction_hash : GoString
  pub raw_transaction : GoString
  pub holder : GoString
  pub chain : ℕ
  pub asset_id : GoString
  pub state : ℕ
  pub txdata : GoString
  pub request_id : GoString
  pub created_at : ℕ
  pub updated_at : ℕ

-- `signature_requests`
pub record SignatureRequest : Type 0 where
  pub request_id : GoString
  pub transaction_hash : GoString
  pub input_index : ℕ
  pub signer : GoString
  pub curve : ℕ
  pub message : GoString
  pub signature : Option GoString
  pub state : ℕ
  pub created_at : ℕ
  pub updated_at : ℕ

-- `migrate_assets`
pub record MigrateAsset : Type 0 where
  pub safe_asset_id : GoString
  pub chain : ℕ
  pub address : GoString
  pub asset_id : GoString

-- `properties`
pub record Property : Type 0 where
  pub key : GoString
  pub value : GoString
  pub created_at : ℕ

-- The database: each table is its rows in the order of insertion.
pub record Db : Type 0 where
  pub requests : List RequestRow
  pub action_results : List ActionResultRow
  pub network_infos : List NetworkInfo
  pub operation_params : List OperationParams
  pub keys : List Key
  pub safe_proposals : List SafeProposal
  pub safes : List Safe
  pub bitcoin_outputs : List BitcoinOutput
  pub ethereum_balances : List SafeBalance
  pub deposits : List Deposit
  pub transactions : List Transaction
  pub signature_requests : List SignatureRequest
  pub migrate_assets : List MigrateAsset
  pub properties : List Property

abbrev pub empty_db : Db
empty_db = record {
  requests = [];
  action_results = [];
  network_infos = [];
  operation_params = [];
  keys = [];
  safe_proposals = [];
  safes = [];
  bitcoin_outputs = [];
  ethereum_balances = [];
  deposits = [];
  transactions = [];
  signature_requests = [];
  migrate_assets = [];
  properties = [];
}
