-- ===== src/Keeper/Store/Schema.antt =====
-- The tables of keeper/store/schema.sql as columns of `Db`, and the statements that several methods
-- of keeper/store/*.go run: the update of a request, and the loop over rows.
use safe.Prelude.{
  ℕ, GoString, Bool, List, [], ◌∷◌, Option, none, some, str_eq, ◌==◌, ◌||◌, if◌then◌else◌, true,
  false,
}
use safe.Common.Constants.{
  request_state_done, chain_bitcoin, chain_litecoin, chain_ethereum, chain_polygon,
}
use safe.Keeper.Store.Tables.{
  RequestRow, ActionResultRow, NetworkInfo, OperationParams, Key, SafeProposal, Safe, BitcoinOutput,
  SafeBalance, Deposit, Transaction, SignatureRequest, MigrateAsset, Property,
}
use safe.Keeper.Store.Clashes.{
  request_clash, action_result_clash, network_info_clash, operation_params_clash, key_clash,
  safe_proposal_clash, safe_clash, bitcoin_output_clash, ethereum_balance_clash, deposit_clash,
  transaction_clash, signature_request_clash, migrate_asset_clash, property_clash,
}
use safe.Keeper.Store.Tx.{Tx, Table, pure, update_one, ◌>>◌}

abbrev pub requests : Table RequestRow
requests = record {
  rows = λ db. db.requests;
  put = λ rows db. record db { requests = rows };
  clash = request_clash;
}

abbrev pub action_results : Table ActionResultRow
action_results = record {
  rows = λ db. db.action_results;
  put = λ rows db. record db { action_results = rows };
  clash = action_result_clash;
}

abbrev pub network_infos : Table NetworkInfo
network_infos = record {
  rows = λ db. db.network_infos;
  put = λ rows db. record db { network_infos = rows };
  clash = network_info_clash;
}

abbrev pub operation_params : Table OperationParams
operation_params = record {
  rows = λ db. db.operation_params;
  put = λ rows db. record db { operation_params = rows };
  clash = operation_params_clash;
}

abbrev pub keys : Table Key
keys = record {
  rows = λ db. db.keys;
  put = λ rows db. record db { keys = rows };
  clash = key_clash;
}

abbrev pub safe_proposals : Table SafeProposal
safe_proposals = record {
  rows = λ db. db.safe_proposals;
  put = λ rows db. record db { safe_proposals = rows };
  clash = safe_proposal_clash;
}

abbrev pub safes : Table Safe
safes = record {
  rows = λ db. db.safes;
  put = λ rows db. record db { safes = rows };
  clash = safe_clash;
}

abbrev pub bitcoin_outputs : Table BitcoinOutput
bitcoin_outputs = record {
  rows = λ db. db.bitcoin_outputs;
  put = λ rows db. record db { bitcoin_outputs = rows };
  clash = bitcoin_output_clash;
}

abbrev pub ethereum_balances : Table SafeBalance
ethereum_balances = record {
  rows = λ db. db.ethereum_balances;
  put = λ rows db. record db { ethereum_balances = rows };
  clash = ethereum_balance_clash;
}

abbrev pub deposits : Table Deposit
deposits = record {
  rows = λ db. db.deposits;
  put = λ rows db. record db { deposits = rows };
  clash = deposit_clash;
}

abbrev pub transactions : Table Transaction
transactions = record {
  rows = λ db. db.transactions;
  put = λ rows db. record db { transactions = rows };
  clash = transaction_clash;
}

abbrev pub signature_requests : Table SignatureRequest
signature_requests = record {
  rows = λ db. db.signature_requests;
  put = λ rows db. record db { signature_requests = rows };
  clash = signature_request_clash;
}

abbrev pub migrate_assets : Table MigrateAsset
migrate_assets = record {
  rows = λ db. db.migrate_assets;
  put = λ rows db. record db { migrate_assets = rows };
  clash = migrate_asset_clash;
}

abbrev pub properties : Table Property
properties = record {
  rows = λ db. db.properties;
  put = λ rows db. record db { properties = rows };
  clash = property_clash;
}

abbrev pub set_request_state : ℕ → ℕ → RequestRow → RequestRow
set_request_state state now r = record r {
  columns = record r.columns { state = state };
  updated_at = now;
}

-- UPDATE requests SET state=?, updated_at=? WHERE request_id=?, with RequestStateDone
unfoldable pub finish_request : ℕ → GoString → Tx (Unit {0})
finish_request now id =
    update_one requests (λ r. str_eq r.columns.id id) (set_request_state request_state_done now)

-- A loop that runs one statement or more for each element, and stops at an error.
unfoldable pub for_each : {A : Type 0} → (A → Tx (Unit {0})) → List A → Tx (Unit {0})
for_each f [] = pure tt
for_each f (x ∷ xs) = f x >> for_each f xs

-- transactionHasOutputs and transactionHasBalance of keeper/store/transaction.go
unfoldable pub transaction_has_outputs : ℕ → Option Bool
transaction_has_outputs chain =
    if chain == chain_bitcoin || (chain == chain_litecoin)
    then some true
    else if chain == chain_ethereum || (chain == chain_polygon)
    then some false
    else none

unfoldable pub transaction_has_balance : ℕ → Option Bool
transaction_has_balance chain =
    if chain == chain_bitcoin || (chain == chain_litecoin)
    then some false
    else if chain == chain_ethereum || (chain == chain_polygon)
    then some true
    else none
