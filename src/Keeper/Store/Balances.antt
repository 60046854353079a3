-- ===== src/Keeper/Store/Balances.antt =====
-- keeper/store/ethereum.go and keeper/store/migrate_asset.go
use safe.Prelude.{
  ℕ, ◌+◌, ◌-◌, ltb, GoString, Bool, ◌&&◌, List, [], Option, none, some, str_eq, if◌then◌else◌, find,
}
use safe.Prelude.Int.{ℤ, pos, negsuc}
use safe.Common.Constants.{request_state_done, action_observer_holder_deposit}
use safe.Common.Request.{Request}
use safe.Keeper.Store.Tables.{Safe, SafeBalance, Deposit, MigrateAsset}
use safe.Keeper.Store.Tx.{
  Tx, pure, panics, query, deref, ◌>>=◌, ◌>>◌, commit, insert_one, update_one, check_existence,
}
use safe.Keeper.Store.Schema.{ethereum_balances, deposits, migrate_assets, finish_request, for_each}
use safe.Keeper.Store.Requests.{write_action_result}

-- UpdateBalance: `none` is the panic on a balance below zero.
unfoldable pub update_balance : SafeBalance → ℤ → Option SafeBalance
update_balance sb (pos n) = some (record sb { balance = sb.balance + n })
update_balance sb (negsuc n) =
    if ltb n sb.balance then some (record sb { balance = sb.balance - (n + 1) }) else none

abbrev pub is_balance : GoString → GoString → SafeBalance → Bool
is_balance address asset_id sb = str_eq sb.address address && str_eq sb.asset_id asset_id

-- createOrUpdateEthereumBalance
unfoldable pub create_or_update_ethereum_balance : ℕ → SafeBalance → Tx (Unit {0})
create_or_update_ethereum_balance now sb = do
  existed ← check_existence ethereum_balances (is_balance sb.address sb.asset_id)
  if existed
      then update_one ethereum_balances
          (λ b. is_balance sb.address sb.asset_id b && str_eq b.safe_asset_id sb.safe_asset_id)
          (λ b. record b { balance = sb.balance; updated_at = now })
      else insert_one ethereum_balances (record sb { latest_tx_hash = []; updated_at = now })

-- ReadEthereumBalance: a balance of zero where there is none.
unfoldable pub read_ethereum_balance : ℕ → GoString → GoString → GoString → Tx SafeBalance
read_ethereum_balance now address asset_id safe_asset_id = do
  row ← query (λ db. find (is_balance address asset_id) db.ethereum_balances)
  elim row [
    | none ↦ pure (record {
      address = address;
      asset_id = asset_id;
      asset_address = [];
      safe_asset_id = safe_asset_id;
      balance = 0;
      latest_tx_hash = [];
      updated_at = now;
    })
    | some sb ↦ if str_eq sb.safe_asset_id safe_asset_id then pure sb else panics
  ]

-- createMigrateAssets and CheckMigrateAsset
unfoldable pub create_migrate_assets : List MigrateAsset → Tx (Unit {0})
create_migrate_assets ms = for_each (λ ma. insert_one migrate_assets ma) ms

unfoldable pub check_migrate_asset : GoString → GoString → Tx Bool
check_migrate_asset address asset_id =
    check_existence migrate_assets (λ ma. str_eq ma.address address && str_eq ma.asset_id asset_id)

abbrev pub deposit_of_balance : Safe → SafeBalance → GoString → ℕ → ℕ → GoString → Request → Deposit
deposit_of_balance safe sb tx_hash index amount sender req = record {
  transaction_hash = tx_hash;
  output_index = index;
  asset_id = sb.asset_id;
  amount = amount;
  receiver = sb.address;
  sender = sender;
  state = request_state_done;
  chain = safe.chain;
  holder = safe.holder;
  category = action_observer_holder_deposit;
  created_at = req.created_at;
  updated_at = req.created_at;
}

module _ {T : Type 0} (serialize : List T → GoString) where
  -- CreateEthereumBalanceDepositFromRequest
  unfoldable pub create_ethereum_balance_deposit_from_request :
      ℕ → Safe → SafeBalance → GoString → ℕ → ℕ → GoString → Request → List T → Tx (Unit {0})
  create_ethereum_balance_deposit_from_request now safe sb tx_hash index amount sender req txs = do
    create_or_update_ethereum_balance now sb
    insert_one deposits (deposit_of_balance safe sb tx_hash index amount sender req)
    finish_request now req.id
    output ← deref req.output
    write_action_result serialize now output.output_id [] txs req.id
    commit
