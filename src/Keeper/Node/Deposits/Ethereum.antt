-- ===== src/Keeper/Node/Deposits/Ethereum.antt =====
-- keeper/deposit.go: a deposit of Ethereum or Polygon, and apps/ethereum/common.go: when a
-- transaction is final.
use safe.Prelude.{
  ℕ, GoString, Bool, [], ◌∷◌, Option, none, some, not, ◌||◌, ltb, leb, ◌==◌, if◌then◌else◌, str_eq,
}
use safe.Prelude.Int.{pos}
use safe.Prelude.Maybe.{is_none}
use safe.Prelude.Text.{codes}
use safe.Common.Constants.{chain_ethereum, chain_polygon}
use safe.Common.Request.{Request}
use safe.Keeper.Store.Tables.{Safe, SafeBalance}
use safe.Keeper.Store.Networks.{read_latest_network_info}
use safe.Keeper.Store.Outputs.{read_deposit}
use safe.Keeper.Store.Balances.{update_balance, read_ethereum_balance}
use safe.Keeper.Calls.{create_deposit_c}
use safe.Keeper.Node.World.{Node, Asset, ChainTransfer}
use safe.Keeper.Node.Handler.{
  Handler, pure, answer, look, need, require, ◌>>=◌, ◌>>◌, ask, call, found, check,
}
use safe.Keeper.Node.Build.{build_transaction}
use safe.Keeper.Node.Deposits.{
  Deposit, check_trusted_sender, confirmations_of, trusted_confirmations,
}

abbrev pub chain_mvm : ℕ
chain_mvm = 4

-- ethereum.CheckFinalization; another chain is a panic.
unfoldable pub check_ethereum_finalization : ℕ → ℕ → Option Bool
check_ethereum_finalization num chain =
    if chain == chain_ethereum
    then some (leb 1 num)
    else if chain == chain_polygon
    then some (leb 256 num)
    else if chain == chain_mvm
    then some (leb 1 num)
    else none

-- common/chain.go
abbrev pub safe_ethereum_chain_id : GoString
safe_ethereum_chain_id = codes "43d61dcd-e413-450d-80b8-101d5e903357"

abbrev pub safe_polygon_chain_id : GoString
safe_polygon_chain_id = codes "b7938396-3f94-4e0a-9179-d3440718156f"

-- The asset of ethereumParams; `none` is its panic.
unfoldable pub ethereum_asset : ℕ → Option GoString
ethereum_asset chain =
    if chain == chain_ethereum
    then some safe_ethereum_chain_id
    else if chain == chain_polygon
    then some safe_polygon_chain_id
    else none

-- The address of the token, where the balance has none yet.
abbrev pub with_asset_address : GoString → SafeBalance → SafeBalance
with_asset_address address sb =
    if str_eq sb.asset_address [] then record sb { asset_address = address } else sb

module _ {T E D : Type 0} (node : Node T E D) (now : ℕ) (req : Request) where
  -- verifyEthereumTransaction; a nil transfer fails the request in the caller, and an error is a
  -- panic there.
  unfoldable pub verify_ethereum_transaction : Deposit → Safe → Handler T ChainTransfer
  unfolding check_ethereum_finalization
  verify_ethereum_transaction deposit safe = do
    row ← look (λ db. read_latest_network_info db safe.chain req.created_at)
    info ← found node now req row
    require (not (ltb req.created_at info.created_at))
    chain_id ← need (ethereum_asset safe.chain)
    verified ← need (
        node.ethereum.verify_deposit deposit.chain deposit.hash chain_id deposit.asset_address
          safe.address deposit.index deposit.amount)
    t ← need verified
    require (str_eq t.receiver safe.address)
    trusted ← check_trusted_sender node t.sender
    final ← need (
        check_ethereum_finalization
          (trusted_confirmations trusted (confirmations_of info t.block_height)) safe.chain)
    require final
    pure t

  -- doEthereumHolderDeposit
  unfoldable pub do_ethereum_holder_deposit :
      Deposit → Safe → GoString → Asset → Handler T (Unit {0})
  do_ethereum_holder_deposit deposit safe safe_asset_id asset = do
    chain_id ← need (ethereum_asset deposit.chain)
    require (not (str_eq asset.asset_id chain_id) || (asset.decimals == 18))
    deposited ← look (λ db. read_deposit db deposit.hash deposit.index)
    check node now req (is_none deposited)
    balance ← ask (read_ethereum_balance now safe.address asset.asset_id safe_asset_id)
    updated ← need (update_balance balance (pos deposit.amount))
    let sb = with_asset_address deposit.asset_address updated
    t ← verify_ethereum_transaction deposit safe
    act ← need req.output
    bond ← found node now req (
        build_transaction node act [] safe.request_id safe_asset_id safe.receivers safe.threshold
          (record { units = deposit.amount; precision = asset.decimals }) [] req.id)
    call node (
        create_deposit_c now safe sb deposit.hash deposit.index deposit.amount t.sender req
          (bond ∷ []))
    answer (bond ∷ []) []
