-- ===== src/Keeper/Node/Deposits/Holder.antt =====
-- keeper/deposit.go: a deposit to the safe of a holder.
use safe.Prelude.{ℕ, GoString, [], ◌&&◌, ◌==◌, if◌then◌else◌, str_eq}
use safe.Common.Constants.{request_role_observer, request_state_done, chain_polygon}
use safe.Common.Request.{Request}
use safe.Keeper.Store.Tables.{Safe}
use safe.Keeper.Store.Safes.{read_safe}
use safe.Keeper.Store.Networks.{read_latest_operation_params}
use safe.Keeper.Node.World.{Node, Asset}
use safe.Keeper.Node.Handler.{
  Handler, pure, look, need, require, ◌>>=◌, ◌>>◌, fail_request, found, check,
}
use safe.Keeper.Node.Keys.{fetch_bond_asset_receiver, get_bond_asset_id}
use safe.Keeper.Node.Accounts.{positive}
use safe.Keeper.Node.Deposits.{Deposit, is_bitcoin_chain, is_ethereum_chain, parse_deposit_extra}
use safe.Keeper.Node.Deposits.Bitcoin.{do_bitcoin_holder_deposit}
use safe.Keeper.Node.Deposits.Ethereum.{do_ethereum_holder_deposit}

module _ {T E D : Type 0} (node : Node T E D) (now : ℕ) (req : Request) where
  -- The bond of a deposit: its asset must be the one of the safe, on Polygon, of 18 decimals.
  unfoldable pub bond_of_deposit : Safe → GoString → Handler T Asset
  bond_of_deposit safe asset_id = do
    entry ← fetch_bond_asset_receiver node safe.address asset_id
    safe_asset_id ← get_bond_asset_id node entry asset_id req.holder
    bond ← need (node.assets.fetch_asset_meta (node.crypto.sha256_text safe_asset_id))
    require (
        (bond.decimals == 18)
        && str_eq bond.asset_id safe_asset_id
        && (bond.chain == chain_polygon))
    pure bond

  -- The safe of a deposit, approved and on its chain.
  unfoldable pub safe_of_deposit : Deposit → Handler T Safe
  safe_of_deposit deposit = do
    row ← look (λ db. read_safe db req.holder)
    safe ← found node now req row
    check node now req (safe.chain == deposit.chain)
    check node now req (safe.state == request_state_done)
    pure safe

  -- CreateHolderDeposit
  unfoldable pub create_holder_deposit : Handler T (Unit {0})
  create_holder_deposit = do
    require (req.role == request_role_observer)
    deposit ← parse_deposit_extra node now req
    safe ← safe_of_deposit deposit
    bond ← bond_of_deposit safe deposit.asset
    asset ← need (node.assets.fetch_asset_meta deposit.asset)
    require (asset.chain == safe.chain)
    row ← look (λ db. read_latest_operation_params db deposit.chain req.created_at)
    plan ← found node now req (positive row (λ p. p.transaction_minimum))
    if is_bitcoin_chain deposit.chain
        then do_bitcoin_holder_deposit node now req deposit safe bond.asset_id asset
            plan.transaction_minimum
        else if is_ethereum_chain deposit.chain
        then do_ethereum_holder_deposit node now req deposit safe bond.asset_id asset
        else fail_request node now req []
