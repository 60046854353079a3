-- ===== src/Keeper/Node/Calls/Deposits.antt =====
-- The calls of the deposits of keeper/deposit.go.
use safe.Prelude.{ℕ, GoString, Bool, Option, none, some}
use safe.Common.Request.{Request}
use safe.Keeper.Store.Tables.{Safe, BitcoinOutput}
use safe.Keeper.Node.World.{Node, Decimal, Asset, ChainTransaction}
use safe.Keeper.Node.Calls.{Makes}
use safe.Keeper.Node.Calls.Shared.{makes_shared}
use safe.Keeper.Node.Deposits.{check_trusted_sender, parse_deposit_extra}
use safe.Keeper.Node.Deposits.Bitcoin.{
  is_change_of, is_change_of_input, check_bitcoin_change, check_chain_output,
  verify_bitcoin_transaction, deposit_bond, do_bitcoin_holder_deposit,
}
use safe.Keeper.Node.Deposits.Ethereum.{verify_ethereum_transaction, do_ethereum_holder_deposit}
use safe.Keeper.Node.Deposits.Holder.{bond_of_deposit, safe_of_deposit, create_holder_deposit}
use safe.Keeper.Node.Deposits.{Deposit}
use safe.Keeper.Node.Calls.Bitcoin.{Makes-witness_account}

module _ {T E D : Type 0} (node : Node T E D) where
  pub Makes-check_trusted_sender : (text : GoString) → Makes node (check_trusted_sender node text)
  unfolding check_trusted_sender
  Makes-check_trusted_sender text = search (makes_shared) depth 30

module _ {T E D : Type 0} (node : Node T E D) (now : ℕ) (req : Request) where
  pub Makes-parse_deposit_extra : Makes node (parse_deposit_extra node now req)
  unfolding parse_deposit_extra
  Makes-parse_deposit_extra = search (makes_shared) depth 30

module _ {T E D : Type 0} (node : Node T E D) where
  pub Makes-is_change_of :
      (deposit : Deposit) (vin : BitcoinOutput) → Makes node (is_change_of node deposit vin)
  unfolding is_change_of
  Makes-is_change_of deposit vin = search (makes_shared) depth 30

  pub Makes-is_change_of_input :
      (deposit : Deposit) (vin : Option BitcoinOutput)
      → Makes node (is_change_of_input node deposit vin)
  unfolding is_change_of_input
  Makes-is_change_of_input deposit none = search makes_shared
  Makes-is_change_of_input deposit (some vin) = search (makes_shared, Makes-is_change_of)

  pub Makes-check_bitcoin_change :
      (deposit : Deposit) (btx : ChainTransaction)
      → Makes node (check_bitcoin_change node deposit btx)
  unfolding check_bitcoin_change
  Makes-check_bitcoin_change deposit btx = search (makes_shared, Makes-is_change_of_input) depth 30

module _ {T E D : Type 0} (node : Node T E D) (now : ℕ) (req : Request) where
  pub Makes-check_chain_output :
      (deposit : Deposit) (safe : Safe) (text : GoString)
      → Makes node (check_chain_output node now req deposit safe text)
  unfolding check_chain_output
  Makes-check_chain_output deposit safe text =
      search (makes_shared, Makes-check_trusted_sender) depth 30

  pub Makes-verify_bitcoin_transaction :
      (deposit : Deposit) (safe : Safe)
      → Makes node (verify_bitcoin_transaction node now req deposit safe)
  unfolding verify_bitcoin_transaction
  Makes-verify_bitcoin_transaction deposit safe =
      search (makes_shared, Makes-check_chain_output, Makes-witness_account) depth 30

  pub Makes-deposit_bond :
      (safe : Safe) (text : GoString) (x : Decimal) (b : Bool)
      → Makes node (deposit_bond node now req safe text x b)
  unfolding deposit_bond
  Makes-deposit_bond safe text x b = search (makes_shared) depth 30

  pub Makes-do_bitcoin_holder_deposit :
      (deposit : Deposit) (safe : Safe) (text : GoString) (asset : Asset) (n : ℕ)
      → Makes node (do_bitcoin_holder_deposit node now req deposit safe text asset n)
  unfolding do_bitcoin_holder_deposit
  Makes-do_bitcoin_holder_deposit deposit safe text asset n =
      search
        (
          makes_shared, Makes-check_bitcoin_change, Makes-verify_bitcoin_transaction,
          Makes-deposit_bond,
        )
        depth 40

  pub Makes-verify_ethereum_transaction :
      (deposit : Deposit) (safe : Safe)
      → Makes node (verify_ethereum_transaction node now req deposit safe)
  unfolding verify_ethereum_transaction
  Makes-verify_ethereum_transaction deposit safe =
      search (makes_shared, Makes-check_trusted_sender) depth 30

  pub Makes-do_ethereum_holder_deposit :
      (deposit : Deposit) (safe : Safe) (text : GoString) (asset : Asset)
      → Makes node (do_ethereum_holder_deposit node now req deposit safe text asset)
  unfolding do_ethereum_holder_deposit
  Makes-do_ethereum_holder_deposit deposit safe text asset =
      search (makes_shared, Makes-verify_ethereum_transaction) depth 30

  pub Makes-bond_of_deposit :
      (safe : Safe) (text : GoString) → Makes node (bond_of_deposit node now req safe text)
  unfolding bond_of_deposit
  Makes-bond_of_deposit safe text = search (makes_shared) depth 30

  pub Makes-safe_of_deposit :
      (deposit : Deposit) → Makes node (safe_of_deposit node now req deposit)
  unfolding safe_of_deposit
  Makes-safe_of_deposit deposit = search (makes_shared) depth 30

  pub Makes-create_holder_deposit : Makes node (create_holder_deposit node now req)
  unfolding create_holder_deposit
  Makes-create_holder_deposit =
      search
        (
          makes_shared, Makes-parse_deposit_extra, Makes-safe_of_deposit, Makes-bond_of_deposit,
          Makes-do_bitcoin_holder_deposit, Makes-do_ethereum_holder_deposit,
        )
        depth 30
