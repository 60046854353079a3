-- ===== src/Keeper/Node/Deposits/Bitcoin.antt =====
-- keeper/deposit.go: a deposit of Bitcoin or Litecoin, and apps/bitcoin/common.go: when a
-- transaction is final.
use safe.Prelude.{
  ℕ, ◌%◌, ◌^◌, GoString, Bool, false, List, [], ◌∷◌, Option, none, some, not, ◌&&◌, ◌||◌, ltb, leb,
  ◌==◌, if◌then◌else◌, str_eq,
}
use safe.Prelude.Maybe.{is_none}
use safe.Common.Constants.{chain_bitcoin, chain_litecoin}
use safe.Common.Hex.{decode_hex}
use safe.Common.Request.{Request}
use safe.Keeper.Store.Tables.{Safe, BitcoinOutput}
use safe.Keeper.Store.Networks.{read_latest_network_info}
use safe.Keeper.Store.Outputs.{
  Input, read_bitcoin_utxo, read_deposit, read_unspent_utxo_count_for_safe,
}
use safe.Keeper.Store.Transactions.{read_transaction}
use safe.Keeper.Calls.{write_output_c}
use safe.Keeper.Node.World.{Node, Asset, Decimal, ChainTransaction}
use safe.Keeper.Node.Handler.{
  Handler, pure, answer, look, need, require, ◌>>=◌, ◌>>◌, call, found, check,
}
use safe.Keeper.Node.Build.{build_transaction}
use safe.Keeper.Node.Bitcoin.Accounts.{
  safe_bitcoin_chain_id, safe_litecoin_chain_id, bitcoin_asset, witness_account,
}
use safe.Keeper.Node.Deposits.{
  Deposit, check_trusted_sender, confirmations_of, trusted_confirmations,
}

abbrev pub max_unspent_utxo : ℕ
max_unspent_utxo = 512

-- bitcoin.ValueDust; another chain is a panic.
unfoldable pub value_dust : ℕ → Option ℕ
value_dust chain =
    if chain == chain_bitcoin
    then some 1000
    else if chain == chain_litecoin
    then some 10000
    else none

-- The text of a column that may be NULL.
abbrev text_or_empty : Option GoString → GoString
text_or_empty none = []
text_or_empty (some s) = s

module _ {T E D : Type 0} (node : Node T E D) where
  -- bitcoin.CheckFinalization
  unfoldable pub check_finalization : ℕ → Bool → Bool
  check_finalization num coinbase =
      leb node.bitcoin.coinbase_maturity num || (not coinbase && leb 1 num)

  -- The index of a change is beyond the recipients of the transaction that spends the input.
  unfoldable pub is_change_of : Deposit → BitcoinOutput → Handler T Bool
  is_change_of deposit vin = do
    row ← look (λ db. read_transaction db (text_or_empty vin.spent_by))
    tx ← need row
    count ← need (node.bitcoin.count_recipients tx.txdata)
    require (not (count == 0))
    pure (leb count deposit.index)

  unfoldable pub is_change_of_input : Deposit → Option BitcoinOutput → Handler T Bool
  unfolding is_change_of
  is_change_of_input deposit none = pure false
  is_change_of_input deposit (some vin) = is_change_of deposit vin

  -- checkBitcoinChange; an error is a panic of its caller.
  unfoldable pub check_bitcoin_change : Deposit → ChainTransaction → Handler T Bool
  unfolding is_change_of_input
  check_bitcoin_change deposit btx = do
    read ← look (λ db. read_bitcoin_utxo db btx.vin_tx_id btx.vin_vout)
    row ← need read
    is_change_of_input deposit row

module _ {T E D : Type 0} (node : Node T E D) (now : ℕ) (req : Request) where
  -- The checks of verifyBitcoinTransaction on the output that the RPC knows.
  unfoldable pub check_chain_output : Deposit → Safe → GoString → Handler T (Unit {0})
  unfolding check_finalization
  check_chain_output deposit safe receiver = do
    row ← look (λ db. read_latest_network_info db safe.chain req.created_at)
    info ← found node now req row
    require (not (ltb req.created_at info.created_at))
    out ← need (node.bitcoin.rpc_get_transaction_output deposit.chain deposit.hash deposit.index)
    output ← need out
    require (str_eq output.address receiver && (output.satoshi == deposit.amount))
    sender ← need (node.bitcoin.rpc_get_transaction_sender safe.chain deposit.hash)
    trusted ← check_trusted_sender node sender
    require (
        check_finalization node
          (trusted_confirmations trusted (confirmations_of info output.height)) output.coinbase)

  -- verifyBitcoinTransaction, for an output to the holder and the signer; a nil input fails the
  -- request in the caller, and an error is a panic there.
  unfoldable pub verify_bitcoin_transaction : Deposit → Safe → Handler T Input
  verify_bitcoin_transaction deposit safe = do
    asset ← need (bitcoin_asset safe.chain)
    check node now req (str_eq deposit.asset asset)
    path ← need (decode_hex safe.path)
    wsa ← witness_account node safe.holder safe.signer safe.observer path safe.timelock safe.chain
    require (str_eq wsa.address safe.address)
    check_chain_output deposit safe wsa.address
    pure (record {
      transaction_hash = deposit.hash;
      index = deposit.index % 2 ^ 32;
      satoshi = deposit.amount;
      script = wsa.script;
      sequence = wsa.sequence;
    })

  -- The bond of a deposit that is no change, for the receivers of the safe.
  unfoldable pub deposit_bond : Safe → GoString → Decimal → Bool → Handler T (List T)
  deposit_bond safe safe_asset_id amount change = if change then pure [] else do
    act ← need req.output
    t ← found node now req (
        build_transaction node act [] safe.request_id safe_asset_id safe.receivers safe.threshold
          amount [] req.id)
    pure (t ∷ [])

  -- doBitcoinHolderDeposit
  unfoldable pub do_bitcoin_holder_deposit :
      Deposit → Safe → GoString → Asset → ℕ → Handler T (Unit {0})
  do_bitcoin_holder_deposit deposit safe safe_asset_id asset minimum = do
    require (asset.decimals == 8)
    require (
        str_eq asset.asset_id safe_bitcoin_chain_id || str_eq asset.asset_id safe_litecoin_chain_id)
    read ← look (λ db. read_bitcoin_utxo db deposit.hash deposit.index)
    old ← need read
    check node now req (is_none old)
    deposited ← look (λ db. read_deposit db deposit.hash deposit.index)
    check node now req (is_none deposited)
    unspent ← look (λ db. read_unspent_utxo_count_for_safe db safe.address)
    check node now req (ltb unspent max_unspent_utxo)
    asset_of_chain ← need (bitcoin_asset deposit.chain)
    btx ← need (node.bitcoin.rpc_get_transaction deposit.chain deposit.hash)
    change ← check_bitcoin_change node deposit btx
    check node now req (not (ltb deposit.amount minimum) || change)
    dust ← need (value_dust safe.chain)
    require (not (ltb deposit.amount dust))
    input ← verify_bitcoin_transaction deposit safe
    txs ← deposit_bond safe safe_asset_id (record { units = deposit.amount; precision = 8 }) change
    sender ← need (node.bitcoin.rpc_get_transaction_sender safe.chain deposit.hash)
    call node (write_output_c now safe input req asset.asset_id sender txs)
    answer txs []
