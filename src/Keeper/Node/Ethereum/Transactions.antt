-- ===== src/Keeper/Node/Ethereum/Transactions.antt =====
-- keeper/ethereum.go: the proposal of an Ethereum transaction.
use safe.Prelude.{
  ℕ, ◌+◌, ◌*◌, ◌/◌, ◌%◌, ◌^◌, GoString, List, [], ◌∷◌, ◌++◌, Option, none, some, not, ◌&&◌, ◌||◌,
  ltb, leb, ◌==◌, if◌then◌else◌, length, get_or, drop, str_eq, filter, map,
}
use safe.Common.Constants.{
  request_role_holder, request_state_done, action_ethereum_safe_propose_transaction,
  flag_propose_normal_transaction, flag_propose_recovery_transaction,
}
use safe.Common.Hex.{decode_hex}
use safe.Common.Request.{Request}
use safe.Keeper.Store.Tables.{Safe, SafeBalance}
use safe.Keeper.Store.Balances.{read_ethereum_balance}
use safe.Keeper.Store.Listing.{read_all_ethereum_token_balances}
use safe.Keeper.Store.Transactions.{read_unfinished_transactions_by_holder}
use safe.Keeper.Calls.{write_transaction_c}
use safe.Keeper.Node.World.{Node, Decimal, lt_decimal, eq_decimal, Transfer}
use safe.Keeper.Node.Handler.{
  Handler, pure, answer, look, need, require, ◌>>=◌, ◌>>◌, ask, call, fail_request, found, check,
}
use safe.Keeper.Node.Keys.{amount_of, refund_and_fail_request}
use safe.Keeper.Node.Extras.{is_reference, read_reference}
use safe.Keeper.Node.Accounts.{params_or_refund, storage_response, safe_of_holder}
use safe.Keeper.Node.Bitcoin.Transactions.{
  satoshi_amount, bond_origin, require_bond, check_named_info,
}
use safe.Keeper.Node.Ethereum.{ethereum_empty_address, get_evm_chain_id}
use safe.Keeper.Node.Ethereum.Accounts.{initial_transaction}

abbrev pub type_eth_tx : ℕ
type_eth_tx = 1

abbrev pub type_erc20_tx : ℕ
type_erc20_tx = 2

abbrev pub type_multi_send_tx : ℕ
type_multi_send_tx = 3

-- ethereum.ParseAmount: an amount that is no whole number of units is a panic.
unfoldable pub parse_amount : Decimal → ℕ → Option ℕ
parse_amount d decimals =
    if d.units * 10 ^ decimals % 10 ^ d.precision == 0
    then some (d.units * 10 ^ decimals / 10 ^ d.precision)
    else none

-- A recipient as it is stored with the transaction.
abbrev pub Recipient : Type 0
Recipient = GoString × Decimal × GoString

abbrev pub recipient_of : ℕ → Transfer → Recipient
recipient_of decimals o = (
  o.destination,
  record { units = o.amount; precision = decimals },
  (if str_eq o.token_address ethereum_empty_address then [] else o.token_address),
)

abbrev pub total_amount : List Transfer → ℕ
total_amount [] = 0
total_amount (o ∷ os) = o.amount + total_amount os

-- The type of a transaction of some transfers, the first of which sends the given token.
abbrev pub transaction_type : List Transfer → GoString → ℕ
transaction_type outputs token =
    if ltb 1 (length outputs)
    then type_multi_send_tx
    else if str_eq token ethereum_empty_address
    then type_eth_tx
    else type_erc20_tx

module _ {T E D : Type 0} (node : Node T E D) (now : ℕ) (req : Request) where
  -- The decimals of a token.
  unfoldable pub decimals_of : GoString → GoString → Handler T ℕ
  decimals_of asset_address asset_id =
      if str_eq asset_address ethereum_empty_address
      then pure 18
      else do asset ← need (node.assets.read_asset_meta asset_id); pure asset.decimals

  -- The balance of the safe in the asset that its holder sends.
  unfoldable pub proposed_balance : Safe → GoString → Handler T SafeBalance
  proposed_balance safe id = do
    balance ← ask (read_ethereum_balance now safe.address id req.asset_id)
    require (str_eq (node.ethereum.normalize_address balance.asset_address) balance.asset_address)
    require (str_eq balance.safe_asset_id req.asset_id)
    pure balance

  -- The transfers to the recipients that a referenced transaction lists.
  unfoldable pub recipient_transfers :
      GoString → ℕ → ℕ → List (GoString × GoString) → Handler T (List Transfer)
  recipient_transfers token decimals minimum [] = pure []
  recipient_transfers token decimals minimum ((receiver, text) ∷ rest) = do
    amt ← found node now req (node.bitcoin.parse_decimal text)
    check node now req (not (lt_decimal amt (satoshi_amount minimum)))
    amount ← need (parse_amount amt decimals)
    transfers ← recipient_transfers token decimals minimum rest
    pure (record { destination = receiver; amount = amount; token_address = token } ∷ transfers)

  -- The transfers of a proposal.
  unfoldable pub proposed_transfers : GoString → ℕ → ℕ → GoString → Handler T (List Transfer)
  unfolding recipient_transfers
  proposed_transfers token decimals minimum extra = do
    referenced ← is_reference node req extra
    if referenced
        then (do
          text ← read_reference node extra
          recipients ← found node now req (node.bitcoin.parse_recipients text)
          recipient_transfers token decimals minimum recipients)
        else do
          amount ← need (parse_amount (amount_of req) decimals)
          pure (record { destination = extra; amount = amount; token_address = token } ∷ [])

  -- A destination must be neither empty nor the safe itself.
  unfoldable pub check_destinations : GoString → List Transfer → Handler T (Unit {0})
  check_destinations address [] = pure tt
  check_destinations address (o ∷ os) = do
    let norm = node.ethereum.normalize_address o.destination
    check node now req (not (str_eq norm ethereum_empty_address || str_eq norm address))
    check_destinations address os

  -- The transfers of every other balance in a recovery, and their recipients.
  unfoldable pub recovery_transfers :
      GoString → List SafeBalance → Handler T (List Transfer × List Recipient)
  recovery_transfers destination [] = pure ([], [])
  recovery_transfers destination (b ∷ bs) = do
    asset ← need (node.assets.read_asset_meta b.asset_id)
    (transfers, recipients) ← recovery_transfers destination bs
    let o : Transfer = record {
      destination = destination;
      amount = b.balance;
      token_address = b.asset_address;
    }
    pure (o ∷ transfers, recipient_of asset.decimals o ∷ recipients)

  -- The balances that a recovery takes besides the proposed one.
  unfoldable pub other_balances : Safe → GoString → Handler T (List SafeBalance)
  other_balances safe asset_id = do
    row ← look (λ db. read_all_ethereum_token_balances db safe.address)
    balances ← need row
    pure (
        filter (λ (b : SafeBalance). not (str_eq b.asset_id asset_id) && not (b.balance == 0))
          balances)

  -- All the transfers of a proposal by its flag, and their recipients.
  unfoldable pub flagged_transfers :
      ℕ
      → Safe
      → GoString
      → GoString
      → List Transfer
      → List Recipient
      → Handler T (List Transfer × List Recipient)
  unfolding other_balances recovery_transfers
  flagged_transfers flag safe asset_id destination outputs recipients =
      if flag == flag_propose_normal_transaction
      then pure (outputs, recipients)
      else if flag == flag_propose_recovery_transaction
      then (do
        check node now req (length outputs == 1)
        balances ← other_balances safe asset_id
        (transfers, more) ← recovery_transfers destination balances
        pure (outputs ++ transfers, recipients ++ more))
      else fail_request node now req []

  -- processEthereumSafeProposeTransaction up to the transfers: the safe, the asset, the transfers
  -- and their recipients.
  unfoldable pub checked_transfers :
      Handler T (Safe × GoString × GoString × List Transfer × List Recipient)
  checked_transfers = do
    safe ← safe_of_holder node now req
    check node now req (safe.state == request_state_done)
    pendings ← look (λ db. read_unfinished_transactions_by_holder db safe.holder)
    check node now req (length pendings == 0)
    id ← bond_origin node now req req.asset_id
    plan ←
        params_or_refund node now req safe.chain (λ p. p.transaction_minimum) safe.receivers
          safe.threshold
    check node now req (not (ltb req.amount plan.transaction_minimum))
    require_bond node now req safe id
    extra ← need (decode_hex req.extra_hex)
    check node now req (not (ltb (length extra) 33))
    check_named_info node now req safe.chain (drop 1 extra)
    balance ← proposed_balance safe id
    decimals ← decimals_of balance.asset_address id
    outputs ←
        proposed_transfers balance.asset_address decimals plan.transaction_minimum (drop 17 extra)
    check_destinations safe.address outputs
    check node now req (
        leb (length outputs) 256
        && eq_decimal (record { units = total_amount outputs; precision = decimals })
            (amount_of req))
    need (get_evm_chain_id safe.chain)
    (transfers, recipients) ←
        flagged_transfers (get_or extra 0 0) safe balance.asset_id (drop 17 extra) outputs
          (map (recipient_of decimals) outputs)
    pure (safe, id, balance.asset_address, transfers, recipients)

  -- processEthereumSafeProposeTransaction
  unfoldable pub process_ethereum_safe_propose_transaction : Handler T (Unit {0})
  process_ethereum_safe_propose_transaction = do
    require (req.role == request_role_holder)
    (safe, id, token, transfers, recipients) ← checked_transfers
    chain_id ← need (get_evm_chain_id safe.chain)
    t ← need (
        node.ethereum.create_transaction (transaction_type transfers token) chain_id req.id
          safe.address transfers safe.nonce)
    txs ←
        storage_response node now req
          (refund_and_fail_request node now req safe.receivers safe.threshold) (λ _. req.id)
          action_ethereum_safe_propose_transaction safe.chain
          (node.ethereum.marshal_safe_transaction t)
    call node (
        write_transaction_c now
          (initial_transaction node now req t safe.chain id
            (node.bitcoin.marshal_recipients recipients))
          [] txs req)
    answer txs []
