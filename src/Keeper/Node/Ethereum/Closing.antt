-- ===== src/Keeper/Node/Ethereum/Closing.antt =====
-- keeper/ethereum.go: the closing of an Ethereum account by its recovery transaction.
use safe.Prelude.{
  ℕ, ◌+◌, GoString, List, [], ◌∷◌, not, ◌&&◌, ◌||◌, ltb, ◌==◌, if◌then◌else◌, length, get_elem?,
  drop, str_eq,
}
use safe.Common.Constants.{
  request_role_observer, request_state_done, request_state_failed,
  action_ethereum_safe_approve_transaction,
}
use safe.Common.Hex.{encode_hex, decode_hex}
use safe.Common.Request.{Request}
use safe.Keeper.Store.Tables.{Safe, SafeBalance, Transaction}
use safe.Keeper.Store.Listing.{read_all_ethereum_token_balances_map}
use safe.Keeper.Store.Networks.{read_latest_network_info}
use safe.Keeper.Store.Transactions.{count_unfinished_transactions_by_holder}
use safe.Keeper.Calls.{close_account_c, close_account_by_signatures_c, write_signature_requests_c}
use safe.Keeper.Node.World.{Node, Transfer, SafeTransaction}
use safe.Keeper.Node.Handler.{
  Handler, pure, answer, look, need, require, ◌>>=◌, ◌>>◌, call, fail_request, found, check,
}
use safe.Keeper.Node.Build.{unique_id}
use safe.Keeper.Node.Proposal.{hour}
use safe.Keeper.Node.Extras.{nil_uuid, read_storage_extra, leading_uuid}
use safe.Keeper.Node.Accounts.{storage_response, safe_of_holder, open_transaction}
use safe.Keeper.Node.Bitcoin.Signing.{signer_transactions}
use safe.Keeper.Node.Deposits.Ethereum.{ethereum_asset}
use safe.Keeper.Node.Ethereum.{ethereum_empty_address, balance_of, check_signed_by}
use safe.Keeper.Node.Ethereum.Accounts.{message_request}
use safe.Keeper.Node.Ethereum.Transactions.{Recipient, recipient_of, decimals_of}

module _ {T E D : Type 0} (node : Node T E D) (now : ℕ) (req : Request) where
  -- The timelock of the safe must have passed since its last transaction: a panic otherwise.
  unfoldable pub require_unlocked : Safe → Handler T (Unit {0})
  require_unlocked safe = do
    need (ethereum_asset safe.chain)
    last_time ← need (node.ethereum.get_safe_last_tx_time safe.chain safe.address)
    row ← look (λ db. read_latest_network_info db safe.chain req.created_at)
    info ← found node now req row
    latest ← need (node.ethereum.rpc_get_block_time safe.chain info.hash)
    require (not (latest == 0) && not (ltb latest (last_time + (safe.timelock + hour))))

  -- The recovery transaction, signed by the observer, which does not send to the safe itself.
  unfoldable pub observed_recovery : Safe → GoString → Handler T (GoString × SafeTransaction)
  observed_recovery safe extra = do
    raw ← read_storage_extra node (encode_hex (drop 16 extra))
    t ← found node now req (node.ethereum.unmarshal_safe_transaction raw)
    signed ← need (check_signed_by node safe t safe.observer)
    check node now req signed
    check node now req (not (str_eq t.destination safe.address))
    pure (raw, t)

  -- The loop that holds each transfer to the balance of its token, and to one destination.
  unfoldable pub check_closing_transfers :
      GoString → List SafeBalance → List Transfer → Handler T (Unit {0})
  check_closing_transfers destination sbm [] = pure tt
  check_closing_transfers destination sbm (o ∷ os) = do
    check node now req (str_eq destination o.destination)
    b ← need (balance_of o.token_address sbm)
    check node now req (b.balance == o.amount)
    check_closing_transfers destination sbm os

  -- The transfers of a recovery empty every balance of the safe.
  unfoldable pub check_emptied : Safe → List Transfer → Handler T (Unit {0})
  unfolding check_closing_transfers
  check_emptied safe outputs = do
    rows ← look (λ db. read_all_ethereum_token_balances_map db safe.address)
    sbm ← need rows
    check node now req (length outputs == length sbm)
    first ← need (get_elem? outputs 0)
    check_closing_transfers first.destination sbm outputs

  -- The recipients of a recovery; the contract of a token gives the identifier of its asset.
  unfoldable pub closing_recipients : Safe → List Transfer → Handler T (List Recipient)
  closing_recipients safe [] = pure []
  closing_recipients safe (o ∷ os) = do
    let norm = node.ethereum.normalize_address o.destination
    check node now req (not (str_eq norm ethereum_empty_address || str_eq norm safe.address))
    decimals ←
        decimals_of node now req o.token_address
          (node.assets.generate_asset_id safe.chain o.token_address)
    rest ← closing_recipients safe os
    pure (recipient_of decimals o ∷ rest)

  abbrev pub closing_transaction : Safe → SafeTransaction → GoString → List Recipient → Transaction
  closing_transaction safe t raw recipients = record {
    transaction_hash = t.tx_hash;
    raw_transaction = encode_hex raw;
    holder = req.holder;
    chain = safe.chain;
    asset_id = [];
    state = request_state_done;
    txdata = node.bitcoin.marshal_recipients recipients;
    request_id = req.id;
    created_at = req.created_at;
    updated_at = req.created_at;
  }

  -- closeEthereumAccountWithHolder
  unfoldable pub close_ethereum_account_with_holder : Safe → GoString → Handler T (Unit {0})
  close_ethereum_account_with_holder safe raw = do
    t ← need (node.ethereum.unmarshal_safe_transaction raw)
    signed ← need (check_signed_by node safe t safe.holder)
    check node now req signed
    recipients ← closing_recipients safe t.outputs
    txs ←
        storage_response node now req (fail_request node now req [])
          (λ trace. unique_id node t.tx_hash trace) action_ethereum_safe_approve_transaction
          safe.chain (node.ethereum.marshal_safe_transaction t)
    call node (
        close_account_c now (closing_transaction safe t raw recipients) [] request_state_done txs
          req)
    answer txs []

  -- The end of processEthereumSafeCloseAccount, with a transaction that the holder has proposed.
  unfoldable pub close_ethereum_by_signature :
      Safe → SafeTransaction → GoString → Handler T (Unit {0})
  close_ethereum_by_signature safe t rid = do
    tx ← open_transaction node now req rid
    b ← need (decode_hex tx.raw_transaction)
    proposed ← need (node.ethereum.unmarshal_safe_transaction b)
    check node now req (str_eq t.message proposed.message)
    let requests = message_request node now req tx.transaction_hash safe t ∷ []
    txs ← signer_transactions node now req safe requests
    let raw = encode_hex (node.ethereum.marshal_safe_transaction t)
    if safe.state == request_state_done
        then call node (close_account_by_signatures_c now requests tx.transaction_hash raw req txs)
        else call node (write_signature_requests_c now requests tx.transaction_hash raw req txs)
    answer txs []

  -- processEthereumSafeCloseAccount
  unfoldable pub process_ethereum_safe_close_account : Handler T (Unit {0})
  process_ethereum_safe_close_account = do
    require (req.role == request_role_observer)
    safe ← safe_of_holder node now req
    check node now req (safe.state == request_state_done || (safe.state == request_state_failed))
    require_unlocked safe
    extra ← need (decode_hex req.extra_hex)
    check node now req (length extra == 48)
    (raw, t) ← observed_recovery safe extra
    check_emptied safe t.outputs
    count ← look (λ db. count_unfinished_transactions_by_holder db safe.holder)
    rid ← leading_uuid node now req extra
    if str_eq rid nil_uuid
        then (do check node now req (count == 0); close_ethereum_account_with_holder safe raw)
        else do check node now req (count == 1); close_ethereum_by_signature safe t rid
