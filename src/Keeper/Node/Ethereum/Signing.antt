-- ===== src/Keeper/Node/Ethereum/Signing.antt =====
-- keeper/ethereum.go: the approval and the refund of an Ethereum transaction.
use safe.Prelude.{
  ℕ, GoString, List, [], ◌∷◌, Option, none, some, not, ◌==◌, if◌then◌else◌, length, drop, str_eq,
}
use safe.Prelude.Int.{ℤ, pos}
use safe.Prelude.Maybe
use safe.Prelude.Text.{codes}
use safe.Common.Constants.{request_role_observer, request_state_done, chain_polygon}
use safe.Common.Hex.{encode_hex, decode_hex}
use safe.Common.Request.{Request}
use safe.Keeper.Store.Tables.{Safe, SafeBalance, Transaction}
use safe.Keeper.Store.Balances.{update_balance}
use safe.Keeper.Store.Listing.{read_all_ethereum_token_balances_map}
use safe.Keeper.Store.Requests.{read_request}
use safe.Keeper.Store.Transactions.{read_transaction_by_request_id}
use safe.Keeper.Calls.{write_signature_requests_c, fail_transaction_c}
use safe.Keeper.Node.World.{Node, Transfer}
use safe.Keeper.Node.Handler.{
  Handler, pure, answer, look, need, or_else, require, ◌>>=◌, ◌>>◌, call, fail_request, found,
  check,
}
use safe.Keeper.Node.Build.{build_transaction}
use safe.Keeper.Node.Keys.{amount_of}
use safe.Keeper.Node.Extras.{read_storage_extra, leading_uuid}
use safe.Keeper.Node.Accounts.{safe_of_holder, open_transaction}
use safe.Keeper.Node.Bitcoin.Signing.{signer_transactions}
use safe.Keeper.Node.Ethereum.{check_signed_by}
use safe.Keeper.Node.Ethereum.Accounts.{message_request}
use safe.Keeper.Node.Ethereum.Transactions.{parse_amount}

-- One entry of the map of balances changed by a transfer; a missing entry and a negative balance
-- are panics.
unfoldable pub update_entry : (ℕ → ℤ) → Transfer → List SafeBalance → Option (List SafeBalance)
update_entry change o [] = none
update_entry change o (b ∷ bs) =
    let rest = update_entry change o bs in
    if str_eq b.asset_address o.token_address
    then Maybe.◌>>=◌ (update_balance b (change o.amount)) (λ c. some (c ∷ bs))
    else Maybe.◌>>=◌ rest (λ cs. some (b ∷ cs))

-- The loop that gives the transfers of a failed transaction back to the balances.
unfoldable pub give_back : List Transfer → List SafeBalance → Option (List SafeBalance)
unfolding update_entry
give_back [] sbm = some sbm
give_back (o ∷ os) sbm = Maybe.◌>>=◌ (update_entry pos o sbm) (λ m. give_back os m)

module _ {T E D : Type 0} (node : Node T E D) (now : ℕ) (req : Request) where
  -- processEthereumSafeApproveTransaction
  unfoldable pub process_ethereum_safe_approve_transaction : Handler T (Unit {0})
  process_ethereum_safe_approve_transaction = do
    require (req.role == request_role_observer)
    safe ← safe_of_holder node now req
    extra ← need (decode_hex req.extra_hex)
    check node now req (length extra == 48)
    rid ← leading_uuid node now req extra
    tx ← open_transaction node now req rid
    raw ← read_storage_extra node (encode_hex (drop 16 extra))
    t ← need (node.ethereum.unmarshal_safe_transaction raw)
    signed ← need (check_signed_by node safe t safe.holder)
    check node now req signed
    let requests = message_request node now req tx.transaction_hash safe t ∷ []
    txs ← signer_transactions node now req safe requests
    call node (
        write_signature_requests_c now requests tx.transaction_hash
          (encode_hex (node.ethereum.marshal_safe_transaction t)) req txs)
    answer txs []

  -- The done transaction of a request, of this holder.
  unfoldable pub done_transaction : GoString → Handler T Transaction
  done_transaction rid = do
    row ← look (λ db. read_transaction_by_request_id db rid)
    tx ← found node now req row
    check node now req (str_eq tx.holder req.holder)
    check node now req (tx.state == request_state_done)
    pure tx

  -- The balances with the transfers of a transaction given back.
  unfoldable pub refunded_balances : Safe → Transaction → Handler T (List SafeBalance)
  unfolding give_back
  refunded_balances safe tx = do
    b ← need (decode_hex tx.raw_transaction)
    st ← need (node.ethereum.unmarshal_safe_transaction b)
    rows ← look (λ db. read_all_ethereum_token_balances_map db safe.address)
    sbm ← need rows
    need (give_back st.outputs sbm)

  -- processEthereumSafeRefundTransaction
  unfoldable pub process_ethereum_safe_refund_transaction : Handler T (Unit {0})
  process_ethereum_safe_refund_transaction = do
    require (req.role == request_role_observer)
    safe ← safe_of_holder node now req
    extra ← need (decode_hex req.extra_hex)
    check node now req (length extra == 16)
    rid ← leading_uuid node now req extra
    tx ← done_transaction rid
    sbm ← refunded_balances safe tx
    row ← look (λ db. read_request db tx.request_id)
    tx_request ← need row
    meta ← need (node.assets.fetch_asset_meta tx_request.asset_id)
    check node now req (meta.chain == chain_polygon)
    deployed ← need (node.assets.check_factory_asset_deployed meta.asset_key)
    require (not (length deployed == 0))
    act ← need req.output
    amount ← need (parse_amount (amount_of tx_request) meta.decimals)
    t ←
        or_else
          (build_transaction node act [] node.conf.app_id tx_request.asset_id safe.receivers
            safe.threshold (record { units = amount; precision = 0 }) (codes "refund") req.id)
          (fail_request node now req tx_request.asset_id)
    call node (fail_transaction_c now tx safe req sbm (t ∷ []))
    answer (t ∷ []) []
