-- ===== src/Keeper/Node/Ethereum/Response.antt =====
-- keeper/ethereum.go: the response of the signer group to a request for a signature.
use safe.Prelude.{
  ℕ, zero, suc, ◌/◌, List, [], ◌∷◌, Option, none, some, not, ◌==◌, ltb, if◌then◌else◌, str_eq,
}
use safe.Prelude.Int.{ℤ, pos, negsuc}
use safe.Common.Constants.{
  request_role_signer, request_state_pending, action_ethereum_safe_approve_account,
  action_ethereum_safe_approve_transaction,
}
use safe.Common.Hex.{encode_hex, decode_hex}
use safe.Common.Request.{Request}
use safe.Keeper.Store.Tables.{Safe, SafeBalance, Transaction, SignatureRequest}
use safe.Keeper.Store.Listing.{
  list_all_signatures_for_transaction, read_all_ethereum_token_balances_map,
}
use safe.Keeper.Store.Safes.{read_safe_proposal_by_address}
use safe.Keeper.Calls.{finish_signature_c, finish_safe_c, finish_transaction_c}
use safe.Keeper.Node.World.{Node, Transfer, SafeTransaction}
use safe.Keeper.Node.Handler.{
  Handler, pure, answer, look, need, require, ◌>>=◌, ◌>>◌, call, fail_request, check,
}
use safe.Keeper.Node.Build.{unique_id}
use safe.Keeper.Node.Proposal.{hour}
use safe.Keeper.Node.Accounts.{storage_response}
use safe.Keeper.Node.Bitcoin.Accounts.{account_response}
use safe.Keeper.Node.Ethereum.{balance_of, get_evm_chain_id, owners_of, put_signature}
use safe.Keeper.Node.Ethereum.Signing.{update_entry}

-- -n
abbrev pub neg : ℕ → ℤ
neg zero = pos 0
neg (suc n) = negsuc n

-- The only request of a list; another number of them is a panic.
abbrev pub only : List SignatureRequest → Option SignatureRequest
only [] = none
only (r ∷ rs) = elim rs [ [] ↦ some r | _ ∷ _ ↦ none ]

module _ {T E D : Type 0} (node : Node T E D) (now : ℕ) (req : Request) where
  -- The transaction with the signature of the signer at its place.
  unfoldable pub signed_transaction :
      Safe → Transaction → SignatureRequest → Handler T SafeTransaction
  signed_transaction safe tx old = do
    raw ← need (decode_hex tx.raw_transaction)
    t ← need (node.ethereum.unmarshal_safe_transaction raw)
    requests ←
        look
          (λ db. list_all_signatures_for_transaction db old.transaction_hash request_state_pending)
    sr ← need (only requests)
    text ← need sr.signature
    bytes ← need (decode_hex text)
    let sig = node.ethereum.process_signature bytes
    require (node.ethereum.verify_message_signature safe.signer t.message sig)
    signatures ← need (put_signature safe.signer sig (owners_of node safe) t.signatures)
    pure (record t { signatures = signatures })

  -- The end of processEthereumSafeSignatureResponse for a pending safe: its guard is enabled.
  unfoldable pub finish_safe : Safe → SafeTransaction → SignatureRequest → Handler T (Unit {0})
  finish_safe safe t old = do
    row ← look (λ db. read_safe_proposal_by_address db safe.address)
    sp ← need row
    txs ←
        account_response node now req (unique_id node req.id safe.address)
          action_ethereum_safe_approve_account safe.chain safe.extra sp.request_id
    chain_id ← need (get_evm_chain_id sp.chain)
    guard_data ← need (
        node.ethereum.guard_transaction_data chain_id sp.request_id sp.address sp.observer
          (sp.timelock / hour))
    require (str_eq guard_data t.input)
    call node (
        finish_safe_c now old.transaction_hash
          (encode_hex (node.ethereum.marshal_safe_transaction t)) req safe txs)
    answer txs []

  -- The loop that takes the transfers from the balances: a balance below zero fails the request.
  unfoldable pub take_from : List Transfer → List SafeBalance → Handler T (List SafeBalance)
  take_from [] sbm = pure sbm
  take_from (o ∷ os) sbm = do
    b ← need (balance_of o.token_address sbm)
    check node now req (not (ltb b.balance o.amount))
    m ← need (update_entry neg o sbm)
    take_from os m

  -- The end of processEthereumSafeSignatureResponse for a transaction of an approved safe.
  unfoldable pub finish_transaction :
      Safe → SafeTransaction → SignatureRequest → Handler T (Unit {0})
  unfolding take_from
  finish_transaction safe t old = do
    rows ← look (λ db. read_all_ethereum_token_balances_map db safe.address)
    sbm ← need rows
    balances ← take_from t.outputs sbm
    let raw = node.ethereum.marshal_safe_transaction t
    txs ←
        storage_response node now req (fail_request node now req [])
          (λ trace. unique_id node old.transaction_hash trace)
          action_ethereum_safe_approve_transaction safe.chain raw
    call node
        (finish_transaction_c now old.transaction_hash (encode_hex raw) req 0 safe balances txs)
    answer txs []

  -- processEthereumSafeSignatureResponse
  unfoldable pub process_ethereum_safe_signature_response :
      Safe → Transaction → SignatureRequest → Handler T (Unit {0})
  process_ethereum_safe_signature_response safe tx old = do
    require (req.role == request_role_signer)
    sig ← need (decode_hex req.extra_hex)
    msg ← need (decode_hex old.message)
    check node now req (node.ethereum.verify_hash_signature safe.signer msg sig)
    call node (finish_signature_c req)
    t ← signed_transaction safe tx old
    if safe.state == request_state_pending
        then finish_safe safe t old
        else finish_transaction safe t old
