-- ===== src/Keeper/Node/Ethereum/Accounts.antt =====
-- keeper/ethereum.go: the proposal and the approval of an Ethereum account.
use safe.Prelude.{
  ℕ, GoString, Bool, false, [], ◌∷◌, Option, none, some, not, ltb, ◌==◌, length, drop,
}
use safe.Prelude.Maybe.{is_none}
use safe.Common.Constants.{
  request_role_holder, request_role_observer, request_state_initial, request_state_pending,
  action_ethereum_safe_propose_account,
}
use safe.Common.Chain.{safe_curve_chain}
use safe.Common.Hex.{encode_hex, decode_hex}
use safe.Common.Request.{Request}
use safe.Keeper.Store.Tables.{Safe, SafeProposal, Transaction, SignatureRequest}
use safe.Keeper.Store.Safes.{read_safe, read_safe_proposal_by_address}
use safe.Keeper.Store.Transactions.{read_transaction}
use safe.Keeper.Calls.{
  write_ethereum_proposal_c, write_unfinished_safe_c, write_signature_requests_c,
}
use safe.Keeper.Node.World.{Node, SafeTransaction}
use safe.Keeper.Node.Handler.{
  Handler, pure, answer, look, need, require, ◌>>=◌, ◌>>◌, call, found, check,
}
use safe.Keeper.Node.Keys.{is_ethereum_curve, get_bond_asset_id, refund_and_fail_request}
use safe.Keeper.Node.Extras.{leading_uuid}
use safe.Keeper.Node.Accounts.{checked_proposal, assigned_keys, storage_response}
use safe.Keeper.Node.Bitcoin.Accounts.{proposal_of, safe_of_proposal, approved_proposal}
use safe.Keeper.Node.Bitcoin.Signing.{signature_request, signer_transactions}
use safe.Keeper.Node.Deposits.Ethereum.{ethereum_asset}
use safe.Keeper.Node.Ethereum.{put_signature}

-- ethereumDefaultDerivationPath
abbrev pub ethereum_default_derivation_path : GoString
ethereum_default_derivation_path = 0 ∷ 0 ∷ 0 ∷ 0 ∷ []

-- A safe that is not pending any more.
abbrev pub is_settled : Option Safe → Bool
is_settled none = false
is_settled (some old) = not (old.state == request_state_pending)

module _ {T E D : Type 0} (node : Node T E D) (now : ℕ) (req : Request) where
  -- A transaction of a Safe that waits for its signatures.
  abbrev pub initial_transaction : SafeTransaction → ℕ → GoString → GoString → Transaction
  initial_transaction t chain asset_id text = record {
    transaction_hash = t.tx_hash;
    raw_transaction = encode_hex (node.ethereum.marshal_safe_transaction t);
    holder = req.holder;
    chain = chain;
    asset_id = asset_id;
    state = request_state_initial;
    txdata = text;
    request_id = req.id;
    created_at = req.created_at;
    updated_at = req.created_at;
  }

  -- processEthereumSafeProposeAccount
  unfoldable pub process_ethereum_safe_propose_account : Handler T (Unit {0})
  process_ethereum_safe_propose_account = do
    require (req.role == request_role_holder)
    require (is_ethereum_curve req.curve)
    (arp, chain) ← checked_proposal node now req
    (signer, observer) ← assigned_keys node now req arp
    asset_id ← need (ethereum_asset chain)
    (gs, t) ←
        need (node.ethereum.build_gnosis_safe req.holder signer observer req.id arp.timelock chain)
    old ← look (λ db. read_safe_proposal_by_address db gs.address)
    check node now req (is_none old)
    txs ←
        storage_response node now req
          (refund_and_fail_request node now req arp.receivers arp.threshold) (λ _. req.id)
          action_ethereum_safe_propose_account chain gs.marshal
    call node (
        write_ethereum_proposal_c now
          (proposal_of req chain signer observer arp ethereum_default_derivation_path gs.address
            gs.marshal)
          (initial_transaction t chain asset_id []) txs req)
    answer txs []

  -- The transaction that enables the guard of a proposed account, with the signature of the holder.
  unfoldable pub guard_transaction :
      SafeProposal → GoString → Handler T (Transaction × SafeTransaction)
  guard_transaction sp sig = do
    gs ← need (node.ethereum.unmarshal_gnosis_safe sp.extra)
    row ← look (λ db. read_transaction db gs.tx_hash)
    tx ← found node now req row
    raw ← need (decode_hex tx.raw_transaction)
    t ← need (node.ethereum.unmarshal_safe_transaction raw)
    check node now req (node.ethereum.verify_message_signature req.holder t.message sig)
    signatures ← need (
        put_signature sp.holder sig
          (node.ethereum.get_sorted_safe_owners sp.holder sp.signer sp.observer) t.signatures)
    pure (tx, record t { signatures = signatures })

  -- The request for the signature of the message of a transaction.
  unfoldable pub message_request : GoString → Safe → SafeTransaction → SignatureRequest
  unfolding signature_request
  message_request hash safe t =
      signature_request node req hash 0 safe (node.ethereum.hash_message (encode_hex t.message))

  -- processEthereumSafeApproveAccount
  unfoldable pub process_ethereum_safe_approve_account : Handler T (Unit {0})
  process_ethereum_safe_approve_account = do
    require (req.role == request_role_observer)
    require (is_ethereum_curve req.curve)
    old ← look (λ db. read_safe db req.holder)
    check node now req (not (is_settled old))
    chain ← need (safe_curve_chain req.curve)
    asset_id ← need (ethereum_asset chain)
    safe_asset_id ←
        get_bond_asset_id node node.conf.polygon_keeper_deposit_entry asset_id req.holder
    extra ← need (decode_hex req.extra_hex)
    check node now req (not (ltb (length extra) 64))
    rid ← leading_uuid node now req extra
    sp ← approved_proposal node now req chain rid
    (tx, t) ← guard_transaction sp (drop 16 extra)
    let safe = safe_of_proposal req sp request_state_pending safe_asset_id
    call node (write_unfinished_safe_c safe)
    let requests = message_request tx.transaction_hash safe t ∷ []
    txs ← signer_transactions node now req safe requests
    call node (
        write_signature_requests_c now requests tx.transaction_hash
          (encode_hex (node.ethereum.marshal_safe_transaction t)) req txs)
    answer txs []
