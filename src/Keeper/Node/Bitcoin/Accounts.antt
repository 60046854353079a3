-- ===== src/Keeper/Node/Bitcoin/Accounts.antt =====
-- keeper/bitcoin.go: the proposal and the approval of a Bitcoin account.
use safe.Prelude.{
  ℕ, GoString, List, [], ◌∷◌, ◌++◌, Option, none, some, not, ltb, ◌==◌, if◌then◌else◌, length, drop,
  str_eq,
}
use safe.Prelude.Int.{pos}
use safe.Prelude.Maybe.{is_none}
use safe.Prelude.Text.{codes}
use safe.Common.Constants.{
  request_role_holder, request_role_observer, request_state_done, chain_bitcoin, chain_litecoin,
  action_bitcoin_safe_propose_account, action_bitcoin_safe_approve_account,
}
use safe.Common.Base91.{base91_encode}
use safe.Common.Chain.{safe_curve_chain, safe_chain_curve}
use safe.Common.Hex.{encode_hex, decode_hex}
use safe.Common.Request.{Request}
use safe.Keeper.Store.Tables.{Safe, SafeProposal}
use safe.Keeper.Store.Requests.{read_request}
use safe.Keeper.Store.Safes.{read_safe, read_safe_proposal, read_safe_proposal_by_address}
use safe.Keeper.Calls.{write_proposal_c, write_safe_c}
use safe.Keeper.Node.World.{Node, WitnessAccount}
use safe.Keeper.Node.Handler.{
  Handler, pure, answer, look, need, or_else, require, ◌>>=◌, ◌>>◌, call, fail_request, found,
  check,
}
use safe.Keeper.Node.Build.{build_storage_transaction, build_observer_response_with_asset}
use safe.Keeper.Node.Keys.{
  amount_of, derive_bip32_with_path, get_bond_asset_id, refund_and_fail_request,
}
use safe.Keeper.Node.Proposal.{AccountProposal}
use safe.Keeper.Node.Extras.{leading_uuid}
use safe.Keeper.Node.Accounts.{checked_proposal, assigned_keys, storage_response}

-- bitcoinDefaultDerivationPath
abbrev pub bitcoin_default_derivation_path : GoString
bitcoin_default_derivation_path = 2 ∷ 0 ∷ 0 ∷ 0 ∷ []

-- common/chain.go
abbrev pub safe_bitcoin_chain_id : GoString
safe_bitcoin_chain_id = codes "c6d0c728-2624-429b-8e0d-d9d19b6592fa"

abbrev pub safe_litecoin_chain_id : GoString
safe_litecoin_chain_id = codes "76c802a2-7c88-447f-a93e-c29c9e5dd9c8"

-- The asset of bitcoinParams; `none` is its panic.
unfoldable pub bitcoin_asset : ℕ → Option GoString
bitcoin_asset chain =
    if chain == chain_bitcoin
    then some safe_bitcoin_chain_id
    else if chain == chain_litecoin
    then some safe_litecoin_chain_id
    else none

module _ {T E D : Type 0} (node : Node T E D) where
  -- buildBitcoinWitnessAccountWithDerivation; an error is a panic in every caller.
  unfoldable pub witness_account :
      GoString → GoString → GoString → GoString → ℕ → ℕ → Handler T WitnessAccount
  witness_account holder signer observer path timelock chain = do
    s ← derive_bip32_with_path node signer path
    sdk ← need s
    o ← derive_bip32_with_path node observer path
    odk ← need o
    need (node.bitcoin.build_witness_script_account holder sdk odk timelock chain)

abbrev pub proposal_of :
    Request
    → ℕ
    → GoString
    → GoString
    → AccountProposal
    → GoString
    → GoString
    → GoString
    → SafeProposal
proposal_of req chain signer observer arp path address extra = record {
  request_id = req.id;
  chain = chain;
  holder = req.holder;
  signer = signer;
  observer = observer;
  timelock = arp.timelock;
  path = encode_hex path;
  address = address;
  extra = extra;
  receivers = arp.receivers;
  threshold = arp.threshold;
  created_at = req.created_at;
  updated_at = req.created_at;
}

-- The safe of a proposal, in a state.
abbrev pub safe_of_proposal : Request → SafeProposal → ℕ → GoString → Safe
safe_of_proposal req sp state safe_asset_id = record {
  holder = sp.holder;
  chain = sp.chain;
  signer = sp.signer;
  observer = sp.observer;
  timelock = sp.timelock;
  path = sp.path;
  address = sp.address;
  extra = sp.extra;
  receivers = sp.receivers;
  threshold = sp.threshold;
  request_id = req.id;
  nonce = pos 0;
  state = state;
  safe_asset_id = safe_asset_id;
  created_at = req.created_at;
  updated_at = req.created_at;
}

module _ {T E D : Type 0} (node : Node T E D) (now : ℕ) (req : Request) where
  -- processBitcoinSafeProposeAccount
  unfoldable pub process_bitcoin_safe_propose_account : Handler T (Unit {0})
  process_bitcoin_safe_propose_account = do
    require (req.role == request_role_holder)
    (arp, chain) ← checked_proposal node now req
    (signer, observer) ← assigned_keys node now req arp
    wsa ←
        witness_account node req.holder signer observer bitcoin_default_derivation_path arp.timelock
          chain
    old ← look (λ db. read_safe_proposal_by_address db wsa.address)
    check node now req (is_none old)
    txs ←
        storage_response node now req
          (refund_and_fail_request node now req arp.receivers arp.threshold) (λ _. req.id)
          action_bitcoin_safe_propose_account chain wsa.marshal
    call node (
        write_proposal_c now
          (proposal_of req chain signer observer arp bitcoin_default_derivation_path wsa.address
            wsa.marshal)
          txs req)
    answer txs []

  -- The proposal that an approval names, of this holder and chain.
  unfoldable pub approved_proposal : ℕ → GoString → Handler T SafeProposal
  approved_proposal chain rid = do
    row ← look (λ db. read_safe_proposal db rid)
    sp ← found node now req row
    check node now req (str_eq sp.holder req.holder)
    check node now req (sp.chain == chain)
    pure sp

  -- The storage of an account, and the response that pays the price of the proposal back to the
  -- observer.
  unfoldable pub account_response : GoString → ℕ → ℕ → GoString → GoString → Handler T (List T)
  account_response id typ chain extra proposal_id = do
    row ← look (λ db. read_request db proposal_id)
    act ← need req.output
    text ← need (base91_encode extra)
    stx ← found node now req (build_storage_transaction node act text)
    crv ← need (safe_chain_curve chain)
    spr ← need row
    tx ← need (
        build_observer_response_with_asset node id act (stx ∷ []) typ crv spr.asset_id
          (amount_of spr) (node.group.trace_id stx))
    t ← or_else tx (fail_request node now req spr.asset_id)
    pure (stx ∷ t ∷ [])

  -- processBitcoinSafeApproveAccount
  unfoldable pub process_bitcoin_safe_approve_account : Handler T (Unit {0})
  process_bitcoin_safe_approve_account = do
    require (req.role == request_role_observer)
    old ← look (λ db. read_safe db req.holder)
    check node now req (is_none old)
    chain ← need (safe_curve_chain req.curve)
    asset_id ← need (bitcoin_asset chain)
    safe_asset_id ←
        get_bond_asset_id node node.conf.polygon_keeper_deposit_entry asset_id req.holder
    extra ← need (decode_hex req.extra_hex)
    check node now req (not (ltb (length extra) 64))
    rid ← leading_uuid node now req extra
    sp ← approved_proposal chain rid
    let ms = codes "APPROVE:" ++ (rid ++ (codes ":" ++ sp.address))
    check node now req (
        node.bitcoin.verify_signature_der req.holder (node.bitcoin.hash_message ms sp.chain)
          (drop 16 extra))
    txs ←
        account_response req.id action_bitcoin_safe_approve_account sp.chain sp.extra sp.request_id
    call node (write_safe_c now (safe_of_proposal req sp request_state_done safe_asset_id) txs req)
    answer txs []
