-- ===== src/Keeper/Node/Accounts.antt =====
-- keeper/bitcoin.go and keeper/ethereum.go: what the handlers of both chains share. A proposal of an
-- account up to the keys that it is given, the two transactions that answer the observer, and the
-- checks of a transaction that a request names.
use safe.Prelude.{
  ℕ, ◌*◌, GoString, Bool, List, [], ◌∷◌, Option, none, some, not, ◌&&◌, ◌||◌, ltb, ◌==◌,
  if◌then◌else◌, str_eq,
}
use safe.Prelude.Maybe.{is_none}
use safe.Common.Constants.{request_state_done}
use safe.Common.Base91.{base91_encode}
use safe.Common.Chain.{safe_curve_chain, safe_chain_curve}
use safe.Common.Hex.{decode_hex}
use safe.Common.Request.{Request}
use safe.Keeper.Store.Tables.{Safe, OperationParams, Transaction}
use safe.Keeper.Store.Networks.{read_latest_operation_params}
use safe.Keeper.Store.Safes.{read_safe, read_safe_proposal}
use safe.Keeper.Store.Transactions.{read_transaction_by_request_id}
use safe.Keeper.Node.World.{Node}
use safe.Keeper.Node.Handler.{
  Handler, pure, look, need, or_else, require, ◌>>=◌, ◌>>◌, assign, found, check,
}
use safe.Keeper.Node.Build.{build_storage_transaction, build_observer_response}
use safe.Keeper.Node.Keys.{refund_and_fail_request}
use safe.Keeper.Node.Proposal.{AccountProposal, hour, parse_mixin_recipient}
use safe.Keeper.Node.Extras.{proposal_extra}

-- SafeKeyBackupMaturity
abbrev pub safe_key_backup_maturity : ℕ
safe_key_backup_maturity = 24 * hour

-- CheckUnique of three texts.
abbrev pub check_unique : GoString → GoString → GoString → Bool
check_unique a b c = not (str_eq a b) && not (str_eq a c) && not (str_eq b c)

-- An amount of the operation parameters that is positive.
abbrev pub positive : Option OperationParams → (OperationParams → ℕ) → Option OperationParams
positive none amount = none
positive (some p) amount = if amount p == 0 then none else some p

module _ {T E D : Type 0} (node : Node T E D) (now : ℕ) (req : Request) where
  -- The parameters of a chain, if the given amount of them is positive; a refund otherwise.
  unfoldable pub params_or_refund :
      ℕ → (OperationParams → ℕ) → List GoString → ℕ → Handler T OperationParams
  params_or_refund chain amount receivers threshold = do
    plan ← look (λ db. read_latest_operation_params db chain req.created_at)
    or_else (positive plan amount) (refund_and_fail_request node now req receivers threshold)

  -- The keys that a proposal is given.
  unfoldable pub assigned_keys : AccountProposal → Handler T (GoString × GoString)
  assigned_keys arp = do
    (signer, observer) ← assign now req safe_key_backup_maturity arp.observer
    if str_eq signer [] || str_eq observer []
        then refund_and_fail_request node now req arp.receivers arp.threshold
        else pure tt
    require (str_eq arp.observer [] || str_eq arp.observer observer)
    if check_unique req.holder signer observer
        then pure (signer, observer)
        else refund_and_fail_request node now req arp.receivers arp.threshold

  -- The proposal of an account: the recipients, the chain, and the checks of its payment.
  unfoldable pub checked_proposal : Handler T (AccountProposal × ℕ)
  unfolding params_or_refund
  checked_proposal = do
    rce ← need (decode_hex req.extra_hex)
    extra ← proposal_extra node req rce
    parsed ← need (parse_mixin_recipient node req extra)
    arp ← found node now req parsed
    chain ← need (safe_curve_chain req.curve)
    plan ← params_or_refund chain (λ p. p.operation_price_amount) arp.receivers arp.threshold
    check node now req (str_eq req.asset_id plan.operation_price_asset)
    check node now req (not (ltb req.amount plan.operation_price_amount))
    safe ← look (λ db. read_safe db req.holder)
    check node now req (is_none safe)
    old ← look (λ db. read_safe_proposal db req.id)
    check node now req (is_none old)
    pure (arp, chain)

  -- The storage of an extra, and the response that refers to it; `deny` where one is not built. The
  -- identifier of the response may depend on that of the storage.
  unfoldable pub storage_response :
      Handler T T → (GoString → GoString) → ℕ → ℕ → GoString → Handler T (List T)
  storage_response deny id typ chain extra = do
    act ← need req.output
    text ← need (base91_encode extra)
    stx ← or_else (build_storage_transaction node act text) deny
    crv ← need (safe_chain_curve chain)
    tx ← need (
        build_observer_response node (id (node.group.trace_id stx)) act (stx ∷ []) typ crv
          (node.group.trace_id stx))
    t ← or_else tx deny
    pure (stx ∷ t ∷ [])

  -- The safe of the holder, on the chain of the curve.
  unfoldable pub safe_of_holder : Handler T Safe
  safe_of_holder = do
    chain ← need (safe_curve_chain req.curve)
    row ← look (λ db. read_safe db req.holder)
    safe ← found node now req row
    check node now req (safe.chain == chain)
    pure safe

  -- The transaction of a request, of this holder and not done.
  unfoldable pub open_transaction : GoString → Handler T Transaction
  open_transaction rid = do
    row ← look (λ db. read_transaction_by_request_id db rid)
    tx ← found node now req row
    check node now req (not (tx.state == request_state_done))
    check node now req (str_eq tx.holder req.holder)
    pure tx
