-- ===== src/Keeper/Node/Bitcoin/Transactions.antt =====
-- keeper/bitcoin.go: the proposal of a Bitcoin transaction.
use safe.Prelude.{
  ℕ, ◌+◌, ◌*◌, ◌/◌, ◌%◌, ◌^◌, GoString, Bool, List, [], ◌∷◌, Option, none, some, not, ◌&&◌, ◌||◌,
  ltb, leb, ◌==◌, if◌then◌else◌, length, get_or, drop, str_eq, map,
}
use safe.Common.Constants.{
  request_role_holder, request_state_initial, request_state_done, chain_polygon,
  action_bitcoin_safe_propose_transaction, flag_propose_normal_transaction,
  flag_propose_recovery_transaction,
}
use safe.Common.Hex.{encode_hex, decode_hex}
use safe.Common.Request.{Request}
use safe.Keeper.Store.Tables.{Safe, Transaction}
use safe.Keeper.Store.Networks.{read_network_info}
use safe.Keeper.Store.Outputs.{Input}
use safe.Keeper.Store.Listing.{list_all_bitcoin_utxos_for_holder}
use safe.Keeper.Store.Transactions.{TransactionInput}
use safe.Keeper.Calls.{write_transaction_c}
use safe.Keeper.Node.World.{
  Node, Decimal, lt_decimal, Output, Psbt, Built, built, insufficient, failed,
}
use safe.Keeper.Node.Handler.{
  Handler, pure, panics, answer, look, need, require, ◌>>=◌, ◌>>◌, call, found, check,
}
use safe.Keeper.Node.Keys.{
  fetch_bond_asset_receiver, get_bond_asset_id, deployed_asset_id, refund_and_fail_request,
}
use safe.Keeper.Node.Extras.{nil_uuid, is_reference, read_reference, leading_uuid}
use safe.Keeper.Node.Accounts.{params_or_refund, storage_response, safe_of_holder}
use safe.Keeper.Node.Bitcoin.Accounts.{bitcoin_asset}

-- bitcoin.ParseSatoshi: an amount that is no whole number of satoshi below 2^63 is a panic.
unfoldable pub parse_satoshi : Decimal → Option ℕ
parse_satoshi d =
    let satoshi = d.units * 10 ^ 8 / 10 ^ d.precision in
    if (d.units * 10 ^ 8 % 10 ^ d.precision == 0) && ltb satoshi (2 ^ 63)
    then some satoshi
    else none

abbrev pub satoshi_amount : ℕ → Decimal
satoshi_amount satoshi = record { units = satoshi; precision = 8 }

-- TransactionInputsFromBitcoin
abbrev pub transaction_inputs : List Input → List TransactionInput
transaction_inputs = map (λ i. record { hash = i.transaction_hash; index = i.index })

abbrev pub total_satoshi : List Output → ℕ
total_satoshi [] = 0
total_satoshi (o ∷ os) = o.satoshi + total_satoshi os

module _ {T E D : Type 0} (node : Node T E D) (now : ℕ) (req : Request) where
  -- The asset of the bond that a holder sends, as the contract of the bond tells it.
  unfoldable pub bond_origin : GoString → Handler T GoString
  bond_origin asset_id = do
    meta ← need (node.assets.fetch_asset_meta asset_id)
    check node now req (meta.chain == chain_polygon)
    deployed_asset_id node meta

  -- The bond that the holder sends must be that of the safe.
  unfoldable pub require_bond : Safe → GoString → Handler T (Unit {0})
  require_bond safe id = do
    entry ← fetch_bond_asset_receiver node safe.address id
    safe_asset_id ← get_bond_asset_id node entry id req.holder
    require (str_eq req.asset_id safe_asset_id)

  -- The info of the network that the extra names, after its flag.
  unfoldable pub check_named_info : ℕ → GoString → Handler T (Unit {0})
  check_named_info chain extra = do
    iid ← leading_uuid node now req extra
    check node now req (not (str_eq iid nil_uuid))
    row ← look (λ db. read_network_info db iid)
    info ← found node now req row
    check node now req (info.chain == chain)

  -- The outputs of the recipients that a referenced transaction lists.
  unfoldable pub recipient_outputs : ℕ → ℕ → List (GoString × GoString) → Handler T (List Output)
  recipient_outputs chain minimum [] = pure []
  recipient_outputs chain minimum ((receiver, amount) ∷ rest) = do
    found node now req (node.bitcoin.parse_address receiver chain)
    amt ← found node now req (node.bitcoin.parse_decimal amount)
    check node now req (not (lt_decimal amt (satoshi_amount minimum)))
    satoshi ← need (parse_satoshi amt)
    outputs ← recipient_outputs chain minimum rest
    pure (record { address = receiver; satoshi = satoshi } ∷ outputs)

  -- The outputs of a proposal.
  unfoldable pub proposed_outputs : ℕ → ℕ → GoString → Handler T (List Output)
  unfolding recipient_outputs
  proposed_outputs chain minimum extra = do
    referenced ← is_reference node req extra
    if referenced
        then (do
          text ← read_reference node extra
          recipients ← found node now req (node.bitcoin.parse_recipients text)
          recipient_outputs chain minimum recipients)
        else do
          found node now req (node.bitcoin.parse_address extra chain)
          satoshi ← need (parse_satoshi (satoshi_amount req.amount))
          pure (record { address = extra; satoshi = satoshi } ∷ [])

  abbrev pub proposed_transaction : Safe → GoString → Psbt → List Output → Transaction
  proposed_transaction safe asset_id psbt outputs = record {
    transaction_hash = psbt.tx_hash;
    raw_transaction = encode_hex psbt.raw;
    holder = req.holder;
    chain = safe.chain;
    asset_id = asset_id;
    state = request_state_initial;
    txdata =
        node.bitcoin.marshal_recipients
          (map (λ (o : Output). (o.address, satoshi_amount o.satoshi, [])) outputs);
    request_id = req.id;
    created_at = req.created_at;
    updated_at = req.created_at;
  }

  -- What was built; a refund where the inputs do not suffice.
  unfoldable pub accept_built : Safe → Built → Handler T Psbt
  accept_built safe (built psbt) = pure psbt
  accept_built safe insufficient =
      refund_and_fail_request node now req safe.receivers safe.threshold
  accept_built safe failed = panics

  -- The transaction that spends the inputs of the safe.
  unfoldable pub built_transaction : Safe → Bool → List Input → List Output → Handler T Psbt
  built_transaction safe recovery inputs outputs = do
    id ← need (node.uuid.parse req.id)
    accept_built safe (node.bitcoin.build_psbt recovery inputs outputs id safe.chain)

  -- processBitcoinSafeProposeTransaction
  unfoldable pub process_bitcoin_safe_propose_transaction : Handler T (Unit {0})
  process_bitcoin_safe_propose_transaction = do
    require (req.role == request_role_holder)
    safe ← safe_of_holder node now req
    check node now req (safe.state == request_state_done)
    check node now req (str_eq safe.safe_asset_id req.asset_id)
    asset_id ← need (bitcoin_asset safe.chain)
    id ← bond_origin req.asset_id
    check node now req (str_eq id asset_id)
    plan ←
        params_or_refund node now req safe.chain (λ p. p.transaction_minimum) safe.receivers
          safe.threshold
    check node now req (not (ltb req.amount plan.transaction_minimum))
    require_bond safe id
    extra ← need (decode_hex req.extra_hex)
    check node now req (not (ltb (length extra) 33))
    rows ← look (λ db. list_all_bitcoin_utxos_for_holder node.bitcoin.encode_address db req.holder)
    inputs ← need rows
    let flag = get_or extra 0 0
    check node now req
        (flag == flag_propose_normal_transaction || (flag == flag_propose_recovery_transaction))
    check_named_info safe.chain (drop 1 extra)
    outputs ← proposed_outputs safe.chain plan.transaction_minimum (drop 17 extra)
    check node now req (leb (length outputs) 256 && (total_satoshi outputs == req.amount))
    psbt ← built_transaction safe (flag == flag_propose_recovery_transaction) inputs outputs
    txs ←
        storage_response node now req
          (refund_and_fail_request node now req safe.receivers safe.threshold) (λ _. req.id)
          action_bitcoin_safe_propose_transaction safe.chain psbt.raw
    call node (
        write_transaction_c now (proposed_transaction safe asset_id psbt outputs)
          (transaction_inputs inputs) txs req)
    answer txs []
