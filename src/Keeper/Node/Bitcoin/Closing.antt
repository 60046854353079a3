-- ===== src/Keeper/Node/Bitcoin/Closing.antt =====
-- keeper/bitcoin.go: the closing of a Bitcoin account by its recovery transaction.
use safe.Prelude.{
  ℕ, suc, ◌+◌, ◌*◌, ◌/◌, GoString, List, [], ◌∷◌, ◌++◌, Option, none, some, not, ◌&&◌, ◌||◌, ltb,
  leb, ◌==◌, if◌then◌else◌, length, get_or, get_elem?, drop, str_eq,
}
use safe.Common.Constants.{
  request_role_observer, request_state_done, request_state_failed, chain_litecoin,
  action_bitcoin_safe_approve_transaction,
}
use safe.Common.Hex.{encode_hex, decode_hex}
use safe.Common.Request.{Request}
use safe.Keeper.Store.Tables.{Safe, Transaction, NetworkInfo, SignatureRequest}
use safe.Keeper.Store.Outputs.{Input}
use safe.Keeper.Store.Listing.{list_all_bitcoin_utxos_for_holder}
use safe.Keeper.Store.Networks.{read_latest_network_info}
use safe.Keeper.Store.Transactions.{count_unfinished_transactions_by_holder}
use safe.Keeper.Calls.{close_account_c, close_account_by_signatures_c, write_signature_requests_c}
use safe.Keeper.Node.World.{Node, OutPoint, Psbt}
use safe.Keeper.Node.Handler.{
  Handler, pure, answer, look, need, require, ◌>>=◌, ◌>>◌, call, fail_request, found, check,
}
use safe.Keeper.Node.Build.{unique_id}
use safe.Keeper.Node.Keys.{derive_bip32_with_path}
use safe.Keeper.Node.Proposal.{time_lock_minimum, time_lock_maximum}
use safe.Keeper.Node.Extras.{nil_uuid, read_storage_extra, leading_uuid}
use safe.Keeper.Node.Accounts.{storage_response, safe_of_holder, open_transaction}
use safe.Keeper.Node.Bitcoin.Transactions.{satoshi_amount, transaction_inputs}
use safe.Keeper.Node.Bitcoin.Signing.{
  signature_required, signature_pending, signature_request, signer_transactions,
}

-- bitcoin.ParseSequence: a lock out of range is a panic.
unfoldable pub parse_sequence : ℕ → ℕ → Option ℕ
parse_sequence lock chain =
    let block_duration = (if chain == chain_litecoin then 150 else 600) * 1_000_000_000 in
    if ltb lock time_lock_minimum || ltb time_lock_maximum lock
    then none
    else some (if leb 0xffff (lock / block_duration) then 0xffff else lock / block_duration)

module _ {T E D : Type 0} (node : Node T E D) (now : ℕ) (req : Request) where
  -- One input in the loop of processBitcoinSafeCloseAccount: its value, and its request.
  unfoldable pub closing_request :
      Safe → Psbt → NetworkInfo → ℕ → ℕ → OutPoint → Handler T (ℕ × List SignatureRequest)
  closing_request safe psbt info sequence index pop = do
    required ← signature_required node req pop
    if not required then pure (0, []) else do
      out ← need (node.bitcoin.rpc_get_transaction_output safe.chain pop.hash pop.index)
      bo ← need out
      require (not (bo.height == 0) && leb (bo.height + sequence + 100) info.height)
      pending ← signature_pending node req psbt.tx_hash index
      pure (
        bo.satoshi,
        (if pending
            then []
            else signature_request node req psbt.tx_hash index safe
                (get_or psbt.sig_hashes index [])
              ∷ []),
      )

  -- The loop of processBitcoinSafeCloseAccount: the total value, and the requests.
  unfoldable pub closing_requests :
      Safe → Psbt → NetworkInfo → ℕ → ℕ → List OutPoint → Handler T (ℕ × List SignatureRequest)
  closing_requests safe psbt info sequence index [] = pure (0, [])
  closing_requests safe psbt info sequence index (pop ∷ pops) = do
    (satoshi, first) ← closing_request safe psbt info sequence index pop
    (total, rest) ← closing_requests safe psbt info sequence (suc index) pops
    pure (satoshi + total, first ++ rest)

  abbrev pub recovery_transaction : Safe → Psbt → GoString → ℕ → GoString → Transaction
  recovery_transaction safe psbt raw value receiver = record {
    transaction_hash = psbt.tx_hash;
    raw_transaction = encode_hex raw;
    holder = req.holder;
    chain = safe.chain;
    asset_id = [];
    state = request_state_done;
    txdata = node.bitcoin.marshal_recipients ((receiver, satoshi_amount value, []) ∷ []);
    request_id = req.id;
    created_at = req.created_at;
    updated_at = req.created_at;
  }

  -- closeBitcoinAccountWithHolder
  unfoldable pub close_bitcoin_account_with_holder :
      Safe → GoString → List Input → ℕ → GoString → Handler T (Unit {0})
  close_bitcoin_account_with_holder safe raw inputs value receiver = do
    psbt ← need (node.bitcoin.unmarshal_psbt raw)
    check node now req (node.bitcoin.check_partially_signed_by (encode_hex raw) safe.holder)
    txs ←
        storage_response node now req (fail_request node now req [])
          (λ trace. unique_id node psbt.tx_hash trace) action_bitcoin_safe_approve_transaction
          safe.chain psbt.raw
    call node (
        close_account_c now (recovery_transaction safe psbt raw value receiver)
          (transaction_inputs inputs) request_state_done txs req)
    answer txs []

  -- The only output of a recovery transaction that has a value, and its receiver.
  unfoldable pub recovery_output : Safe → Psbt → Handler T (ℕ × GoString)
  recovery_output safe psbt = do
    check node now req (length psbt.tx_out == 2)
    first ← need (get_elem? psbt.tx_out 0)
    second ← need (get_elem? psbt.tx_out 1)
    check node now req (second.value == 0)
    receiver ← found node now req (node.bitcoin.extract_pk_script_addr first.script safe.chain)
    check node now req (not (str_eq receiver safe.address))
    pure (first.value, receiver)

  -- The recovery transaction, signed by the observer.
  unfoldable pub observer_recovery : Safe → GoString → Handler T (GoString × Psbt)
  observer_recovery safe extra = do
    raw ← read_storage_extra node (encode_hex (drop 16 extra))
    path ← need (decode_hex safe.path)
    derived ← derive_bip32_with_path node safe.observer path
    opk ← need derived
    check node now req (node.bitcoin.check_partially_signed_by (encode_hex raw) opk)
    opsbt ← need (node.bitcoin.unmarshal_psbt raw)
    check node now req opsbt.recovery
    pure (raw, opsbt)

  -- The end of processBitcoinSafeCloseAccount, with a transaction that the holder has proposed.
  unfoldable pub close_by_signatures : Safe → Psbt → ℕ → GoString → Handler T (Unit {0})
  close_by_signatures safe opsbt value rid = do
    tx ← open_transaction node now req rid
    b ← need (decode_hex tx.raw_transaction)
    psbt ← need (node.bitcoin.unmarshal_psbt b)
    check node now req (str_eq opsbt.tx_hash psbt.tx_hash)
    row ← look (λ db. read_latest_network_info db safe.chain req.created_at)
    info ← found node now req row
    sequence ← need (parse_sequence safe.timelock safe.chain)
    (total, requests) ← closing_requests safe opsbt info sequence 0 opsbt.tx_in
    check node now req (total == value)
    txs ← signer_transactions node now req safe requests
    if safe.state == request_state_done
        then call node (close_account_by_signatures_c now requests opsbt.tx_hash [] req txs)
        else call node (write_signature_requests_c now requests opsbt.tx_hash [] req txs)
    answer txs []

  -- processBitcoinSafeCloseAccount
  unfoldable pub process_bitcoin_safe_close_account : Handler T (Unit {0})
  process_bitcoin_safe_close_account = do
    require (req.role == request_role_observer)
    safe ← safe_of_holder node now req
    check node now req (safe.state == request_state_done || (safe.state == request_state_failed))
    extra ← need (decode_hex req.extra_hex)
    check node now req (length extra == 48)
    (raw, opsbt) ← observer_recovery safe extra
    (value, receiver) ← recovery_output safe opsbt
    count ← look (λ db. count_unfinished_transactions_by_holder db safe.holder)
    rows ← look (λ db. list_all_bitcoin_utxos_for_holder node.bitcoin.encode_address db req.holder)
    inputs ← need rows
    rid ← leading_uuid node now req extra
    if str_eq rid nil_uuid
        then (do
          check node now req (count == 0)
          close_bitcoin_account_with_holder safe raw inputs value receiver)
        else do
          check node now req (count == 1)
          check node now req (length inputs == 0)
          close_by_signatures safe opsbt value rid
