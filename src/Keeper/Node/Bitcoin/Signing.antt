-- ===== src/Keeper/Node/Bitcoin/Signing.antt =====
-- keeper/bitcoin.go: the approval of a Bitcoin transaction by its holder, the signatures that it
-- asks the signer group for, and the response of the signer group.
use safe.Prelude.{
  ℕ, suc, ◌+◌, ◌*◌, GoString, Bool, true, false, List, [], ◌∷◌, ◌++◌, Option, none, some, not, ◌||◌,
  ltb, ◌==◌, if◌then◌else◌, length, get_or, drop, str_eq, find,
}
use safe.Common.Constants.{
  request_role_observer, request_role_signer, request_state_initial, request_state_pending,
  action_bitcoin_safe_approve_transaction,
}
use safe.Common.Hex.{encode_hex, decode_hex}
use safe.Common.Request.{Request}
use safe.Keeper.Store.Tables.{Safe, Transaction, SignatureRequest}
use safe.Keeper.Store.Outputs.{read_bitcoin_utxo}
use safe.Keeper.Store.Listing.{list_all_signatures_for_transaction}
use safe.Keeper.Store.Signatures.{read_pending_signature_request_by_transaction_index}
use safe.Keeper.Calls.{write_signature_requests_c, finish_signature_c, finish_transaction_c}
use safe.Keeper.Node.World.{Node, OutPoint, Psbt}
use safe.Keeper.Node.Handler.{
  Handler, pure, answer, look, need, require, ◌>>=◌, ◌>>◌, call, fail_request, found, check,
}
use safe.Keeper.Node.Build.{unique_id}
use safe.Keeper.Node.Signers.{sign_transactions}
use safe.Keeper.Node.Keys.{derive_bip32_with_path}
use safe.Keeper.Node.Extras.{read_storage_extra, leading_uuid}
use safe.Keeper.Node.Accounts.{storage_response, safe_of_holder, open_transaction}

-- SafeSignatureTimeout
abbrev pub safe_signature_timeout : ℕ
safe_signature_timeout = 10 * 60 * 1_000_000_000

-- The test of checkTransactionIndexSignaturePending on the request that it finds.
unfoldable pub is_signature_pending : Request → Option SignatureRequest → Bool
is_signature_pending req none = false
is_signature_pending req (some old) =
    not (old.state == request_state_initial)
    || ltb req.created_at (old.created_at + safe_signature_timeout)

module _ {T E D : Type 0} (node : Node T E D) (req : Request) where
  -- checkBitcoinUTXOSignatureRequired; an output that is not stored is a nil pointer.
  unfoldable pub signature_required : OutPoint → Handler T Bool
  signature_required pop = do
    read ← look (λ db. read_bitcoin_utxo db pop.hash pop.index)
    row ← need read
    o ← need row
    script ← need (decode_hex o.script)
    pure (node.bitcoin.check_multisig_holder_signer_script script)

  -- checkTransactionIndexSignaturePending
  unfoldable pub signature_pending : GoString → ℕ → Handler T Bool
  unfolding is_signature_pending
  signature_pending hash index = look (λ db.
      is_signature_pending req (read_pending_signature_request_by_transaction_index db hash index))

  -- The request for the signature of an input.
  unfoldable pub signature_request : GoString → ℕ → Safe → GoString → SignatureRequest
  unfolding unique_id
  signature_request hash index safe sig_hash = record {
    request_id = unique_id node req.id (encode_hex sig_hash);
    transaction_hash = hash;
    input_index = index;
    signer = safe.signer;
    curve = req.curve;
    message = encode_hex sig_hash;
    signature = none;
    state = request_state_initial;
    created_at = req.created_at;
    updated_at = req.created_at;
  }

  -- Whether the loop of the approval passes over an input.
  unfoldable pub skips : GoString → ℕ → OutPoint → Bool → Handler T Bool
  unfolding signature_required signature_pending
  skips hash index pop same = if not same then pure true else do
    required ← signature_required pop
    if not required then pure true else signature_pending hash index

  -- The loop over the inputs in processBitcoinSafeApproveTransaction.
  unfoldable pub approval_requests :
      Safe → Psbt → Psbt → GoString → ℕ → List OutPoint → Handler T (List SignatureRequest)
  approval_requests safe psbt hpsbt tx_hash index [] = pure []
  approval_requests safe psbt hpsbt tx_hash index (pop ∷ pops) = do
    let sig_hash = get_or psbt.sig_hashes index []
    skip ← skips tx_hash index pop (str_eq sig_hash (get_or hpsbt.sig_hashes index []))
    rest ← approval_requests safe psbt hpsbt tx_hash (suc index) pops
    pure (if skip then rest else signature_request tx_hash index safe sig_hash ∷ rest)

module _ {T E D : Type 0} (node : Node T E D) (now : ℕ) (req : Request) where
  -- The transactions that ask for the signatures, at least one.
  unfoldable pub signer_transactions : Safe → List SignatureRequest → Handler T (List T)
  signer_transactions safe requests = do
    act ← need req.output
    txs ← need (sign_transactions node act safe.path requests [])
    check node now req (not (length txs == 0))
    pure txs

  -- processBitcoinSafeApproveTransaction
  unfoldable pub process_bitcoin_safe_approve_transaction : Handler T (Unit {0})
  process_bitcoin_safe_approve_transaction = do
    require (req.role == request_role_observer)
    safe ← safe_of_holder node now req
    extra ← need (decode_hex req.extra_hex)
    check node now req (length extra == 48)
    rid ← leading_uuid node now req extra
    tx ← open_transaction node now req rid
    raw ← read_storage_extra node (encode_hex (drop 16 extra))
    check node now req (node.bitcoin.check_partially_signed_by (encode_hex raw) tx.holder)
    hpsbt ← need (node.bitcoin.unmarshal_psbt raw)
    b ← need (decode_hex tx.raw_transaction)
    psbt ← need (node.bitcoin.unmarshal_psbt b)
    check node now req (str_eq psbt.tx_hash hpsbt.tx_hash)
    requests ← approval_requests node req safe psbt hpsbt tx.transaction_hash 0 psbt.tx_in
    txs ← signer_transactions safe requests
    call node (write_signature_requests_c now requests tx.transaction_hash [] req txs)
    answer txs []

  -- The signature of the signer for an input, in processBitcoinSafeSignatureResponse.
  unfoldable pub input_signature :
      GoString → Psbt → List SignatureRequest → ℕ → Handler T (ℕ × GoString × GoString)
  input_signature spk spsbt requests index = do
    sr ← found node now req (find (λ (r : SignatureRequest). r.input_index == index) requests)
    msg ← need (decode_hex sr.message)
    require (str_eq (get_or spsbt.sig_hashes index []) msg)
    text ← need sr.signature
    sig ← need (decode_hex text)
    require (node.bitcoin.verify_signature_der spk msg sig)
    pub_key ← need (decode_hex spk)
    pure (index, pub_key, sig)

  -- The loop over the inputs in processBitcoinSafeSignatureResponse.
  unfoldable pub input_signatures :
      GoString
      → Psbt
      → List SignatureRequest
      → ℕ
      → List OutPoint
      → Handler T (List (ℕ × GoString × GoString))
  input_signatures spk spsbt requests index [] = pure []
  input_signatures spk spsbt requests index (pop ∷ pops) = do
    required ← signature_required node req pop
    first ←
        if not required
        then pure []
        else input_signature spk spsbt requests index >>= λ s. pure (s ∷ [])
    rest ← input_signatures spk spsbt requests (suc index) pops
    pure (first ++ rest)

  -- processBitcoinSafeSignatureResponse
  unfoldable pub process_bitcoin_safe_signature_response :
      Safe → Transaction → SignatureRequest → Handler T (Unit {0})
  process_bitcoin_safe_signature_response safe tx old = do
    require (req.role == request_role_signer)
    path ← need (decode_hex safe.path)
    derived ← derive_bip32_with_path node safe.signer path
    spk ← need derived
    sig ← need (decode_hex req.extra_hex)
    msg ← need (decode_hex old.message)
    check node now req (node.bitcoin.verify_signature_der spk msg sig)
    call node (finish_signature_c req)
    b ← need (decode_hex tx.raw_transaction)
    spsbt ← need (node.bitcoin.unmarshal_psbt b)
    requests ←
        look
          (λ db. list_all_signatures_for_transaction db old.transaction_hash request_state_pending)
    signatures ← input_signatures spk spsbt requests 0 spsbt.tx_in
    let raw = node.bitcoin.attach_signatures spsbt signatures
    txs ←
        storage_response node now req (fail_request node now req [])
          (λ trace. unique_id node old.transaction_hash trace)
          action_bitcoin_safe_approve_transaction safe.chain raw
    call node (
        finish_transaction_c now old.transaction_hash (encode_hex raw) req (length spsbt.tx_in) safe
          [] txs)
    answer txs []
