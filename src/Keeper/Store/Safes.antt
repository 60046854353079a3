-- ===== src/Keeper/Store/Safes.antt =====
-- keeper/store/safe.go
use safe.Prelude.{ℕ, GoString, Bool, ◌&&◌, List, [], Option, str_eq, ◌==◌, if◌then◌else◌, find}
use safe.Prelude.Int.{suc_ℤ, eq_ℤ}
use safe.Common.Constants.{request_state_pending, request_state_done}
use safe.Common.Request.{Request}
use safe.Keeper.Store.Tables.{Db, SafeProposal, Safe, Transaction}
use safe.Keeper.Store.Tx.{
  Tx, pure, deref, ◌>>=◌, ◌>>◌, assert, commit, insert_one, update_one, update_rows,
  check_existence,
}
use safe.Keeper.Store.Schema.{
  safes, safe_proposals, transactions, signature_requests, finish_request,
}
use safe.Keeper.Store.Requests.{write_action_result}

-- ReadSafeProposal and ReadSafeProposalByAddress
unfoldable pub read_safe_proposal : Db → GoString → Option SafeProposal
read_safe_proposal db request_id =
    find (λ (sp : SafeProposal). str_eq sp.request_id request_id) db.safe_proposals

unfoldable pub read_safe_proposal_by_address : Db → GoString → Option SafeProposal
read_safe_proposal_by_address db addr =
    find (λ (sp : SafeProposal). str_eq sp.address addr) db.safe_proposals

-- ReadSafe and ReadSafeByAddress
unfoldable pub read_safe : Db → GoString → Option Safe
read_safe db holder = find (λ (s : Safe). str_eq s.holder holder) db.safes

unfoldable pub read_safe_by_address : Db → GoString → Option Safe
read_safe_by_address db addr = find (λ (s : Safe). str_eq s.address addr) db.safes

-- WriteUnfinishedSafe
unfoldable pub write_unfinished_safe : Safe → Tx (Unit {0})
write_unfinished_safe safe = do
  assert (safe.state == request_state_pending)
  existed ←
      check_existence safes
        (λ s. str_eq s.address safe.address && (s.state == request_state_pending))
  if existed then pure tt else do insert_one safes safe; commit

-- UPDATE safes SET nonce=?, state=?, updated_at=? WHERE holder=? AND nonce=? AND state=?
abbrev pub is_pending_safe : Safe → Safe → Bool
is_pending_safe safe s =
    str_eq s.holder safe.holder && eq_ℤ s.nonce safe.nonce && (s.state == request_state_pending)

abbrev pub finish_safe_row : ℕ → Safe → Safe → Safe
finish_safe_row now safe s = record s {
  nonce = suc_ℤ safe.nonce;
  state = request_state_done;
  updated_at = now;
}

module _ {T : Type 0} (serialize : List T → GoString) where
  -- WriteSafeProposalWithRequest
  unfoldable pub write_safe_proposal_with_request :
      ℕ → SafeProposal → List T → Request → Tx (Unit {0})
  write_safe_proposal_with_request now sp txs req = do
    insert_one safe_proposals sp
    finish_request now sp.request_id
    output ← deref req.output
    write_action_result serialize now output.output_id [] txs sp.request_id
    commit

  -- WriteEthereumSafeProposalWithRequest
  unfoldable pub write_ethereum_safe_proposal_with_request :
      ℕ → SafeProposal → Transaction → List T → Request → Tx (Unit {0})
  write_ethereum_safe_proposal_with_request now sp trx txs req = do
    insert_one safe_proposals sp
    insert_one transactions trx
    finish_request now sp.request_id
    output ← deref req.output
    write_action_result serialize now output.output_id [] txs sp.request_id
    commit

  -- WriteSafeWithRequest
  unfoldable pub write_safe_with_request : ℕ → Safe → List T → Request → Tx (Unit {0})
  write_safe_with_request now safe txs req = do
    assert (safe.state == request_state_done)
    insert_one safes safe
    finish_request now safe.request_id
    output ← deref req.output
    write_action_result serialize now output.output_id [] txs safe.request_id
    commit

  -- FinishSafeWithRequest
  unfoldable pub finish_safe_with_request :
      ℕ → GoString → GoString → Request → Safe → List T → Tx (Unit {0})
  finish_safe_with_request now transaction_hash raw req safe txs = do
    assert (safe.state == request_state_pending)
    update_one safes (is_pending_safe safe) (finish_safe_row now safe)
    update_rows signature_requests (λ r. str_eq r.transaction_hash transaction_hash)
        (λ r. record r { state = request_state_done; updated_at = req.created_at })
    update_one transactions (λ t. str_eq t.transaction_hash transaction_hash)
        (λ t. record t {
          raw_transaction = raw;
          state = request_state_done;
          updated_at = req.created_at;
        })
    finish_request now req.id
    output ← deref req.output
    write_action_result serialize now output.output_id [] txs req.id
    commit
