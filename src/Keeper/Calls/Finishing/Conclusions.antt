-- ===== src/Keeper/Calls/Finishing/Conclusions.antt =====
-- What each method of keeper/store that answers an action makes of the database, where it returns
-- without an error: whose answer it is, what it writes, and the two methods that are exceptions.
use safe.Prelude.{Bool, true, any, str_eq, ◌==◌, ◌&&◌, ◌⊎◌, Option, GoString, ◌≡◌, List, []}
use safe.Common.Constants.{request_state_done}
use safe.Common.Request.{Action}
use safe.Keeper.Store.Tables.{RequestRow, Db}
use safe.Keeper.Calls.{
  Call, fail_request_c, fail_action_c, write_key_c, write_proposal_c, write_ethereum_proposal_c,
  write_safe_c, finish_safe_c, write_output_c, create_deposit_c, write_network_info_c,
  write_operation_params_c, close_account_c, write_transaction_c, revoke_c, fail_transaction_c,
  close_account_by_signatures_c, write_signature_requests_c, finish_transaction_c,
}
use safe.Keeper.Calls.Finishing.Results.{Answered, Finished}

module _ {T : Type 0} (o : Option Action) (id : GoString) where
  -- The call answers the given action for the request of the id.
  abbrev pub Suits : Call T → Type 0
  Suits (fail_request_c now req compaction txs) = (req.output ≡ o) × (req.id ≡ id)
  Suits (fail_action_c now req) = (req.output ≡ o) × (req.id ≡ id)
  Suits (write_key_c now req role extra flags) = (req.output ≡ o) × (req.id ≡ id)
  Suits (write_proposal_c now sp txs req) = (req.output ≡ o) × (sp.request_id ≡ id)
  Suits (write_ethereum_proposal_c now sp trx txs req) = (req.output ≡ o) × (sp.request_id ≡ id)
  Suits (write_safe_c now safe txs req) = (req.output ≡ o) × (safe.request_id ≡ id)
  Suits (finish_safe_c now hash raw req safe txs) = (req.output ≡ o) × (req.id ≡ id)
  Suits (write_output_c now safe utxo req asset sender txs) = (req.output ≡ o) × (req.id ≡ id)
  Suits (create_deposit_c now safe sb hash index amount sender req txs) =
      (req.output ≡ o) × (req.id ≡ id)
  Suits (write_network_info_c now info req) = (req.output ≡ o) × (info.request_id ≡ id)
  Suits (write_operation_params_c now params req) = (req.output ≡ o) × (params.request_id ≡ id)
  Suits (close_account_c now trx utxos state txs req) = (req.output ≡ o) × (trx.request_id ≡ id)
  Suits (write_transaction_c now trx utxos txs req) = (req.output ≡ o) × (trx.request_id ≡ id)
  Suits (revoke_c now trx safe req txs) = (req.output ≡ o) × (req.id ≡ id)
  Suits (fail_transaction_c now trx safe req bm txs) = (req.output ≡ o) × (req.id ≡ id)
  Suits (close_account_by_signatures_c now srs hash raw req txs) = (req.output ≡ o) × (req.id ≡ id)
  Suits (write_signature_requests_c now srs hash raw req txs) = (req.output ≡ o) × (req.id ≡ id)
  Suits (finish_transaction_c now hash psbt req num safe bm txs) = (req.output ≡ o) × (req.id ≡ id)
  Suits _ = ⊥

-- The methods that move the request whenever they answer its action.
abbrev pub Moves : {T : Type 0} → Call T → Type 0
Moves (fail_action_c now req) = ⊥
Moves (write_operation_params_c now params req) = ⊥
Moves _ = Unit

-- The transactions and the compaction that a call writes as its answer.
abbrev pub Written : {T : Type 0} → (List T → GoString → Db → Type 0) → Call T → Db → Type 0
Written Q (fail_request_c now req compaction txs) = Q txs compaction
Written Q (write_proposal_c now sp txs req) = Q txs []
Written Q (write_ethereum_proposal_c now sp trx txs req) = Q txs []
Written Q (write_safe_c now safe txs req) = Q txs []
Written Q (finish_safe_c now hash raw req safe txs) = Q txs []
Written Q (write_output_c now safe utxo req asset sender txs) = Q txs []
Written Q (create_deposit_c now safe sb hash index amount sender req txs) = Q txs []
Written Q (close_account_c now trx utxos state txs req) = Q txs []
Written Q (write_transaction_c now trx utxos txs req) = Q txs []
Written Q (revoke_c now trx safe req txs) = Q txs []
Written Q (fail_transaction_c now trx safe req bm txs) = Q txs []
Written Q (close_account_by_signatures_c now srs hash raw req txs) = Q txs []
Written Q (write_signature_requests_c now srs hash raw req txs) = Q txs []
Written Q (finish_transaction_c now hash psbt req num safe bm txs) = Q txs []
Written Q _ = Q [] []

-- The request of the id is done.
abbrev pub is_done : GoString → RequestRow → Bool
is_done id r = str_eq r.columns.id id && (r.columns.state == request_state_done)

-- What a call that answers the action `out` for the request of the id makes of a database.
abbrev pub Concludes :
    {T : Type 0} → (List T → GoString) → Action → GoString → Call T → Db → Db → Type 0
Concludes serialize out id (fail_action_c now req) db after =
    Answered (λ d. d.requests ≡ db.requests) serialize out.output_id id [] [] after
Concludes serialize out id (write_operation_params_c now params req) db after =
    ((any (is_done params.request_id) db.requests ≡ true) × (after ≡ db))
    ⊎ Finished serialize out.output_id id [] [] after
Concludes serialize out id c db after = Written (Finished serialize out.output_id id) c after
