-- ===== src/Keeper/Calls/Answers/Replay.antt =====
-- `ReadActionResult` of keeper/store/request_transactions.go after later calls.
use safe.Prelude.{
  GoString, ◌≡◌, ◌≢◌, refl, sym, ap, ◌∙◌, Bool, true, false, List, Option, some, arith, str_eq,
  find, All, ◌==◌,
}
use safe.Prelude.Grows.{Grows-find}
use safe.Common.Constants.{request_state_initial}
use safe.Common.Base91.{base91_encode, base91_decode}
use safe.Common.Base91.RoundTrip.{base91_decode-base91_encode}
use safe.Common.Hex.RoundTrip.{IsByte}
use safe.Keeper.Store.Tables.{Db, RequestRow, ActionResultRow}
use safe.Keeper.Store.Tx.{ok, transact, query, pure, ◌>>=◌}
use safe.Keeper.Store.Requests.{ActionResult, result_of_row, read_action_result}
use safe.Keeper.Store.Transactions.{TransactionInput}
use safe.Keeper.Calls.{Call, run_all}
use safe.Keeper.Calls.History.{RequestMoves}
use safe.Keeper.Calls.History.Methods.{history_kept}
use safe.Keeper.Calls.Answers.{Stored, is_result}

abbrev pub is_request : GoString → RequestRow → Bool
is_request id r = str_eq r.columns.id id

-- The first request of an id has left its initial state.
abbrev pub Handled : GoString → Db → Type 0
Handled id db =
    (r : RequestRow) × (find (is_request id) db.requests ≡ some r)
    × (r.columns.state ≢ request_state_initial)

module _ {T : Type 0} (serialize : List T → GoString)
    (inputs : GoString → Option (List TransactionInput)) where
  Stored-run_all :
      (db : Db) (cs : List (Call T)) (row : ActionResultRow)
      → Stored row db
      → Stored row (run_all serialize inputs cs db)
  Stored-run_all db cs row h =
      let (y, f, e) =
        Grows-find ◌≡◌ (is_result row.output_id) db.action_results
          (run_all serialize inputs cs db).action_results row
          (λ x y k. ap (is_result row.output_id) k)
          (history_kept serialize inputs db cs).action_results h in
      f ∙ ap (λ (x : ActionResultRow). some x) (sym e)

  same_request :
      (id : GoString) (x y : RequestRow) → RequestMoves x y → is_request id x ≡ is_request id y
  same_request id x y h = rw (h.0) refl

  Handled-run_all :
      (db : Db) (cs : List (Call T)) (id : GoString)
      → Handled id db
      → Handled id (run_all serialize inputs cs db)
  Handled-run_all db cs id (r, f, n) =
      let (y, g, k) =
        Grows-find RequestMoves (is_request id) db.requests
          (run_all serialize inputs cs db).requests r (same_request id)
          (history_kept serialize inputs db cs).requests f in
      (y, g, k.1 n)

-- What the row says, with the transactions that it encodes.
abbrev pub result : {T : Type 0} → ActionResultRow → List T → ActionResult T
result row txs = record {
  action_id = row.output_id;
  compaction = row.compaction;
  transactions = txs;
  request_id = row.request_id;
  created_at = row.created_at;
}

module _ {T : Type 0} (serialize : List T → GoString) (deserialize : GoString → Option (List T))
    (inverse : (txs : List T) → deserialize (serialize txs) ≡ some txs)
    (octets : (txs : List T) → All IsByte (serialize txs)) where
  decode_row :
      (txs : List T) (text : GoString)
      → base91_encode (serialize txs) ≡ some text
      → base91_decode text ≡ some (serialize txs)
  decode_row txs text h =
      let (t, e, d) = base91_decode-base91_encode (serialize txs) (octets txs) in
      let same : t ≡ text = ground (arith, sym e ∙ h) in rw (← same) d

  result_of_row_lem :
      (row : ActionResultRow) (txs : List T)
      → base91_encode (serialize txs) ≡ some row.transactions
      → result_of_row deserialize row ≡ pure (result row txs)
  unfolding result_of_row
  result_of_row_lem row txs h =
      rw (result_of_row, decode_row txs row.transactions h, inverse txs) refl

  read_result :
      (db : Db) (row : ActionResultRow) (txs : List T) (id : GoString)
      → Stored row db
      → base91_encode (serialize txs) ≡ some row.transactions
      → Handled id db
      → transact (read_action_result deserialize row.output_id id) db
        ≡ (ok (some (result row txs), true), db)
  unfolding transact read_action_result query pure ◌>>=◌
  read_result db row txs id h b (r, f, n) =
      let later : (r.columns.state == request_state_initial) ≡ false = ground arith in
      rw (f, later, h, result_of_row_lem row txs b) refl

  -- If the result of an action is stored with the text of its transactions, and the request has left
  -- its initial state, then after any calls, whatever they return, reading the result of the action
  -- gives those transactions, and says that the request is handled.
  pub result_replayed :
      (inputs : GoString → Option (List TransactionInput)) (db : Db) (cs : List (Call T))
      (row : ActionResultRow) (txs : List T) (id : GoString)
      → Stored row db
      → base91_encode (serialize txs) ≡ some row.transactions
      → Handled id db
      → transact (read_action_result deserialize row.output_id id) (run_all serialize inputs cs db)
        ≡ (ok (some (result row txs), true), run_all serialize inputs cs db)
  result_replayed inputs db cs row txs id h b k =
      read_result (run_all serialize inputs cs db) row txs id
        (Stored-run_all serialize inputs db cs row h) b
        (Handled-run_all serialize inputs db cs id k)
