-- ===== src/Keeper/Store/Requests.antt =====
-- keeper/store/request.go and keeper/store/request_transactions.go. A method that reads the wall
-- clock takes it as `now`; `serialize` and `deserialize` are those of the mtg library.
use safe.Prelude.{
  ℕ, GoString, Bool, true, false, ◌||◌, ◌&&◌, not, List, [], Option, none, some, str_eq, str_lt,
  ltb, ◌==◌, if◌then◌else◌, find, least, filter,
}
use safe.Common.Constants.{request_state_initial, request_state_failed}
use safe.Common.Request.{Request}
use safe.Common.Base91.{base91_encode, base91_decode}
use safe.Keeper.Store.Tables.{Db, RequestRow, ActionResultRow}
use safe.Keeper.Store.Tx.{
  bad_data, Tx, pure, fail, query, deref, ◌>>=◌, ◌>>◌, assert, commit, insert_one, update_one,
  check_existence,
}
use safe.Keeper.Store.Schema.{requests, action_results, set_request_state}

abbrev pub ActionResult : Type 0 → Type 0
ActionResult T = record {
  action_id : GoString;
  compaction : GoString;
  transactions : List T;
  request_id : GoString;
  created_at : ℕ;
}

-- The columns of a request have no pointer to the action.
abbrev pub row_of_request : Request → RequestRow
row_of_request req = record { columns = record req { output = none }; updated_at = req.created_at }

-- WriteRequestIfNotExist
unfoldable pub write_request_if_not_exist : Request → Tx (Unit {0})
write_request_if_not_exist req = do
  assert (not (req.state == 0 || (req.role == 0)))
  existed ← check_existence requests (λ r. str_eq r.columns.id req.id)
  if existed then pure tt else do insert_one requests (row_of_request req); commit

-- ReadRequest
unfoldable pub read_request : Db → GoString → Option Request
read_request db id = elim (find (λ (r : RequestRow). str_eq r.columns.id id) db.requests) [
  | none ↦ none
  | some r ↦ some r.columns
]

-- ORDER BY created_at ASC, request_id ASC
abbrev pub request_before : RequestRow → RequestRow → Bool
request_before a b =
    ltb a.columns.created_at b.columns.created_at
    || ((a.columns.created_at == b.columns.created_at) && str_lt a.columns.id b.columns.id)

-- ReadPendingRequest and ReadLatestRequest
unfoldable pub read_pending_request : Db → Option RequestRow
read_pending_request db =
    least request_before
      (filter (λ (r : RequestRow). r.columns.state == request_state_initial) db.requests)

unfoldable pub read_latest_request : Db → Option RequestRow
read_latest_request db = least (λ a b. request_before b a) db.requests

module _ {T : Type 0} (serialize : List T → GoString) where
  -- writeActionResult
  unfoldable pub write_action_result : ℕ → GoString → GoString → List T → GoString → Tx (Unit {0})
  write_action_result now output_id compaction txs request_id = do
    transactions ← deref (base91_encode (serialize txs))
    insert_one action_results (record {
      output_id = output_id;
      compaction = compaction;
      transactions = transactions;
      request_id = request_id;
      created_at = now;
    })

  -- FailRequest
  unfoldable pub fail_request : ℕ → Request → GoString → List T → Tx (Unit {0})
  fail_request now req compaction txs = do
    update_one requests
        (λ r. str_eq r.columns.id req.id && (r.columns.state == request_state_initial))
        (set_request_state request_state_failed now)
    output ← deref req.output
    write_action_result now output.output_id compaction txs req.id
    commit

  -- FailAction
  unfoldable pub fail_action : ℕ → Request → Tx (Unit {0})
  fail_action now req = do
    output ← deref req.output
    write_action_result now output.output_id [] [] req.id
    commit

module _ {T : Type 0} (deserialize : GoString → Option (List T)) where
  -- The result that a row of `action_results` holds.
  unfoldable pub result_of_row : ActionResultRow → Tx (ActionResult T)
  result_of_row row = elim (base91_decode row.transactions) [
    | none ↦ fail bad_data
    | some bytes ↦ elim (deserialize bytes) [
      | none ↦ fail bad_data
      | some txs ↦ pure (record {
        action_id = row.output_id;
        compaction = row.compaction;
        transactions = txs;
        request_id = row.request_id;
        created_at = row.created_at;
      })
    ]
  ]

  -- ReadActionResult: the result, and whether the request has been handled.
  unfoldable pub read_action_result : GoString → GoString → Tx (Option (ActionResult T) × Bool)
  unfolding result_of_row
  read_action_result output_id request_id = do
    request ← query (λ db. find (λ (r : RequestRow). str_eq r.columns.id request_id) db.requests)
    elim request [
      | none ↦ pure (none, false)
      | some r ↦ if r.columns.state == request_state_initial then pure (none, false) else do
        row ←
            query
              (λ db. find (λ (a : ActionResultRow). str_eq a.output_id output_id) db.action_results)
        elim row [
          | none ↦ pure (none, true)
          | some a ↦ result_of_row a >>= λ ar. pure (some ar, true)
        ]
    ]
