-- ===== src/Keeper/Calls/Finishing/Requests.antt =====
-- The statements of keeper/store that take a request out of its initial state.
use safe.Prelude.{
  ℕ, GoString, ◌≡◌, ◌≢◌, refl, ◌==◌, ◌&&◌, inl, inr, Bool, false, List, [], ◌∷◌, some, arith, find,
  count, update, Bool-cases,
}
use safe.Common.Constants.{request_state_initial, request_state_done, request_state_failed}
use safe.Keeper.Store.Tables.{Db, RequestRow}
use safe.Keeper.Store.Tx.{
  ok, Txn, Table, ◌>>=◌, update_rows, check_affected, update_multiple, update_one,
}
use safe.Keeper.Store.Schema.{requests, finish_request, set_request_state}
use safe.Keeper.Calls.Answers.Replay.{Handled, is_request}
use safe.Keeper.Calls.Finishing.Steps.{Leads}

-- An update of one row is an update of some row.
affected :
    {R : Type 0} (tbl : Table R) (p : R → Bool) (f : R → R) (t : Txn) (a : Unit {0})
    → t.closed ≡ false
    → (update_one tbl p f t).0 ≡ ok a
    → count p (tbl.rows t.work) ≢ 0
unfolding update_one update_multiple update_rows check_affected ◌>>=◌
affected tbl p f t a c e = ground (arith, c, e)

-- A request of the id is done after an update of one row.
handled_update :
    (id : GoString) (now : ℕ) (rows : List RequestRow)
    → count (is_request id) rows ≢ 0
    → (r : RequestRow) × (find
          (is_request id)
          (update (is_request id) (set_request_state request_state_done now) rows)
        ≡ some r)
      × (r.columns.state ≢ request_state_initial)
handled_update id now [] n = absurd (n refl)
handled_update id now (x ∷ rows) n = elim (Bool-cases (is_request id x)) [
  | inl c ↦ (set_request_state request_state_done now x, rw (c, c) refl, omega arith)
  | inr c ↦ let (r, f, k) = handled_update id now rows (ground (arith, n, c)) in (r, rw (c, c) f, k)
]

-- A request of the id has failed, or had left its initial state, after an update of one row.
abbrev pub is_open : GoString → RequestRow → Bool
is_open id r = is_request id r && (r.columns.state == request_state_initial)

handled_failure :
    (id : GoString) (now : ℕ) (rows : List RequestRow)
    → count (is_open id) rows ≢ 0
    → (r : RequestRow) × (find
          (is_request id)
          (update (is_open id) (set_request_state request_state_failed now) rows)
        ≡ some r)
      × (r.columns.state ≢ request_state_initial)
handled_failure id now [] n = absurd (n refl)
handled_failure id now (x ∷ rows) n = elim (Bool-cases (is_request id x)) [
  | inl c ↦ elim (Bool-cases (x.columns.state == request_state_initial)) [
    | inl d ↦ (set_request_state request_state_failed now x, rw (c, d, c) refl, omega arith)
    | inr d ↦ (x, rw (c, d, c) refl, ground arith)
  ]
  | inr c ↦
      let (r, f, k) = handled_failure id now rows (ground (arith, n, c)) in (r, rw (c, c) f, k)
]

updated :
    {R : Type 0} (tbl : Table R) (p : R → Bool) (f : R → R) (t : Txn)
    → t.closed ≡ false
    → (update_one tbl p f t).1 ≡ record t { work = tbl.put (update p f (tbl.rows t.work)) t.work }
unfolding update_one update_multiple update_rows check_affected ◌>>=◌
updated tbl p f t c = rw c refl

module _ {P : Db → Type 0} (now : ℕ) (id : GoString) where
  finishes : Leads P (Handled id) (finish_request now id)
  unfolding finish_request
  finishes = record {
    at = λ t a c h e.
        rw (updated requests (is_request id) (set_request_state request_state_done now) t c)
          (c, handled_update id now t.work.requests (affected requests _ _ t a c e));
  }

  fails_open :
      Leads P
        (Handled id)
        (update_one requests (is_open id) (set_request_state request_state_failed now))
  fails_open = record {
    at = λ t a c h e.
        rw (updated requests (is_open id) (set_request_state request_state_failed now) t c)
          (c, handled_failure id now t.work.requests (affected requests _ _ t a c e));
  }

module _ {P : Db → Type 0} {id : GoString} where
  pub Leads-finish_request :
      (now : ℕ) (request_id : GoString)
      → request_id ≡ id
      → Leads P (Handled id) (finish_request now request_id)
  Leads-finish_request now request_id e = rw (← e) (finishes now request_id)

  pub Leads-fail_open :
      (now : ℕ) (request_id : GoString)
      → request_id ≡ id
      → Leads P
          (Handled id)
          (update_one requests (is_open request_id) (set_request_state request_state_failed now))
  Leads-fail_open now request_id e = rw (← e) (fails_open now request_id)
