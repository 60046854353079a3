-- ===== src/Keeper/Calls/Finishing/Results.antt =====
-- How a method of keeper/store that answers an action ends: the result of the action is written,
-- and the transaction is committed (request_transactions.go).
use safe.Prelude.{
  ℕ, GoString, ◌≡◌, refl, inl, inr, false, List, Option, none, some, arith, any, Bool-cases,
}
use safe.Common.Base91.{base91_encode}
use safe.Common.Request.{Action}
use safe.Keeper.Store.Tables.{Db, ActionResultRow}
use safe.Keeper.Store.Clashes.{action_result_clash}
use safe.Keeper.Store.Tx.{ok, Txn, Tx, deref, ◌>>=◌, commit, insert_one}
use safe.Keeper.Store.Schema.{action_results}
use safe.Keeper.Store.Requests.{write_action_result}
use safe.Keeper.Calls.Answers.{Stored, find_new}
use safe.Keeper.Calls.Answers.Replay.{Handled}
use safe.Keeper.Calls.Finishing.Steps.{
  Leads, Lands, Leads-pure, Leads-panics, Leads-fail, Leads-query, Leads-deref, Leads-assert,
  Leads-if, Lands-if, Leads-bind, Lands-bind, Lands-commit, Leads-insert_one, Leads-update_rows,
  Leads-check_affected, Leads-update_multiple, Leads-update_one, Leads-check_existence,
  Leads-for_each,
}
use safe.Keeper.Calls.Finishing.Requests.{is_open, Leads-finish_request, Leads-fail_open}

-- The result that answers an action is stored, with transactions that encode to its text, and the
-- database has the property `K`.
pub record Answered (K : Db → Type 0) {T : Type 0} (serialize : List T → GoString)
    (output_id id : GoString) (txs : List T) (compaction : GoString) (db : Db) : Type 0 where
  pub row : ActionResultRow
  pub of_output : row.output_id ≡ output_id
  pub of_request : row.request_id ≡ id
  pub stored : Stored row db
  pub encoded : base91_encode (serialize txs) ≡ some row.transactions
  pub compacted : row.compaction ≡ compaction
  pub kept : K db

-- The result is stored, and the request has left its initial state.
abbrev pub Finished :
    {T : Type 0} → (List T → GoString) → GoString → GoString → List T → GoString → Db → Type 0
Finished serialize output_id id = Answered (Handled id) serialize output_id id

module _ {K : Db → Type 0}
    (keep : (rows : List ActionResultRow) (db : Db) → K db → K (action_results.put rows db))
    {T : Type 0} (serialize : List T → GoString) (now : ℕ) (output_id id : GoString)
    (compaction : GoString) (txs : List T) where
  abbrev new_row : GoString → ActionResultRow
  new_row text = record {
    output_id = output_id;
    compaction = compaction;
    transactions = text;
    request_id = id;
    created_at = now;
  }

  inserted :
      (text : GoString) (t : Txn) (a : Unit {0})
      → base91_encode (serialize txs) ≡ some text
      → t.closed ≡ false
      → K t.work
      → ((insert_one action_results (new_row text) >>= λ _. commit) t).0 ≡ ok a
      → Answered K serialize output_id id txs compaction
          ((insert_one action_results (new_row text) >>= λ _. commit) t).1.db
  unfolding insert_one commit ◌>>=◌
  inserted text t a b c h e =
      elim (Bool-cases (any (action_result_clash (new_row text)) t.work.action_results)) [
        | inl k ↦ absurd (ground (arith, c, k, e))
        | inr k ↦
            rw (c, k)
              (record {
                row = new_row text;
                of_output = refl;
                of_request = refl;
                stored = find_new (new_row text) t.work.action_results k;
                encoded = b;
                compacted = refl;
                kept = keep _ t.work h;
              })
      ]

  written :
      (o : Option GoString)
      → base91_encode (serialize txs) ≡ o
      → Lands K
          (Answered K serialize output_id id txs compaction)
          (deref o >>= (λ text. insert_one action_results (new_row text)) >>= λ _. commit)
  unfolding deref ◌>>=◌
  written none b = record { at = λ t a c h e. ground arith }
  written (some text) b = record { at = λ t a c h e. inserted text t a b c h e }

  answers :
      Lands K
        (Answered K serialize output_id id txs compaction)
        (write_action_result serialize now output_id compaction txs id >>= λ _. commit)
  unfolding write_action_result ◌>>=◌
  answers = record { at = (written (base91_encode (serialize txs)) refl).at }

-- How every method that answers an action ends.
pub Lands-answer_keeping :
    {K : Db → Type 0}
    → ((rows : List ActionResultRow) (db : Db) → K db → K (action_results.put rows db))
    → {T : Type 0} (serialize : List T → GoString) (now : ℕ) {out : Action} {id : GoString}
      (compaction : GoString) (txs : List T) (o : Option Action) (request_id : GoString)
    → o ≡ some out
    → request_id ≡ id
    → Lands K (Answered K serialize out.output_id id txs compaction) (
        deref o >>= λ output.
        write_action_result serialize now output.output_id compaction txs request_id >>= λ _.
        commit)
unfolding deref ◌>>=◌
Lands-answer_keeping keep serialize now {out} {id} compaction txs o request_id h e =
    rw (h, e) (record { at = (answers keep serialize now out.output_id id compaction txs).at })

module _ {T : Type 0} (serialize : List T → GoString) (now : ℕ) {out : Action} {id : GoString}
    (compaction : GoString) (txs : List T) where
  pub Lands-answer :
      (o : Option Action) (request_id : GoString)
      → o ≡ some out
      → request_id ≡ id
      → Lands (Handled id) (Finished serialize out.output_id id txs compaction) (
          deref o >>= λ output.
          write_action_result serialize now output.output_id compaction txs request_id >>= λ _.
          commit)
  Lands-answer o request_id h e =
      Lands-answer_keeping (λ rows db k. k) serialize now compaction txs o request_id h e

module _ {P D : Db → Type 0} {A B : Type 0} (m : Tx A) (f : A → Tx B) where
  pub Lands-step : Leads P P m → ((a : A) → Lands P D (f a)) → Lands P D (m >>= f)
  Lands-step = Lands-bind m f

  pub Leads-before : Leads P P m → ((a : A) → Leads P D (f a)) → Leads P D (m >>= f)
  Leads-before = Leads-bind m f

  pub Leads-after : Leads P D m → ((a : A) → Leads D D (f a)) → Leads P D (m >>= f)
  Leads-after = Leads-bind m f

-- The step that marks the request.
pub Lands-mark :
    {P : Db → Type 0} {A B T : Type 0} {serialize : List T → GoString} {output_id id : GoString}
    {txs : List T} {compaction : GoString} (m : Tx A) (f : A → Tx B)
    → Leads P (Handled id) m
    → ((a : A) → Lands (Handled id) (Finished serialize output_id id txs compaction) (f a))
    → Lands P (Finished serialize output_id id txs compaction) (m >>= f)
Lands-mark m f = Lands-bind m f

pub ruleset finishing_rules = (
  Leads-pure, Leads-fail, Leads-panics, Leads-query, Leads-deref, Leads-assert, Leads-if, Lands-if,
  Leads-insert_one, Leads-update_rows, Leads-update_multiple, Leads-update_one,
  Leads-check_existence, Leads-for_each, Leads-finish_request, Leads-fail_open, Lands-answer,
  Lands-step, Lands-mark, Leads-before, Leads-after,
)
