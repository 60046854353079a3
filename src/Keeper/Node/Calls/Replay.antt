-- ===== src/Keeper/Node/Calls/Replay.antt =====
-- An output of the group that comes again (keeper/group.go, ProcessOutput and processAction): the
-- steps before the result is read do not write, and the result that is stored answers it.
use safe.Prelude.{
  ℕ, ◌≡◌, refl, sym, ap, ◌∙◌, GoString, Bool, true, false, List, Option, none, some, All,
  if◌then◌else◌,
}
use safe.Common.Base91.{base91_encode}
use safe.Common.Hex.RoundTrip.{IsByte}
use safe.Common.Request.{Action, Request}
use safe.Keeper.Store.Tables.{Db, ActionResultRow}
use safe.Keeper.Calls.Answers.{Stored}
use safe.Keeper.Calls.Answers.Replay.{Handled, result_replayed}
use safe.Keeper.Node.World.{Node}
use safe.Keeper.Node.Handler.{
  Turn, next, reply, crash, Handler, pure, need, or_else, ask, answer, continue, ◌>>=◌, settled,
}
use safe.Keeper.Node.Requests.{parse_request}
use safe.Keeper.Node.Revoking.{handle_bond_asset}
use safe.Keeper.Node.Actions.{
  process_parsed, process_result, process_action, process_output, second_run, replay_check,
}
use safe.Keeper.Node.Calls.History.{after_actions, actions_calls}

-- A step that neither reads nor writes the database.
record Aside {T A : Type 0} (m : Handler T A) : Type 0 where
  at : (a b : Db) → m b ≡ ((m a).0, b)

module _ {T A : Type 0} where
  Aside-pure : (x : A) → Aside (pure {T = T} x)
  unfolding pure
  Aside-pure x = record { at = λ a b. refl }

  Aside-need : (o : Option A) → Aside (need {T = T} o)
  unfolding need
  Aside-need none = record { at = λ a b. refl }
  Aside-need (some x) = record { at = λ a b. refl }

  Aside-if :
      (c : Bool) {yes no : Handler T A} → Aside yes → Aside no → Aside (if c then yes else no)
  Aside-if true h k = h
  Aside-if false h k = k

module _ {T A B : Type 0} where
  Aside-continue :
      (r : Turn T A) (f : A → Handler T B) → ((x : A) → Aside (f x)) → Aside (continue r f)
  Aside-continue (next x) f h = record { at = (h x).at }
  Aside-continue (reply txs asset) f h = record { at = λ a b. refl }
  Aside-continue crash f h = record { at = λ a b. refl }

  Aside-bind :
      (m : Handler T A) (f : A → Handler T B) → Aside m → ((x : A) → Aside (f x)) → Aside (m >>= f)
  unfolding ◌>>=◌
  Aside-bind m f h k = record {
    at = λ a b. rw (h.at a b, h.at a a) ((Aside-continue (m a).0 f k).at a b);
  }

module _ {T E D : Type 0} (node : Node T E D) where
  Aside-handle_bond_asset : (asset_id : GoString) → Aside (handle_bond_asset node asset_id)
  unfolding handle_bond_asset
  Aside-handle_bond_asset asset_id = search (Aside-pure, Aside-need, Aside-if, Aside-bind) depth 20

  -- The steps before the result of an action is read.
  action_is_parsed :
      (now : ℕ) (out : Action) (req : Request) (first db : Db) (bond : Bool)
      → node.group.is_kernel_deposit out ≡ some false
      → (handle_bond_asset node out.asset_id first).0 ≡ next bond
      → parse_request node out ≡ some (some req)
      → process_action node now out db ≡ process_parsed node now req out.output_id db
  unfolding process_action need or_else ◌>>=◌
  action_is_parsed now out req first db bond d b p =
      let e = (Aside-handle_bond_asset out.asset_id).at first db in rw (d, e, b, p) refl

  -- The stored result is read and answered.
  parsed_is_answered :
      ((txs : List T) → node.group.deserialize (node.group.serialize txs) ≡ some txs)
      → ((txs : List T) → All IsByte (node.group.serialize txs))
      → (outs : List (ℕ × Action)) (db : Db) (row : ActionResultRow) (txs : List T) (now : ℕ)
        (req : Request)
      → Stored row db
      → base91_encode (node.group.serialize txs) ≡ some row.transactions
      → Handled req.id db
      → process_parsed node now req row.output_id (after_actions node outs db)
        ≡ (reply txs row.compaction, after_actions node outs db)
  unfolding process_parsed process_result ask settled answer ◌>>=◌
  parsed_is_answered inverse octets outs db row txs now req h b k =
      let (cs, s, e) = actions_calls node outs db in
      rw
        (
          e,
          result_replayed node.group.serialize node.group.deserialize inverse octets
              node.bitcoin.psbt_inputs db cs row txs req.id h b k,
        )
        refl

  -- Two runs that give the same answer, and write nothing.
  output_is_repeated :
      (now again : ℕ) (out : Action) (txs : List T) (asset : GoString) (db : Db)
      → node.group.replay_check out txs txs asset asset ≡ true
      → ((at : ℕ) → process_action node at out db ≡ (reply txs asset, db))
      → process_output node now again out db ≡ (reply txs asset, db)
  unfolding process_output second_run replay_check
  output_is_repeated now again out txs asset db same h =
      ap (second_run node again out) (h now)
      ∙ ap (λ r. (replay_check node out txs asset r.0, r.1)) (h again)
      ∙ rw same refl

  -- If the result of an action is stored with the text of its transactions, the request that is
  -- parsed out of the action has left its initial state, the action is no deposit of the kernel,
  -- its asset passes the check of a bond, the transactions are serialized as bytes from which
  -- they are read back, and the comparison of equal answers succeeds, then after any actions
  -- ProcessOutput answers the action with those transactions and the stored compaction again,
  -- and nothing is written.
  pub answer_repeated :
      ((txs : List T) → node.group.deserialize (node.group.serialize txs) ≡ some txs)
      → ((txs : List T) → All IsByte (node.group.serialize txs))
      → ((out : Action) (txs : List T) (asset : GoString)
          → node.group.replay_check out txs txs asset asset ≡ true)
      → (outs : List (ℕ × Action)) (db : Db) (row : ActionResultRow) (txs : List T) (now again : ℕ)
        (out : Action) (req : Request) (bond : Bool)
      → node.group.is_kernel_deposit out ≡ some false
      → (handle_bond_asset node out.asset_id db).0 ≡ next bond
      → parse_request node out ≡ some (some req)
      → row.output_id ≡ out.output_id
      → Stored row db
      → base91_encode (node.group.serialize txs) ≡ some row.transactions
      → Handled req.id db
      → process_output node now again out (after_actions node outs db)
        ≡ (reply txs row.compaction, after_actions node outs db)
  answer_repeated inverse octets same outs db row txs now again out req bond d b p o h t k =
      output_is_repeated now again out txs row.compaction (after_actions node outs db)
        (same out txs row.compaction)
        (λ at.
          action_is_parsed at out req db (after_actions node outs db) bond d b p
          ∙ ap (λ id. process_parsed node at req id (after_actions node outs db)) (sym o)
          ∙ parsed_is_answered inverse octets outs db row txs at req h t k)
