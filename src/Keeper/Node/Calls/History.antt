-- ===== src/Keeper/Node/Calls/History.antt =====
-- The actions of keeper/group.go one after the other, each of which reads the clock.
use safe.Prelude.{ℕ, ◌≡◌, refl, sym, ap, ◌∙◌, List, [], ◌∷◌, ◌++◌, All}
use safe.Common.Request.{Action}
use safe.Keeper.Store.Tables.{Db}
use safe.Keeper.Calls.{Call, run_all}
use safe.Keeper.Calls.Atomicity.{HasRequests}
use safe.Keeper.Calls.History.{Later}
use safe.Keeper.Calls.History.Methods.{history_kept}
use safe.Keeper.Calls.Spending.{OutputsOk}
use safe.Keeper.Calls.Spending.Methods.{SpendsAs, outputs_accounted}
use safe.Keeper.Node.World.{Node}
use safe.Keeper.Node.Actions.{process_action}
use safe.Keeper.Node.Calls.{Sound, after_calls, after_calls-append, All-append}
use safe.Keeper.Node.Calls.Actions.{Makes-process_action, All-first}

module _ {T E D : Type 0} (node : Node T E D) where
  -- The database after actions and the times of the clock at which they come.
  unfoldable pub after_actions : List (ℕ × Action) → Db → Db
  after_actions [] db = db
  after_actions ((now, out) ∷ outs) db = after_actions outs (process_action node now out db).1

  pub actions_calls :
      (outs : List (ℕ × Action)) (db : Db)
      → (cs : List (Call T)) × All Sound cs × (after_actions outs db ≡ after_calls node cs db)
  unfolding after_actions run_all
  actions_calls [] db = ([], tt, refl)
  actions_calls ((now, out) ∷ outs) db =
      let (cs, s, e) = (Makes-process_action node now out).at db in
      let (ds, t, k) = actions_calls outs (process_action node now out db).1 in
      (
        cs ++ ds,
        All-append node cs ds s t,
        k ∙ ap (after_calls node ds) e ∙ sym (after_calls-append node cs ds db),
      )

  -- If every output is initial and unspent, or pending or done and spent by a stored transaction,
  -- then it is so after any actions, whether they reply or panic.
  pub actions_account :
      (outs : List (ℕ × Action)) (db : Db) → OutputsOk db → OutputsOk (after_actions outs db)
  actions_account outs db h =
      let (cs, s, e) = actions_calls outs db in
      rw e (
        outputs_accounted node.group.serialize node.bitcoin.psbt_inputs db cs h
          (All-first SpendsAs HasRequests cs s))

  -- After any actions, whether they reply or panic, no row of any table is deleted or loses its
  -- identity; results, proposals, deposits, network infos, operation parameters, migrated assets
  -- and properties do not change; a request never returns to its initial state; a key keeps its
  -- holder; a closed safe stays closed and an approved safe is not pending again; what a
  -- signature request signs does not change, and once it has left its initial state it does not
  -- return to it and keeps its signature.
  pub actions_keep_history : (outs : List (ℕ × Action)) (db : Db) → Later db (after_actions outs db)
  actions_keep_history outs db =
      let (cs, s, e) = actions_calls outs db in
      rw e (history_kept node.group.serialize node.bitcoin.psbt_inputs db cs)
