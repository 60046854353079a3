-- ===== src/Keeper/Calls/Finishing/Methods.antt =====
-- The methods of keeper/store that answer an action: where one returns without an error, the result
-- of the action is stored, and the request has left its initial state.
use safe.Prelude.{Option, none, some, false}
use safe.Common.Request.{Request}
use safe.Keeper.Store.Tables.{Safe, BitcoinOutput, Db}
use safe.Keeper.Store.Tx.{Txn}
use safe.Keeper.Store.Transactions.{check_receiver}
use safe.Keeper.Calls.Finishing.Steps.{Leads}
use safe.Keeper.Calls.Finishing.Results.{finishing_rules}

module _ {P : Db → Type 0} where
  Leads-check_receiver :
      (safe : Safe) (o : Option BitcoinOutput) → Leads P P (check_receiver safe o)
  unfolding check_receiver
  Leads-check_receiver safe none = search finishing_rules
  Leads-check_receiver safe (some o) = search finishing_rules

ruleset method_rules = (finishing_rules, Leads-check_receiver)

-- The transaction that a method begins.
abbrev opened : Db → Txn
opened db = record { db = db; work = db; closed = false }
