-- ===== src/Keeper/Node/Handler.antt =====
-- keeper/common.go, and the shape of a handler of keeper/: it reads the store, calls its methods, and
-- ends early by `failRequest`, by a panic or by its answer, `txs` and the asset of a compaction.
use safe.Prelude.{ℕ, GoString, List, [], Option, none, some, Bool, true, false}
use safe.Common.Request.{Request}
use safe.Keeper.Store.Tables.{Db}
use safe.Keeper.Store.Tx.{Outcome, ok, err, panic, Tx, transact}
use safe.Keeper.Store.Keys.{assign_signer_and_observer_to_holder}
use safe.Keeper.Calls.{Call, fail_request_c, run}
use safe.Keeper.Node.World.{Node}

-- What a step of a handler does: the handler goes on, returns, or panics.
pub data Turn (T A : Type 0) : Type 0 where
  next : A → Turn T A
  reply : List T → GoString → Turn T A
  crash : Turn T A

abbrev pub Handler : Type 0 → Type 0 → Type 0
Handler T A = Db → Turn T A × Db

module _ {T A : Type 0} where
  unfoldable pub pure : A → Handler T A
  pure a db = (next a, db)

  -- A panic.
  unfoldable pub panics : Handler T A
  panics db = (crash, db)

  unfoldable pub answer : List T → GoString → Handler T A
  answer txs asset db = (reply txs asset, db)

  -- A read of the store.
  unfoldable pub look : (Db → A) → Handler T A
  look f db = (next (f db), db)

  -- `if x == nil { panic }`, or an error on which the code panics.
  unfoldable pub need : Option A → Handler T A
  need none db = (crash, db)
  need (some a) db = (next a, db)

  -- `if x == nil { return … }`
  unfoldable pub or_else : Option A → Handler T A → Handler T A
  or_else none deny db = deny db
  or_else (some a) deny db = (next a, db)

-- `if !b { panic }`
unfoldable pub require : {T : Type 0} → Bool → Handler T (Unit {0})
require true db = (next tt, db)
require false db = (crash, db)

module _ {T A B : Type 0} where
  abbrev pub continue : Turn T A → (A → Handler T B) → Db → Turn T B × Db
  continue (next a) f db = f a db
  continue (reply txs asset) f db = (reply txs asset, db)
  continue crash f db = (crash, db)

  infixl 10 ◌>>=◌ ◌>>◌
  unfoldable pub ◌>>=◌ : Handler T A → (A → Handler T B) → Handler T B
  ◌>>=◌ m f db = let (r, db') = m db in continue r f db'

  abbrev pub ◌>>◌ : Handler T A → Handler T B → Handler T B
  m >> n = m >>= λ _. n

module _ {T : Type 0} where
  -- The error of a method is a panic of the handler.
  unfoldable pub settled : {A : Type 0} → Outcome A × Db → Turn T A × Db
  settled (ok a, db) = (next a, db)
  settled (err e, db) = (crash, db)
  settled (panic, db) = (crash, db)

module _ {T E D : Type 0} (node : Node T E D) where
  -- A call of a method of the store that writes.
  unfoldable pub call : Call T → Handler T (Unit {0})
  unfolding settled
  call c db = settled (run node.group.serialize node.bitcoin.psbt_inputs c db)

-- AssignSignerAndObserverToHolder, whose result the handler reads.
unfoldable pub assign : {T : Type 0} → ℕ → Request → ℕ → GoString → Handler T (GoString × GoString)
unfolding settled
assign now req maturity pref db =
    settled (transact (assign_signer_and_observer_to_holder now req maturity pref) db)

module _ {T E D : Type 0} (node : Node T E D) (now : ℕ) (req : Request) where
  -- node.failRequest
  unfoldable pub fail_request : {A : Type 0} → GoString → Handler T A
  fail_request asset = do call node (fail_request_c now req asset []); answer [] asset

  module _ {A : Type 0} where
    -- `if err != nil { return node.failRequest(ctx, req, "") }`
    unfoldable pub found : Option A → Handler T A
    unfolding fail_request
    found none = fail_request []
    found (some a) = pure a

  -- `if !b { return node.failRequest(ctx, req, "") }`
  unfoldable pub check : Bool → Handler T (Unit {0})
  unfolding fail_request
  check true = pure tt
  check false = fail_request []

-- A method of the store that only reads: it does not commit.
unfoldable pub ask : {T A : Type 0} → Tx A → Handler T A
unfolding settled
ask {T} m db = ((settled {T = T} (transact m db)).0, db)
