-- ===== src/Keeper/Node/Calls.antt =====
-- The calls of the store that a handler of keeper/ makes, whatever it answers: one rule for each
-- shape of a handler.
pub mod Shared
pub mod Signing
pub mod Bitcoin
pub mod Deposits
pub mod Ethereum
pub mod Closing
pub mod Requests
pub mod Actions
pub mod History
pub mod Replay
use safe.Prelude.{
  ℕ, GoString, ◌≡◌, refl, sym, ap, ◌∙◌, Bool, true, false, List, [], ◌∷◌, ◌++◌, Option, none, some,
  All, if◌then◌else◌,
}
use safe.Common.Request.{Request}
use safe.Keeper.Store.Tables.{Db}
use safe.Keeper.Store.Tx
use safe.Keeper.Store.Tx.{Outcome, ok, err, panic, Txn, Tx, transact}
use safe.Keeper.Store.Keys.{assign_signer_and_observer_to_holder}
use safe.Keeper.Calls.{Call, assign_c, method, run, run_all}
use safe.Keeper.Calls.Atomicity.{HasRequests}
use safe.Keeper.Calls.Spending.Methods.{SpendsAs}
use safe.Keeper.Node.World.{Node}
use safe.Keeper.Node.Handler.{
  Turn, next, reply, crash, Handler, pure, panics, answer, look, need, or_else, require, continue,
  ◌>>=◌, settled, call, assign, ask,
}

-- A call closes an account by outputs that are pending or done, and writes no empty list of
-- signature requests.
abbrev pub Sound : {T : Type 0} → Call T → Type 0
Sound c = SpendsAs c × HasRequests c

module _ {T E D : Type 0} (node : Node T E D) where
  abbrev pub after_calls : List (Call T) → Db → Db
  after_calls = run_all node.group.serialize node.bitcoin.psbt_inputs

  -- From any database, the handler leaves what some sound calls leave.
  pub record Makes {A : Type 0} (m : Handler T A) : Type 0 where
    pub at : (db : Db) → (cs : List (Call T)) × All Sound cs × ((m db).1 ≡ after_calls cs db)

  pub after_calls-append :
      (cs ds : List (Call T)) (db : Db)
      → after_calls (cs ++ ds) db ≡ after_calls ds (after_calls cs db)
  unfolding run_all
  after_calls-append [] ds db = refl
  after_calls-append (c ∷ cs) ds db =
      after_calls-append cs ds (run node.group.serialize node.bitcoin.psbt_inputs c db).1

  pub All-append : (cs ds : List (Call T)) → All Sound cs → All Sound ds → All Sound (cs ++ ds)
  All-append [] ds h k = k
  All-append (c ∷ cs) ds h k = (h.0, All-append cs ds h.1 k)

  module _ {A : Type 0} where
    Makes-unchanged : {m : Handler T A} → ((db : Db) → (m db).1 ≡ db) → Makes m
    unfolding run_all
    Makes-unchanged h = record { at = λ db. ([], tt, h db) }

    pub Makes-pure : (a : A) → Makes (pure a)
    unfolding pure
    Makes-pure a = Makes-unchanged (λ db. refl)

    pub Makes-panics : Makes (panics {A = A})
    unfolding panics
    Makes-panics = Makes-unchanged (λ db. refl)

    pub Makes-answer : (txs : List T) (asset : GoString) → Makes (answer {A = A} txs asset)
    unfolding answer
    Makes-answer txs asset = Makes-unchanged (λ db. refl)

    pub Makes-look : (f : Db → A) → Makes (look f)
    unfolding look
    Makes-look f = Makes-unchanged (λ db. refl)

    pub Makes-need : (o : Option A) → Makes (need o)
    unfolding need
    Makes-need none = Makes-unchanged (λ db. refl)
    Makes-need (some a) = Makes-unchanged (λ db. refl)

    pub Makes-or_else : (o : Option A) (deny : Handler T A) → Makes deny → Makes (or_else o deny)
    unfolding or_else
    Makes-or_else none deny h = record { at = h.at }
    Makes-or_else (some a) deny h = Makes-unchanged (λ db. refl)

    pub Makes-ask : (m : Tx A) → Makes (ask m)
    unfolding ask
    Makes-ask m = Makes-unchanged (λ db. refl)

    pub Makes-if :
        (c : Bool) {yes no : Handler T A} → Makes yes → Makes no → Makes (if c then yes else no)
    Makes-if false h k = k
    Makes-if true h k = h

  pub Makes-require : (b : Bool) → Makes (require b)
  unfolding require
  Makes-require true = Makes-unchanged (λ db. refl)
  Makes-require false = Makes-unchanged (λ db. refl)

  module _ {A B : Type 0} where
    -- What follows a step is asked only of what the step may go on with.
    pub Makes-bind_next :
        (m : Handler T A) (f : A → Handler T B)
        → Makes m
        → ((a : A) (db : Db) → (m db).0 ≡ next a → Makes (f a))
        → Makes (m >>= f)
    unfolding ◌>>=◌
    Makes-bind_next m f km kf = record {
      at = λ db. let (cs, s, e) = km.at db in after (m db).0 (m db).1 db cs (λ a. kf a db) s e;
    }
      where
        after :
            (r : Turn T A) (db' db : Db) (cs : List (Call T))
            → ((a : A) → r ≡ next a → Makes (f a))
            → All Sound cs
            → db' ≡ after_calls cs db
            → (ds : List (Call T)) × All Sound ds × ((continue r f db').1 ≡ after_calls ds db)
        after (next a) db' db cs k s e =
            let (ds, t, k') = (k a refl).at db' in
            (
              cs ++ ds,
              All-append cs ds s t,
              k' ∙ ap (after_calls ds) e ∙ rw (after_calls-append cs ds db) refl,
            )
        after (reply txs asset) db' db cs k s e = (cs, s, e)
        after crash db' db cs k s e = (cs, s, e)

    pub Makes-bind :
        (m : Handler T A) (f : A → Handler T B)
        → Makes m
        → ((a : A) → Makes (f a))
        → Makes (m >>= f)
    Makes-bind m f km kf = Makes-bind_next m f km (λ a db e. kf a)

  settled_db : {A : Type 0} (r : Outcome A × Db) → (settled {T = T} r).1 ≡ r.1
  unfolding settled
  settled_db (ok a, db) = refl
  settled_db (err e, db) = refl
  settled_db (panic, db) = refl

  pub Makes-call : (c : Call T) → SpendsAs c → HasRequests c → Makes (call node c)
  unfolding call run_all run
  Makes-call c s h = record { at = λ db. (c ∷ [], ((s, h), tt), settled_db _) }

  forgets : {A : Type 0} (r : Outcome A) (t : Txn) → (Tx.continue r (λ _. Tx.pure tt) t).1 ≡ t
  unfolding Tx.pure
  forgets (ok a) t = refl
  forgets (err e) t = refl
  forgets panic t = refl

  -- A call of the store whose result is not read leaves the same database.
  run_assign :
      (now : ℕ) (req : Request) (maturity : ℕ) (pref : GoString) (db : Db)
      → (run node.group.serialize node.bitcoin.psbt_inputs (assign_c now req maturity pref) db).1
        ≡ (transact (assign_signer_and_observer_to_holder now req maturity pref) db).1
  unfolding run method transact Tx.◌>>=◌
  run_assign now req maturity pref db = ap (λ (t : Txn). t.db) (forgets _ _)

  pub Makes-assign :
      (now : ℕ) (req : Request) (maturity : ℕ) (pref : GoString)
      → Makes (assign now req maturity pref)
  unfolding assign run_all
  Makes-assign now req maturity pref = record {
    at = λ db. (
      assign_c now req maturity pref ∷ [],
      ((tt, tt), tt),
      settled_db _ ∙ sym (run_assign now req maturity pref db),
    );
  }
