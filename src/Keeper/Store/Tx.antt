-- ===== src/Keeper/Store/Tx.antt =====
-- keeper/store/sqlite3.go and database/sql: a method of `SQLite3Store` runs statements in one
-- transaction. `db` is what is committed, `work` what the transaction sees. A method that returns
-- without a commit is rolled back by its deferred `common.Rollback`.
pub mod Rules
pub mod Atomic
use safe.Prelude.{
  ℕ, GoString, Bool, true, false, Option, none, some, List, [], ◌∷◌, ◌++◌, if◌then◌else◌, ◌==◌,
  ◌&&◌, not,
}
use safe.Prelude.{any, count, update}
use safe.Keeper.Store.Tables.{Db}

-- A statement fails on a unique index or on its number of rows. `tx_done` is `sql.ErrTxDone`,
-- `no_rows` is `sql.ErrNoRows` where the source passes it on, `bad_data` a value that does not decode.
pub data Error : Type 0 where
  insert_error update_error tx_done no_rows bad_data : Error

pub data Outcome (A : Type 0) : Type 0 where
  ok : A → Outcome A
  err : Error → Outcome A
  panic : Outcome A

pub record Txn : Type 0 where
  pub db : Db
  pub work : Db
  pub closed : Bool

abbrev pub Tx : Type 0 → Type 0
Tx A = Txn → Outcome A × Txn

-- A column family of the database: its rows, how to put them back, and its unique indexes.
pub record Table (R : Type 0) : Type 0 where
  pub rows : Db → List R
  pub put : List R → Db → Db
  pub clash : R → R → Bool

module _ {A : Type 0} where
  unfoldable pub pure : A → Tx A
  pure a t = (ok a, t)

  unfoldable pub fail : Error → Tx A
  fail e t = (err e, t)

  -- A panic leaves the method; the deferred rollback runs.
  unfoldable pub panics : Tx A
  panics t = (panic, t)

  -- A read of the transaction's view.
  unfoldable pub query : (Db → A) → Tx A
  query f t = if t.closed then (err tx_done, t) else (ok (f t.work), t)

  -- A nil pointer is dereferenced.
  unfoldable pub deref : Option A → Tx A
  deref none t = (panic, t)
  deref (some a) t = (ok a, t)

module _ {A B : Type 0} where
  abbrev pub continue : Outcome A → (A → Tx B) → Tx B
  continue (ok a) f t = f a t
  continue (err e) f t = (err e, t)
  continue panic f t = (panic, t)

  infixl 10 ◌>>=◌ ◌>>◌
  unfoldable pub ◌>>=◌ : Tx A → (A → Tx B) → Tx B
  ◌>>=◌ m f t = let (r, t') = m t in continue r f t'

  abbrev pub ◌>>◌ : Tx A → Tx B → Tx B
  m >> n = m >>= λ _. n

-- `if !cond { panic }`
unfoldable pub assert : Bool → Tx (Unit {0})
assert true t = (ok tt, t)
assert false t = (panic, t)

-- tx.Commit()
unfoldable pub commit : Tx (Unit {0})
commit t =
    if t.closed
    then (err tx_done, t)
    else (ok tt, record { db = t.work; work = t.work; closed = true })

module _ {R : Type 0} (tbl : Table R) where
  -- execOne of an INSERT: a row that clashes with another is refused.
  unfoldable pub insert_one : R → Tx (Unit {0})
  insert_one r t =
      if t.closed
      then (err tx_done, t)
      else if any (tbl.clash r) (tbl.rows t.work)
      then (err insert_error, t)
      else (ok tt, record t { work = tbl.put (tbl.rows t.work ++ (r ∷ [])) t.work })

  -- tx.ExecContext of an UPDATE on columns that no unique index names: the number of rows.
  unfoldable pub update_rows : (R → Bool) → (R → R) → Tx ℕ
  update_rows p f t = if t.closed then (err tx_done, t) else (
    ok (count p (tbl.rows t.work)),
    record t { work = tbl.put (update p f (tbl.rows t.work)) t.work },
  )

-- The test on `RowsAffected` in `execMultiple`.
unfoldable pub check_affected : ℕ → ℕ → Tx (Unit {0})
check_affected num rows t = (if rows == num then ok tt else err update_error, t)

module _ {R : Type 0} (tbl : Table R) where
  -- execMultiple of an UPDATE: the number of rows is checked after the write.
  unfoldable pub update_multiple : ℕ → (R → Bool) → (R → R) → Tx (Unit {0})
  unfolding check_affected update_rows ◌>>=◌
  update_multiple num p f = update_rows tbl p f >>= λ rows. check_affected num rows

  -- execOne of an UPDATE
  unfoldable pub update_one : (R → Bool) → (R → R) → Tx (Unit {0})
  unfolding update_multiple
  update_one p f = update_multiple 1 p f

  -- Whether a changed row clashes with a row that stays.
  abbrev pub clashes_after : (R → Bool) → (R → R) → List R → Bool
  clashes_after p f rows =
      any (λ r. p r && any (λ other. not (p other) && tbl.clash (f r) other) rows) rows

  -- execOne of an UPDATE on a column that a unique index names.
  unfoldable pub update_unique : (R → Bool) → (R → R) → Tx (Unit {0})
  unfolding update_one fail ◌>>=◌
  update_unique p f = do
    clashes ← query (λ db. clashes_after p f (tbl.rows db))
    if clashes then fail insert_error else update_one p f

  -- checkExistence of a SELECT
  unfoldable pub check_existence : (R → Bool) → Tx Bool
  unfolding query
  check_existence p = query (λ db. any p (tbl.rows db))

-- BeginTx, the body, and the deferred rollback: what the method returns and leaves in the database.
unfoldable pub transact : {A : Type 0} → Tx A → Db → Outcome A × Db
transact m db = let (r, t) = m (record { db = db; work = db; closed = false }) in (r, t.db)
