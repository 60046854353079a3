-- ===== src/Keeper/Store/Tx/Rules.antt =====
-- Reasoning about transactions: one rule for each way to build one.
use safe.Prelude.{
  ℕ, ◌≡◌, refl, inl, inr, Bool, true, false, [], ◌∷◌, ◌++◌, Option, none, some, arith, Bool-cases,
  if◌then◌else◌, any, update,
}
use safe.Keeper.Store.Tables.{Db}
use safe.Keeper.Store.Tx.{
  Error, Outcome, ok, err, panic, Txn, Tx, Table, pure, fail, panics, query, deref, continue, ◌>>=◌,
  assert, commit, insert_one, update_rows, check_affected, update_multiple, update_one,
  update_unique, check_existence, transact,
}

-- `m` keeps `P` of what is committed and of what the transaction sees, however it ends.
pub record Keeps (P : Db → Type 0) {A : Type 0} (m : Tx A) : Type 0 where
  pub at : (t : Txn) → P t.db → P t.work → P (m t).1.db × P (m t).1.work

module _ {A : Type 0} where
  query_stays : (f : Db → A) (t : Txn) → (query f t).1 ≡ t
  unfolding query
  query_stays f t = ground arith

module _ {P : Db → Type 0} {A : Type 0} where
  pub Keeps-pure : (a : A) → Keeps P (pure a)
  unfolding pure
  Keeps-pure a = record { at = λ t h k. (h, k) }

  pub Keeps-fail : (e : Error) → Keeps P (fail {A = A} e)
  unfolding fail
  Keeps-fail e = record { at = λ t h k. (h, k) }

  pub Keeps-panics : Keeps P (panics {A = A})
  unfolding panics
  Keeps-panics = record { at = λ t h k. (h, k) }

  pub Keeps-query : (f : Db → A) → Keeps P (query f)
  Keeps-query f = record { at = λ t h k. rw (query_stays f t) (h, k) }

  pub Keeps-deref : (o : Option A) → Keeps P (deref o)
  unfolding deref
  Keeps-deref none = record { at = λ t h k. (h, k) }
  Keeps-deref (some a) = record { at = λ t h k. (h, k) }

  pub Keeps-if :
      (c : Bool) {yes no : Tx A}
      → (c ≡ false → Keeps P no)
      → (c ≡ true → Keeps P yes)
      → Keeps P (if c then yes else no)
  Keeps-if false h k = h refl
  Keeps-if true h k = k refl

module _ {P : Db → Type 0} where
  pub Keeps-assert : (b : Bool) → Keeps P (assert b)
  unfolding assert
  Keeps-assert true = record { at = λ t h k. (h, k) }
  Keeps-assert false = record { at = λ t h k. (h, k) }

  pub Keeps-check_affected : (n m : ℕ) → Keeps P (check_affected n m)
  unfolding check_affected
  Keeps-check_affected n m = record { at = λ t h k. (h, k) }

  pub Keeps-commit : Keeps P commit
  unfolding commit
  Keeps-commit = record {
    at = λ t h k. elim (Bool-cases t.closed) [ inl e ↦ rw e (h, k) | inr e ↦ rw e (k, k) ];
  }

module _ {P : Db → Type 0} {A B : Type 0} where
  pub Keeps-bind :
      (m : Tx A) (f : A → Tx B) → Keeps P m → ((a : A) → Keeps P (f a)) → Keeps P (m >>= f)
  unfolding ◌>>=◌
  Keeps-bind m f km kf = record {
    at = λ t h k. let (h', k') = km.at t h k in after (m t).0 (m t).1 h' k';
  }
    where
      after :
          (r : Outcome A) (t : Txn)
          → P t.db
          → P t.work
          → P (continue r f t).1.db × P (continue r f t).1.work
      after (ok a) t h k = (kf a).at t h k
      after (err e) t h k = (h, k)
      after panic t h k = (h, k)

module _ {P : Db → Type 0} {R : Type 0} (tbl : Table R) where
  -- What the premise keeps is asked only of a row that clashes with no other.
  pub Keeps-insert_one :
      (r : R)
      → ((db : Db)
          → any (tbl.clash r) (tbl.rows db) ≡ false
          → P db
          → P (tbl.put (tbl.rows db ++ (r ∷ [])) db))
      → Keeps P (insert_one tbl r)
  unfolding insert_one
  Keeps-insert_one r keep = record {
    at = λ t h k. elim (Bool-cases t.closed) [
      | inl e ↦ rw e (h, k)
      | inr e ↦ rw e (elim (Bool-cases (any (tbl.clash r) (tbl.rows t.work))) [
        | inl c ↦ rw c (h, k)
        | inr c ↦ rw c (h, keep t.work c k)
      ])
    ];
  }

  pub Keeps-update_rows :
      (p : R → Bool) (f : R → R)
      → ((db : Db) → P db → P (tbl.put (update p f (tbl.rows db)) db))
      → Keeps P (update_rows tbl p f)
  unfolding update_rows
  Keeps-update_rows p f keep = record {
    at = λ t h k. elim (Bool-cases t.closed) [
      | inl e ↦ rw e (h, k)
      | inr e ↦ rw e (h, keep t.work k)
    ];
  }

  pub Keeps-update_multiple :
      (n : ℕ) (p : R → Bool) (f : R → R)
      → ((db : Db) → P db → P (tbl.put (update p f (tbl.rows db)) db))
      → Keeps P (update_multiple tbl n p f)
  unfolding update_multiple
  Keeps-update_multiple n p f keep =
      Keeps-bind _ _ (Keeps-update_rows p f keep) (λ rows. Keeps-check_affected n rows)

  pub Keeps-update_one :
      (p : R → Bool) (f : R → R)
      → ((db : Db) → P db → P (tbl.put (update p f (tbl.rows db)) db))
      → Keeps P (update_one tbl p f)
  unfolding update_one
  Keeps-update_one p f keep = Keeps-update_multiple 1 p f keep

  pub Keeps-update_unique :
      (p : R → Bool) (f : R → R)
      → ((db : Db) → P db → P (tbl.put (update p f (tbl.rows db)) db))
      → Keeps P (update_unique tbl p f)
  unfolding update_unique
  Keeps-update_unique p f keep =
      Keeps-bind _ _ (Keeps-query _)
        (λ clashes. Keeps-if clashes (λ _. Keeps-update_one p f keep) (λ _. Keeps-fail _))

  pub Keeps-check_existence : (p : R → Bool) → Keeps P (check_existence tbl p)
  unfolding check_existence
  Keeps-check_existence p = Keeps-query _

pub ruleset keeps_rules = (
  Keeps-pure, Keeps-fail, Keeps-panics, Keeps-query, Keeps-deref, Keeps-if, Keeps-assert,
  Keeps-commit, Keeps-bind, Keeps-check_existence,
)

-- A method keeps what its transaction keeps.
pub transact-keeps :
    {P : Db → Type 0} {A : Type 0} (m : Tx A) (db : Db) → Keeps P m → P db → P (transact m db).1
unfolding transact
transact-keeps m db k h = (k.at (record { db = db; work = db; closed = false }) h h).0
