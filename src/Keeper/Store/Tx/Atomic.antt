-- ===== src/Keeper/Store/Tx/Atomic.antt =====
-- Commits in the transactions of keeper/store: one rule for each way to build a method.
use safe.Prelude.{
  ℕ, ◌≡◌, refl, ◌∙◌, ◌⊎◌, inl, inr, Bool, true, false, Option, none, some, arith, Bool-cases,
  if◌then◌else◌,
}
use safe.Keeper.Store.Tables.{Db}
use safe.Keeper.Store.Tx.{
  Error, Outcome, ok, err, panic, Txn, Tx, Table, pure, fail, panics, query, deref, continue, ◌>>=◌,
  assert, commit, insert_one, update_rows, update_multiple, update_one, update_unique,
  check_existence, transact,
}

-- `m` does not commit.
pub record Quiet {A : Type 0} (m : Tx A) : Type 0 where
  pub at : (t : Txn) → (m t).1.db ≡ t.db

-- `m` does not commit, or it returns with no error.
pub record Settles {A : Type 0} (m : Tx A) : Type 0 where
  pub at : (t : Txn) → ((m t).1.db ≡ t.db) ⊎ ((a : A) × ((m t).0 ≡ ok a))

module _ {A : Type 0} where
  pub Quiet-pure : (a : A) → Quiet (pure a)
  unfolding pure
  Quiet-pure a = record { at = λ t. refl }

  pub Quiet-fail : (e : Error) → Quiet (fail {A = A} e)
  unfolding fail
  Quiet-fail e = record { at = λ t. refl }

  pub Quiet-panics : Quiet (panics {A = A})
  unfolding panics
  Quiet-panics = record { at = λ t. refl }

  pub Quiet-query : (f : Db → A) → Quiet (query f)
  unfolding query
  Quiet-query f = record { at = λ t. ground arith }

  pub Quiet-deref : (o : Option A) → Quiet (deref o)
  unfolding deref
  Quiet-deref none = record { at = λ t. refl }
  Quiet-deref (some a) = record { at = λ t. refl }

  pub Quiet-if : (b : Bool) (m n : Tx A) → Quiet m → Quiet n → Quiet (if b then m else n)
  Quiet-if true m n km kn = km
  Quiet-if false m n km kn = kn

  pub Settles-if : (b : Bool) (m n : Tx A) → Settles m → Settles n → Settles (if b then m else n)
  Settles-if true m n km kn = km
  Settles-if false m n km kn = kn

  pub Settles-of_Quiet : (m : Tx A) → Quiet m → Settles m
  Settles-of_Quiet m k = record { at = λ t. inl (k.at t) }

  -- A method that settles is atomic.
  pub atomic_of_Settles :
      (m : Tx A) (db : Db)
      → Settles m
      → ((transact m db).1 ≡ db) ⊎ ((a : A) × ((transact m db).0 ≡ ok a))
  unfolding transact
  atomic_of_Settles m db k = k.at (record { db = db; work = db; closed = false })

pub Quiet-assert : (b : Bool) → Quiet (assert b)
unfolding assert
Quiet-assert true = record { at = λ t. refl }
Quiet-assert false = record { at = λ t. refl }

pub Settles-commit : Settles commit
unfolding commit
Settles-commit = record {
  at = λ t. elim (Bool-cases t.closed) [ inl e ↦ inl (rw e) | inr e ↦ inr (tt, rw e) ];
}

module _ {A B : Type 0} where
  pub Quiet-bind : (m : Tx A) (f : A → Tx B) → Quiet m → ((a : A) → Quiet (f a)) → Quiet (m >>= f)
  unfolding ◌>>=◌
  Quiet-bind m f km kf = record { at = λ t. after (m t).0 (m t).1 ∙ km.at t }
    where
      after : (r : Outcome A) (t : Txn) → (continue r f t).1.db ≡ t.db
      after (ok a) t = (kf a).at t
      after (err e) t = refl
      after panic t = refl

  pub Settles-bind :
      (m : Tx A) (f : A → Tx B) → Quiet m → ((a : A) → Settles (f a)) → Settles (m >>= f)
  unfolding ◌>>=◌
  Settles-bind m f km kf = record {
    at = λ t. elim (after (m t).0 (m t).1) [ inl e ↦ inl (e ∙ km.at t) | inr x ↦ inr x ];
  }
    where
      after :
          (r : Outcome A) (t : Txn)
          → ((continue r f t).1.db ≡ t.db) ⊎ ((b : B) × ((continue r f t).0 ≡ ok b))
      after (ok a) t = (kf a).at t
      after (err e) t = inl refl
      after panic t = inl refl

  -- A commit may be followed by what returns a value.
  pub Settles-then_pure : (m : Tx A) (b : B) → Settles m → Settles (m >>= λ _. pure b)
  unfolding ◌>>=◌ pure
  Settles-then_pure m b km = record {
    at =
        λ t. elim (km.at t) [ inl e ↦ inl (same (m t).0 (m t).1 ∙ e) | inr (a, e) ↦ inr (b, rw e) ];
  }
    where
      same : (r : Outcome A) (t : Txn) → (continue r (λ _. pure b) t).1.db ≡ t.db
      same (ok a) t = refl
      same (err x) t = refl
      same panic t = refl

module _ {R : Type 0} (tbl : Table R) where
  pub Quiet-insert_one : (r : R) → Quiet (insert_one tbl r)
  unfolding insert_one
  Quiet-insert_one r = record { at = λ t. ground arith }

  pub Quiet-update_rows : (p : R → Bool) (f : R → R) → Quiet (update_rows tbl p f)
  unfolding update_rows
  Quiet-update_rows p f = record { at = λ t. ground arith }

  pub Quiet-update_multiple : (n : ℕ) (p : R → Bool) (f : R → R) → Quiet (update_multiple tbl n p f)
  unfolding update_multiple
  Quiet-update_multiple n p f =
      Quiet-bind _ _ (Quiet-update_rows p f) (λ rows. record { at = λ t. refl })

  pub Quiet-update_one : (p : R → Bool) (f : R → R) → Quiet (update_one tbl p f)
  unfolding update_one
  Quiet-update_one p f = Quiet-update_multiple 1 p f

  pub Quiet-update_unique : (p : R → Bool) (f : R → R) → Quiet (update_unique tbl p f)
  unfolding update_unique
  Quiet-update_unique p f =
      Quiet-bind _ _ (Quiet-query _)
        (λ clashes. Quiet-if clashes _ _ (Quiet-fail _) (Quiet-update_one p f))

  pub Quiet-check_existence : (p : R → Bool) → Quiet (check_existence tbl p)
  unfolding check_existence
  Quiet-check_existence p = Quiet-query _

pub ruleset quiet_rules = (
  Quiet-pure, Quiet-fail, Quiet-panics, Quiet-query, Quiet-deref, Quiet-if, Quiet-assert,
  Quiet-bind, Quiet-insert_one, Quiet-update_multiple, Quiet-update_rows, Quiet-update_one,
  Quiet-update_unique, Quiet-check_existence,
)

pub ruleset settles_rules =
    (quiet_rules, Settles-if, Settles-bind, Settles-commit, Settles-of_Quiet, Settles-then_pure)
