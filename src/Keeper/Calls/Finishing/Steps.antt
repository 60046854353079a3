-- ===== src/Keeper/Calls/Finishing/Steps.antt =====
-- How the steps of a transaction of keeper/store change what it sees and what it commits: one rule
-- for each way to build a transaction.
use safe.Prelude.{
  ℕ, ◌≡◌, refl, inl, inr, Bool, true, false, List, [], ◌∷◌, Option, none, some, arith, any,
  Bool-cases, if◌then◌else◌,
}
use safe.Keeper.Store.Tables.{Db}
use safe.Keeper.Store.Tx.{
  Error, Outcome, ok, err, panic, Txn, Tx, Table, pure, fail, panics, query, deref, continue, ◌>>=◌,
  assert, commit, insert_one, update_rows, check_affected, update_multiple, update_one,
  check_existence,
}
use safe.Keeper.Store.Schema.{for_each}

-- What a step that returns without an error makes of an open transaction: it stays open, and the
-- view of the transaction goes from `P` to `Q`.
pub record Leads (P Q : Db → Type 0) {A : Type 0} (m : Tx A) : Type 0 where
  pub at :
      (t : Txn) (a : A)
      → t.closed ≡ false
      → P t.work
      → (m t).0 ≡ ok a
      → ((m t).1.closed ≡ false) × Q (m t).1.work

-- From an open transaction whose view has `P`, the step commits `D` if it returns without an error.
pub record Lands (P D : Db → Type 0) {A : Type 0} (m : Tx A) : Type 0 where
  pub at : (t : Txn) (a : A) → t.closed ≡ false → P t.work → (m t).0 ≡ ok a → D (m t).1.db

module _ {P : Db → Type 0} {A : Type 0} where
  pub Leads-pure : (a : A) → Leads P P (pure a)
  unfolding pure
  Leads-pure a = record { at = λ t b c h e. (c, h) }

  pub Leads-panics : Leads P P (panics {A = A})
  unfolding panics
  Leads-panics = record { at = λ t b c h e. (c, h) }

  pub Leads-fail : (x : Error) → Leads P P (fail {A = A} x)
  unfolding fail
  Leads-fail x = record { at = λ t b c h e. (c, h) }

  pub Leads-query : (f : Db → A) → Leads P P (query f)
  unfolding query
  Leads-query f = record { at = λ t b c h e. rw c (refl, h) }

  pub Leads-deref : (o : Option A) → Leads P P (deref o)
  unfolding deref
  Leads-deref none = record { at = λ t b c h e. (c, h) }
  Leads-deref (some a) = record { at = λ t b c h e. (c, h) }

pub Leads-assert : {P : Db → Type 0} (b : Bool) → Leads P P (assert b)
unfolding assert
Leads-assert true = record { at = λ t b c h e. (c, h) }
Leads-assert false = record { at = λ t b c h e. (c, h) }

module _ {P Q : Db → Type 0} {A : Type 0} where
  pub Leads-if :
      (c : Bool) {yes no : Tx A} → Leads P Q yes → Leads P Q no → Leads P Q (if c then yes else no)
  Leads-if false h k = k
  Leads-if true h k = h

  pub Lands-if :
      (c : Bool) {yes no : Tx A} → Lands P Q yes → Lands P Q no → Lands P Q (if c then yes else no)
  Lands-if false h k = k
  Lands-if true h k = h

module _ {P Q D : Db → Type 0} {A B : Type 0} (m : Tx A) (f : A → Tx B) where
  pub Leads-bind : Leads P Q m → ((a : A) → Leads Q D (f a)) → Leads P D (m >>= f)
  unfolding ◌>>=◌
  Leads-bind km kf = record { at = λ t b c h e. after (m t).0 (m t).1 b (λ a k. km.at t a c h k) e }
    where
      after :
          (r : Outcome A) (t : Txn) (b : B)
          → ((a : A) → r ≡ ok a → (t.closed ≡ false) × Q t.work)
          → (continue r f t).0 ≡ ok b
          → ((continue r f t).1.closed ≡ false) × D (continue r f t).1.work
      after (ok a) t b k e = let (c, h) = k a refl in (kf a).at t b c h e
      after (err x) t b k e = ground arith
      after panic t b k e = ground arith

  pub Lands-bind : Leads P Q m → ((a : A) → Lands Q D (f a)) → Lands P D (m >>= f)
  unfolding ◌>>=◌
  Lands-bind km kf = record { at = λ t b c h e. after (m t).0 (m t).1 b (λ a k. km.at t a c h k) e }
    where
      after :
          (r : Outcome A) (t : Txn) (b : B)
          → ((a : A) → r ≡ ok a → (t.closed ≡ false) × Q t.work)
          → (continue r f t).0 ≡ ok b
          → D (continue r f t).1.db
      after (ok a) t b k e = let (c, h) = k a refl in (kf a).at t b c h e
      after (err x) t b k e = ground arith
      after panic t b k e = ground arith

pub Lands-commit : {P : Db → Type 0} → Lands P P commit
unfolding commit
Lands-commit = record { at = λ t a c h e. rw c h }

module _ {P : Db → Type 0} {R : Type 0} (tbl : Table R) where
  pub Leads-insert_one :
      (r : R)
      → ((rows : List R) (db : Db) → P db → P (tbl.put rows db))
      → Leads P P (insert_one tbl r)
  unfolding insert_one
  Leads-insert_one r keep = record {
    at = λ t a c h e. elim (Bool-cases (any (tbl.clash r) (tbl.rows t.work))) [
      | inl k ↦ rw (c, k) (refl, h)
      | inr k ↦ rw (c, k) (refl, keep _ t.work h)
    ];
  }

  pub Leads-update_rows :
      (p : R → Bool) (f : R → R)
      → ((rows : List R) (db : Db) → P db → P (tbl.put rows db))
      → Leads P P (update_rows tbl p f)
  unfolding update_rows
  Leads-update_rows p f keep = record { at = λ t a c h e. rw c (refl, keep _ t.work h) }

pub Leads-check_affected : {P : Db → Type 0} (n m : ℕ) → Leads P P (check_affected n m)
unfolding check_affected
Leads-check_affected n m = record { at = λ t a c h e. (c, h) }

module _ {P : Db → Type 0} {R : Type 0} (tbl : Table R) where
  pub Leads-update_multiple :
      (n : ℕ) (p : R → Bool) (f : R → R)
      → ((rows : List R) (db : Db) → P db → P (tbl.put rows db))
      → Leads P P (update_multiple tbl n p f)
  unfolding update_multiple
  Leads-update_multiple n p f keep =
      Leads-bind _ _ (Leads-update_rows tbl p f keep) (λ rows. Leads-check_affected n rows)

  pub Leads-update_one :
      (p : R → Bool) (f : R → R)
      → ((rows : List R) (db : Db) → P db → P (tbl.put rows db))
      → Leads P P (update_one tbl p f)
  unfolding update_one
  Leads-update_one p f keep = Leads-update_multiple 1 p f keep

  pub Leads-check_existence : (p : R → Bool) → Leads P P (check_existence tbl p)
  unfolding check_existence
  Leads-check_existence p = Leads-query _

pub Leads-for_each :
    {P : Db → Type 0} {A : Type 0} (f : A → Tx (Unit {0})) (xs : List A)
    → ((a : A) → Leads P P (f a))
    → Leads P P (for_each f xs)
unfolding for_each
Leads-for_each f [] h = Leads-pure tt
Leads-for_each f (x ∷ xs) h = Leads-bind _ _ (h x) (λ _. Leads-for_each f xs h)
