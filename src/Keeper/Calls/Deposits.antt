-- ===== src/Keeper/Calls/Deposits.antt =====
-- Deposits at the same transaction and index, in keeper/store/bitcoin.go and keeper/store/ethereum.go.
use safe.Prelude.{
  Option, ℕ, GoString, ◌≡◌, ◌≢◌, ap, refl, inl, inr, Bool, true, false, List, [], ◌∷◌, arith, ◌&&◌,
  str_eq, ◌==◌, any, str_eq_comm, Bool-cases,
}
use safe.Prelude.Grows.{Grows-any}
use safe.Common.Request.{Request}
use safe.Keeper.Store.Tables.{Db, Safe, SafeBalance, BitcoinOutput, Deposit}
use safe.Keeper.Store.Clashes.{bitcoin_output_clash, deposit_clash}
use safe.Keeper.Store.Tx.{
  Outcome, ok, err, panic, insert_error, Txn, Tx, continue, ◌>>=◌, transact, insert_one,
}
use safe.Keeper.Store.Tx.Rules.{
  Keeps, Keeps-bind, Keeps-if, Keeps-insert_one, Keeps-update_one, Keeps-check_existence,
}
use safe.Keeper.Store.Schema.{ethereum_balances, deposits}
use safe.Keeper.Store.Balances.{
  create_or_update_ethereum_balance, deposit_of_balance,
  create_ethereum_balance_deposit_from_request,
}
use safe.Keeper.Calls.Atomicity.{call_atomic}
use safe.Keeper.Store.Outputs.{Input, is_output, output_of_input, write_bitcoin_output_from_request}
use safe.Keeper.Store.Transactions.{TransactionInput}
use safe.Keeper.Calls.{Call, write_output_c, create_deposit_c, method, run, run_all}
use safe.Keeper.Calls.History.{OutputMoves}
use safe.Keeper.Calls.History.Methods.{history_kept}

-- A row of the deposit table at a place.
abbrev pub is_deposit : GoString → ℕ → Deposit → Bool
is_deposit hash index d = str_eq d.transaction_hash hash && (d.output_index == index)

same_place :
    (hash : GoString) (index : ℕ) (x y : BitcoinOutput)
    → OutputMoves x y
    → is_output hash index x ≡ true
    → is_output hash index y ≡ true
same_place hash index x y h e = rw (h.0, h.1) e

module _ {T : Type 0} (serialize : List T → GoString)
    (inputs : GoString → Option (List TransactionInput)) where
  output_stays :
      (db : Db) (cs : List (Call T)) (hash : GoString) (index : ℕ)
      → any (is_output hash index) db.bitcoin_outputs ≡ true
      → any (is_output hash index) (run_all serialize inputs cs db).bitcoin_outputs ≡ true
  output_stays db cs hash index e =
      Grows-any OutputMoves (is_output hash index) db.bitcoin_outputs
        (run_all serialize inputs cs db).bitcoin_outputs (same_place hash index)
        (history_kept serialize inputs db cs).bitcoin_outputs e

  deposit_stays :
      (db : Db) (cs : List (Call T)) (hash : GoString) (index : ℕ)
      → any (is_deposit hash index) db.deposits ≡ true
      → any (is_deposit hash index) (run_all serialize inputs cs db).deposits ≡ true
  deposit_stays db cs hash index e =
      Grows-any ◌≡◌ (is_deposit hash index) db.deposits (run_all serialize inputs cs db).deposits
        (λ x y h k. rw (← h) k) (history_kept serialize inputs db cs).deposits e

output_clashes :
    (safe : Safe) (utxo : Input) (req : Request) (os : List BitcoinOutput)
    → any (is_output utxo.transaction_hash utxo.index) os ≡ true
    → any (bitcoin_output_clash (output_of_input safe utxo req)) os ≡ true
unfolding bitcoin_output_clash
output_clashes safe utxo req [] e = e
output_clashes safe utxo req (o ∷ os) e =
    ground
      (arith, str_eq_comm o.transaction_hash utxo.transaction_hash, output_clashes safe utxo req os)

deposit_clashes :
    (hash : GoString) (index : ℕ) (d : Deposit) (ds : List Deposit)
    → d.transaction_hash ≡ hash
    → d.output_index ≡ index
    → any (is_deposit hash index) ds ≡ true
    → any (deposit_clash d) ds ≡ true
unfolding deposit_clash
deposit_clashes hash index d [] h k e = e
deposit_clashes hash index d (x ∷ ds) h k e = ground (
  arith,
  str_eq_comm x.transaction_hash hash,
  ap (λ (s : GoString). str_eq s x.transaction_hash) h,
  deposit_clashes hash index d ds h k,
)

module _ {T : Type 0} (serialize : List T → GoString)
    (inputs : GoString → Option (List TransactionInput)) where
  refused :
      (now : ℕ) (safe : Safe) (utxo : Input) (req : Request) (asset sender : GoString)
      (txs : List T) (db : Db)
      → any (is_output utxo.transaction_hash utxo.index) db.bitcoin_outputs ≡ true
      → run serialize inputs (write_output_c now safe utxo req asset sender txs) db
        ≡ (err insert_error, db)
  unfolding run method transact write_bitcoin_output_from_request insert_one ◌>>=◌
  refused now safe utxo req asset sender txs db e =
      rw (output_clashes safe utxo req db.bitcoin_outputs e)

  -- Once the store has an output, then after any calls every attempt to record a deposit at the same
  -- transaction and index fails on the insertion and leaves the database as it is.
  pub deposit_once :
      (db : Db) (cs : List (Call T)) (now : ℕ) (safe : Safe) (utxo : Input) (req : Request)
      (asset sender : GoString) (txs : List T)
      → any (is_output utxo.transaction_hash utxo.index) db.bitcoin_outputs ≡ true
      → run serialize inputs
          (write_output_c now safe utxo req asset sender txs)
          (run_all serialize inputs cs db)
        ≡ (err insert_error, run_all serialize inputs cs db)
  deposit_once db cs now safe utxo req asset sender txs e =
      refused now safe utxo req asset sender txs (run_all serialize inputs cs db)
        (output_stays serialize inputs db cs utxo.transaction_hash utxo.index e)

module _ (hash : GoString) (index : ℕ) where
  HasDeposit : Db → Type 0
  HasDeposit db = any (is_deposit hash index) db.deposits ≡ true

  HasDeposit-create_or_update_ethereum_balance :
      (now : ℕ) (sb : SafeBalance) → Keeps HasDeposit (create_or_update_ethereum_balance now sb)
  unfolding create_or_update_ethereum_balance HasDeposit
  HasDeposit-create_or_update_ethereum_balance now sb =
      Keeps-bind _ _ (Keeps-check_existence ethereum_balances _) (λ existed.
        Keeps-if existed (λ _. Keeps-insert_one ethereum_balances _ (λ db c h. h))
          (λ _. Keeps-update_one ethereum_balances _ _ (λ db h. h)))

  -- The insertion of the deposit does not succeed, whatever came before it.
  insertion_refused :
      (d : Deposit) (f : Unit {0} → Tx (Unit {0})) (r : Outcome (Unit {0})) (t : Txn)
      → d.transaction_hash ≡ hash
      → d.output_index ≡ index
      → HasDeposit t.work
      → (a : Unit {0}) → (continue r (λ _. insert_one deposits d >>= f) t).0 ≢ ok a
  unfolding insert_one ◌>>=◌ HasDeposit
  insertion_refused d f (err x) t h i k a = ground arith
  insertion_refused d f panic t h i k a = ground arith
  insertion_refused d f (ok u) t h i k a = elim (Bool-cases t.closed) [
    | inl c ↦ rw c (ground arith)
    | inr c ↦ rw (c, deposit_clashes hash index d t.work.deposits h i k) (ground arith)
  ]

module _ {T : Type 0} (serialize : List T → GoString)
    (inputs : GoString → Option (List TransactionInput)) where
  balance_deposit_refused :
      (db : Db) (now : ℕ) (safe : Safe) (sb : SafeBalance) (hash : GoString) (index amount : ℕ)
      (sender : GoString) (req : Request) (txs : List T)
      → HasDeposit hash index db
      → (a : Unit {0})
      → (run serialize inputs (create_deposit_c now safe sb hash index amount sender req txs) db).0
        ≢ ok a
  unfolding run method transact create_ethereum_balance_deposit_from_request ◌>>=◌
  balance_deposit_refused db now safe sb hash index amount sender req txs h a =
      let t : Txn = record { db = db; work = db; closed = false } in
      insertion_refused hash index (deposit_of_balance safe sb hash index amount sender req) _
        (create_or_update_ethereum_balance now sb t).0
        (create_or_update_ethereum_balance now sb t).1 refl refl
        ((HasDeposit-create_or_update_ethereum_balance hash index now sb).at t h h).1 a

  -- Once a deposit is recorded, then after any calls every attempt to record an Ethereum deposit at
  -- the same transaction and index leaves the database as it is, the balance too, and does not
  -- return without an error.
  pub balance_deposit_once :
      (db : Db) (cs : List (Call T)) (now : ℕ) (safe : Safe) (sb : SafeBalance) (hash : GoString)
      (index amount : ℕ) (sender : GoString) (req : Request) (txs : List T) (a : Unit {0})
      → any (is_deposit hash index) db.deposits ≡ true
      → ((run serialize inputs
            (create_deposit_c now safe sb hash index amount sender req txs)
            (run_all serialize inputs cs db)).1
          ≡ run_all serialize inputs cs db)
        × ((run serialize inputs
              (create_deposit_c now safe sb hash index amount sender req txs)
              (run_all serialize inputs cs db)).0
            ≢ ok a)
  unfolding HasDeposit
  balance_deposit_once db cs now safe sb hash index amount sender req txs a h =
      let later = run_all serialize inputs cs db in
      let c = create_deposit_c now safe sb hash index amount sender req txs in
      let no =
        balance_deposit_refused later now safe sb hash index amount sender req txs
          (deposit_stays serialize inputs db cs hash index h) in
      (
        elim (call_atomic serialize inputs c later tt) [ inl e ↦ e | inr (u, e) ↦ absurd (no u e) ],
        no a,
      )
