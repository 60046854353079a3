-- ===== src/Keeper/Calls/Spending.antt =====
-- What the outputs of the safes and the transactions that spend them have to do with one another.

pub mod Statements
pub mod Insertion
pub mod Methods
use safe.Prelude.{
  ℕ, GoString, ◌≡◌, ◌⊎◌, Bool, true, false, List, [], ◌∷◌, ◌++◌, Option, none, some, arith, str_eq,
  All, any, update, Bool-cases, inl, inr, if◌then◌else◌, str_eq_refl, refl,
}
use safe.Common.Constants.{request_state_initial, request_state_pending, request_state_done}
use safe.Keeper.Store.Tables.{Db, BitcoinOutput, Transaction}

abbrev pub has_transaction : GoString → List Transaction → Bool
has_transaction hash trxs = any (λ t. str_eq t.transaction_hash hash) trxs

-- An output is unspent and initial, or a stored transaction spends it and it is pending or done.
pub data OutputOk (trxs : List Transaction) : BitcoinOutput → Type 0 where
  unspent :
      {o : BitcoinOutput} → o.state ≡ request_state_initial → o.spent_by ≡ none → OutputOk trxs o
  spent :
      {o : BitcoinOutput} (hash : GoString)
      → (o.state ≡ request_state_pending) ⊎ (o.state ≡ request_state_done)
      → o.spent_by ≡ some hash
      → has_transaction hash trxs ≡ true
      → OutputOk trxs o

-- The invariant.
abbrev pub OutputsOk : Db → Type 0
OutputsOk db = All (OutputOk db.transactions) db.bitcoin_outputs

pub All-append-one :
    {A : Type 0} (P : A → Type 0) (xs : List A) (y : A) → All P xs → P y → All P (xs ++ (y ∷ []))
All-append-one P [] y h k = (k, tt)
All-append-one P (x ∷ xs) y h k = (h.0, All-append-one P xs y h.1 k)

pub All-map :
    {A : Type 0} (P Q : A → Type 0) (xs : List A) → ((x : A) → P x → Q x) → All P xs → All Q xs
All-map P Q [] k h = tt
All-map P Q (x ∷ xs) k h = (k x h.0, All-map P Q xs k h.1)

update_element :
    {A : Type 0} (P : A → Type 0) (p : A → Bool) (f : A → A) (x : A)
    → ((x : A) → P x → p x ≡ true → P (f x))
    → P x
    → P (if p x then f x else x)
update_element P p f x k h = elim (Bool-cases (p x)) [ inl e ↦ rw e (k x h e) | inr e ↦ rw e h ]

pub All-update :
    {A : Type 0} (P : A → Type 0) (p : A → Bool) (f : A → A) (xs : List A)
    → ((x : A) → P x → p x ≡ true → P (f x))
    → All P xs
    → All P (update p f xs)
All-update P p f [] k h = tt
All-update P p f (x ∷ xs) k h = (update_element P p f x k h.0, All-update P p f xs k h.1)

pub has_transaction-append :
    (hash : GoString) (trxs more : List Transaction)
    → has_transaction hash trxs ≡ true
    → has_transaction hash (trxs ++ more) ≡ true
has_transaction-append hash [] more h = cc
has_transaction-append hash (t ∷ trxs) more h =
    ground (arith, has_transaction-append hash trxs more)

pub has_transaction_last :
    (trx : Transaction) (trxs : List Transaction)
    → has_transaction trx.transaction_hash (trxs ++ (trx ∷ [])) ≡ true
has_transaction_last trx [] = ground (arith, str_eq_refl trx.transaction_hash)
has_transaction_last trx (t ∷ trxs) = ground (arith, has_transaction_last trx trxs)

-- An update that keeps the hashes.
pub has_transaction-update :
    (hash : GoString) (p : Transaction → Bool) (f : Transaction → Transaction)
    (trxs : List Transaction)
    → ((t : Transaction) → (f t).transaction_hash ≡ t.transaction_hash)
    → has_transaction hash (update p f trxs) ≡ has_transaction hash trxs
has_transaction-update hash p f [] k = refl
has_transaction-update hash p f (t ∷ trxs) k =
    ground (arith, k t, has_transaction-update hash p f trxs k)

-- More transactions leave the outputs in order.
pub OutputOk-more :
    (trxs more : List Transaction)
    → ((hash : GoString) → has_transaction hash trxs ≡ true → has_transaction hash more ≡ true)
    → (o : BitcoinOutput) → OutputOk trxs o
    → OutputOk more o
OutputOk-more trxs more k o (unspent a b) = unspent a b
OutputOk-more trxs more k o (spent hash a b c) = spent hash a b (k hash c)
