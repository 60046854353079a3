-- ===== src/Keeper/Node/Calls/Signing.antt =====
-- The calls of the signature requests in keeper/bitcoin.go: their transactions, which are not built
-- for an empty list of requests, and the loops over the inputs.
use safe.Prelude.{
  ℕ, suc, GoString, ◌≡◌, Bool, false, List, [], ◌∷◌, Option, none, some, ◌==◌, length, arith, refl,
}
use safe.Common.Request.{Action, Request}
use safe.Keeper.Store.Tables.{Db, Safe, Transaction, SignatureRequest}
use safe.Keeper.Store.Tx.{Outcome, ok, err, panic}
use safe.Keeper.Calls.{close_account_by_signatures_c, write_signature_requests_c}
use safe.Keeper.Calls.Atomicity.{HasRequests}
use safe.Keeper.Node.World.{Node, OutPoint, Psbt}
use safe.Keeper.Node.Handler.{
  Turn, next, reply, crash, Handler, pure, answer, need, continue, ◌>>=◌, settled, call,
  fail_request, check,
}
use safe.Keeper.Node.Bitcoin.Signing.{
  signature_required, signature_pending, skips, approval_requests, signer_transactions,
  input_signature, input_signatures, process_bitcoin_safe_approve_transaction,
  process_bitcoin_safe_signature_response,
}
use safe.Keeper.Node.Signers.{sign_transactions}
use safe.Keeper.Node.Calls.{Makes, Makes-bind_next, Makes-bind}
use safe.Keeper.Node.Calls.Shared.{makes_shared}

-- A list of requests that is not empty suffices for the calls that write it.
pub HasRequests-write :
    {T : Type 0} (now : ℕ) (requests : List SignatureRequest) (hash raw : GoString) (req : Request)
    (txs : List T)
    → (length requests == 0) ≡ false
    → HasRequests (write_signature_requests_c now requests hash raw req txs)
HasRequests-write now [] hash raw req txs h = ground arith
HasRequests-write now (r ∷ rs) hash raw req txs h = tt

pub HasRequests-close :
    {T : Type 0} (now : ℕ) (requests : List SignatureRequest) (hash raw : GoString) (req : Request)
    (txs : List T)
    → (length requests == 0) ≡ false
    → HasRequests (close_account_by_signatures_c now requests hash raw req txs)
HasRequests-close now [] hash raw req txs h = ground arith
HasRequests-close now (r ∷ rs) hash raw req txs h = tt

module _ {T : Type 0} {A : Type 0} where
  ends_after :
      (r : Outcome (Unit {0}) × Db) (txs : List T) (asset : GoString) (a : A)
      → (continue (settled {T = T} r).0 (λ _. answer {A = A} txs asset) (settled {T = T} r).1).0
        ≡ next a
      → ⊥
  unfolding settled answer
  ends_after (ok u, db) txs asset a e = ground arith
  ends_after (err x, db) txs asset a e = ground arith
  ends_after (panic, db) txs asset a e = ground arith

  -- After a step that does not go on, nothing follows.
  stays_ended :
      {B : Type 0} (r : Turn T A) (f : A → Handler T B) (db : Db) (b : B)
      → ((a : A) → r ≡ next a → ⊥)
      → (continue r f db).0 ≡ next b
      → ⊥
  stays_ended (next a) f db b h e = h a refl
  stays_ended (reply txs asset) f db b h e = ground arith
  stays_ended crash f db b h e = ground arith

module _ {T E D : Type 0} (node : Node T E D) (now : ℕ) (req : Request) where
  -- A request that has failed is answered.
  fail_request_ends :
      {A : Type 0} (asset : GoString) (db : Db) (a : A)
      → (fail_request node now req asset db).0 ≡ next a
      → ⊥
  unfolding fail_request ◌>>=◌ call
  fail_request_ends asset db a e = ends_after _ [] asset a e

  unsigned_output :
      (o : Option Action) (db : Db) (none_built txs : List T)
      → ((need {T = T} o >>= λ act. check node now req false >>= λ _. pure none_built) db).0
        ≡ next txs
      → ⊥
  unfolding ◌>>=◌ need check
  unsigned_output none db none_built txs e = ground arith
  unsigned_output (some act) db none_built txs e =
      stays_ended (fail_request node now req [] db).0 _ _ txs (λ a k. fail_request_ends [] db a k) e

  -- With no request there is no transaction, and the handler does not go on.
  unsigned :
      (safe : Safe) (requests : List SignatureRequest) (db : Db) (txs : List T)
      → (signer_transactions node now req safe requests db).0 ≡ next txs
      → (length requests == 0) ≡ false
  unfolding signer_transactions sign_transactions ◌>>=◌ need check
  unsigned safe (r ∷ rs) db txs e = ground arith
  unsigned safe [] db txs e = absurd (unsigned_output req.output db [] txs e)

-- ----
module _ {T E D : Type 0} (node : Node T E D) (req : Request) where
  pub Makes-signature_required : (pop : OutPoint) → Makes node (signature_required node req pop)
  unfolding signature_required
  Makes-signature_required pop = search (makes_shared) depth 30

  pub Makes-signature_pending :
      (text : GoString) (n : ℕ) → Makes node (signature_pending node req text n)
  unfolding signature_pending
  Makes-signature_pending text n = search (makes_shared) depth 30

  pub Makes-skips :
      (text : GoString) (n : ℕ) (pop : OutPoint) (b : Bool)
      → Makes node (skips node req text n pop b)
  unfolding skips
  Makes-skips text n pop b = search (makes_shared, Makes-signature_required) depth 30

  pub Makes-approval_requests :
      (safe : Safe) (psbt : Psbt) (psbt2 : Psbt) (text : GoString) (n : ℕ) (pops : List OutPoint)
      → Makes node (approval_requests node req safe psbt psbt2 text n pops)
  unfolding approval_requests
  Makes-approval_requests safe psbt psbt2 text n [] = search makes_shared
  Makes-approval_requests safe psbt psbt2 text n (pop ∷ pops) =
      Makes-bind node _ _ (search (makes_shared, Makes-skips) depth 30)
        (λ a. search (makes_shared, Makes-approval_requests safe psbt psbt2 text (suc n) pops))

module _ {T E D : Type 0} (node : Node T E D) (now : ℕ) (req : Request) where
  pub Makes-signer_transactions :
      (safe : Safe) (requests : List SignatureRequest)
      → Makes node (signer_transactions node now req safe requests)
  unfolding signer_transactions
  Makes-signer_transactions safe requests = search (makes_shared) depth 30

  -- What follows may use that there are requests.
  pub Makes-signed :
      {A : Type 0} (safe : Safe) (requests : List SignatureRequest) (f : List T → Handler T A)
      → ((txs : List T) → (length requests == 0) ≡ false → Makes node (f txs))
      → Makes node (signer_transactions node now req safe requests >>= f)
  Makes-signed safe requests f h =
      Makes-bind_next _ _ _ (Makes-signer_transactions safe requests)
        (λ txs db e. h txs (unsigned node now req safe requests db txs e))

  pub Makes-input_signature :
      (text : GoString) (psbt : Psbt) (requests : List SignatureRequest) (n : ℕ)
      → Makes node (input_signature node now req text psbt requests n)
  unfolding input_signature
  Makes-input_signature text psbt requests n = search (makes_shared) depth 30

  pub Makes-input_signatures :
      (text : GoString) (psbt : Psbt) (requests : List SignatureRequest) (n : ℕ)
      (pops : List OutPoint)
      → Makes node (input_signatures node now req text psbt requests n pops)
  unfolding input_signatures
  Makes-input_signatures text psbt requests n [] = search makes_shared
  Makes-input_signatures text psbt requests n (pop ∷ pops) =
      Makes-bind node _ _ (search (makes_shared, Makes-signature_required) depth 30) (λ a.
        Makes-bind node _ _ (search (makes_shared, Makes-input_signature) depth 30)
          (λ b. search (makes_shared, Makes-input_signatures text psbt requests (suc n) pops)))

  pub Makes-process_bitcoin_safe_approve_transaction :
      Makes node (process_bitcoin_safe_approve_transaction node now req)
  unfolding process_bitcoin_safe_approve_transaction
  Makes-process_bitcoin_safe_approve_transaction =
      search (makes_shared, Makes-approval_requests, Makes-signed, HasRequests-write) depth 30

  pub Makes-process_bitcoin_safe_signature_response :
      (safe : Safe) (tx : Transaction) (old : SignatureRequest)
      → Makes node (process_bitcoin_safe_signature_response node now req safe tx old)
  unfolding process_bitcoin_safe_signature_response
  Makes-process_bitcoin_safe_signature_response safe tx old =
      search (makes_shared, Makes-input_signatures) depth 30
