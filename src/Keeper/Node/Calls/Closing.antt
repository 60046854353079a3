-- ===== src/Keeper/Node/Calls/Closing.antt =====
-- The calls of the closing of an account, in keeper/bitcoin.go and keeper/ethereum.go.
use safe.Prelude.{ℕ, suc, GoString, List, [], ◌∷◌}
use safe.Common.Request.{Request}
use safe.Keeper.Store.Tables.{Safe, SafeBalance, NetworkInfo}
use safe.Keeper.Store.Outputs.{Input}
use safe.Keeper.Node.World.{Node, OutPoint, Psbt, Transfer, SafeTransaction}
use safe.Keeper.Node.Calls.{Makes, Makes-bind}
use safe.Keeper.Node.Calls.Shared.{makes_shared}
use safe.Keeper.Node.Bitcoin.Closing.{
  closing_request, closing_requests, close_bitcoin_account_with_holder, recovery_output,
  observer_recovery, close_by_signatures, process_bitcoin_safe_close_account,
}
use safe.Keeper.Node.Ethereum.Closing.{
  require_unlocked, observed_recovery, check_closing_transfers, check_emptied, closing_recipients,
  close_ethereum_account_with_holder, close_ethereum_by_signature,
  process_ethereum_safe_close_account,
}
use safe.Prelude.{inr}
use safe.Keeper.Node.Calls.Ethereum.{Makes-decimals_of}
use safe.Keeper.Node.Calls.Signing.{
  Makes-signature_required, Makes-signature_pending, Makes-signer_transactions, Makes-signed,
  HasRequests-write, HasRequests-close,
}

module _ {T E D : Type 0} (node : Node T E D) (now : ℕ) (req : Request) where
  pub Makes-closing_request :
      (safe : Safe) (psbt : Psbt) (info : NetworkInfo) (n : ℕ) (n2 : ℕ) (pop : OutPoint)
      → Makes node (closing_request node now req safe psbt info n n2 pop)
  unfolding closing_request
  Makes-closing_request safe psbt info n n2 pop =
      search (makes_shared, Makes-signature_required, Makes-signature_pending) depth 30

  pub Makes-closing_requests :
      (safe : Safe) (psbt : Psbt) (info : NetworkInfo) (n : ℕ) (n2 : ℕ) (pops : List OutPoint)
      → Makes node (closing_requests node now req safe psbt info n n2 pops)
  unfolding closing_requests
  Makes-closing_requests safe psbt info n n2 [] = search makes_shared
  Makes-closing_requests safe psbt info n n2 (pop ∷ pops) =
      Makes-bind node _ _ (search (makes_shared, Makes-closing_request) depth 30)
        (λ a. search (makes_shared, Makes-closing_requests safe psbt info n (suc n2) pops))

  pub Makes-close_bitcoin_account_with_holder :
      (safe : Safe) (text : GoString) (inputs : List Input) (n : ℕ) (text2 : GoString)
      → Makes node (close_bitcoin_account_with_holder node now req safe text inputs n text2)
  unfolding close_bitcoin_account_with_holder
  Makes-close_bitcoin_account_with_holder safe text inputs n text2 =
      search (makes_shared, inr) depth 30

  pub Makes-recovery_output :
      (safe : Safe) (psbt : Psbt) → Makes node (recovery_output node now req safe psbt)
  unfolding recovery_output
  Makes-recovery_output safe psbt = search (makes_shared) depth 30

  pub Makes-observer_recovery :
      (safe : Safe) (text : GoString) → Makes node (observer_recovery node now req safe text)
  unfolding observer_recovery
  Makes-observer_recovery safe text = search (makes_shared) depth 30

  pub Makes-close_by_signatures :
      (safe : Safe) (psbt : Psbt) (n : ℕ) (text : GoString)
      → Makes node (close_by_signatures node now req safe psbt n text)
  unfolding close_by_signatures
  Makes-close_by_signatures safe psbt n text =
      search
        (makes_shared, Makes-closing_requests, Makes-signed, HasRequests-write, HasRequests-close)
        depth 40

  pub Makes-process_bitcoin_safe_close_account :
      Makes node (process_bitcoin_safe_close_account node now req)
  unfolding process_bitcoin_safe_close_account
  Makes-process_bitcoin_safe_close_account =
      search
        (
          makes_shared, Makes-observer_recovery, Makes-recovery_output,
          Makes-close_bitcoin_account_with_holder, Makes-close_by_signatures,
        )
        depth 40

  pub Makes-require_unlocked : (safe : Safe) → Makes node (require_unlocked node now req safe)
  unfolding require_unlocked
  Makes-require_unlocked safe = search (makes_shared) depth 30

  pub Makes-observed_recovery :
      (safe : Safe) (text : GoString) → Makes node (observed_recovery node now req safe text)
  unfolding observed_recovery
  Makes-observed_recovery safe text = search (makes_shared) depth 30

  pub Makes-check_closing_transfers :
      (text : GoString) (sbm : List SafeBalance) (outputs : List Transfer)
      → Makes node (check_closing_transfers node now req text sbm outputs)
  unfolding check_closing_transfers
  Makes-check_closing_transfers text sbm [] = search makes_shared
  Makes-check_closing_transfers text sbm (o ∷ os) = Makes-bind node _ _ (search makes_shared) (λ a.
      Makes-bind node _ _ (search makes_shared) (λ b.
        Makes-bind node _ _ (search makes_shared)
          (λ c. search (makes_shared, Makes-check_closing_transfers text sbm os))))

  pub Makes-check_emptied :
      (safe : Safe) (outputs : List Transfer) → Makes node (check_emptied node now req safe outputs)
  unfolding check_emptied
  Makes-check_emptied safe outputs = search (makes_shared, Makes-check_closing_transfers) depth 30

  pub Makes-closing_recipients :
      (safe : Safe) (outputs : List Transfer)
      → Makes node (closing_recipients node now req safe outputs)
  unfolding closing_recipients
  Makes-closing_recipients safe [] = search makes_shared
  Makes-closing_recipients safe (o ∷ os) = Makes-bind node _ _ (search makes_shared) (λ a.
      Makes-bind node _ _ (search (makes_shared, Makes-decimals_of) depth 30)
        (λ b. search (makes_shared, Makes-closing_recipients safe os)))

  pub Makes-close_ethereum_account_with_holder :
      (safe : Safe) (text : GoString)
      → Makes node (close_ethereum_account_with_holder node now req safe text)
  unfolding close_ethereum_account_with_holder
  Makes-close_ethereum_account_with_holder safe text =
      search (makes_shared, Makes-closing_recipients, inr) depth 30

  pub Makes-close_ethereum_by_signature :
      (safe : Safe) (t : SafeTransaction) (text : GoString)
      → Makes node (close_ethereum_by_signature node now req safe t text)
  unfolding close_ethereum_by_signature
  Makes-close_ethereum_by_signature safe t text =
      search (makes_shared, Makes-signer_transactions) depth 30

  pub Makes-process_ethereum_safe_close_account :
      Makes node (process_ethereum_safe_close_account node now req)
  unfolding process_ethereum_safe_close_account
  Makes-process_ethereum_safe_close_account =
      search
        (
          makes_shared, Makes-require_unlocked, Makes-observed_recovery, Makes-check_emptied,
          Makes-close_ethereum_account_with_holder, Makes-close_ethereum_by_signature,
        )
        depth 40
