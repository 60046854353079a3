-- ===== src/Keeper/Node/Calls/Ethereum.antt =====
-- The calls of the proposals, the approvals, the refunds and the signatures of keeper/ethereum.go.
use safe.Prelude.{ℕ, GoString, List, [], ◌∷◌}
use safe.Common.Request.{Request}
use safe.Keeper.Store.Tables.{Safe, SafeProposal, SafeBalance, Transaction, SignatureRequest}
use safe.Keeper.Node.World.{Node, Transfer, SafeTransaction}
use safe.Keeper.Node.Calls.{Makes, Makes-bind}
use safe.Keeper.Node.Calls.Shared.{makes_shared}
use safe.Keeper.Node.Ethereum.Accounts.{
  process_ethereum_safe_propose_account, guard_transaction, process_ethereum_safe_approve_account,
}
use safe.Keeper.Node.Ethereum.Transactions.{
  decimals_of, proposed_balance, recipient_transfers, proposed_transfers, check_destinations,
  recovery_transfers, other_balances, flagged_transfers, checked_transfers,
  process_ethereum_safe_propose_transaction,
}
use safe.Keeper.Node.Ethereum.Signing.{
  process_ethereum_safe_approve_transaction, done_transaction, refunded_balances,
  process_ethereum_safe_refund_transaction,
}
use safe.Keeper.Node.Ethereum.Response.{
  signed_transaction, finish_safe, take_from, finish_transaction,
  process_ethereum_safe_signature_response,
}
use safe.Keeper.Node.Ethereum.Transactions.{Recipient}
use safe.Keeper.Node.Calls.Bitcoin.{
  Makes-approved_proposal, Makes-account_response, Makes-bond_origin, Makes-require_bond,
  Makes-check_named_info,
}
use safe.Keeper.Node.Calls.Signing.{Makes-signer_transactions}

module _ {T E D : Type 0} (node : Node T E D) (now : ℕ) (req : Request) where
  pub Makes-process_ethereum_safe_propose_account :
      Makes node (process_ethereum_safe_propose_account node now req)
  unfolding process_ethereum_safe_propose_account
  Makes-process_ethereum_safe_propose_account = search (makes_shared) depth 30

  pub Makes-guard_transaction :
      (sp : SafeProposal) (text : GoString) → Makes node (guard_transaction node now req sp text)
  unfolding guard_transaction
  Makes-guard_transaction sp text = search (makes_shared) depth 30

  pub Makes-process_ethereum_safe_approve_account :
      Makes node (process_ethereum_safe_approve_account node now req)
  unfolding process_ethereum_safe_approve_account
  Makes-process_ethereum_safe_approve_account =
      search
        (makes_shared, Makes-approved_proposal, Makes-guard_transaction, Makes-signer_transactions)
        depth 30

  pub Makes-decimals_of :
      (text : GoString) (text2 : GoString) → Makes node (decimals_of node now req text text2)
  unfolding decimals_of
  Makes-decimals_of text text2 = search (makes_shared) depth 30

  pub Makes-proposed_balance :
      (safe : Safe) (text : GoString) → Makes node (proposed_balance node now req safe text)
  unfolding proposed_balance
  Makes-proposed_balance safe text = search (makes_shared) depth 30

  pub Makes-recipient_transfers :
      (text : GoString) (n : ℕ) (n2 : ℕ) (x : List (GoString × GoString))
      → Makes node (recipient_transfers node now req text n n2 x)
  unfolding recipient_transfers
  Makes-recipient_transfers text n n2 [] = search makes_shared
  Makes-recipient_transfers text n n2 ((receiver, amount) ∷ rest) =
      Makes-bind node _ _ (search makes_shared) (λ a.
        Makes-bind node _ _ (search makes_shared) (λ b.
          Makes-bind node _ _ (search makes_shared)
            (λ c. search (makes_shared, Makes-recipient_transfers text n n2 rest))))

  pub Makes-proposed_transfers :
      (text : GoString) (n : ℕ) (n2 : ℕ) (text2 : GoString)
      → Makes node (proposed_transfers node now req text n n2 text2)
  unfolding proposed_transfers
  Makes-proposed_transfers text n n2 text2 =
      search (makes_shared, Makes-recipient_transfers) depth 30

  pub Makes-check_destinations :
      (text : GoString) (outputs : List Transfer)
      → Makes node (check_destinations node now req text outputs)
  unfolding check_destinations
  Makes-check_destinations text [] = search makes_shared
  Makes-check_destinations text (o ∷ os) =
      Makes-bind node _ _ (search makes_shared)
        (λ a. search (makes_shared, Makes-check_destinations text os))

  pub Makes-recovery_transfers :
      (text : GoString) (sbm : List SafeBalance)
      → Makes node (recovery_transfers node now req text sbm)
  unfolding recovery_transfers
  Makes-recovery_transfers text [] = search makes_shared
  Makes-recovery_transfers text (b ∷ bs) =
      Makes-bind node _ _ (search makes_shared)
        (λ a. search (makes_shared, Makes-recovery_transfers text bs))

  pub Makes-other_balances :
      (safe : Safe) (text : GoString) → Makes node (other_balances node now req safe text)
  unfolding other_balances
  Makes-other_balances safe text = search (makes_shared) depth 30

  pub Makes-flagged_transfers :
      (n : ℕ) (safe : Safe) (text : GoString) (text2 : GoString) (outputs : List Transfer)
      (recipients : List Recipient)
      → Makes node (flagged_transfers node now req n safe text text2 outputs recipients)
  unfolding flagged_transfers
  Makes-flagged_transfers n safe text text2 outputs recipients =
      search (makes_shared, Makes-other_balances, Makes-recovery_transfers) depth 30

  pub Makes-checked_transfers : Makes node (checked_transfers node now req)
  unfolding checked_transfers
  Makes-checked_transfers =
      search
        (
          makes_shared, Makes-bond_origin, Makes-require_bond, Makes-check_named_info,
          Makes-proposed_balance, Makes-decimals_of, Makes-proposed_transfers,
          Makes-check_destinations, Makes-flagged_transfers,
        )
        depth 50

  pub Makes-process_ethereum_safe_propose_transaction :
      Makes node (process_ethereum_safe_propose_transaction node now req)
  unfolding process_ethereum_safe_propose_transaction
  Makes-process_ethereum_safe_propose_transaction =
      search (makes_shared, Makes-checked_transfers) depth 30

  pub Makes-process_ethereum_safe_approve_transaction :
      Makes node (process_ethereum_safe_approve_transaction node now req)
  unfolding process_ethereum_safe_approve_transaction
  Makes-process_ethereum_safe_approve_transaction =
      search (makes_shared, Makes-signer_transactions) depth 30

  pub Makes-done_transaction : (text : GoString) → Makes node (done_transaction node now req text)
  unfolding done_transaction
  Makes-done_transaction text = search (makes_shared) depth 30

  pub Makes-refunded_balances :
      (safe : Safe) (tx : Transaction) → Makes node (refunded_balances node now req safe tx)
  unfolding refunded_balances
  Makes-refunded_balances safe tx = search (makes_shared) depth 30

  pub Makes-process_ethereum_safe_refund_transaction :
      Makes node (process_ethereum_safe_refund_transaction node now req)
  unfolding process_ethereum_safe_refund_transaction
  Makes-process_ethereum_safe_refund_transaction =
      search (makes_shared, Makes-done_transaction, Makes-refunded_balances) depth 30

  pub Makes-signed_transaction :
      (safe : Safe) (tx : Transaction) (old : SignatureRequest)
      → Makes node (signed_transaction node now req safe tx old)
  unfolding signed_transaction
  Makes-signed_transaction safe tx old = search (makes_shared) depth 30

  pub Makes-finish_safe :
      (safe : Safe) (t : SafeTransaction) (old : SignatureRequest)
      → Makes node (finish_safe node now req safe t old)
  unfolding finish_safe
  Makes-finish_safe safe t old = search (makes_shared, Makes-account_response) depth 30

  pub Makes-take_from :
      (outputs : List Transfer) (sbm : List SafeBalance)
      → Makes node (take_from node now req outputs sbm)
  unfolding take_from
  Makes-take_from [] sbm = search makes_shared
  Makes-take_from (o ∷ os) sbm = Makes-bind node _ _ (search makes_shared) (λ a.
      Makes-bind node _ _ (search makes_shared) (λ b.
        Makes-bind node _ _ (search makes_shared)
          (λ c. search (makes_shared, Makes-take_from os c))))

  pub Makes-finish_transaction :
      (safe : Safe) (t : SafeTransaction) (old : SignatureRequest)
      → Makes node (finish_transaction node now req safe t old)
  unfolding finish_transaction
  Makes-finish_transaction safe t old = search (makes_shared, Makes-take_from) depth 30

  pub Makes-process_ethereum_safe_signature_response :
      (safe : Safe) (tx : Transaction) (old : SignatureRequest)
      → Makes node (process_ethereum_safe_signature_response node now req safe tx old)
  unfolding process_ethereum_safe_signature_response
  Makes-process_ethereum_safe_signature_response safe tx old =
      search (makes_shared, Makes-signed_transaction, Makes-finish_safe, Makes-finish_transaction)
        depth 30
