-- ===== src/Keeper/Node/Calls/Bitcoin.antt =====
-- The calls of the proposals and the approvals of accounts, and of the proposals of transactions,
-- in keeper/bitcoin.go.
use safe.Prelude.{ℕ, GoString, Bool, List, [], ◌∷◌}
use safe.Common.Request.{Request}
use safe.Keeper.Store.Tables.{Safe}
use safe.Keeper.Store.Outputs.{Input}
use safe.Keeper.Node.World.{Node, Output, Built, built, insufficient, failed}
use safe.Keeper.Node.Calls.{Makes, Makes-bind}
use safe.Keeper.Node.Calls.Shared.{makes_shared}
use safe.Keeper.Node.Bitcoin.Accounts.{
  witness_account, process_bitcoin_safe_propose_account, approved_proposal, account_response,
  process_bitcoin_safe_approve_account,
}
use safe.Keeper.Node.Bitcoin.Transactions.{
  bond_origin, require_bond, check_named_info, recipient_outputs, proposed_outputs, accept_built,
  built_transaction, process_bitcoin_safe_propose_transaction,
}

module _ {T E D : Type 0} (node : Node T E D) where
  pub Makes-witness_account :
      (text : GoString) (text2 : GoString) (text3 : GoString) (text4 : GoString) (n : ℕ) (n2 : ℕ)
      → Makes node (witness_account node text text2 text3 text4 n n2)
  unfolding witness_account
  Makes-witness_account text text2 text3 text4 n n2 = search (makes_shared) depth 30

module _ {T E D : Type 0} (node : Node T E D) (now : ℕ) (req : Request) where
  pub Makes-approved_proposal :
      (n : ℕ) (text : GoString) → Makes node (approved_proposal node now req n text)
  unfolding approved_proposal
  Makes-approved_proposal n text = search (makes_shared) depth 30

  pub Makes-account_response :
      (text : GoString) (n : ℕ) (n2 : ℕ) (text2 : GoString) (text3 : GoString)
      → Makes node (account_response node now req text n n2 text2 text3)
  unfolding account_response
  Makes-account_response text n n2 text2 text3 = search (makes_shared) depth 30

  pub Makes-process_bitcoin_safe_propose_account :
      Makes node (process_bitcoin_safe_propose_account node now req)
  unfolding process_bitcoin_safe_propose_account
  Makes-process_bitcoin_safe_propose_account = search (makes_shared, Makes-witness_account) depth 30

  pub Makes-process_bitcoin_safe_approve_account :
      Makes node (process_bitcoin_safe_approve_account node now req)
  unfolding process_bitcoin_safe_approve_account
  Makes-process_bitcoin_safe_approve_account =
      search (makes_shared, Makes-approved_proposal, Makes-account_response) depth 30

  pub Makes-bond_origin : (text : GoString) → Makes node (bond_origin node now req text)
  unfolding bond_origin
  Makes-bond_origin text = search (makes_shared) depth 30

  pub Makes-require_bond :
      (safe : Safe) (text : GoString) → Makes node (require_bond node now req safe text)
  unfolding require_bond
  Makes-require_bond safe text = search (makes_shared) depth 30

  pub Makes-check_named_info :
      (n : ℕ) (text : GoString) → Makes node (check_named_info node now req n text)
  unfolding check_named_info
  Makes-check_named_info n text = search (makes_shared) depth 30

  pub Makes-recipient_outputs :
      (n : ℕ) (n2 : ℕ) (x : List (GoString × GoString))
      → Makes node (recipient_outputs node now req n n2 x)
  unfolding recipient_outputs
  Makes-recipient_outputs n n2 [] = search makes_shared
  Makes-recipient_outputs n n2 ((receiver, amount) ∷ rest) =
      Makes-bind node _ _ (search makes_shared) (λ a.
        Makes-bind node _ _ (search makes_shared) (λ b.
          Makes-bind node _ _ (search makes_shared) (λ c.
            Makes-bind node _ _ (search makes_shared)
              (λ d. search (makes_shared, Makes-recipient_outputs n n2 rest)))))

  pub Makes-proposed_outputs :
      (n : ℕ) (n2 : ℕ) (text : GoString) → Makes node (proposed_outputs node now req n n2 text)
  unfolding proposed_outputs
  Makes-proposed_outputs n n2 text = search (makes_shared, Makes-recipient_outputs) depth 30

  pub Makes-accept_built :
      (safe : Safe) (built_one : Built) → Makes node (accept_built node now req safe built_one)
  unfolding accept_built
  Makes-accept_built safe (built psbt) = search makes_shared
  Makes-accept_built safe insufficient = search makes_shared
  Makes-accept_built safe failed = search makes_shared

  pub Makes-built_transaction :
      (safe : Safe) (b : Bool) (inputs : List Input) (outputs : List Output)
      → Makes node (built_transaction node now req safe b inputs outputs)
  unfolding built_transaction
  Makes-built_transaction safe b inputs outputs = search (makes_shared, Makes-accept_built) depth 30

  pub Makes-process_bitcoin_safe_propose_transaction :
      Makes node (process_bitcoin_safe_propose_transaction node now req)
  unfolding process_bitcoin_safe_propose_transaction
  Makes-process_bitcoin_safe_propose_transaction =
      search
        (
          makes_shared, Makes-bond_origin, Makes-require_bond, Makes-check_named_info,
          Makes-proposed_outputs, Makes-built_transaction,
        )
        depth 30
