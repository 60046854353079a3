-- ===== src/Keeper/Node/Calls/Shared.antt =====
-- The calls of what the handlers of keeper/ share: failures, refunds, keys, extras and proposals.
use safe.Prelude.{ℕ, GoString, Bool, true, false, List, [], Option, none, some}
use safe.Common.Request.{Request}
use safe.Keeper.Store.Tables.{Safe, OperationParams}
use safe.Keeper.Node.World.{Node, Asset}
use safe.Keeper.Node.Handler.{Handler, fail_request, found, check}
use safe.Keeper.Node.Keys.{
  derive_bip32_with_path, fetch_bond_asset_receiver, get_bond_asset_id, deployed_asset_id,
  refund_and_fail_request, verify_observer, verify_holder, verify_holder_or_observer,
}
use safe.Keeper.Node.Proposal.{AccountProposal}
use safe.Keeper.Node.Extras.{
  read_storage_extra, is_reference, read_reference, proposal_extra, leading_uuid,
}
use safe.Keeper.Node.Accounts.{
  params_or_refund, assigned_keys, checked_proposal, storage_response, safe_of_holder,
  open_transaction,
}
use safe.Keeper.Node.Calls.{
  Makes, Makes-pure, Makes-panics, Makes-answer, Makes-look, Makes-need, Makes-or_else, Makes-ask,
  Makes-if, Makes-require, Makes-bind, Makes-call, Makes-assign,
}

pub ruleset makes_rules = (
  Makes-pure, Makes-panics, Makes-answer, Makes-look, Makes-need, Makes-or_else, Makes-ask,
  Makes-if, Makes-require, Makes-bind, Makes-call, Makes-assign, tt,
)

module _ {T E D : Type 0} (node : Node T E D) (now : ℕ) (req : Request) where
  module _ {A : Type 0} where
    pub Makes-fail_request :
        (asset : GoString) → Makes node (fail_request node now req {A = A} asset)
    unfolding fail_request
    Makes-fail_request asset = search makes_rules

    pub Makes-found : (o : Option A) → Makes node (found node now req o)
    unfolding found
    Makes-found none = Makes-fail_request []
    Makes-found (some a) = search makes_rules

  module _ {A : Type 0} where
    pub Makes-refund :
        (receivers : List GoString) (threshold : ℕ)
        → Makes node (refund_and_fail_request node now req {A = A} receivers threshold)
    unfolding refund_and_fail_request
    Makes-refund receivers threshold = search (makes_rules, Makes-fail_request) depth 12

  pub Makes-check : (b : Bool) → Makes node (check node now req b)
  unfolding check
  Makes-check true = search makes_rules
  Makes-check false = Makes-fail_request []

pub ruleset makes_steps = (makes_rules, Makes-fail_request, Makes-found, Makes-check, Makes-refund)

module _ {T E D : Type 0} (node : Node T E D) where
  pub Makes-derive_bip32_with_path :
      (text : GoString) (text2 : GoString) → Makes node (derive_bip32_with_path node text text2)
  unfolding derive_bip32_with_path
  Makes-derive_bip32_with_path text text2 = search (makes_steps) depth 30

  pub Makes-fetch_bond_asset_receiver :
      (text : GoString) (text2 : GoString) → Makes node (fetch_bond_asset_receiver node text text2)
  unfolding fetch_bond_asset_receiver
  Makes-fetch_bond_asset_receiver text text2 = search (makes_steps) depth 30

  pub Makes-get_bond_asset_id :
      (text : GoString) (text2 : GoString) (text3 : GoString)
      → Makes node (get_bond_asset_id node text text2 text3)
  unfolding get_bond_asset_id
  Makes-get_bond_asset_id text text2 text3 = search (makes_steps) depth 30

  pub Makes-deployed_asset_id : (asset : Asset) → Makes node (deployed_asset_id node asset)
  unfolding deployed_asset_id
  Makes-deployed_asset_id asset = search (makes_steps) depth 30

  pub Makes-read_storage_extra : (text : GoString) → Makes node (read_storage_extra node text)
  unfolding read_storage_extra
  Makes-read_storage_extra text = search (makes_steps) depth 30

  pub Makes-is_reference : (r : Request) (text : GoString) → Makes node (is_reference node r text)
  unfolding is_reference
  Makes-is_reference r text = search (makes_steps) depth 30

  pub Makes-read_reference : (text : GoString) → Makes node (read_reference node text)
  unfolding read_reference
  Makes-read_reference text = search (makes_steps) depth 30

  pub Makes-proposal_extra :
      (r : Request) (text : GoString) → Makes node (proposal_extra node r text)
  unfolding proposal_extra
  Makes-proposal_extra r text =
      search (makes_steps, Makes-is_reference, Makes-read_reference) depth 30

module _ {T E D : Type 0} (node : Node T E D) (now : ℕ) (req : Request) where
  pub Makes-leading_uuid : (text : GoString) → Makes node (leading_uuid node now req text)
  unfolding leading_uuid
  Makes-leading_uuid text = search (makes_steps) depth 30

  pub Makes-verify_observer :
      (safe : Safe) (text : GoString) (text2 : GoString)
      → Makes node (verify_observer node now req safe text text2)
  unfolding verify_observer
  Makes-verify_observer safe text text2 =
      search (makes_steps, Makes-derive_bip32_with_path) depth 30

  pub Makes-verify_holder :
      (safe : Safe) (text : GoString) (text2 : GoString)
      → Makes node (verify_holder node now req safe text text2)
  unfolding verify_holder
  Makes-verify_holder safe text text2 = search (makes_steps, Makes-verify_observer) depth 30

  pub Makes-verify_holder_or_observer :
      (safe : Safe) (text : GoString) (text2 : GoString)
      → Makes node (verify_holder_or_observer node now req safe text text2)
  unfolding verify_holder_or_observer
  Makes-verify_holder_or_observer safe text text2 =
      search (makes_steps, Makes-verify_holder) depth 30

  pub Makes-params_or_refund :
      (chain : ℕ) (amount : OperationParams → ℕ) (receivers : List GoString) (threshold : ℕ)
      → Makes node (params_or_refund node now req chain amount receivers threshold)
  unfolding params_or_refund
  Makes-params_or_refund chain amount receivers threshold = search (makes_steps) depth 30

  pub Makes-assigned_keys : (arp : AccountProposal) → Makes node (assigned_keys node now req arp)
  unfolding assigned_keys
  Makes-assigned_keys arp = search (makes_steps) depth 30

  pub Makes-checked_proposal : Makes node (checked_proposal node now req)
  unfolding checked_proposal
  Makes-checked_proposal =
      search (makes_steps, Makes-proposal_extra, Makes-params_or_refund) depth 30

  pub Makes-safe_of_holder : Makes node (safe_of_holder node now req)
  unfolding safe_of_holder
  Makes-safe_of_holder = search (makes_steps) depth 30

  pub Makes-open_transaction : (text : GoString) → Makes node (open_transaction node now req text)
  unfolding open_transaction
  Makes-open_transaction text = search (makes_steps) depth 30

  pub Makes-storage_response :
      (deny : Handler T T) (id : GoString → GoString) (typ chain : ℕ) (extra : GoString)
      → Makes node deny
      → Makes node (storage_response node now req deny id typ chain extra)
  unfolding storage_response
  Makes-storage_response deny id typ chain extra h = search (makes_steps) depth 30

pub ruleset makes_shared = (
  makes_steps, Makes-derive_bip32_with_path, Makes-fetch_bond_asset_receiver,
  Makes-get_bond_asset_id, Makes-deployed_asset_id, Makes-read_storage_extra, Makes-is_reference,
  Makes-read_reference, Makes-leading_uuid, Makes-verify_holder_or_observer, Makes-params_or_refund,
  Makes-assigned_keys, Makes-checked_proposal, Makes-safe_of_holder, Makes-open_transaction,
  Makes-storage_response,
)
