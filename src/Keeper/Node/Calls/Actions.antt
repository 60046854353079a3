-- ===== src/Keeper/Node/Calls/Actions.antt =====
-- The calls of an action of keeper/group.go, and what they keep of the database.
use safe.Prelude.{ℕ, GoString, ◌≡◌, refl, Bool, List, [], ◌∷◌, Option, none, some, All}
use safe.Common.Request.{Action, Request}
use safe.Keeper.Store.Tables.{Db, NetworkInfo, OperationParams}
use safe.Keeper.Store.Tx.{Outcome, ok, err, panic, transact}
use safe.Keeper.Store.Requests.{ActionResult}
use safe.Keeper.Store.Networks.{
  write_network_info_from_request, write_operation_params_from_request,
}
use safe.Keeper.Calls.{
  Call, fail_request_c, write_network_info_c, write_operation_params_c, method, run, run_all,
}
use safe.Keeper.Calls.Atomicity.{HasRequests}
use safe.Keeper.Calls.Spending.Methods.{SpendsAs}
use safe.Keeper.Node.World.{Node}
use safe.Keeper.Node.Network.{
  Block, settle, fail_request_node, check_network_info, write_network_info, check_operation_params,
  write_operation_params,
}
use safe.Keeper.Node.Dispatch
use safe.Keeper.Node.Actions.{
  returned, rpc_get_block, handle, process_request, process_new_request, process_unanswered,
  process_result, process_parsed, process_action,
}
use safe.Keeper.Node.Calls.{Makes, Sound, after_calls}
use safe.Keeper.Node.Calls.Shared.{makes_shared}
use safe.Keeper.Node.Calls.Requests.{
  Makes-process_key_add, Makes-process_signer_keygen_requests, Makes-handle_bond_asset,
  Makes-process_safe_revoke_transaction, Makes-process_signer_signature_response,
  Makes-check_safe_token_migration,
}
use safe.Keeper.Node.Calls.Deposits.{Makes-create_holder_deposit}
use safe.Keeper.Node.Calls.Bitcoin.{
  Makes-process_bitcoin_safe_propose_account, Makes-process_bitcoin_safe_approve_account,
  Makes-process_bitcoin_safe_propose_transaction,
}
use safe.Keeper.Node.Calls.Signing.{Makes-process_bitcoin_safe_approve_transaction}
use safe.Keeper.Node.Calls.Ethereum.{
  Makes-process_ethereum_safe_propose_account, Makes-process_ethereum_safe_approve_account,
  Makes-process_ethereum_safe_propose_transaction, Makes-process_ethereum_safe_approve_transaction,
  Makes-process_ethereum_safe_refund_transaction,
}
use safe.Keeper.Node.Calls.Closing.{
  Makes-process_bitcoin_safe_close_account, Makes-process_ethereum_safe_close_account,
}

module _ {A : Type 0} (P Q : A → Type 0) where
  pub All-first : (xs : List A) → All (λ x. P x × Q x) xs → All P xs
  All-first [] h = tt
  All-first (x ∷ xs) h = (h.0.0, All-first xs h.1)

  All-second : (xs : List A) → All (λ x. P x × Q x) xs → All Q xs
  All-second [] h = tt
  All-second (x ∷ xs) h = (h.0.1, All-second xs h.1)

module _ {T E D : Type 0} (node : Node T E D) where
  -- What a method of the store leaves is what the handler that reads its error leaves.
  returned_db :
      (a : List T × GoString) (r : Outcome (Unit {0}) × Db)
      → (returned {T = T} (λ _. settle a r) r.1).1 ≡ r.1
  unfolding returned
  returned_db a (ok u, db) = refl
  returned_db a (err e, db) = refl
  returned_db a (panic, db) = refl

  one_call :
      (c : Call T) (a : List T × GoString) (db : Db)
      → SpendsAs c
      → HasRequests c
      → (cs : List (Call T)) × All Sound cs
        × ((returned {T = T}
              (λ d. settle a (transact (method node.group.serialize node.bitcoin.psbt_inputs c) d))
              db).1
            ≡ after_calls node cs db)
  unfolding run_all run returned
  one_call c a db s h = (
    c ∷ [],
    ((s, h), tt),
    returned_db a (transact (method node.group.serialize node.bitcoin.psbt_inputs c) db),
  )

module _ {T E D : Type 0} (node : Node T E D) (now : ℕ) (req : Request) where
  -- writeNetworkInfo after its checks.
  info_calls :
      (i : Option (Option NetworkInfo)) (db : Db)
      → (cs : List (Call T)) × All Sound cs
        × ((returned {T = T}
              (λ d. elim i [
                | none ↦ (none, d)
                | some none ↦ fail_request_node node.group.serialize now req [] d
                | some (some info) ↦
                    settle
                      ([], [])
                      (transact
                        (write_network_info_from_request node.group.serialize now info req)
                        d)
              ])
              db).1
            ≡ after_calls node cs db)
  unfolding returned method run_all
  info_calls none db = ([], tt, refl)
  info_calls (some none) db = one_call node (fail_request_c now req [] []) ([], []) db tt tt
  info_calls (some (some info)) db =
      one_call node (write_network_info_c now info req) ([], []) db tt tt

  -- writeOperationParams after its checks.
  params_calls :
      (p : Option (Option OperationParams)) (db : Db)
      → (cs : List (Call T)) × All Sound cs
        × ((returned {T = T}
              (λ d. elim p [
                | none ↦ (none, d)
                | some none ↦ fail_request_node node.group.serialize now req [] d
                | some (some params) ↦
                    settle
                      ([], [])
                      (transact
                        (write_operation_params_from_request node.group.serialize now params req)
                        d)
              ])
              db).1
            ≡ after_calls node cs db)
  unfolding returned method run_all
  params_calls none db = ([], tt, refl)
  params_calls (some none) db = one_call node (fail_request_c now req [] []) ([], []) db tt tt
  params_calls (some (some params)) db =
      one_call node (write_operation_params_c now params req) ([], []) db tt tt

  Makes-write_network_info :
      (rpc : ℕ → GoString → Option Block)
      → Makes node (returned (write_network_info node.group.serialize rpc now req))
  unfolding returned write_network_info
  Makes-write_network_info rpc = record { at = λ db. info_calls (check_network_info rpc req db) db }

  Makes-write_operation_params :
      Makes node (returned (write_operation_params node.group.serialize node.uuid now req))
  unfolding returned write_operation_params
  Makes-write_operation_params = record {
    at = λ db. params_calls (check_operation_params node.group.serialize node.uuid req) db;
  }

  Makes-handle : (h : Dispatch.Handler) → Makes node (handle node now req h)
  unfolding handle
  Makes-handle h = elim h as (λ k. Makes node (handle node now req k)) [
    | Dispatch.Handler.call_process_key_add ↦ Makes-process_key_add node now req
    | Dispatch.Handler.call_process_signer_signature_response ↦
        Makes-process_signer_signature_response node now req
    | Dispatch.Handler.call_terminate ↦ search makes_shared
    | Dispatch.Handler.call_process_signer_keygen_requests ↦
        Makes-process_signer_keygen_requests node now req
    | Dispatch.Handler.call_write_network_info ↦
        Makes-write_network_info (rpc_get_block node now req)
    | Dispatch.Handler.call_create_holder_deposit ↦ Makes-create_holder_deposit node now req
    | Dispatch.Handler.call_write_operation_params ↦ Makes-write_operation_params
    | Dispatch.Handler.call_check_safe_token_migration ↦
        Makes-check_safe_token_migration node now req
    | Dispatch.Handler.call_process_bitcoin_safe_propose_account ↦
        Makes-process_bitcoin_safe_propose_account node now req
    | Dispatch.Handler.call_process_bitcoin_safe_approve_account ↦
        Makes-process_bitcoin_safe_approve_account node now req
    | Dispatch.Handler.call_process_bitcoin_safe_propose_transaction ↦
        Makes-process_bitcoin_safe_propose_transaction node now req
    | Dispatch.Handler.call_process_bitcoin_safe_approve_transaction ↦
        Makes-process_bitcoin_safe_approve_transaction node now req
    | Dispatch.Handler.call_process_safe_revoke_transaction ↦
        Makes-process_safe_revoke_transaction node now req
    | Dispatch.Handler.call_process_bitcoin_safe_close_account ↦
        Makes-process_bitcoin_safe_close_account node now req
    | Dispatch.Handler.call_process_ethereum_safe_propose_account ↦
        Makes-process_ethereum_safe_propose_account node now req
    | Dispatch.Handler.call_process_ethereum_safe_approve_account ↦
        Makes-process_ethereum_safe_approve_account node now req
    | Dispatch.Handler.call_process_ethereum_safe_propose_transaction ↦
        Makes-process_ethereum_safe_propose_transaction node now req
    | Dispatch.Handler.call_process_ethereum_safe_approve_transaction ↦
        Makes-process_ethereum_safe_approve_transaction node now req
    | Dispatch.Handler.call_process_ethereum_safe_close_account ↦
        Makes-process_ethereum_safe_close_account node now req
    | Dispatch.Handler.call_process_ethereum_safe_refund_transaction ↦
        Makes-process_ethereum_safe_refund_transaction node now req
  ]

  Makes-process_request : Makes node (process_request node now req)
  unfolding process_request
  Makes-process_request = search (makes_shared, Makes-handle)

  Makes-process_new_request : Makes node (process_new_request node now req)
  unfolding process_new_request
  Makes-process_new_request = search (makes_shared, Makes-process_request)

  Makes-process_result :
      (r : Option (ActionResult T)) (handled : Bool)
      → Makes node (process_result node now req r handled)
  unfolding process_result process_unanswered
  Makes-process_result none handled = search (makes_shared, Makes-process_new_request)
  Makes-process_result (some r) handled = search makes_shared

  Makes-process_parsed : (output_id : GoString) → Makes node (process_parsed node now req output_id)
  unfolding process_parsed
  Makes-process_parsed output_id = search (makes_shared, Makes-process_result)

module _ {T E D : Type 0} (node : Node T E D) where
  pub Makes-process_action : (now : ℕ) (out : Action) → Makes node (process_action node now out)
  unfolding process_action
  Makes-process_action now out =
      search (makes_shared, Makes-handle_bond_asset, Makes-process_parsed) depth 20

  -- From any database, an action leaves what some calls of the methods of the store leave, each of
  -- which has a signature request wherever it writes some, and spends outputs as pending or done
  -- where it closes an account, whether the action replies or panics.
  pub action_calls :
      (now : ℕ) (out : Action) (db : Db)
      → (cs : List (Call T)) × All SpendsAs cs
        × All HasRequests cs
        × ((process_action node now out db).1
            ≡ run_all node.group.serialize node.bitcoin.psbt_inputs cs db)
  action_calls now out db =
      let (cs, s, e) = (Makes-process_action now out).at db in
      (cs, All-first SpendsAs HasRequests cs s, All-second SpendsAs HasRequests cs s, e)
