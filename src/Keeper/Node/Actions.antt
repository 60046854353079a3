-- ===== src/Keeper/Node/Actions.antt =====
-- keeper/group.go: an action of the group. `process_request` calls the handler of a request,
-- `process_action` reads the request and keeps its result, and `process_output` runs it twice, and
-- compares the two answers.
use safe.Prelude.{ℕ, GoString, Bool, List, [], Option, none, some, not, ◌||◌, ◌==◌, if◌then◌else◌}
use safe.Common.Request.{Action, Request}
use safe.Keeper.Store.Tables.{Db}
use safe.Keeper.Store.Requests.{ActionResult, read_action_result}
use safe.Keeper.Calls.{fail_action_c, write_request_c, write_terminate_c}
use safe.Keeper.Node.Dispatch
use safe.Keeper.Node.Dispatch.{get_action_role, handler_of}
use safe.Keeper.Node.Network.{Block, write_network_info, write_operation_params}
use safe.Keeper.Node.World.{Node}
use safe.Keeper.Node.Handler.{
  Turn, next, reply, crash, Handler, panics, answer, need, or_else, require, ◌>>=◌, ◌>>◌, ask, call,
}
use safe.Keeper.Node.Keys.{process_key_add, process_signer_keygen_requests}
use safe.Keeper.Node.Requests.{verify_format, parse_request}
use safe.Keeper.Node.Deposits.{is_bitcoin_chain}
use safe.Keeper.Node.Deposits.Holder.{create_holder_deposit}
use safe.Keeper.Node.Revoking.{
  handle_bond_asset, process_safe_revoke_transaction, process_signer_signature_response,
  check_safe_token_migration,
}
use safe.Keeper.Node.Bitcoin.Accounts.{
  process_bitcoin_safe_propose_account, process_bitcoin_safe_approve_account,
}
use safe.Keeper.Node.Bitcoin.Transactions.{process_bitcoin_safe_propose_transaction}
use safe.Keeper.Node.Bitcoin.Signing.{process_bitcoin_safe_approve_transaction}
use safe.Keeper.Node.Bitcoin.Closing.{process_bitcoin_safe_close_account}
use safe.Keeper.Node.Ethereum.Accounts.{
  process_ethereum_safe_propose_account, process_ethereum_safe_approve_account,
}
use safe.Keeper.Node.Ethereum.Transactions.{process_ethereum_safe_propose_transaction}
use safe.Keeper.Node.Ethereum.Signing.{
  process_ethereum_safe_approve_transaction, process_ethereum_safe_refund_transaction,
}
use safe.Keeper.Node.Ethereum.Closing.{process_ethereum_safe_close_account}

-- A handler of the network module, which returns its answer or panics with none.
unfoldable pub returned :
    {T : Type 0} → (Db → Option (List T × GoString) × Db) → Handler T (Unit {0})
returned m db =
    let (r, db') = m db in
    elim r [ none ↦ (crash, db') | some (txs, asset) ↦ (reply txs asset, db') ]

module _ {T E D : Type 0} (node : Node T E D) (now : ℕ) (req : Request) where
  -- The RPC that the check of an info asks, by its chain.
  abbrev pub rpc_get_block : ℕ → GoString → Option Block
  rpc_get_block chain hash =
      if is_bitcoin_chain chain
      then node.bitcoin.rpc_get_block chain hash
      else node.ethereum.rpc_get_block chain hash

  -- The methods of the node; Terminate panics after its write.
  unfoldable pub handle : Dispatch.Handler → Handler T (Unit {0})
  unfolding returned
  handle Dispatch.Handler.call_process_key_add = process_key_add node now req
  handle Dispatch.Handler.call_process_signer_signature_response =
      process_signer_signature_response node now req
  handle Dispatch.Handler.call_terminate = do call node (write_terminate_c now); panics
  handle Dispatch.Handler.call_process_signer_keygen_requests =
      process_signer_keygen_requests node now req
  handle Dispatch.Handler.call_write_network_info =
      returned (write_network_info node.group.serialize rpc_get_block now req)
  handle Dispatch.Handler.call_create_holder_deposit = create_holder_deposit node now req
  handle Dispatch.Handler.call_write_operation_params =
      returned (write_operation_params node.group.serialize node.uuid now req)
  handle Dispatch.Handler.call_check_safe_token_migration = check_safe_token_migration node now req
  handle Dispatch.Handler.call_process_bitcoin_safe_propose_account =
      process_bitcoin_safe_propose_account node now req
  handle Dispatch.Handler.call_process_bitcoin_safe_approve_account =
      process_bitcoin_safe_approve_account node now req
  handle Dispatch.Handler.call_process_bitcoin_safe_propose_transaction =
      process_bitcoin_safe_propose_transaction node now req
  handle Dispatch.Handler.call_process_bitcoin_safe_approve_transaction =
      process_bitcoin_safe_approve_transaction node now req
  handle Dispatch.Handler.call_process_safe_revoke_transaction =
      process_safe_revoke_transaction node now req
  handle Dispatch.Handler.call_process_bitcoin_safe_close_account =
      process_bitcoin_safe_close_account node now req
  handle Dispatch.Handler.call_process_ethereum_safe_propose_account =
      process_ethereum_safe_propose_account node now req
  handle Dispatch.Handler.call_process_ethereum_safe_approve_account =
      process_ethereum_safe_approve_account node now req
  handle Dispatch.Handler.call_process_ethereum_safe_propose_transaction =
      process_ethereum_safe_propose_transaction node now req
  handle Dispatch.Handler.call_process_ethereum_safe_approve_transaction =
      process_ethereum_safe_approve_transaction node now req
  handle Dispatch.Handler.call_process_ethereum_safe_close_account =
      process_ethereum_safe_close_account node now req
  handle Dispatch.Handler.call_process_ethereum_safe_refund_transaction =
      process_ethereum_safe_refund_transaction node now req

  -- processRequest
  unfoldable pub process_request : Handler T (Unit {0})
  process_request = do h ← need (handler_of req.action); handle h

  -- A request that comes for the first time, in processAction.
  unfoldable pub process_new_request : Handler T (Unit {0})
  process_new_request =
      if get_action_role req.action == 0 || not (get_action_role req.action == req.role)
      then answer [] []
      else do
        valid ← need (verify_format node req)
        require valid
        call node (write_request_c req)
        process_request

  -- A request whose result is not stored for this action, in processAction.
  unfoldable pub process_unanswered : Bool → Handler T (Unit {0})
  process_unanswered handled =
      if handled then (do call node (fail_action_c now req); answer [] []) else process_new_request

  -- A result that is stored answers the action.
  unfoldable pub process_result : Option (ActionResult T) → Bool → Handler T (Unit {0})
  unfolding process_unanswered
  process_result none handled = process_unanswered handled
  process_result (some r) handled = answer r.transactions r.compaction

  -- The rest of processAction, for a request of the action: its result is read first.
  unfoldable pub process_parsed : GoString → Handler T (Unit {0})
  process_parsed output_id = do
    (ar, handled) ← ask (read_action_result node.group.deserialize output_id req.id)
    process_result ar handled

module _ {T E D : Type 0} (node : Node T E D) (now : ℕ) where
  -- processAction
  unfoldable pub process_action : Action → Handler T (Unit {0})
  process_action out = do
    is_deposit ← need (node.group.is_kernel_deposit out)
    if is_deposit then answer [] [] else do
      handle_bond_asset node out.asset_id
      parsed ← need (parse_request node out)
      req ← or_else parsed (answer [] [])
      process_parsed node now req out.output_id

module _ {T E D : Type 0} (node : Node T E D) where
  -- The second answer of ProcessOutput beside the first. In the code processAction returns or panics:
  -- an end without an answer is taken as a panic.
  unfoldable pub replay_check : Action → List T → GoString → Turn T (Unit {0}) → Turn T (Unit {0})
  replay_check out txs1 asset1 (reply txs2 asset2) =
      if node.group.replay_check out txs1 txs2 asset1 asset2 then reply txs1 asset1 else crash
  replay_check out txs1 asset1 (next u) = crash
  replay_check out txs1 asset1 crash = crash

  -- The second run of ProcessOutput, after the first.
  unfoldable pub second_run : ℕ → Action → Turn T (Unit {0}) × Db → Turn T (Unit {0}) × Db
  second_run again out (reply txs1 asset1, db1) =
      let (second, db2) = process_action node again out db1 in
      (replay_check out txs1 asset1 second, db2)
  second_run again out (next u, db1) = (crash, db1)
  second_run again out (crash, db1) = (crash, db1)

  -- ProcessOutput, which reads the clock in each of its two runs.
  unfoldable pub process_output : ℕ → ℕ → Action → Handler T (Unit {0})
  process_output now again out db = second_run again out (process_action node now out db)
