-- ===== src/Keeper/Tests.antt =====
-- Runs of the methods of the store, and the theorems at concrete inputs. A transaction of the mtg
-- library is a number, its serialization is its byte, and a raw Bitcoin transaction spends the
-- output that the tests deposit.
use safe.Prelude.{
  Option, ℕ, ◌≡◌, ◌≢◌, ◌⊎◌, refl, GoString, List, [], ◌∷◌, some, update, Bool, true, arith,
}
use safe.Prelude.Text.{codes, str_eq}
use safe.Prelude.Int.{pos}
use safe.Common.Request.{Action, Request}
use safe.Common.Constants.{request_state_initial, request_state_done}
use safe.Keeper.Store.Tables.{Db, empty_db, RequestRow, Safe, Transaction}
use safe.Keeper.Store.Tx.{ok, err, insert_error}
use safe.Keeper.Store.Schema.{set_request_state}
use safe.Keeper.Store.Requests.{row_of_request}
use safe.Keeper.Store.Outputs.{Input, output_of_input}
use safe.Keeper.Store.Transactions.{TransactionInput}
use safe.Keeper.Calls.{
  Call, write_request_c, write_output_c, write_transaction_c, revoke_c, write_signature_requests_c,
  run, run_all,
}
use safe.Keeper.Calls.Atomicity.{call_atomic, no_requests_not_atomic}
use safe.Keeper.Calls.History.{Later}
use safe.Keeper.Calls.History.Methods.{history_kept}
use safe.Keeper.Calls.Spending.{OutputsOk, unspent}
use safe.Keeper.Calls.Spending.Methods.{outputs_accounted}
use safe.Keeper.Calls.Deposits.{deposit_once, balance_deposit_once}
use safe.Keeper.Store.Tables.{SafeBalance}
use safe.Keeper.Store.Outputs.{deposit_of_input}
use safe.Keeper.Calls.{create_deposit_c}
use safe.Keeper.Calls.Answers.Replay.{result, result_replayed}
use safe.Common.Base91.{base91_encode, encode_loop, encode_tail, put_pair, letter_at}
use safe.Keeper.Store.Tables.{ActionResultRow}
use safe.Keeper.Store.Tx.{transact}
use safe.Keeper.Store.Requests.{read_action_result}
use safe.Keeper.Calls.{fail_request_c}
use safe.Keeper.Node.Sample.{write_flags, read_flags, read_flags-write_flags, write_flags-IsByte}

abbrev serialize : List ℕ → GoString
serialize txs = txs

abbrev deposit_input : TransactionInput
deposit_input = record { hash = codes "d0"; index = 1 }

abbrev inputs : GoString → Option (List TransactionInput)
inputs raw = some (deposit_input ∷ [])

abbrev action : Action
action = record {
  output_id = codes "out";
  transaction_hash = codes "mixin";
  output_index = 0;
  asset_id = codes "btc";
  amount = 100_000_000;
  senders = codes "observer" ∷ [];
  extra = [];
  sequencer_created_at = 1000;
  sequence = 7;
}

abbrev request : Request
request = record {
  id = codes "r1";
  mixin_hash = codes "mixin";
  mixin_index = 0;
  asset_id = codes "btc";
  amount = 100_000_000;
  role = 3;
  action = 104;
  curve = 1;
  holder = codes "02aa";
  extra_hex = [];
  state = request_state_initial;
  created_at = 1000;
  sequence = 7;
  output = some action;
}

abbrev wallet : Safe
wallet = record {
  holder = codes "02aa";
  chain = 1;
  signer = codes "02bb";
  observer = codes "02cc";
  timelock = 3600;
  path = [];
  address = codes "bc1";
  extra = [];
  receivers = [];
  threshold = 1;
  request_id = codes "r0";
  nonce = pos 0;
  state = request_state_done;
  safe_asset_id = codes "sbtc";
  created_at = 900;
  updated_at = 900;
}

abbrev utxo : Input
utxo = record {
  transaction_hash = codes "d0";
  index = 1;
  satoshi = 100_000_000;
  script = [];
  sequence = 0;
}

abbrev transaction : Transaction
transaction = record {
  transaction_hash = codes "t1";
  raw_transaction = codes "raw";
  holder = codes "02aa";
  chain = 1;
  asset_id = codes "btc";
  state = request_state_initial;
  txdata = [];
  request_id = codes "r1";
  created_at = 1100;
  updated_at = 1100;
}

-- A request is stored.
abbrev with_request : Db
with_request = record empty_db { requests = row_of_request request ∷ [] }

-- And an output, which an earlier request deposited.
abbrev with_output : Db
with_output = record with_request {
  bitcoin_outputs = output_of_input wallet utxo (record request { id = codes "r0" }) ∷ [];
}

abbrev calls : List (Call ℕ)
calls =
    write_transaction_c 1200 transaction (deposit_input ∷ []) (5 ∷ []) request
    ∷ revoke_c 1300 transaction wallet request []
    ∷ write_request_c request
    ∷ []

history_kept_example : Later with_output (run_all serialize inputs calls with_output)
history_kept_example = history_kept serialize inputs with_output calls

outputs_accounted_example : OutputsOk (run_all serialize inputs calls with_output)
outputs_accounted_example =
    outputs_accounted serialize inputs with_output calls (unspent refl refl, tt)
      (tt, (tt, (tt, tt)))

call_atomic_example :
    ((run serialize inputs (write_request_c request) empty_db).1 ≡ empty_db)
    ⊎ ((a : Unit {0}) × ((run serialize inputs (write_request_c request) empty_db).0 ≡ ok a))
call_atomic_example = call_atomic serialize inputs (write_request_c request) empty_db tt

deposit_once_example :
    run serialize inputs
      (write_output_c 1400 wallet utxo request (codes "btc") (codes "sender") [])
      (run_all serialize inputs calls with_output)
    ≡ (err insert_error, run_all serialize inputs calls with_output)
unfolding str_eq
deposit_once_example =
    deposit_once serialize inputs with_output calls 1400 wallet utxo request (codes "btc")
      (codes "sender") [] refl

no_requests_not_atomic_example :
    ((run serialize inputs
        (write_signature_requests_c 1200 [] (codes "t1") (codes "raw") request [])
        with_request).1
      ≡ record with_request {
        requests =
            update
              (λ (r : RequestRow). str_eq r.columns.id request.id)
              (set_request_state request_state_done 1200)
              with_request.requests;
      })
    × ((run serialize inputs
          (write_signature_requests_c 1200 [] (codes "t1") (codes "raw") request [])
          with_request).0
        ≢ ok tt)
unfolding str_eq
no_requests_not_atomic_example =
    no_requests_not_atomic serialize inputs 1200 (codes "t1") (codes "raw") request [] with_request
      refl

-- The result that the request fails with, one transaction in its text.
abbrev answer : ActionResultRow
answer = record {
  output_id = codes "out";
  compaction = [];
  transactions = codes "FA";
  request_id = codes "r1";
  created_at = 1200;
}

abbrev flag_answer : ActionResultRow
flag_answer = record answer { transactions = codes "BA" }

abbrev answered : Db
answered = record with_request {
  requests = row_of_request (record request { state = request_state_done }) ∷ [];
  action_results = flag_answer ∷ [];
}

abbrev later_calls : List (Call Bool)
later_calls = write_request_c request ∷ fail_request_c 1500 request [] [] ∷ []

result_replayed_example :
    transact
      (read_action_result read_flags (codes "out") (codes "r1"))
      (run_all write_flags inputs later_calls answered)
    ≡ (
      ok (some (result flag_answer (true ∷ [])), true),
      run_all write_flags inputs later_calls answered,
    )
unfolding base91_encode encode_loop encode_tail put_pair letter_at str_eq
result_replayed_example =
    result_replayed write_flags read_flags read_flags-write_flags write_flags-IsByte inputs answered
      later_calls flag_answer (true ∷ []) (codes "r1") refl refl
      (row_of_request (record request { state = request_state_done }), refl, omega arith)

abbrev balance : SafeBalance
balance = record {
  address = codes "0x01";
  asset_id = codes "eth";
  asset_address = [];
  safe_asset_id = codes "seth";
  balance = 7;
  latest_tx_hash = [];
  updated_at = 900;
}

abbrev with_deposit : Db
with_deposit = record with_output {
  deposits = deposit_of_input wallet utxo request (codes "eth") (codes "sender") ∷ [];
}

balance_deposit_once_example :
    ((run serialize inputs
        (create_deposit_c 1400 wallet balance (codes "d0") 1 7 (codes "sender") request [])
        (run_all serialize inputs calls with_deposit)).1
      ≡ run_all serialize inputs calls with_deposit)
    × ((run serialize inputs
          (create_deposit_c 1400 wallet balance (codes "d0") 1 7 (codes "sender") request [])
          (run_all serialize inputs calls with_deposit)).0
        ≢ ok tt)
unfolding str_eq
balance_deposit_once_example =
    balance_deposit_once serialize inputs with_deposit calls 1400 wallet balance (codes "d0") 1 7
      (codes "sender") request [] tt refl
