-- ===== src/Keeper/Node/Runs.antt =====
-- The theorems of the node at concrete inputs: the observer sends the info of a Bitcoin block at
-- height 5 with a fee of 20, and the RPC knows no block.
use safe.Prelude.{ℕ, ◌≡◌, ◌⊎◌, ◌↔◌, GoString, List, [], ◌∷◌, Option, none}
use safe.Prelude.Text.{codes, str_eq}
use safe.Common.Hex.{encode_hex}
use safe.Common.Request.{Request}
use safe.Keeper.Store.Tables.{empty_db, NetworkInfo}
use safe.Keeper.Node.Dispatch.{get_action_role, handler_of, role_iff_handler}
use safe.Keeper.Node.Network.{Block, write_network_info}
use safe.Keeper.Node.Network.Checks.{Checked, network_infos_after}
use safe.Prelude.{Bool, false, true, All, refl, arith, suc, ◌*◌, ◌≤◌, ◌<◌, some, length}
use safe.Common.Base91.{base91_encode, encode_loop, encode_tail, put_pair, letter_at}
use safe.Common.Constants.{request_state_done}
use safe.Common.Request.{Action}
use safe.Common.Tests.{uid}
use safe.Keeper.Store.Tables.{Db, ActionResultRow}
use safe.Keeper.Store.Requests.{row_of_request}
use safe.Keeper.Calls.{Call, run_all}
use safe.Keeper.Calls.Atomicity.{HasRequests}
use safe.Keeper.Calls.History.{Later}
use safe.Keeper.Calls.Spending.{OutputsOk}
use safe.Keeper.Calls.Spending.Methods.{SpendsAs}
use safe.Keeper.Node.Handler.{reply, need, pure, ◌>>=◌}
use safe.Keeper.Node.Revoking.{handle_bond_asset}
use safe.Keeper.Node.Actions.{process_output, process_action}
use safe.Keeper.Node.Calls.Actions.{action_calls}
use safe.Keeper.Node.Calls.History.{after_actions, actions_account, actions_keep_history}
use safe.Keeper.Node.Calls.Replay.{answer_repeated}
use safe.Keeper.Node.Requests.{parse_request, request_role, verify_format}
use safe.Prelude.Text.{str_eq_refl}
use safe.Keeper.Node.Proposal.{
  AccountProposal, time_lock_minimum, parse_mixin_recipient, read_proposal, read_receivers,
}
use safe.Keeper.Node.ProposalBounds.{proposal_bounds}
use safe.Keeper.Node.Bitcoin.Bounds.{block_time, sequence_bounds}
use safe.Keeper.Node.Bitcoin.Closing.{parse_sequence}
use safe.Common.Operation.{read_uuid, decode_operation}
use safe.Keeper.Node.Sample.{
  node, keygen_action, write_flags, read_flags-write_flags, write_flags-IsByte, flags_agree,
}

role_iff_handler_example : (get_action_role 110 ≡ 0) ↔ (handler_of 110 ≡ none)
role_iff_handler_example = role_iff_handler 110

abbrev serialize : List ℕ → GoString
serialize txs = txs

abbrev no_block : ℕ → GoString → Option Block
no_block chain hash = none

abbrev info_request : Request
info_request = record {
  id = codes "n1";
  mixin_hash = codes "m";
  mixin_index = 0;
  asset_id = codes "obs";
  amount = 100_000_000;
  role = 3;
  action = 103;
  curve = 1;
  holder = codes "02aa";
  extra_hex = encode_hex (1 ∷ 0 ∷ 0 ∷ 0 ∷ 0 ∷ 0 ∷ 0 ∷ 0 ∷ 20 ∷ 0 ∷ 0 ∷ 0 ∷ 0 ∷ 0 ∷ 0 ∷ 0 ∷ 5 ∷ []);
  state = 1;
  created_at = 1000;
  sequence = 9;
  output = none;
}

network_infos_after_example :
    ((write_network_info serialize no_block 1100 info_request empty_db).1.network_infos ≡ [])
    ⊎ ((info : NetworkInfo) × Checked no_block info_request empty_db info
        × ((write_network_info serialize no_block 1100 info_request empty_db).1.network_infos
            ≡ info ∷ []))
network_infos_after_example = network_infos_after serialize no_block 1100 info_request empty_db

-- A request for keys, after which the observer sends it again.
abbrev keygen_twice : List (ℕ × Action)
keygen_twice = (1100, keygen_action) ∷ (1200, keygen_action) ∷ []

action_calls_example :
    (cs : List (Call Bool)) × All SpendsAs cs
    × All HasRequests cs
    × ((process_action node 1100 keygen_action empty_db).1
        ≡ run_all write_flags (λ raw. some []) cs empty_db)
action_calls_example = action_calls node 1100 keygen_action empty_db

actions_account_example : OutputsOk (after_actions node keygen_twice empty_db)
actions_account_example = actions_account node keygen_twice empty_db tt

actions_keep_history_example : Later empty_db (after_actions node keygen_twice empty_db)
actions_keep_history_example = actions_keep_history node keygen_twice empty_db

-- The request for keys, done, and its answer with one transaction.
abbrev keygen_request : Request
keygen_request = record info_request { id = uid; action = 102; state = request_state_done }

abbrev keygen_answer : ActionResultRow
keygen_answer = record {
  output_id = codes "out";
  compaction = [];
  transactions = codes "BA";
  request_id = uid;
  created_at = 1100;
}

abbrev answered : Db
answered = record empty_db {
  requests = row_of_request keygen_request ∷ [];
  action_results = keygen_answer ∷ [];
}

sample_check : (bs : List Bool) (asset : GoString) → flags_agree bs bs asset asset ≡ true
sample_check bs asset = ground (arith, str_eq_refl (write_flags bs), str_eq_refl asset)

-- The request that the action of the observer holds.
abbrev keygen_parsed : Request
keygen_parsed = record {
  id = uid;
  mixin_hash = codes "mixin";
  mixin_index = 0;
  asset_id = uid;
  amount = 100_000_000;
  role = 3;
  action = 102;
  curve = 1;
  holder = [];
  extra_hex = codes "04";
  state = 1;
  created_at = 1000;
  sequence = 7;
  output = some keygen_action;
}

keygen_is_parsed : parse_request node keygen_action ≡ some (some keygen_parsed)
unfolding parse_request str_eq decode_operation verify_format request_role encode_hex
keygen_is_parsed = refl

answer_repeated_example :
    process_output node 1300 1301 keygen_action (after_actions node keygen_twice answered)
    ≡ (reply (true ∷ []) [], after_actions node keygen_twice answered)
unfolding base91_encode encode_loop encode_tail put_pair letter_at str_eq handle_bond_asset need
    pure ◌>>=◌
answer_repeated_example =
    answer_repeated node read_flags-write_flags write_flags-IsByte (λ out. sample_check)
      keygen_twice answered keygen_answer (true ∷ []) 1300 1301 keygen_action keygen_parsed false
      refl refl keygen_is_parsed refl refl refl (row_of_request keygen_request, refl, ground arith)

-- An hour is six blocks of Bitcoin.
sequence_bounds_example :
    (n : ℕ) × (parse_sequence time_lock_minimum 1 ≡ some n)
    × (6 ≤ n)
    × (n ≤ 65_535)
    × (n * block_time 1 ≤ time_lock_minimum)
    × ((n ≡ 65_535) ⊎ (time_lock_minimum < suc n * block_time 1))
sequence_bounds_example = sequence_bounds time_lock_minimum 1 (omega arith) (omega arith)

-- A lock of one hour, a threshold of 1 and one receiver.
abbrev proposal_extra : GoString
proposal_extra = 0 ∷ 1 ∷ 1 ∷ 1 ∷ uid

abbrev proposal_request : Request
proposal_request = record keygen_request { action = 110 }

abbrev proposal : AccountProposal
proposal = record {
  receivers = uid ∷ [];
  threshold = 1;
  timelock = time_lock_minimum;
  observer = [];
}

proposal_is_read : parse_mixin_recipient node proposal_request proposal_extra ≡ some (some proposal)
unfolding parse_mixin_recipient read_proposal read_receivers read_uuid
proposal_is_read = refl

proposal_bounds_example :
    (proposal.threshold ≤ length proposal.receivers)
    × (n : ℕ) × (parse_sequence proposal.timelock 1 ≡ some n)
    × (6 ≤ n)
    × (n ≤ 65_535)
proposal_bounds_example =
    proposal_bounds node proposal_request proposal_extra proposal 1 proposal_is_read
