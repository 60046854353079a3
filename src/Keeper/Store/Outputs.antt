-- ===== src/Keeper/Store/Outputs.antt =====
-- keeper/store/bitcoin.go and keeper/store/deposit.go: the unspent outputs of the safes.
use safe.Prelude.{
  some, ℕ, GoString, Bool, ◌&&◌, ◌||◌, List, [], Option, none, str_eq, ◌==◌, find, count,
}
use safe.Common.Constants.{
  request_state_initial, request_state_pending, request_state_done, action_observer_holder_deposit,
}
use safe.Common.Hex.{encode_hex}
use safe.Common.Hex.{decode_hex}
use safe.Common.Request.{Request}
use safe.Keeper.Store.Tables.{Db, Safe, BitcoinOutput, Deposit}
use safe.Keeper.Store.Tx.{Tx, deref, ◌>>=◌, ◌>>◌, commit, insert_one}
use safe.Keeper.Store.Schema.{bitcoin_outputs, deposits, finish_request}
use safe.Keeper.Store.Requests.{write_action_result}

-- `bitcoin.Input` of apps/bitcoin: an output that a transaction may spend.
pub record Input : Type 0 where
  pub transaction_hash : GoString
  pub index : ℕ
  pub satoshi : ℕ
  pub script : GoString
  pub sequence : ℕ

abbrev pub output_of_input : Safe → Input → Request → BitcoinOutput
output_of_input safe utxo req = record {
  transaction_hash = utxo.transaction_hash;
  output_index = utxo.index;
  address = safe.address;
  satoshi = utxo.satoshi;
  script = encode_hex utxo.script;
  sequence = utxo.sequence;
  chain = safe.chain;
  state = request_state_initial;
  spent_by = none;
  request_id = req.id;
  created_at = req.created_at;
  updated_at = req.created_at;
}

abbrev pub deposit_of_input : Safe → Input → Request → GoString → GoString → Deposit
deposit_of_input safe utxo req asset_id sender = record {
  transaction_hash = utxo.transaction_hash;
  output_index = utxo.index;
  asset_id = asset_id;
  amount = utxo.satoshi;
  receiver = safe.address;
  sender = sender;
  state = request_state_done;
  chain = safe.chain;
  holder = safe.holder;
  category = action_observer_holder_deposit;
  created_at = req.created_at;
  updated_at = req.created_at;
}

module _ {T : Type 0} (serialize : List T → GoString) where
  -- WriteBitcoinOutputFromRequest
  unfoldable pub write_bitcoin_output_from_request :
      ℕ → Safe → Input → Request → GoString → GoString → List T → Tx (Unit {0})
  write_bitcoin_output_from_request now safe utxo req asset_id sender txs = do
    insert_one bitcoin_outputs (output_of_input safe utxo req)
    insert_one deposits (deposit_of_input safe utxo req asset_id sender)
    finish_request now req.id
    output ← deref req.output
    write_action_result serialize now output.output_id [] txs req.id
    commit

-- The rows of an output and of a deposit.
abbrev pub is_output : GoString → ℕ → BitcoinOutput → Bool
is_output hash index o = str_eq o.transaction_hash hash && (o.output_index == index)

-- ReadBitcoinUTXO: the output and what spends it. A script that is no hexadecimal text is a panic,
-- the outer `none`.
unfoldable pub read_bitcoin_utxo : Db → GoString → ℕ → Option (Option BitcoinOutput)
read_bitcoin_utxo db hash index = elim (find (is_output hash index) db.bitcoin_outputs) [
  | none ↦ some none
  | some o ↦ elim (decode_hex o.script) [ none ↦ none | some script ↦ some (some o) ]
]

-- ReadDeposit
unfoldable pub read_deposit : Db → GoString → ℕ → Option Deposit
read_deposit db hash index =
    find (λ (d : Deposit). str_eq d.transaction_hash hash && (d.output_index == index)) db.deposits

-- ReadUnspentUtxoCountForSafe
unfoldable pub read_unspent_utxo_count_for_safe : Db → GoString → ℕ
read_unspent_utxo_count_for_safe db address =
    count
      (λ (o : BitcoinOutput).
        str_eq o.address address
        && (o.state == request_state_initial || (o.state == request_state_pending)))
      db.bitcoin_outputs
