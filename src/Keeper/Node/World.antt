-- ===== src/Keeper/Node/World.antt =====
-- What a keeper node is given: its configuration (keeper/config.go), the group of the mtg library,
-- the cryptography, and what the chains and the messenger answer. Each is a parameter.
use safe.Prelude.{ℕ, ◌*◌, ◌^◌, GoString, Bool, List, Option, ltb, ◌==◌}
use safe.Prelude.Int.{ℤ}
use safe.Common.Operation.{Coder, Uuid}
use safe.Common.Request.{Action}
use safe.Keeper.Node.Network.{Block}
use safe.Keeper.Store.Outputs.{Input}
use safe.Keeper.Store.Transactions.{TransactionInput}

-- A decimal number: its units of 10^-precision.
pub record Decimal : Type 0 where
  pub units : ℕ
  pub precision : ℕ

-- `a.Cmp(b) < 0` and `a.Equal(b)`
abbrev pub lt_decimal : Decimal → Decimal → Bool
lt_decimal a b = ltb (a.units * 10 ^ b.precision) (b.units * 10 ^ a.precision)

abbrev pub eq_decimal : Decimal → Decimal → Bool
eq_decimal a b = a.units * 10 ^ b.precision == b.units * 10 ^ a.precision

-- The arguments of the `BuildTransaction` methods of `mtg.Action`.
pub record Payment : Type 0 where
  pub trace_id : GoString
  pub app_id : GoString
  pub asset_id : GoString
  pub amount : Decimal
  pub memo : GoString
  pub receivers : List GoString
  pub threshold : ℕ
  pub storage_trace_id : Option GoString

-- The fields that the code reads of a transaction of the kernel.
pub record KernelTransaction : Type 0 where
  pub references : List GoString
  pub extra : GoString

-- github.com/MixinNetwork/trusted-group/mtg; a balance is read after the transactions that the
-- handler has built for the action so far.
pub record Group (T : Type 0) : Type 0 where
  pub genesis_id : GoString
  pub serialize : List T → GoString
  pub deserialize : GoString → Option (List T)
  pub check_asset_balance_at : Action → List T → GoString → Decimal
  pub build_transaction : Action → Payment → T
  pub check_asset_balance_for_storage_at : Action → GoString → Bool
  pub build_storage_transaction : Action → GoString → T
  pub trace_id : T → GoString
  pub read_kernel_transaction : GoString → Option KernelTransaction
  pub decode_mixin_extra : GoString → GoString × Option GoString
  pub is_kernel_deposit : Action → Option Bool
  pub has_spent_outputs : GoString → Bool
  pub replay_check : Action → List T → List T → GoString → GoString → Bool

-- The text of a configuration.
pub record Configuration : Type 0 where
  pub app_id : GoString
  pub signer_app_id : GoString
  pub asset_id : GoString
  pub observer_asset_id : GoString
  pub observer_user_id : GoString
  pub polygon_keeper_deposit_entry : GoString
  pub polygon_observer_deposit_entry : GoString
  pub signers : List GoString
  pub signer_threshold : ℕ
  pub signer_aes_key : GoString
  pub observer_aes_key : GoString

-- Hashes, keys and signatures.
pub record Crypto : Type 0 where
  pub uuid_hash : GoString → GoString
  pub sha256 : GoString → GoString
  pub sha256_text : GoString → GoString
  pub hash_from_string : GoString → Option GoString
  pub aes_encrypt : GoString → GoString → GoString → GoString
  pub aes_decrypt : GoString → GoString → GoString

-- `store.Asset`, as the table of assets or the messenger has it.
pub record Asset : Type 0 where
  pub asset_id : GoString
  pub asset_key : GoString
  pub symbol : GoString
  pub name : GoString
  pub decimals : ℕ
  pub chain : ℕ

-- common/abi and apps/ethereum, as far as they concern the bonds of the safe assets;
-- `check_factory_asset_deployed` answers the bytes of a number.
pub record Assets : Type 0 where
  pub fetch_asset_meta : GoString → Option Asset
  pub read_asset_meta : GoString → Option Asset
  pub get_factory_asset_address : GoString → GoString → GoString → GoString → GoString → GoString
  pub verify_asset_key : GoString → Bool
  pub generate_asset_id : ℕ → GoString → GoString
  pub check_factory_asset_deployed : GoString → Option GoString

-- `wire.OutPoint` and `wire.TxOut`
pub record OutPoint : Type 0 where
  pub hash : GoString
  pub index : ℕ

pub record TxOut : Type 0 where
  pub value : ℕ
  pub script : GoString

-- What the code reads of a partially signed transaction.
pub record Psbt : Type 0 where
  pub raw : GoString
  pub tx_hash : GoString
  pub tx_in : List OutPoint
  pub sig_hashes : List GoString
  pub tx_out : List TxOut
  pub recovery : Bool

-- `bitcoin.Output` of a transaction to build.
pub record Output : Type 0 where
  pub address : GoString
  pub satoshi : ℕ

-- What BuildPartiallySignedTransaction answers.
pub data Built : Type 0 where
  built : Psbt → Built
  insufficient : Built
  failed : Built

-- `bitcoin.WitnessScriptAccount` and its `Marshal`.
pub record WitnessAccount : Type 0 where
  pub address : GoString
  pub script : GoString
  pub sequence : ℕ
  pub marshal : GoString

-- An output as an RPC of a chain answers it, with the transaction's identifier.
pub record ChainOutput : Type 0 where
  pub address : GoString
  pub satoshi : ℕ
  pub height : ℕ
  pub coinbase : Bool

-- The first input of a transaction as an RPC answers it.
pub record ChainTransaction : Type 0 where
  pub vin_tx_id : GoString
  pub vin_vout : ℕ

-- apps/bitcoin over btcd, the RPC of the chains, and encoding/json.
pub record Bitcoin : Type 0 where
  pub rpc_get_block : ℕ → GoString → Option Block
  pub coinbase_maturity : ℕ
  pub verify_holder_key : GoString → Bool
  pub derive_bip32 : GoString → GoString → List ℕ → Option GoString
  pub hash_message : GoString → ℕ → GoString
  pub verify_signature_der : GoString → GoString → GoString → Bool
  pub parse_address : GoString → ℕ → Option GoString
  pub encode_address : GoString → ℕ → Option GoString
  pub extract_pk_script_addr : GoString → ℕ → Option GoString
  pub build_witness_script_account : GoString → GoString → GoString → ℕ → ℕ → Option WitnessAccount
  pub check_multisig_holder_signer_script : GoString → Bool
  pub check_partially_signed_by : GoString → GoString → Bool
  pub unmarshal_psbt : GoString → Option Psbt
  pub attach_signatures : Psbt → List (ℕ × GoString × GoString) → GoString
  pub build_psbt : Bool → List Input → List Output → GoString → ℕ → Built
  pub psbt_inputs : GoString → Option (List TransactionInput)
  pub rpc_get_transaction : ℕ → GoString → Option ChainTransaction
  pub rpc_get_transaction_output : ℕ → GoString → ℕ → Option (Option ChainOutput)
  pub rpc_get_transaction_sender : ℕ → GoString → Option GoString
  pub parse_recipients : GoString → Option (List (GoString × GoString))
  pub parse_decimal : GoString → Option Decimal
  pub marshal_recipients : List (GoString × Decimal × GoString) → GoString
  pub count_recipients : GoString → Option ℕ

-- A transfer of a Safe transaction, `ethereum.Output`.
pub record Transfer : Type 0 where
  pub destination : GoString
  pub amount : ℕ
  pub token_address : GoString

-- `ethereum.SafeTransaction`; `outputs` is what its `ExtractOutputs` gives.
pub record SafeTransaction : Type 0 where
  pub tx_hash : GoString
  pub destination : GoString
  pub input : GoString
  pub message : GoString
  pub signatures : List (Option GoString)
  pub outputs : List Transfer

-- `ethereum.GnosisSafe` and its `Marshal`.
pub record GnosisSafe : Type 0 where
  pub address : GoString
  pub tx_hash : GoString
  pub marshal : GoString

-- The block and the sender that an RPC of an Ethereum chain answers for a deposit.
pub record ChainTransfer : Type 0 where
  pub receiver : GoString
  pub sender : GoString
  pub block_height : ℕ

-- apps/ethereum over go-ethereum and the RPC of the chains. A time of an RPC is a number of
-- nanoseconds, and 0 is Go's zero time.
pub record Ethereum : Type 0 where
  pub rpc_get_block : ℕ → GoString → Option Block
  pub rpc_get_block_time : ℕ → GoString → Option ℕ
  pub get_safe_last_tx_time : ℕ → GoString → Option ℕ
  pub verify_holder_key : GoString → Bool
  pub verify_message_signature : GoString → GoString → GoString → Bool
  pub verify_hash_signature : GoString → GoString → GoString → Bool
  pub hash_message : GoString → GoString
  pub process_signature : GoString → GoString
  pub get_sorted_safe_owners : GoString → GoString → GoString → List GoString
  pub build_gnosis_safe :
      GoString → GoString → GoString → GoString → ℕ → ℕ → Option (GnosisSafe × SafeTransaction)
  pub unmarshal_gnosis_safe : GoString → Option GnosisSafe
  pub unmarshal_safe_transaction : GoString → Option SafeTransaction
  pub marshal_safe_transaction : SafeTransaction → GoString
  pub create_transaction : ℕ → ℕ → GoString → GoString → List Transfer → ℤ → Option SafeTransaction
  pub guard_transaction_data : ℕ → GoString → GoString → GoString → ℕ → Option GoString
  pub normalize_address : GoString → GoString
  pub address_text : GoString → GoString
  pub verify_deposit :
      ℕ → GoString → GoString → GoString → GoString → ℕ → ℕ → Option (Option ChainTransfer)

-- The users of the messenger that have a safe, for the receivers of a proposal.
pub record Node (T Encoder Decoder : Type 0) : Type 0 where
  pub conf : Configuration
  pub group : Group T
  pub coder : Coder Encoder Decoder
  pub uuid : Uuid
  pub crypto : Crypto
  pub assets : Assets
  pub bitcoin : Bitcoin
  pub ethereum : Ethereum
  pub read_users : List GoString → Option (List Bool)
