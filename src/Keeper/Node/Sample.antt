-- ===== src/Keeper/Node/Sample.antt =====
-- A keeper node for the runs of keeper/: a transaction of the group is a Boolean, a uuid is its 16
-- bytes, texts are not encrypted, and no RPC knows anything.
use safe.Prelude.{
  ◌≡◌, refl, GoString, Bool, true, false, List, [], ◌∷◌, ◌++◌, Option, none, some, All, arith, ◌==◌,
  if◌then◌else◌, ◌&&◌,
}
use safe.Prelude.Text.{codes, str_eq}
use safe.Common.Hex.RoundTrip.{IsByte}
use safe.Common.Request.{Action}
use safe.Common.Tests.{byte_coder, byte_uuid, uid}
use safe.Keeper.Node.World.{
  Group, Configuration, Crypto, Asset, Assets, Bitcoin, Ethereum, Node, failed,
}

-- A serialization of Booleans.
abbrev pub write_flags : List Bool → GoString
write_flags [] = []
write_flags (b ∷ bs) = (if b then 1 else 0) ∷ write_flags bs

abbrev pub read_flags : GoString → Option (List Bool)
read_flags [] = some []
read_flags (x ∷ xs) = elim (read_flags xs) [ none ↦ none | some bs ↦ some ((x == 1) ∷ bs) ]

pub read_flags-write_flags : (bs : List Bool) → read_flags (write_flags bs) ≡ some bs
read_flags-write_flags [] = refl
read_flags-write_flags (true ∷ bs) = rw (read_flags-write_flags bs) refl
read_flags-write_flags (false ∷ bs) = rw (read_flags-write_flags bs) refl

pub write_flags-IsByte : (bs : List Bool) → All IsByte (write_flags bs)
write_flags-IsByte [] = tt
write_flags-IsByte (true ∷ bs) = (omega arith, write_flags-IsByte bs)
write_flags-IsByte (false ∷ bs) = (omega arith, write_flags-IsByte bs)

-- The comparison of two answers.
abbrev pub flags_agree : List Bool → List Bool → GoString → GoString → Bool
flags_agree bs cs asset1 asset2 = str_eq (write_flags bs) (write_flags cs) && str_eq asset1 asset2

abbrev group : Group Bool
group = record {
  genesis_id = codes "genesis";
  serialize = write_flags;
  deserialize = read_flags;
  check_asset_balance_at = λ act built asset. record { units = 5; precision = 0 };
  build_transaction = λ act payment. true;
  check_asset_balance_for_storage_at = λ act extra. true;
  build_storage_transaction = λ act extra. false;
  trace_id = λ t. uid;
  read_kernel_transaction = λ hash. none;
  decode_mixin_extra = λ extra. (codes "keeper", some extra);
  is_kernel_deposit = λ act. some false;
  has_spent_outputs = λ asset. true;
  replay_check = λ act. flags_agree;
}

abbrev configuration : Configuration
configuration = record {
  app_id = codes "keeper";
  signer_app_id = codes "signer";
  asset_id = codes "signers";
  observer_asset_id = uid;
  observer_user_id = codes "observer";
  polygon_keeper_deposit_entry = codes "entry";
  polygon_observer_deposit_entry = codes "observed";
  signers = codes "s1" ∷ [];
  signer_threshold = 1;
  signer_aes_key = [];
  observer_aes_key = [];
}

abbrev crypto : Crypto
crypto = record {
  uuid_hash = λ text. uid;
  sha256 = λ text. text;
  sha256_text = λ text. text;
  hash_from_string = λ text. some text;
  aes_encrypt = λ key text iv. text;
  aes_decrypt = λ key text. text;
}

abbrev bitcoin_asset_meta : Asset
bitcoin_asset_meta = record {
  asset_id = codes "btc";
  asset_key = [];
  symbol = codes "BTC";
  name = codes "Bitcoin";
  decimals = 8;
  chain = 1;
}

abbrev assets : Assets
assets = record {
  fetch_asset_meta = λ asset. some bitcoin_asset_meta;
  read_asset_meta = λ asset. none;
  get_factory_asset_address = λ entry asset symbol name holder. holder;
  verify_asset_key = λ key. true;
  generate_asset_id = λ chain key. key;
  check_factory_asset_deployed = λ key. none;
}

abbrev bitcoin : Bitcoin
bitcoin = record {
  rpc_get_block = λ chain hash. none;
  coinbase_maturity = 100;
  verify_holder_key = λ key. true;
  derive_bip32 = λ key code path. some key;
  hash_message = λ text chain. text;
  verify_signature_der = λ key msg sig. true;
  parse_address = λ text chain. some text;
  encode_address = λ script chain. some script;
  extract_pk_script_addr = λ script chain. some script;
  build_witness_script_account = λ holder signer observer lock chain. none;
  check_multisig_holder_signer_script = λ script. true;
  check_partially_signed_by = λ raw key. true;
  unmarshal_psbt = λ raw. none;
  attach_signatures = λ psbt sigs. [];
  build_psbt = λ recovery inputs outputs id chain. failed;
  psbt_inputs = λ raw. some [];
  rpc_get_transaction = λ chain hash. none;
  rpc_get_transaction_output = λ chain hash index. none;
  rpc_get_transaction_sender = λ chain hash. none;
  parse_recipients = λ text. none;
  parse_decimal = λ text. none;
  marshal_recipients = λ recipients. [];
  count_recipients = λ text. none;
}

abbrev ethereum : Ethereum
ethereum = record {
  rpc_get_block = λ chain hash. none;
  rpc_get_block_time = λ chain hash. none;
  get_safe_last_tx_time = λ chain address. none;
  verify_holder_key = λ key. true;
  verify_message_signature = λ key msg sig. true;
  verify_hash_signature = λ key msg sig. true;
  hash_message = λ text. text;
  process_signature = λ sig. sig;
  get_sorted_safe_owners = λ holder signer observer. holder ∷ signer ∷ observer ∷ [];
  build_gnosis_safe = λ holder signer observer id lock chain. none;
  unmarshal_gnosis_safe = λ raw. none;
  unmarshal_safe_transaction = λ raw. none;
  marshal_safe_transaction = λ t. [];
  create_transaction = λ typ chain id address outputs nonce. none;
  guard_transaction_data = λ chain id address observer lock. none;
  normalize_address = λ address. address;
  address_text = λ bytes. bytes;
  verify_deposit = λ chain hash asset token receiver index amount. none;
}

abbrev pub node : Node Bool GoString GoString
node = record {
  conf = configuration;
  group = group;
  coder = byte_coder;
  uuid = byte_uuid;
  crypto = crypto;
  assets = assets;
  bitcoin = bitcoin;
  ethereum = ethereum;
  read_users = λ users. none;
}

-- The observer adds a signer key request: an operation of type 102 on Bitcoin for 4 keys.
abbrev pub keygen_action : Action
keygen_action = record {
  output_id = codes "out";
  transaction_hash = codes "mixin";
  output_index = 0;
  asset_id = uid;
  amount = 100_000_000;
  senders = codes "observer" ∷ [];
  extra = uid ++ (102 ∷ 1 ∷ 0 ∷ 1 ∷ 4 ∷ []);
  sequencer_created_at = 1000;
  sequence = 7;
}
