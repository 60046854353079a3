-- ===== src/Keeper/Node/Network.antt =====
-- keeper/network.go: the network infos and the operation parameters that the observer sends. A
-- handler returns `none` where it panics, and the database as it is then. The blocks that the RPC
-- of a chain knows and the text of a uuid are parameters.
pub mod Checks
use safe.Prelude.{
  ℕ, ◌+◌, ◌*◌, ◌≡◌, ◌≢◌, ◌≤◌, ◌⊎◌, GoString, Bool, true, false, ◌&&◌, ◌||◌, not, List, [], ◌∷◌,
  ◌++◌, Option, none, some, arith, ltb, leb, ◌==◌, if◌then◌else◌, length, get_or, take, drop,
  str_eq,
}
use safe.Prelude.Text.{codes}
use safe.Prelude.Int.{ℤ, negsuc, eq_ℤ}
use safe.Prelude.Maybe.{◌>>=◌, ◌>>◌, guard}
use safe.Common.Constants.{
  request_role_observer, chain_bitcoin, chain_litecoin, chain_ethereum, chain_polygon,
}
use safe.Common.Chain.{safe_curve_chain}
use safe.Common.Hex.{encode_hex, decode_hex}
use safe.Common.Operation.{Uuid}
use safe.Common.Request.{Request}
use safe.Keeper.Store.Tables.{Db, NetworkInfo, OperationParams}
use safe.Keeper.Store.Tx.{Outcome, ok, err, panic, transact}
use safe.Keeper.Store.Requests.{fail_request}
use safe.Keeper.Store.Networks.{
  read_latest_network_info, write_network_info_from_request, write_operation_params_from_request,
}

abbrev pub bitcoin_minimum_fee_rate : ℕ
bitcoin_minimum_fee_rate = 1

abbrev pub bitcoin_maximum_fee_rate : ℕ
bitcoin_maximum_fee_rate = 1000

-- The fields of an RPC block that the checks read; an Ethereum block has no confirmations.
pub record Block : Type 0 where
  pub height : ℕ
  pub confirmations : ℤ

-- binary.BigEndian.Uint64
abbrev pub big_endian : GoString → ℕ → ℕ
big_endian [] acc = acc
big_endian (b ∷ bs) acc = big_endian bs (acc * 256 + b)

abbrev pub uint64_at : ℕ → GoString → ℕ
uint64_at i extra = big_endian (take 8 (drop i extra)) 0

-- The info that an extra describes, with the text of its hash.
abbrev pub info_of : Request → GoString → GoString → NetworkInfo
info_of req extra hash = record {
  request_id = req.id;
  chain = get_or extra 0 0;
  fee = uint64_at 1 extra;
  height = uint64_at 9 extra;
  hash = hash;
  created_at = req.created_at;
}

-- The info is of the same request as the latest, or below it.
abbrev pub is_stale : Option NetworkInfo → Request → ℕ → Bool
is_stale none req height = false
is_stale (some old) req height = str_eq old.request_id req.id || ltb height old.height

-- The request fails if the info is not valid.
abbrev pub accept : NetworkInfo → Option Bool → Option (Option NetworkInfo)
accept info none = none
accept info (some true) = some (some info)
accept info (some false) = some none

module _ (rpc_get_block : ℕ → GoString → Option Block) where
  -- The check against the block that the RPC knows; `none` is an error, on which the caller panics.
  abbrev pub check_block : Bool → NetworkInfo → Option (Unit {0})
  check_block forks info = do
    block ← rpc_get_block info.chain info.hash
    guard (block.height == info.height)
    guard (not (forks && eq_ℤ block.confirmations (negsuc 0)))

  -- The check against the latest info, or against the block.
  abbrev pub check_hash : Bool → NetworkInfo → Option NetworkInfo → Option (Unit {0})
  check_hash forks info none = check_block forks info
  check_hash forks info (some old) =
      if str_eq old.hash info.hash
      then guard (old.height == info.height)
      else check_block forks info

  -- verifyBitcoinNetworkInfo and verifyEthereumNetworkInfo
  unfoldable pub verify_bitcoin_network_info : NetworkInfo → Option NetworkInfo → Option Bool
  verify_bitcoin_network_info info old = if not (length info.hash == 64) then some false else do
    check_hash true info old
    some (leb bitcoin_minimum_fee_rate info.fee && leb info.fee bitcoin_maximum_fee_rate)

  unfoldable pub verify_ethereum_network_info : NetworkInfo → Option NetworkInfo → Option Bool
  verify_ethereum_network_info info old =
      if not (length info.hash == 66) then some false else do check_hash false info old; some true

  -- The switch of writeNetworkInfo on the chain.
  unfoldable pub verify_network_info :
      Request → GoString → Option NetworkInfo → Option (Option NetworkInfo)
  verify_network_info req extra old =
      let chain = get_or extra 0 0 in
      let hash = encode_hex (drop 17 extra) in
      let bitcoin = info_of req extra hash in
      let ethereum = info_of req extra (codes "0x" ++ hash) in
      if chain == chain_bitcoin || (chain == chain_litecoin)
      then accept bitcoin (verify_bitcoin_network_info bitcoin old)
      else if chain == chain_ethereum || (chain == chain_polygon)
      then accept ethereum (verify_ethereum_network_info ethereum old)
      else some none

  -- The check of the curve.
  unfoldable pub check_chain : Request → GoString → Option NetworkInfo → Option (Option NetworkInfo)
  unfolding verify_network_info
  check_chain req extra old = do
    expected ← safe_curve_chain req.curve
    guard (get_or extra 0 0 == expected)
    verify_network_info req extra old

  -- writeNetworkInfo up to its write: a panic, a request that fails, or the info to write.
  unfoldable pub check_network_info : Request → Db → Option (Option NetworkInfo)
  unfolding check_chain
  check_network_info req db = do
    guard (req.role == request_role_observer)
    extra ← decode_hex req.extra_hex
    let old = read_latest_network_info db (get_or extra 0 0) req.created_at
    if ltb (length extra) 17 || is_stale old req (uint64_at 9 extra)
        then some none
        else check_chain req extra old

-- What a method of the store returns to a handler: an error is a panic.
abbrev pub settle : {A : Type 0} → A → Outcome (Unit {0}) × Db → Option A × Db
settle a (ok u, db) = (some a, db)
settle a (err e, db) = (none, db)
settle a (panic, db) = (none, db)

-- The chains of the switch of writeOperationParams.
abbrev pub is_chain : ℕ → Bool
is_chain chain =
    chain == chain_bitcoin
    || (chain == chain_litecoin)
    || (chain == chain_ethereum)
    || (chain == chain_polygon)

module _ {T : Type 0} (serialize : List T → GoString) where
  -- failRequest of keeper/common.go
  abbrev pub fail_request_node : ℕ → Request → GoString → Db → Option (List T × GoString) × Db
  fail_request_node now req asset_id db =
      settle ([], asset_id) (transact (fail_request serialize now req asset_id []) db)

  -- writeNetworkInfo
  unfoldable pub write_network_info :
      (ℕ → GoString → Option Block) → ℕ → Request → Db → Option (List T × GoString) × Db
  unfolding check_network_info
  write_network_info rpc_get_block now req db = elim (check_network_info rpc_get_block req db) [
    | none ↦ (none, db)
    | some none ↦ fail_request_node now req [] db
    | some (some info) ↦
        settle ([], []) (transact (write_network_info_from_request serialize now info req) db)
  ]

  -- The parameters that an extra of 33 bytes describes.
  abbrev pub params_of : Request → GoString → GoString → OperationParams
  params_of req extra asset_id = record {
    request_id = req.id;
    chain = get_or extra 0 0;
    operation_price_asset = asset_id;
    operation_price_amount = uint64_at 17 extra;
    transaction_minimum = uint64_at 25 extra;
    created_at = req.created_at;
  }

  -- writeOperationParams up to its write.
  unfoldable pub check_operation_params : Uuid → Request → Option (Option OperationParams)
  check_operation_params uuid req = do
    guard (req.role == request_role_observer)
    extra ← decode_hex req.extra_hex
    if not (length extra == 33) then some none else do
      expected ← safe_curve_chain req.curve
      guard (get_or extra 0 0 == expected)
      if not (is_chain (get_or extra 0 0)) then some none else do
        asset_id ← uuid.format (take 16 (drop 1 extra))
        some (some (params_of req extra asset_id))

  -- writeOperationParams
  unfoldable pub write_operation_params : Uuid → ℕ → Request → Db → Option (List T × GoString) × Db
  unfolding check_operation_params
  write_operation_params uuid now req db = elim (check_operation_params uuid req) [
    | none ↦ (none, db)
    | some none ↦ fail_request_node now req [] db
    | some (some params) ↦
        settle ([], []) (transact (write_operation_params_from_request serialize now params req) db)
  ]
