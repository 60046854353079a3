-- ===== src/Keeper/Store/Listing.antt =====
-- keeper/store/bitcoin.go, keeper/store/signature.go, keeper/store/ethereum.go and
-- keeper/store/safe.go: the lists that the handlers read, in the order of their ORDER BY.
use safe.Prelude.{
  ℕ, GoString, Bool, ◌&&◌, ◌||◌, not, List, [], ◌∷◌, Option, some, str_eq, str_lt, ltb, ◌==◌,
  if◌then◌else◌, any, filter, sort_by,
}
use safe.Prelude.Maybe.{◌>>=◌, ◌>>◌, guard, is_none}
use mathlib.Core.List.{reverse}
use safe.Common.Constants.{request_state_initial, request_state_pending}
use safe.Common.Hex.{decode_hex}
use safe.Keeper.Store.Tables.{Db, Safe, BitcoinOutput, SafeBalance, SignatureRequest}
use safe.Keeper.Store.Outputs.{Input}
use safe.Keeper.Store.Safes.{read_safe}

-- ORDER BY created_at ASC, request_id ASC
abbrev output_before : BitcoinOutput → BitcoinOutput → Bool
output_before a b =
    ltb a.created_at b.created_at
    || ((a.created_at == b.created_at) && str_lt a.request_id b.request_id)

module _ (encode_address : GoString → ℕ → Option GoString) where
  -- The input of a row, whose script must encode the receiver: a panic otherwise.
  unfoldable pub input_of_row : GoString → ℕ → BitcoinOutput → Option Input
  input_of_row receiver chain o = do
    script ← decode_hex o.script
    addr ← encode_address script chain
    guard (str_eq receiver addr)
    some (record {
      transaction_hash = o.transaction_hash;
      index = o.output_index;
      satoshi = o.satoshi;
      script = script;
      sequence = o.sequence;
    })

  unfoldable pub inputs_of_rows : GoString → ℕ → List BitcoinOutput → Option (List Input)
  unfolding input_of_row
  inputs_of_rows receiver chain [] = some []
  inputs_of_rows receiver chain (o ∷ os) = do
    i ← input_of_row receiver chain o
    rest ← inputs_of_rows receiver chain os
    some (i ∷ rest)

  -- listAllBitcoinUTXOsForAddress
  unfoldable pub list_all_bitcoin_utxos_for_address : Db → GoString → ℕ → ℕ → Option (List Input)
  unfolding inputs_of_rows
  list_all_bitcoin_utxos_for_address db receiver chain state = inputs_of_rows receiver chain (
      sort_by output_before (
        filter (λ (o : BitcoinOutput). str_eq o.address receiver && (o.state == state))
          db.bitcoin_outputs))

  -- ListAllBitcoinUTXOsForHolder and ListPendingBitcoinUTXOsForHolder; a safe that is not stored is
  -- a nil pointer.
  unfoldable pub list_all_bitcoin_utxos_for_holder : Db → GoString → Option (List Input)
  unfolding list_all_bitcoin_utxos_for_address
  list_all_bitcoin_utxos_for_holder db holder = do
    safe ← read_safe db holder
    list_all_bitcoin_utxos_for_address db safe.address safe.chain request_state_initial

  unfoldable pub list_pending_bitcoin_utxos_for_holder : Db → GoString → Option (List Input)
  unfolding list_all_bitcoin_utxos_for_address
  list_pending_bitcoin_utxos_for_holder db holder = do
    safe ← read_safe db holder
    list_all_bitcoin_utxos_for_address db safe.address safe.chain request_state_pending

-- ORDER BY created_at DESC, request_id DESC
abbrev signature_before : SignatureRequest → SignatureRequest → Bool
signature_before a b =
    ltb b.created_at a.created_at
    || ((a.created_at == b.created_at) && str_lt b.request_id a.request_id)

-- The first request of each index.
abbrev pub first_of_each : List SignatureRequest → List SignatureRequest
first_of_each [] = []
first_of_each (r ∷ rs) =
    r ∷ filter (λ (s : SignatureRequest). not (s.input_index == r.input_index)) (first_of_each rs)

-- ListAllSignaturesForTransaction: the values of its map. In the initial state a later row replaces
-- the one before; in another the rows without a signature are left out, and the first one stays.
unfoldable pub list_all_signatures_for_transaction : Db → GoString → ℕ → List SignatureRequest
list_all_signatures_for_transaction db transaction_hash state =
    let rows = sort_by signature_before (
      filter
        (λ (r : SignatureRequest). str_eq r.transaction_hash transaction_hash && (r.state == state))
        db.signature_requests) in
    if state == request_state_initial
    then first_of_each (reverse rows)
    else first_of_each (filter (λ (r : SignatureRequest). not (is_none r.signature)) rows)

-- The rows of an address, each of which must name its bond: a panic otherwise.
unfoldable pub checked_balances : List SafeBalance → Option (List SafeBalance)
checked_balances [] = some []
checked_balances (sb ∷ sbs) = do
  guard (not (str_eq sb.safe_asset_id []))
  rest ← checked_balances sbs
  some (sb ∷ rest)

-- ReadAllEthereumTokenBalances
unfoldable pub read_all_ethereum_token_balances : Db → GoString → Option (List SafeBalance)
unfolding checked_balances
read_all_ethereum_token_balances db address =
    checked_balances (filter (λ (b : SafeBalance). str_eq b.address address) db.ethereum_balances)

-- The last row of each token.
abbrev pub last_of_each : List SafeBalance → List SafeBalance
last_of_each [] = []
last_of_each (b ∷ bs) =
    let rest = last_of_each bs in
    if any (λ (c : SafeBalance). str_eq c.asset_address b.asset_address) rest
    then rest
    else b ∷ rest

-- ReadAllEthereumTokenBalancesMap: the values of its map, whose keys are the addresses of the tokens.
unfoldable pub read_all_ethereum_token_balances_map : Db → GoString → Option (List SafeBalance)
read_all_ethereum_token_balances_map db address = do
  sbs ← read_all_ethereum_token_balances db address
  some (last_of_each sbs)

-- ListSafesWithState: ORDER BY created_at ASC, request_id ASC
unfoldable pub list_safes_with_state : Db → ℕ → List Safe
list_safes_with_state db state =
    sort_by
      (λ (a b : Safe).
        ltb a.created_at b.created_at
        || ((a.created_at == b.created_at) && str_lt a.request_id b.request_id))
      (filter (λ (s : Safe). s.state == state) db.safes)
