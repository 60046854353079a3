-- ===== src/Keeper/Node/Ethereum.antt =====
-- keeper/ethereum.go: the requests of the safes on Ethereum and Polygon, and the signatures of
-- their transactions.
pub mod Accounts
pub mod Transactions
pub mod Signing
pub mod Response
pub mod Closing
use safe.Prelude.{
  ℕ, GoString, Bool, false, List, [], ◌∷◌, Option, none, some, any, str_eq, find, if◌then◌else◌,
  ◌==◌,
}
use safe.Prelude.Maybe.{◌>>=◌}
use safe.Prelude.Text.{codes}
use safe.Common.Constants.{chain_ethereum, chain_polygon}
use safe.Keeper.Store.Tables.{Safe, SafeBalance}
use safe.Keeper.Node.World.{Node, SafeTransaction}
use safe.Keeper.Node.Deposits.Ethereum.{chain_mvm}

-- ethereum.EthereumEmptyAddress
abbrev pub ethereum_empty_address : GoString
ethereum_empty_address = codes "0x0000000000000000000000000000000000000000"

-- ethereum.GetEvmChainID; another chain is a panic.
unfoldable pub get_evm_chain_id : ℕ → Option ℕ
get_evm_chain_id chain =
    if chain == chain_ethereum
    then some 1
    else if chain == chain_polygon
    then some 137
    else if chain == chain_mvm
    then some 73927
    else none

-- An entry of the map of balances.
abbrev pub balance_of : GoString → List SafeBalance → Option SafeBalance
balance_of token = find (λ (b : SafeBalance). str_eq b.asset_address token)

-- The loop of checkEthereumTransactionSignedBy over the owners; an owner without a place for its
-- signature is a panic.
unfoldable pub signed_by :
    (GoString → Bool) → GoString → List GoString → List (Option GoString) → Option Bool
signed_by verify public [] sigs = some false
signed_by verify public (k ∷ pubs) [] = none
signed_by verify public (k ∷ pubs) (sig ∷ sigs) =
    let rest = signed_by verify public pubs sigs in
    elim sig [ none ↦ rest | some s ↦ if str_eq k public then some (verify s) else rest ]

-- The signature of an owner put at its place, in the loops over the owners.
unfoldable pub put_signature :
    GoString → GoString → List GoString → List (Option GoString) → Option (List (Option GoString))
put_signature public sig [] sigs = some sigs
put_signature public sig (k ∷ pubs) [] = if any (str_eq public) (k ∷ pubs) then none else some []
put_signature public sig (k ∷ pubs) (old ∷ sigs) = do
  rest ← put_signature public sig pubs sigs
  some ((if str_eq k public then some sig else old) ∷ rest)

module _ {T E D : Type 0} (node : Node T E D) where
  unfoldable pub owners_of : Safe → List GoString
  owners_of safe = node.ethereum.get_sorted_safe_owners safe.holder safe.signer safe.observer

  -- checkEthereumTransactionSignedBy
  unfoldable pub check_signed_by : Safe → SafeTransaction → GoString → Option Bool
  unfolding signed_by owners_of
  check_signed_by safe t public =
      signed_by (λ sig. node.ethereum.verify_message_signature public t.message sig) public
        (owners_of safe) t.signatures
