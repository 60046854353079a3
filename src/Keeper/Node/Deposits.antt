-- ===== src/Keeper/Node/Deposits.antt =====
-- keeper/deposit.go: the deposits that the observer reports. An index of 2^63 or more, which the
-- code reads as negative, is one that no transaction has.
pub mod Bitcoin
pub mod Ethereum
pub mod Holder
use safe.Prelude.{
  ℕ, ◌+◌, ◌-◌, ◌*◌, ◌^◌, GoString, Bool, true, List, [], ◌∷◌, ◌++◌, Option, none, some, not, ◌&&◌,
  ◌||◌, ltb, leb, ◌==◌, if◌then◌else◌, length, get_or, take, drop, any, str_eq,
}
use safe.Prelude.Maybe.{is_none}
use safe.Prelude.Text.{codes}
use safe.Common.Constants.{chain_bitcoin, chain_litecoin, chain_ethereum, chain_polygon}
use safe.Common.Chain.{safe_curve_chain}
use safe.Common.Hex.{encode_hex, decode_hex}
use safe.Common.Request.{Request}
use safe.Keeper.Store.Tables.{Db, NetworkInfo}
use safe.Keeper.Store.Safes.{read_safe_by_address}
use safe.Keeper.Node.Network.{big_endian, uint64_at}
use safe.Keeper.Node.World.{Node}
use safe.Keeper.Node.Handler.{
  Handler, pure, look, need, require, ◌>>=◌, ◌>>◌, fail_request, found, check,
}

-- `Deposit` of keeper/deposit.go
pub record Deposit : Type 0 where
  pub chain : ℕ
  pub asset : GoString
  pub asset_address : GoString
  pub hash : GoString
  pub index : ℕ
  pub amount : ℕ

abbrev pub is_bitcoin_chain : ℕ → Bool
is_bitcoin_chain chain = chain == chain_bitcoin || (chain == chain_litecoin)

abbrev pub is_ethereum_chain : ℕ → Bool
is_ethereum_chain chain = chain == chain_ethereum || (chain == chain_polygon)

-- The deposit of Bitcoin that follows the chain and the asset in an extra.
unfoldable pub bitcoin_deposit : ℕ → GoString → GoString → Deposit
bitcoin_deposit chain asset rest = record {
  chain = chain;
  asset = asset;
  asset_address = [];
  hash = encode_hex (take 32 rest);
  index = uint64_at 32 rest;
  amount = big_endian (drop 40 rest) 0;
}

module _ {T E D : Type 0} (node : Node T E D) where
  unfoldable pub ethereum_deposit : ℕ → GoString → GoString → Deposit
  ethereum_deposit chain asset rest = record {
    chain = chain;
    asset = asset;
    asset_address = node.ethereum.address_text (take 20 (drop 32 rest));
    hash = codes "0x" ++ encode_hex (take 32 rest);
    index = uint64_at 52 rest;
    amount = big_endian (drop 60 rest) 0;
  }

  -- checkTrustedSender
  unfoldable pub check_trusted_sender : GoString → Handler T Bool
  check_trusted_sender address =
      if any (str_eq address) (
        codes "bc1ql24x05zhqrpejar0p3kevhu48yhnnr3r95sv4y"
        ∷ codes "ltc1qs46hqx885kpz83vfg6evm9dsuapznfaw997qwl"
        ∷ codes "0x1616b057F8a89955d4A4f9fd9Eb10289ac0e44A1"
        ∷ [])
      then pure true
      else look (λ db. not (is_none (read_safe_by_address db address)))

-- The confirmations of a block at a height, and those that a trusted sender is given.
unfoldable pub confirmations_of : NetworkInfo → ℕ → ℕ
confirmations_of info height = if ltb info.height height then 0 else info.height - height + 1

unfoldable pub trusted_confirmations : Bool → ℕ → ℕ
trusted_confirmations trusted confirmations =
    if trusted && ltb 0 confirmations then 1_000_000 else confirmations

module _ {T E D : Type 0} (node : Node T E D) (now : ℕ) (req : Request) where
  -- parseDepositExtra; a slice that is too short is a panic.
  unfoldable pub parse_deposit_extra : Handler T Deposit
  unfolding bitcoin_deposit ethereum_deposit
  parse_deposit_extra = do
    extra ← need (decode_hex req.extra_hex)
    check node now req (not (ltb (length extra) (1 + 16 + 32 + 8)))
    asset ← need (node.uuid.format (take 16 (drop 1 extra)))
    chain ← need (safe_curve_chain req.curve)
    require (get_or extra 0 0 == chain)
    let rest = drop 17 extra
    if is_bitcoin_chain chain
        then (do
          let deposit = bitcoin_deposit chain asset rest
          check node now req (ltb deposit.amount (2 ^ 63))
          pure deposit)
        else do require (leb 60 (length rest)); pure (ethereum_deposit node chain asset rest)
