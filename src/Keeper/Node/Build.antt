-- ===== src/Keeper/Node/Build.antt =====
-- keeper/node.go, keeper/observer.go and keeper/request.go: the transactions of the group that a
-- handler builds. `built` lists those that it has built before. The test environment, in which
-- the code writes properties instead, is not modelled. A panic is `none` outside, and a balance that
-- does not suffice is `none` inside.
use safe.Prelude.{
  ℕ, GoString, List, [], ◌∷◌, ◌++◌, Option, none, some, not, str_lt, length, ltb, if◌then◌else◌,
}
use safe.Prelude.Maybe.{◌>>=◌, ◌>>◌, guard}
use safe.Common.Operation.{Operation, encode}
use safe.Common.Request.{Action}
use safe.Keeper.Node.World.{Node, Decimal, lt_decimal, Payment}

module _ {T E D : Type 0} (node : Node T E D) where
  -- common.UniqueId
  unfoldable pub unique_id : GoString → GoString → GoString
  unique_id a b =
      if str_lt b a then node.crypto.uuid_hash (b ++ a) else node.crypto.uuid_hash (a ++ b)

  -- checkTransaction, with the payment's own identifier, and the methods that build after it.
  unfoldable pub build_payment : Action → List T → Payment → Option T
  unfolding unique_id
  build_payment act built p =
      if lt_decimal (node.group.check_asset_balance_at act built p.asset_id) p.amount
      then none
      else some (
          node.group.build_transaction act
            (record p { trace_id = unique_id node.group.genesis_id p.trace_id }))

  -- buildTransaction
  unfoldable pub build_transaction :
      Action
      → List T
      → GoString
      → GoString
      → List GoString
      → ℕ
      → Decimal
      → GoString
      → GoString
      → Option T
  unfolding build_payment
  build_transaction act built app asset receivers threshold amount memo trace =
      build_payment act built (record {
        trace_id = trace;
        app_id = app;
        asset_id = asset;
        amount = amount;
        memo = memo;
        receivers = receivers;
        threshold = threshold;
        storage_trace_id = none;
      })

  abbrev pub one : Decimal
  one = record { units = 1; precision = 0 }

  -- encryptObserverOperation and buildObserverTransaction
  unfoldable pub build_observer_transaction :
      Operation → Action → List T → GoString → Decimal → GoString → Option (Option T)
  unfolding build_payment
  build_observer_transaction op act built asset amount storage = do
    text ← encode node.coder node.uuid op
    let extra = node.crypto.aes_encrypt node.conf.observer_aes_key text op.id
    guard (not (ltb 160 (length extra)))
    some (
        build_payment act built (record {
          trace_id = op.id;
          app_id = node.conf.observer_user_id;
          asset_id = asset;
          amount = amount;
          memo = extra;
          receivers = node.conf.observer_user_id ∷ [];
          threshold = 1;
          storage_trace_id = some storage;
        }))

  -- buildObserverResponseWithAssetAndStorageTraceId
  unfoldable pub build_observer_response_with_asset :
      GoString → Action → List T → ℕ → ℕ → GoString → Decimal → GoString → Option (Option T)
  unfolding build_observer_transaction
  build_observer_response_with_asset id act built typ crv asset amount storage = do
    extra ← node.uuid.parse storage
    build_observer_transaction
        (record { id = id; typ = typ; curve = crv; public = []; extra = extra }) act built asset
        amount storage

  -- buildObserverResponseWithStorageTraceId
  unfoldable pub build_observer_response :
      GoString → Action → List T → ℕ → ℕ → GoString → Option (Option T)
  unfolding build_observer_response_with_asset
  build_observer_response id act built typ crv storage =
      build_observer_response_with_asset id act built typ crv node.conf.observer_asset_id one
        storage

  -- buildStorageTransaction
  unfoldable pub build_storage_transaction : Action → GoString → Option T
  build_storage_transaction act extra =
      if node.group.check_asset_balance_for_storage_at act extra
      then some (node.group.build_storage_transaction act extra)
      else none

  -- encryptSignerOperation and buildSignerTransaction
  unfoldable pub build_signer_transaction : Action → List T → Operation → Option (Option T)
  unfolding build_transaction
  build_signer_transaction act built op = do
    text ← encode node.coder node.uuid op
    let extra = node.crypto.aes_encrypt node.conf.signer_aes_key text op.id
    guard (not (ltb 160 (length extra)))
    some (
        build_transaction act built node.conf.signer_app_id node.conf.asset_id node.conf.signers
          node.conf.signer_threshold one extra op.id)
