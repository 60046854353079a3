-- ===== src/Keeper/Store/Networks.antt =====
-- keeper/store/network.go, and the properties of keeper/store/sqlite3.go.
use safe.Prelude.{
  ℕ, GoString, Bool, ◌&&◌, ◌||◌, List, [], ◌∷◌, Option, none, some, str_eq, str_lt, ltb, leb, ◌==◌,
  if◌then◌else◌, find, filter, least,
}
use safe.Prelude.Text.{codes}
use safe.Common.Constants.{request_state_done}
use safe.Common.Request.{Request}
use safe.Keeper.Store.Tables.{Db, NetworkInfo, OperationParams, Property}
use safe.Keeper.Store.Tx.{Tx, pure, deref, ◌>>=◌, ◌>>◌, commit, insert_one, check_existence}
use safe.Keeper.Store.Schema.{requests, network_infos, operation_params, properties, finish_request}
use safe.Keeper.Store.Requests.{write_action_result}

-- ORDER BY created_at DESC, request_id DESC
abbrev pub later : ℕ → GoString → ℕ → GoString → Bool
later created_at id created_at' id' =
    ltb created_at' created_at || ((created_at == created_at') && str_lt id' id)

-- ReadNetworkInfo and ReadLatestNetworkInfo
unfoldable pub read_network_info : Db → GoString → Option NetworkInfo
read_network_info db id = find (λ (n : NetworkInfo). str_eq n.request_id id) db.network_infos

unfoldable pub read_latest_network_info : Db → ℕ → ℕ → Option NetworkInfo
read_latest_network_info db chain offset =
    least (λ a b. later a.created_at a.request_id b.created_at b.request_id)
      (filter (λ (n : NetworkInfo). n.chain == chain && leb n.created_at offset) db.network_infos)

-- ReadLatestOperationParams
unfoldable pub read_latest_operation_params : Db → ℕ → ℕ → Option OperationParams
read_latest_operation_params db chain offset =
    least (λ a b. later a.created_at a.request_id b.created_at b.request_id)
      (filter (λ (p : OperationParams). p.chain == chain && leb p.created_at offset)
        db.operation_params)

module _ {T : Type 0} (serialize : List T → GoString) where
  -- WriteNetworkInfoFromRequest
  unfoldable pub write_network_info_from_request : ℕ → NetworkInfo → Request → Tx (Unit {0})
  write_network_info_from_request now info req = do
    insert_one network_infos info
    finish_request now info.request_id
    output ← deref req.output
    write_action_result serialize now output.output_id [] [] info.request_id
    commit

  -- WriteOperationParamsFromRequest
  unfoldable pub write_operation_params_from_request : ℕ → OperationParams → Request → Tx (Unit {0})
  write_operation_params_from_request now params req = do
    existed ←
        check_existence requests
          (λ r. str_eq r.columns.id params.request_id && (r.columns.state == request_state_done))
    if existed then pure tt else do
      insert_one operation_params params
      finish_request now params.request_id
      output ← deref req.output
      write_action_result serialize now output.output_id [] [] params.request_id
      commit

-- ReadProperty: the empty string where there is none.
unfoldable pub read_property : Db → GoString → GoString
read_property db k = elim (find (λ (p : Property). str_eq p.key k) db.properties) [
  | none ↦ []
  | some p ↦ p.value
]

-- WriteProperty
unfoldable pub write_property : ℕ → GoString → GoString → Tx (Unit {0})
write_property now k v = do
  insert_one properties (record { key = k; value = v; created_at = now })
  commit

abbrev pub terminate_key : GoString
terminate_key = codes "node-state-terminate"

-- WriteTerminate and ReadTerminate
unfoldable pub write_terminate : ℕ → Tx (Unit {0})
unfolding write_property
write_terminate now = write_property now terminate_key (b'1' ∷ [])

unfoldable pub read_terminate : Db → Bool
unfolding read_property
read_terminate db = str_eq (read_property db terminate_key) (b'1' ∷ [])
