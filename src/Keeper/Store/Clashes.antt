-- ===== src/Keeper/Store/Clashes.antt =====
-- The primary keys and unique indexes of keeper/store/schema.sql.
use safe.Prelude.{GoString, Option, none, some, Bool, false, str_eq, ◌&&◌, ◌||◌, ◌==◌}
use safe.Keeper.Store.Tables.{
  RequestRow, ActionResultRow, NetworkInfo, OperationParams, Key, SafeProposal, Safe, BitcoinOutput,
  SafeBalance, Deposit, Transaction, SignatureRequest, MigrateAsset, Property,
}

-- Equality as the SQL `=` on a nullable column: NULL equals nothing.
abbrev pub null_eq : Option GoString → Option GoString → Bool
null_eq (some a) (some b) = str_eq a b
null_eq none b = false
null_eq (some a) none = false

-- The primary keys and unique indexes of schema.sql: whether two rows exclude one another.
unfoldable pub request_clash : RequestRow → RequestRow → Bool
request_clash a b =
    str_eq a.columns.id b.columns.id
    || (str_eq a.columns.mixin_hash b.columns.mixin_hash
        && (a.columns.mixin_index == b.columns.mixin_index))

unfoldable pub action_result_clash : ActionResultRow → ActionResultRow → Bool
action_result_clash a b = str_eq a.output_id b.output_id

unfoldable pub network_info_clash : NetworkInfo → NetworkInfo → Bool
network_info_clash a b = str_eq a.request_id b.request_id

unfoldable pub operation_params_clash : OperationParams → OperationParams → Bool
operation_params_clash a b = str_eq a.request_id b.request_id

unfoldable pub key_clash : Key → Key → Bool
key_clash a b =
    str_eq a.public b.public
    || str_eq a.request_id b.request_id
    || (null_eq a.holder b.holder && (a.role == b.role))

unfoldable pub safe_proposal_clash : SafeProposal → SafeProposal → Bool
safe_proposal_clash a b =
    str_eq a.request_id b.request_id
    || str_eq a.signer b.signer
    || str_eq a.observer b.observer
    || str_eq a.address b.address

unfoldable pub safe_clash : Safe → Safe → Bool
safe_clash a b =
    str_eq a.holder b.holder
    || str_eq a.signer b.signer
    || str_eq a.observer b.observer
    || str_eq a.address b.address
    || str_eq a.request_id b.request_id

unfoldable pub bitcoin_output_clash : BitcoinOutput → BitcoinOutput → Bool
bitcoin_output_clash a b =
    (str_eq a.transaction_hash b.transaction_hash && (a.output_index == b.output_index))
    || str_eq a.request_id b.request_id

unfoldable pub ethereum_balance_clash : SafeBalance → SafeBalance → Bool
ethereum_balance_clash a b = str_eq a.address b.address && str_eq a.asset_id b.asset_id

unfoldable pub deposit_clash : Deposit → Deposit → Bool
deposit_clash a b =
    str_eq a.transaction_hash b.transaction_hash && (a.output_index == b.output_index)

unfoldable pub transaction_clash : Transaction → Transaction → Bool
transaction_clash a b =
    str_eq a.transaction_hash b.transaction_hash || str_eq a.request_id b.request_id

unfoldable pub signature_request_clash : SignatureRequest → SignatureRequest → Bool
signature_request_clash a b = str_eq a.request_id b.request_id

unfoldable pub migrate_asset_clash : MigrateAsset → MigrateAsset → Bool
migrate_asset_clash a b =
    str_eq a.safe_asset_id b.safe_asset_id
    || (str_eq a.address b.address && str_eq a.asset_id b.asset_id)

unfoldable pub property_clash : Property → Property → Bool
property_clash a b = str_eq a.key b.key
