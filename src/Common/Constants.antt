-- ===== src/Common/Constants.antt =====
-- The constants of common/operation.go, common/request.go, apps/bitcoin/common.go and
-- apps/ethereum/common.go. A `uint8` or `byte` is a number below 256.
use safe.Prelude.{ℕ, ◌+◌}

-- common/operation.go
abbrev pub operation_type_keygen_input : ℕ
operation_type_keygen_input = 1

abbrev pub operation_type_sign_input : ℕ
operation_type_sign_input = 2

abbrev pub operation_type_keygen_output : ℕ
operation_type_keygen_output = 11

abbrev pub operation_type_sign_output : ℕ
operation_type_sign_output = 12

abbrev pub curve_secp256k1_ecdsa_bitcoin : ℕ
curve_secp256k1_ecdsa_bitcoin = 1

abbrev pub curve_secp256k1_ecdsa_ethereum : ℕ
curve_secp256k1_ecdsa_ethereum = 2

abbrev pub curve_secp256k1_schnorr_bitcoin : ℕ
curve_secp256k1_schnorr_bitcoin = 3

abbrev pub curve_edwards25519_default : ℕ
curve_edwards25519_default = 4

abbrev pub curve_edwards25519_mixin : ℕ
curve_edwards25519_mixin = 5

abbrev pub curve_secp256k1_ecdsa_litecoin : ℕ
curve_secp256k1_ecdsa_litecoin = 100 + curve_secp256k1_ecdsa_bitcoin

abbrev pub curve_secp256k1_ecdsa_mvm : ℕ
curve_secp256k1_ecdsa_mvm = 100 + curve_secp256k1_ecdsa_ethereum

abbrev pub curve_secp256k1_ecdsa_polygon : ℕ
curve_secp256k1_ecdsa_polygon = 110 + curve_secp256k1_ecdsa_ethereum

-- common/request.go: roles, flags and states
abbrev pub request_role_holder : ℕ
request_role_holder = 1

abbrev pub request_role_signer : ℕ
request_role_signer = 2

abbrev pub request_role_observer : ℕ
request_role_observer = 3

abbrev pub request_flag_none : ℕ
request_flag_none = 0

abbrev pub request_flag_custom_observer_key : ℕ
request_flag_custom_observer_key = 1

abbrev pub request_state_initial : ℕ
request_state_initial = 1

abbrev pub request_state_pending : ℕ
request_state_pending = 2

abbrev pub request_state_done : ℕ
request_state_done = 3

abbrev pub request_state_failed : ℕ
request_state_failed = 4

-- common/request.go: actions
abbrev pub action_migrate_safe_token : ℕ
action_migrate_safe_token = 99

abbrev pub action_terminate : ℕ
action_terminate = 100

abbrev pub action_observer_add_key : ℕ
action_observer_add_key = 101

abbrev pub action_observer_request_signer_keys : ℕ
action_observer_request_signer_keys = 102

abbrev pub action_observer_update_network_status : ℕ
action_observer_update_network_status = 103

abbrev pub action_observer_holder_deposit : ℕ
action_observer_holder_deposit = 104

abbrev pub action_observer_set_operation_params : ℕ
action_observer_set_operation_params = 106

abbrev pub action_bitcoin_safe_propose_account : ℕ
action_bitcoin_safe_propose_account = 110

abbrev pub action_bitcoin_safe_approve_account : ℕ
action_bitcoin_safe_approve_account = 111

abbrev pub action_bitcoin_safe_propose_transaction : ℕ
action_bitcoin_safe_propose_transaction = 112

abbrev pub action_bitcoin_safe_approve_transaction : ℕ
action_bitcoin_safe_approve_transaction = 113

abbrev pub action_bitcoin_safe_revoke_transaction : ℕ
action_bitcoin_safe_revoke_transaction = 114

abbrev pub action_bitcoin_safe_close_account : ℕ
action_bitcoin_safe_close_account = 115

abbrev pub action_ethereum_safe_propose_account : ℕ
action_ethereum_safe_propose_account = 130

abbrev pub action_ethereum_safe_approve_account : ℕ
action_ethereum_safe_approve_account = 131

abbrev pub action_ethereum_safe_propose_transaction : ℕ
action_ethereum_safe_propose_transaction = 132

abbrev pub action_ethereum_safe_approve_transaction : ℕ
action_ethereum_safe_approve_transaction = 133

abbrev pub action_ethereum_safe_revoke_transaction : ℕ
action_ethereum_safe_revoke_transaction = 134

abbrev pub action_ethereum_safe_close_account : ℕ
action_ethereum_safe_close_account = 135

abbrev pub action_ethereum_safe_refund_transaction : ℕ
action_ethereum_safe_refund_transaction = 136

-- apps/bitcoin/common.go and apps/ethereum/common.go
abbrev pub chain_bitcoin : ℕ
chain_bitcoin = 1

abbrev pub chain_ethereum : ℕ
chain_ethereum = 2

abbrev pub chain_litecoin : ℕ
chain_litecoin = 5

abbrev pub chain_polygon : ℕ
chain_polygon = 6

-- common/request.go: the flags of a proposed transaction
abbrev pub flag_propose_normal_transaction : ℕ
flag_propose_normal_transaction = 0

abbrev pub flag_propose_recovery_transaction : ℕ
flag_propose_recovery_transaction = 1
