-- ===== src/Common/Request.antt =====
-- common/request.go: the request that a node works on, and the action of the group (`mtg.Action`)
-- that carried it. A time is a number of nanoseconds, and 0 is Go's zero time. An amount is the
-- number of its units of 10^-8, the precision of every amount on the Mixin network.
use safe.Prelude.{ℕ, GoString, List, Option}

-- The fields of `mtg.Action` that the code reads.
pub record Action : Type 0 where
  pub output_id : GoString
  pub transaction_hash : GoString
  pub output_index : ℕ
  pub asset_id : GoString
  pub amount : ℕ
  pub senders : List GoString
  pub extra : GoString
  pub sequencer_created_at : ℕ
  pub sequence : ℕ

-- `Output` is a pointer, and nil in a request that was read from the store.
pub record Request : Type 0 where
  pub id : GoString
  pub mixin_hash : GoString
  pub mixin_index : ℕ
  pub asset_id : GoString
  pub amount : ℕ
  pub role : ℕ
  pub action : ℕ
  pub curve : ℕ
  pub holder : GoString
  pub extra_hex : GoString
  pub state : ℕ
  pub created_at : ℕ
  pub sequence : ℕ
  pub output : Option Action
