-- ===== src/Keeper/Node/Proposal.antt =====
-- common/request.go (ParseMixinRecipient), and what the handlers of a proposal share: the extra of
-- a proposal, which may stand in a transaction that its own references, and the uuid that the
-- extra of other requests starts with.
use safe.Prelude.{
  ℕ, zero, suc, ◌+◌, ◌*◌, GoString, List, [], ◌∷◌, Option, none, some, not, ◌&&◌, ◌||◌, leb, ◌==◌,
  if◌then◌else◌, length, get_or, drop, any,
}
use safe.Prelude.Maybe.{◌>>=◌, ◌>>◌, guard}
use safe.Common.Constants.{
  action_bitcoin_safe_propose_account, action_ethereum_safe_propose_account,
}
use safe.Common.Hex.{encode_hex}
use safe.Common.Operation.{read_uuid}
use safe.Common.Request.{Request}
use safe.Keeper.Node.World.{Node}

pub record AccountProposal : Type 0 where
  pub receivers : List GoString
  pub threshold : ℕ
  pub timelock : ℕ
  pub observer : GoString

-- time.Hour
abbrev pub hour : ℕ
hour = 3600 * 1_000_000_000

abbrev pub time_lock_minimum : ℕ
time_lock_minimum = hour * 1

abbrev pub time_lock_maximum : ℕ
time_lock_maximum = hour * 24 * 365

module _ {T E D : Type 0} (node : Node T E D) where
  -- The loop that reads the receivers.
  unfoldable pub read_receivers : D → ℕ → Option (List GoString × D)
  read_receivers dec zero = some ([], dec)
  read_receivers dec (suc n) = do
    (uid, d1) ← read_uuid node.coder node.uuid dec
    (uids, d2) ← read_receivers d1 n
    some (uid ∷ uids, d2)

  -- The key of a custom observer at the end of the extra, and the users that must have a safe.
  unfoldable pub check_custom_observer :
      Request → GoString → AccountProposal → Option AccountProposal
  check_custom_observer req rest arp = do
    guard (length rest == 33)
    let observer = encode_hex rest
    guard (
        if req.action == action_bitcoin_safe_propose_account
        then node.bitcoin.verify_holder_key observer
        else node.ethereum.verify_holder_key observer)
    users ← node.read_users arp.receivers
    guard (length users == length arp.receivers)
    guard (not (any not users))
    some (record arp { observer = observer })

  -- ParseMixinRecipient after its switch; `none` is an error.
  unfoldable pub read_proposal : Request → GoString → Option AccountProposal
  unfolding read_receivers check_custom_observer
  read_proposal req extra = do
    (h, d1) ← node.coder.read (node.coder.new_decoder extra) 2
    let timelock = (get_or h 0 0 * 256 + get_or h 1 0) * hour
    guard (leb time_lock_minimum timelock && leb timelock time_lock_maximum)
    (threshold, d2) ← node.coder.read_byte d1
    (total, d3) ← node.coder.read_byte d2
    (receivers, d4) ← read_receivers d3 total
    guard (leb threshold total)
    let arp : AccountProposal = record {
      receivers = receivers;
      threshold = threshold;
      timelock = timelock;
      observer = [];
    }
    let offset = 2 + 1 + 1 + total * 16
    if offset == length extra then some arp else check_custom_observer req (drop offset extra) arp

  -- ParseMixinRecipient: on an action that proposes no account it panics, which is `none`.
  unfoldable pub parse_mixin_recipient : Request → GoString → Option (Option AccountProposal)
  unfolding read_proposal
  parse_mixin_recipient req extra =
      if req.action == action_bitcoin_safe_propose_account
        || (req.action == action_ethereum_safe_propose_account)
      then some (read_proposal req extra)
      else none
