-- ===== src/Keeper/Node/ProposalBounds.antt =====
-- common/request.go (ParseMixinRecipient) and apps/bitcoin/common.go (ParseSequence): the bounds that
-- a proposal which is read without an error keeps to.
use safe.Prelude.{
  ℕ, zero, suc, ◌≤◌, ◌≡◌, refl, ap, Bool, true, false, ◌&&◌, leb, GoString, List, [], ◌∷◌,
  if◌then◌else◌, Option, none, some, length, arith,
}
use safe.Prelude.Maybe.{◌>>=◌, guard}
use safe.Common.Operation.{read_uuid}
use safe.Common.Request.{Request}
use safe.Keeper.Node.World.{Node}
use safe.Keeper.Node.Proposal.{
  AccountProposal, time_lock_minimum, time_lock_maximum, read_receivers, check_custom_observer,
  read_proposal, parse_mixin_recipient,
}
use safe.Keeper.Node.Bitcoin.Bounds.{sequence_bounds}
use safe.Keeper.Node.Bitcoin.Closing.{parse_sequence}

-- What the threshold and the time lock of a proposal are held to.
pub record WithinBounds (arp : AccountProposal) : Type 0 where
  pub enough_receivers : arp.threshold ≤ length arp.receivers
  pub long_enough : time_lock_minimum ≤ arp.timelock
  pub short_enough : arp.timelock ≤ time_lock_maximum

-- A result, where there is one, has the property.
record Yields {A : Type 0} (P : A → Type 0) (m : Option A) : Type 0 where
  at : (a : A) → m ≡ some a → P a

module _ {A : Type 0} {P : A → Type 0} where
  Yields-none : Yields P none
  Yields-none = record { at = λ a e. absurd (ground (arith, e)) }

  Yields-some : (x : A) → P x → Yields P (some x)
  Yields-some x p = record { at = λ a e. got a e }
    where
      got : (a : A) → some x ≡ some a → P a
      got a e = let k : x ≡ a = ground (arith, e) in rw (← k) p

  Yields-bind :
      {B : Type 0} (m : Option B) (f : B → Option A)
      → ((b : B) → m ≡ some b → Yields P (f b))
      → Yields P (m >>= f)
  Yields-bind none f h = Yields-none
  Yields-bind (some b) f h = h b refl

  Yields-guard :
      (b : Bool) (m : Unit {0} → Option A) → (b ≡ true → Yields P (m tt)) → Yields P (guard b >>= m)
  Yields-guard true m h = h refl
  Yields-guard false m h = Yields-none

ruleset yields_rules = (Yields-none, Yields-some, Yields-guard, Yields-bind)

with_observer :
    (arp : AccountProposal) (key : GoString)
    → WithinBounds arp
    → WithinBounds (record arp { observer = key })
with_observer arp key b = record {
  enough_receivers = b.enough_receivers;
  long_enough = b.long_enough;
  short_enough = b.short_enough;
}

module _ {T E D : Type 0} (node : Node T E D) where
  read_receivers-length :
      (n : ℕ) (dec : D) → Yields (λ r. length r.0 ≡ n) (read_receivers node dec n)
  unfolding read_receivers
  read_receivers-length zero dec = Yields-some _ refl
  read_receivers-length (suc n) dec = Yields-bind (read_uuid node.coder node.uuid dec) _ (λ u e.
      Yields-bind (read_receivers node u.1 n) _
        (λ r k. Yields-some (u.0 ∷ r.0, r.1) (ap suc ((read_receivers-length n u.1).at r k))))

  check_custom_observer-bounds :
      (req : Request) (rest : GoString) (arp : AccountProposal)
      → WithinBounds arp
      → Yields WithinBounds (check_custom_observer node req rest arp)
  unfolding check_custom_observer
  check_custom_observer-bounds req rest arp b = search (yields_rules, with_observer) depth 30

  -- The receivers are as many as the byte before them says.
  within :
      (lock threshold total : ℕ) (dec : D) (r : List GoString × D)
      → (leb time_lock_minimum lock && leb lock time_lock_maximum) ≡ true
      → read_receivers node dec total ≡ some r
      → leb threshold total ≡ true
      → WithinBounds
          (record { receivers = r.0; threshold = threshold; timelock = lock; observer = [] })
  within lock threshold total dec r locks e few =
      let n : length r.0 ≡ total = (read_receivers-length total dec).at r e in
      record {
        enough_receivers = ground (arith, n, few);
        long_enough = ground (arith, locks);
        short_enough = ground (arith, locks);
      }

  Yields-if :
      (c : Bool) {yes no : Option AccountProposal}
      → Yields WithinBounds yes
      → Yields WithinBounds no
      → Yields WithinBounds (if c then yes else no)
  Yields-if true h k = h
  Yields-if false h k = k

  read_proposal-bounds :
      (req : Request) (extra : GoString) → Yields WithinBounds (read_proposal node req extra)
  unfolding read_proposal
  read_proposal-bounds req extra =
      Yields-bind (node.coder.read (node.coder.new_decoder extra) 2) _
        (λ h e. search (yields_rules, Yields-if, check_custom_observer-bounds, within) depth 40)

  -- An account proposal that ParseMixinRecipient reads without an error asks for at most as many
  -- of its receivers as it has, and its time lock lies in the range for which ParseSequence does
  -- not panic, with at least 6 and at most 65,535 blocks on any chain.
  pub proposal_bounds :
      (req : Request) (extra : GoString) (arp : AccountProposal) (chain : ℕ)
      → parse_mixin_recipient node req extra ≡ some (some arp)
      → (arp.threshold ≤ length arp.receivers)
        × (n : ℕ) × (parse_sequence arp.timelock chain ≡ some n)
        × (6 ≤ n)
        × (n ≤ 65_535)
  unfolding parse_mixin_recipient
  proposal_bounds req extra arp chain h =
      let b = (read_proposal-bounds req extra).at arp (ground (arith, h)) in
      let (n, e, low, high, most, best) =
        sequence_bounds arp.timelock chain b.long_enough b.short_enough in
      (b.enough_receivers, n, e, low, high)
