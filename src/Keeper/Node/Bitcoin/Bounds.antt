-- ===== src/Keeper/Node/Bitcoin/Bounds.antt =====
-- apps/bitcoin/common.go: the number of blocks that the time lock of a safe stands for.
use safe.Prelude.{
  ℕ, suc, ◌*◌, ◌/◌, ◌≤◌, ◌<◌, ◌≡◌, ◌⊎◌, inl, inr, refl, false, Bool-cases, some, ltb, leb, ◌==◌,
  ◌||◌, if◌then◌else◌, arith,
}
use safe.Common.Constants.{chain_litecoin}
use safe.Keeper.Node.Proposal.{time_lock_minimum, time_lock_maximum}
use safe.Keeper.Node.Bitcoin.Closing.{parse_sequence}

-- The nanoseconds between two blocks of a chain.
abbrev pub block_time : ℕ → ℕ
block_time chain = if chain == chain_litecoin then 150_000_000_000 else 600_000_000_000

in_range :
    (lock : ℕ)
    → time_lock_minimum ≤ lock
    → lock ≤ time_lock_maximum
    → (ltb lock time_lock_minimum || ltb time_lock_maximum lock) ≡ false
in_range lock h k = ground arith

-- For a time lock between one hour and 365 days, ParseSequence gives a number of blocks that
-- is at least 6 and at most 65,535, whose duration on the chain is at most the lock, and which
-- is the largest such number unless it is 65,535.
pub sequence_bounds :
    (lock chain : ℕ)
    → time_lock_minimum ≤ lock
    → lock ≤ time_lock_maximum
    → (n : ℕ) × (parse_sequence lock chain ≡ some n)
      × (6 ≤ n)
      × (n ≤ 65_535)
      × (n * block_time chain ≤ lock)
      × ((n ≡ 65_535) ⊎ (lock < suc n * block_time chain))
unfolding parse_sequence
sequence_bounds lock chain h k = elim (Bool-cases (chain == chain_litecoin)) [
  | inl c ↦ elim (Bool-cases (leb 0xffff (lock / 150_000_000_000))) [
    | inl b ↦
        rw (in_range lock h k, c, b)
          (65_535, refl, omega arith, omega arith, ground arith, inl refl)
    | inr b ↦
        rw (in_range lock h k, c, b)
          (lock / 150_000_000_000, refl, omega arith, ground arith, omega arith, inr (omega arith))
  ]
  | inr c ↦ elim (Bool-cases (leb 0xffff (lock / 600_000_000_000))) [
    | inl b ↦
        rw (in_range lock h k, c, b)
          (65_535, refl, omega arith, omega arith, ground arith, inl refl)
    | inr b ↦
        rw (in_range lock h k, c, b)
          (lock / 600_000_000_000, refl, omega arith, ground arith, omega arith, inr (omega arith))
  ]
]
