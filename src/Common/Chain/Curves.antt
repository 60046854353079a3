-- ===== src/Common/Chain/Curves.antt =====
-- The curves and the chains of common/chain.go, one in terms of the other.
use safe.Prelude.{ℕ, ◌≡◌, ◌↔◌, ◌⊎◌, inl, inr, ◌==◌, Bool-cases, some, arith}
use safe.Common.Constants.{
  curve_secp256k1_ecdsa_bitcoin, curve_secp256k1_ecdsa_ethereum, chain_bitcoin, chain_litecoin,
  chain_ethereum, chain_polygon,
}
use safe.Common.Chain.{normalize_curve, safe_curve_chain, safe_chain_curve}

-- A curve has a chain exactly when the chain has the curve.
pub chain_curve_inverse :
    (crv chain : ℕ) → (safe_curve_chain crv ≡ some chain) ↔ (safe_chain_curve chain ≡ some crv)
unfolding safe_curve_chain safe_chain_curve
chain_curve_inverse crv chain = (λ h. ground arith, λ h. ground arith)

-- The curve of the chain of a safe normalizes to the ECDSA curve of Bitcoin where the chain is
-- Bitcoin or Litecoin, and to that of Ethereum where it is Ethereum or Polygon; no other chain
-- has a curve.
pub safe_curve_normalizes :
    (chain crv : ℕ)
    → safe_chain_curve chain ≡ some crv
    → (((chain ≡ chain_bitcoin) ⊎ (chain ≡ chain_litecoin))
        × (normalize_curve crv ≡ some curve_secp256k1_ecdsa_bitcoin))
      ⊎ (((chain ≡ chain_ethereum) ⊎ (chain ≡ chain_polygon))
          × (normalize_curve crv ≡ some curve_secp256k1_ecdsa_ethereum))
unfolding safe_chain_curve normalize_curve
safe_curve_normalizes chain crv h = elim (Bool-cases (chain == chain_bitcoin)) [
  | inl b ↦ inl (inl (ground arith), ground arith)
  | inr b ↦ elim (Bool-cases (chain == chain_litecoin)) [
    | inl l ↦ inl (inr (ground arith), ground arith)
    | inr l ↦ elim (Bool-cases (chain == chain_ethereum)) [
      | inl e ↦ inr (inl (ground arith), ground arith)
      | inr e ↦ inr (inr (ground arith), ground arith)
    ]
  ]
]
