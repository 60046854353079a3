-- ===== src/Common/Chain.antt =====
-- common/chain.go, and `NormalizeCurve` of common/operation.go. A panic of the source is `none`.
pub mod Curves
use safe.Prelude.{ℕ, ◌%◌, Option, none, some, ◌||◌, ltb, ◌==◌, if◌then◌else◌}
use safe.Common.Constants.{
  curve_secp256k1_ecdsa_bitcoin, curve_secp256k1_ecdsa_ethereum, curve_secp256k1_schnorr_bitcoin,
  curve_edwards25519_default, curve_edwards25519_mixin, curve_secp256k1_ecdsa_litecoin,
  curve_secp256k1_ecdsa_polygon, chain_bitcoin, chain_litecoin, chain_ethereum, chain_polygon,
}

-- The switch at the end of `NormalizeCurve`.
check_curve : ℕ → Option ℕ
check_curve crv =
    if crv == curve_secp256k1_ecdsa_bitcoin
      || (crv == curve_secp256k1_ecdsa_ethereum)
      || (crv == curve_secp256k1_schnorr_bitcoin)
      || (crv == curve_edwards25519_default)
      || (crv == curve_edwards25519_mixin)
    then some crv
    else none

unfoldable pub normalize_curve : ℕ → Option ℕ
unfolding check_curve
normalize_curve crv = check_curve (if ltb 100 crv then crv % 10 else crv)

unfoldable pub safe_curve_chain : ℕ → Option ℕ
safe_curve_chain crv =
    if crv == curve_secp256k1_ecdsa_bitcoin
    then some chain_bitcoin
    else if crv == curve_secp256k1_ecdsa_litecoin
    then some chain_litecoin
    else if crv == curve_secp256k1_ecdsa_ethereum
    then some chain_ethereum
    else if crv == curve_secp256k1_ecdsa_polygon
    then some chain_polygon
    else none

unfoldable pub safe_chain_curve : ℕ → Option ℕ
safe_chain_curve chain =
    if chain == chain_bitcoin
    then some curve_secp256k1_ecdsa_bitcoin
    else if chain == chain_litecoin
    then some curve_secp256k1_ecdsa_litecoin
    else if chain == chain_ethereum
    then some curve_secp256k1_ecdsa_ethereum
    else if chain == chain_polygon
    then some curve_secp256k1_ecdsa_polygon
    else none
