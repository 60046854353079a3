-- ===== src/Common.antt =====
-- The Go package `common`: the vocabulary that the keeper, the signer and the observer share.
pub mod Constants
pub mod Chain
pub mod Request
pub mod Hex
pub mod Base91
pub mod Operation
pub mod Tests
