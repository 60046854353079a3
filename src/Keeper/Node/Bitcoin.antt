-- ===== src/Keeper/Node/Bitcoin.antt =====
-- keeper/bitcoin.go: the requests of the safes on Bitcoin and Litecoin.
pub mod Accounts
pub mod Transactions
pub mod Signing
pub mod Closing
pub mod Bounds
