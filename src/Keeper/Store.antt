-- ===== src/Keeper/Store.antt =====
-- keeper/store: the tables of schema.sql, and the methods of `SQLite3Store`.
pub mod Tables
pub mod Clashes
pub mod Tx
pub mod Schema
pub mod Requests
pub mod Keys
pub mod Safes
pub mod Outputs
pub mod Balances
pub mod Networks
pub mod Transactions
pub mod Signatures
pub mod Listing
