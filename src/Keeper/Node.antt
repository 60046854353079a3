-- ===== src/Keeper/Node.antt =====
-- keeper/: the requests of the node, and what it answers.
pub mod Dispatch
pub mod Network
pub mod World
pub mod Handler
pub mod Build
pub mod Signers
pub mod Keys
pub mod Proposal
pub mod ProposalBounds
pub mod Extras
pub mod Accounts
pub mod Bitcoin
pub mod Deposits
pub mod Ethereum
pub mod Requests
pub mod Revoking
pub mod Actions
pub mod Calls
pub mod Sample
mod Runs
