-- ===== src/Keeper.antt =====
-- The Go package `keeper`: the store of a keeper node and the handlers of its requests.
pub mod Store
pub mod Calls
pub mod Node
mod Tests
