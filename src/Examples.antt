-- ===== src/Examples.antt =====
-- The properties at concrete inputs, and runs of the code.
pub mod Helpers
pub mod Signatures
pub mod Tokens
pub mod Consumers
pub mod Scripts
pub mod Links
pub mod Sessions
pub mod Clients
pub mod Setups
pub mod Addresses
pub mod Copies
pub mod Queries
