-- ===== src/Solana.antt =====
-- The on-chain programme of contracts/solana/programs/neuralmesh.
pub mod State
pub mod Runtime
pub mod Tokens
pub mod Life
pub mod Bridge
pub mod Provider
pub mod Escrow
pub mod Programme
pub mod Sample
pub mod Fixtures
mod EscrowTests
mod Tests
