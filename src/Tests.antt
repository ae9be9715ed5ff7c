-- ===== src/Tests.antt =====
-- A small instance of every parameter, a state to start from, and the theorems at work on them.
pub mod Floats
pub mod Fixtures
pub mod Limiter
pub mod Leaders
pub mod Handlers
pub mod Store
pub mod Proposals
pub mod Trees
pub mod Proofs
pub mod Anchors
pub mod Threads
pub mod Bitcoin
pub mod Addresses
