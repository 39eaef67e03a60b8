-- ===== src/Cracking.antt =====
-- src/cracking.rs: results of a lookup, how they are shown, and the calls of the oracle.
pub mod Results
pub mod Display
pub mod Oracle
pub mod Summary
pub mod Plaintext
pub mod NearMisses
pub mod Lookups
mod Tests
