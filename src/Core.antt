-- ===== src/Core.antt =====
-- crates/bolty-core: the domain logic that the firmware and the command line share.
pub mod Hex
pub mod Keys
pub mod Crypto
pub mod ConstantTime
pub mod Derivation
pub mod Config
pub mod Assessment
pub mod Issuer
pub mod Picc
mod Tests
