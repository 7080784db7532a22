-- ===== src/Ntag.antt =====
-- crates/bolty-ntag/src/lib.rs: the work on an NTAG424 card.
pub mod Link
pub mod Burn
pub mod Card
pub mod Steps
pub mod Provisioning
pub mod Recovery
pub mod Burned
pub mod Wiped
pub mod Reliable
pub mod Toy
mod Tests
pub mod Ndef
pub mod Probe
pub mod Inspect
pub mod Versions
