-- ===== src/Reader.antt =====
-- The drivers of the card readers.
pub mod Pn532
pub mod IsoDep
pub mod Mfrc522
pub mod Pn7160
pub mod Conformance
mod Tests
mod IsoTests
