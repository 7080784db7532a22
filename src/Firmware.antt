-- ===== src/Firmware.antt =====
-- apps/bolty-esp32: the firmware's console, REST and update logic that runs without hardware.
pub mod Auth
pub mod Button
pub mod Commands
pub mod Console
pub mod Jobs
pub mod OtaHeader
pub mod OtaServer
pub mod OtaValidity
pub mod Requests
mod Fixtures
mod Tests
pub mod Workflow
pub mod CardService
