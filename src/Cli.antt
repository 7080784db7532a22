-- ===== src/Cli.antt =====
-- apps/bolty-cli: the command line.
pub mod Budget
pub mod Diagnose
pub mod Audit
pub mod Tool
pub mod Looking
pub mod Wipe
pub mod Burn
pub mod Provision
pub mod Testck
pub mod Scan
pub mod Reader
mod Tests
mod Fixtures
mod CommandTests
mod KeyTests
