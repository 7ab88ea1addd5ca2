-- ===== src/Config.antt =====
-- src/config and src/cli.rs: the configuration of a scan.
pub mod Types
pub mod Merge
pub mod Command
pub mod Keys
pub mod Laws
pub mod Validity
mod Tests
