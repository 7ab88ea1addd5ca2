-- ===== src/Run.antt =====
-- src/run: how a scan accounts for each URL that it attempts.
pub mod Task
pub mod TaskLaws
pub mod Lines
pub mod LinesLaws
pub mod Pool
pub mod PoolLaws
pub mod Scan
pub mod Balance
pub mod Keeps
pub mod ScanLaws
pub mod ExitCode
pub mod ExitCodeLaws
mod Tests
