-- ===== src/Retry.antt =====
-- How failed work is tried again: the backoff of src/error_handling/categorization.rs, the loop of
-- src/utils/process.rs, downloads of src/utils/retry.rs, and SQLite of src/storage/insert/retry.rs.
pub mod Backoff
pub mod Execute
pub mod ExecuteLaws
pub mod Delays
pub mod ExecuteTotal
pub mod Loops
pub mod LoopsLaws
pub mod Retriable
pub mod RetriableLaws
mod Tests
