-- ===== src/Detection.antt =====
-- src/fingerprint/detection and src/fingerprint/patterns: which technologies a page shows.
pub mod Version
pub mod VersionLaws
pub mod Patterns
pub mod Compiled
pub mod CompiledLaws
pub mod Ruleset
pub mod Matching
pub mod MatchingLaws
pub mod RequiresLaws
pub mod Implies
pub mod ImpliesLaws
pub mod ImpliesRounds
pub mod Entries
pub mod Finalize
pub mod FinalizeLaws
pub mod Signals
pub mod SignalLaws
pub mod Cookies
pub mod Meta
pub mod Needles
pub mod Index
pub mod Body
pub mod Detect
pub mod MergeLaws
pub mod DetectLaws
mod Tests
