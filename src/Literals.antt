-- ===== src/Literals.antt =====
-- src/fingerprint/patterns/literals.rs: which patterns of a technology occur in a page.
pub mod Hits
pub mod HitsLaws
pub mod Channels
pub mod Steps
pub mod StepsLaws
mod Tests
