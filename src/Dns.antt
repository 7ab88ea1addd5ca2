-- ===== src/Dns.antt =====
-- DNS records as they are read and classified: src/dns/records.rs, src/dns/extract.rs and the types of
-- TXT records in src/storage/insert/utils.rs.
pub mod Extract
pub mod TagLaws
pub mod ExtractLaws
pub mod Records
pub mod RecordLaws
mod Tests
