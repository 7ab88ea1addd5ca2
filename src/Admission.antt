-- ===== src/Admission.antt =====
-- src/initialization/rate_limiter.rs and host_rate_limiter.rs: the token buckets of a scan.
pub mod Bucket
pub mod BucketLaws
pub mod Hosts
pub mod HostsLaws
mod Tests
