-- ===== src/Security.antt =====
-- src/security: the SSRF guard of the scanner.
pub mod Net
pub mod Ip
pub mod Ranges
pub mod Embedded
pub mod Url
pub mod UrlSafety
pub mod Resolver
pub mod ResolverLaws
pub mod Demo
mod Tests
