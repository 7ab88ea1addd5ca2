-- ===== src/Headers.antt =====
-- What the program reads from response headers: src/security/hsts.rs, src/fetch/cookies.rs and
-- src/fetch/cdn.rs.
pub mod Hsts
pub mod HstsLaws
pub mod SetCookie
pub mod SameSite
pub mod SetCookieLaws
pub mod Cdn
mod Tests
