-- ===== src/Security/Net.antt =====
-- What the SSRF guard uses of `std::net`: an IPv4 address by its octets, an IPv6 address by its
-- segments.
pub mod V4
pub mod V6
use domain_status.Common.{ℕ, ◌/◌, ◌%◌, ◌<◌}

pub record Ipv4Addr : Type 0 where
  pub a : ℕ
  pub b : ℕ
  pub c : ℕ
  pub d : ℕ

-- Each octet is a `u8`.
abbrev pub IsIpv4 : Ipv4Addr → Type 0
IsIpv4 ip = (ip.a < 256) × (ip.b < 256) × (ip.c < 256) × (ip.d < 256)

pub record Ipv6Addr : Type 0 where
  pub s0 : ℕ
  pub s1 : ℕ
  pub s2 : ℕ
  pub s3 : ℕ
  pub s4 : ℕ
  pub s5 : ℕ
  pub s6 : ℕ
  pub s7 : ℕ

pub data IpAddr : Type 0 where
  v4 : Ipv4Addr → IpAddr
  v6 : Ipv6Addr → IpAddr

-- The IPv4 address in the last 32 bits.
abbrev pub low_ipv4 : Ipv6Addr → Ipv4Addr
low_ipv4 ip = record { a = ip.s6 / 256; b = ip.s6 % 256; c = ip.s7 / 256; d = ip.s7 % 256 }
