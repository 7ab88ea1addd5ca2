-- ===== src/Security/Ranges.antt =====
-- The IPv4 test against the blocks of reserved addresses, as ranges of 32-bit numbers.
use domain_status.Common.{
  ℕ, ◌+◌, ◌*◌, ◌≡◌, Bool, true, ◌||◌, List, [], ◌∷◌, arith, within, any, if◌then◌else◌, ◌==◌, ◌&&◌,
  leb,
}
use domain_status.Security.Net.{Ipv4Addr, IsIpv4}
use domain_status.Security.Net.V4
use domain_status.Security.Ip.{extra_ipv4_ranges, is_private_ipv4}

-- The address as the number that its four octets write.
abbrev pub to_bits : Ipv4Addr → ℕ
to_bits ip = ip.a * 16777216 + ip.b * 65536 + ip.c * 256 + ip.d

abbrev pub in_block : ℕ → ℕ × ℕ → Bool
in_block n (first, last) = within first last n

-- The reserved blocks, each with its first and its last address.
abbrev pub reserved_blocks : List (ℕ × ℕ)
reserved_blocks =
    (2130706432, 2147483647)  -- 127.0.0.0/8
    ∷ (167772160, 184549375)  -- 10.0.0.0/8
    ∷ (2886729728, 2887778303)  -- 172.16.0.0/12
    ∷ (3232235520, 3232301055)  -- 192.168.0.0/16
    ∷ (2851995648, 2852061183)  -- 169.254.0.0/16
    ∷ (3758096384, 4026531839)  -- 224.0.0.0/4
    ∷ (4294967295, 4294967295)  -- 255.255.255.255/32
    ∷ (3221225984, 3221226239)  -- 192.0.2.0/24
    ∷ (3325256704, 3325256959)  -- 198.51.100.0/24
    ∷ (3405803776, 3405804031)  -- 203.0.113.0/24
    ∷ (0, 16777215)  -- 0.0.0.0/8
    ∷ (1681915904, 1686110207)  -- 100.64.0.0/10
    ∷ (3323068416, 3323199487)  -- 198.18.0.0/15
    ∷ (3221225472, 3221225727)  -- 192.0.0.0/24
    ∷ (4026531840, 4294967295)  -- 240.0.0.0/4
    ∷ []

module _ (ip : Ipv4Addr) (h : IsIpv4 ip) where
  loopback_blocks : V4.is_loopback ip ≡ (within 2130706432 2147483647 (to_bits ip))
  unfolding V4.is_loopback
  loopback_blocks = ground arith

  private_blocks : V4.is_private ip ≡ (
      within 167772160 184549375 (to_bits ip)
      || within 2886729728 2887778303 (to_bits ip)
      || within 3232235520 3232301055 (to_bits ip))
  unfolding V4.is_private
  private_blocks = ground arith

  link_local_blocks : V4.is_link_local ip ≡ (within 2851995648 2852061183 (to_bits ip))
  unfolding V4.is_link_local
  link_local_blocks = ground arith

  multicast_blocks : V4.is_multicast ip ≡ (within 3758096384 4026531839 (to_bits ip))
  unfolding V4.is_multicast
  multicast_blocks = ground arith

  broadcast_blocks : V4.is_broadcast ip ≡ (within 4294967295 4294967295 (to_bits ip))
  unfolding V4.is_broadcast
  broadcast_blocks = ground arith

  documentation_blocks : V4.is_documentation ip ≡ (
      within 3221225984 3221226239 (to_bits ip)
      || within 3325256704 3325256959 (to_bits ip)
      || within 3405803776 3405804031 (to_bits ip))
  unfolding V4.is_documentation
  documentation_blocks = ground arith

  this_network_block : (ip.a == 0) ≡ within 0 16777215 (to_bits ip)
  this_network_block = ground arith

  cgnat_block : (ip.a == 100 && within 64 127 ip.b) ≡ within 1681915904 1686110207 (to_bits ip)
  cgnat_block = ground arith

  benchmarking_block :
      (ip.a == 198 && (ip.b == 18 || ip.b == 19)) ≡ within 3323068416 3323199487 (to_bits ip)
  benchmarking_block = ground arith

  protocol_block :
      (ip.a == 192 && ip.b == 0 && ip.c == 0) ≡ within 3221225472 3221225727 (to_bits ip)
  protocol_block = ground arith

  reserved_block : leb 240 ip.a ≡ within 4026531840 4294967295 (to_bits ip)
  reserved_block = ground arith

  extra_blocks : extra_ipv4_ranges ip ≡ (
      within 0 16777215 (to_bits ip)
      || within 1681915904 1686110207 (to_bits ip)
      || within 3323068416 3323199487 (to_bits ip)
      || within 3221225472 3221225727 (to_bits ip)
      || within 4026531840 4294967295 (to_bits ip))
  unfolding extra_ipv4_ranges
  extra_blocks =
      cc (this_network_block, cgnat_block, benchmarking_block, protocol_block, reserved_block)

-- The two stages of the test are one disjunction.
stages :
    (l p₁ p₂ p₃ k m b d₁ d₂ d₃ e₁ e₂ e₃ e₄ e₅ : Bool)
    → (if l || (p₁ || p₂ || p₃) || k || m || b || (d₁ || d₂ || d₃)
        then true
        else (e₁ || e₂ || e₃ || e₄ || e₅))
      ≡ any (λ t. t) (l ∷ p₁ ∷ p₂ ∷ p₃ ∷ k ∷ m ∷ b ∷ d₁ ∷ d₂ ∷ d₃ ∷ e₁ ∷ e₂ ∷ e₃ ∷ e₄ ∷ e₅ ∷ [])
stages l p₁ p₂ p₃ k m b d₁ d₂ d₃ e₁ e₂ e₃ e₄ e₅ = ground arith

-- The test holds of exactly the addresses in the reserved blocks.
pub is_private_ipv4-reserved_blocks :
    (ip : Ipv4Addr) → IsIpv4 ip → is_private_ipv4 ip ≡ any (in_block (to_bits ip)) reserved_blocks
unfolding is_private_ipv4
is_private_ipv4-reserved_blocks ip h =
    let is_in = λ (lo hi : ℕ). within lo hi (to_bits ip) in
    rw
      (
        loopback_blocks ip h,
        private_blocks ip h,
        link_local_blocks ip h,
        multicast_blocks ip h,
        broadcast_blocks ip h,
        documentation_blocks ip h,
        extra_blocks ip h,
      )
      (stages (is_in 2130706432 2147483647) (is_in 167772160 184549375)
        (is_in 2886729728 2887778303) (is_in 3232235520 3232301055) (is_in 2851995648 2852061183)
        (is_in 3758096384 4026531839) (is_in 4294967295 4294967295) (is_in 3221225984 3221226239)
        (is_in 3325256704 3325256959) (is_in 3405803776 3405804031) (is_in 0 16777215)
        (is_in 1681915904 1686110207) (is_in 3323068416 3323199487) (is_in 3221225472 3221225727)
        (is_in 4026531840 4294967295))
