-- ===== src/Net/Addr/Order.antt =====
-- libs/lib_net/net/SocketAddr.hpp: what the order makes of the keys.
use project_e.Common.{
  ◌%◌, ◌/◌, ◌*◌, ◌^◌, ◌+◌, ℕ, ◌+◌, ◌*◌, ◌^◌, ◌<◌, ◌≡◌, refl, ◌↔◌, true, false, arith,
}
use project_e.Net.Addr.{Ipv4Addr, Ipv6Addr, ipv4_of_u32, to_u32, v4, v6, eq_addr, same_key}

abbrev pub AreOctets : Ipv4Addr → Type 0
AreOctets a = (a.octet0 < 256) × (a.octet1 < 256) × (a.octet2 < 256) × (a.octet3 < 256)

-- Among IPv4 addresses with octets below 256, two are one key of a map exactly when the octets and
-- the ports are equal, and exactly when `==` says so.
pub same_key-v4 :
    (a b : Ipv4Addr) (p q : ℕ)
    → AreOctets a
    → AreOctets b
    → ((same_key (v4 a p) (v4 b q) ≡ true) ↔ ((a ≡ b) × (p ≡ q)))
      × (same_key (v4 a p) (v4 b q) ≡ eq_addr (v4 a p) (v4 b q))
unfolding same_key eq_addr
same_key-v4 a b p q ha hb = ((λ h. ground arith, λ h. ground arith), ground arith)

-- An IPv4 and an IPv6 address are never equal, and are one key of a map, whatever they are.
pub same_key_mixed :
    (a : Ipv4Addr) (b : Ipv6Addr) (p q f s : ℕ)
    → (same_key (v4 a p) (v6 b q f s) ≡ true) × (eq_addr (v4 a p) (v6 b q f s) ≡ false)
unfolding same_key eq_addr
same_key_mixed a b p q f s = (refl, refl)

-- The conversions between an address and a number below 2 ^ 32 read the bytes in opposite orders:
-- taking the number to an address and back reverses its four bytes, and doing so twice gives the
-- number again.
pub to_u32-ipv4_of_u32 :
    (n : ℕ)
    → n < 2 ^ 32
    → (to_u32 (ipv4_of_u32 n)
        ≡ n % 256 * 2 ^ 24 + n / 2 ^ 8 % 256 * 2 ^ 16 + n / 2 ^ 16 % 256 * 2 ^ 8 + n / 2 ^ 24)
      × (to_u32 (ipv4_of_u32 (to_u32 (ipv4_of_u32 n))) ≡ n)
unfolding ipv4_of_u32 to_u32
to_u32-ipv4_of_u32 n h = (omega arith, omega arith)
