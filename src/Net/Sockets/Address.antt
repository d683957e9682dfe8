-- ===== src/Net/Sockets/Address.antt =====
-- libs/lib_net/net/Socket.cpp: an address that is given to the system and read back.
use project_e.Common.{ℕ, ◌+◌, ◌*◌, ◌^◌, ◌<◌, ◌≡◌, ap, arith}
use project_e.Net.Addr.{SocketAddr, v4, v6, to_u32, ipv4_of_u32}
use project_e.Net.Addr.Order.{AreOctets}
use project_e.Net.Sockets.{ByteOrder, initialize_address, address_from_sockaddr}

-- The platform has the low byte first: `htonl` turns the four bytes round, and `ntohs` undoes `htons`.
pub record IsLittleEndian (order : ByteOrder) : Type 0 where
  pub shorts : (n : ℕ) → n < 2 ^ 16 → order.ntohs (order.htons n) ≡ n
  pub longs :
      (a b c d : ℕ)
      → a < 256
      → b < 256
      → c < 256
      → d < 256
      → order.htonl (((a * 256 + b) * 256 + c) * 256 + d) ≡ ((d * 256 + c) * 256 + b) * 256 + a

-- Octets and ports in range
abbrev pub IsAddr : SocketAddr → Type 0
IsAddr (v4 ip port) = AreOctets ip × (port < 2 ^ 16)
IsAddr (v6 ip port flowinfo scope_id) = port < 2 ^ 16

-- An address without its flowinfo and its scope
abbrev pub unscoped : SocketAddr → SocketAddr
unscoped (v4 ip port) = v4 ip port
unscoped (v6 ip port flowinfo scope_id) = v6 ip port 0 0

octets_of_reversed :
    (a b c d : ℕ)
    → a < 256
    → b < 256
    → c < 256
    → d < 256
    → ipv4_of_u32 (((d * 256 + c) * 256 + b) * 256 + a)
      ≡ record { octet0 = a; octet1 = b; octet2 = c; octet3 = d }
unfolding ipv4_of_u32
octets_of_reversed a b c d ha hb hc hd = ground arith

-- On a platform with the low byte first, an address whose octets are below 256 and whose port is below
-- 2 ^ 16, given to the system by `initialize_address` and read back by `address_from_sockaddr`, is
-- itself, but for the flowinfo and the scope of an IPv6 address, which come back as 0.
pub address_from_sockaddr-initialize_address :
    (order : ByteOrder) (addr : SocketAddr)
    → IsLittleEndian order
    → IsAddr addr
    → address_from_sockaddr order (initialize_address order addr) ≡ unscoped addr
unfolding address_from_sockaddr initialize_address to_u32
address_from_sockaddr-initialize_address order (v4 ip port) little ((h0, h1, h2, h3), hp) =
    let back = octets_of_reversed ip.octet0 ip.octet1 ip.octet2 ip.octet3 h0 h1 h2 h3 in
    let longs = little.longs ip.octet0 ip.octet1 ip.octet2 ip.octet3 h0 h1 h2 h3 in
    let read = ap (λ a. v4 a port) back in rw (little.shorts port hp, longs) read
address_from_sockaddr-initialize_address order (v6 ip port flowinfo scope_id) little hp =
    ap (λ p. v6 ip p 0 0) (little.shorts port hp)
