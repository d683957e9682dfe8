-- ===== src/Net/Addr/Fields.antt =====
-- libs/lib_net/net/IpAddr.hpp and SocketAddr.hpp: the parts of an address read and replaced. A
-- `std::get` of the alternative that is not held, which throws, is `none`.
use mathlib.Core.Option.{some-injective}
use project_e.Common.{
  ℕ, ◌≡◌, refl, subst, Bool, true, false, ◌&&◌, Option, none, some, [], ◌∷◌, ◌==◌,
}
use project_e.Net.Addr.{Ipv4Addr, Ipv6Addr, SocketAddr, v4, v6, eq_v6}
use project_e.Net.Addr.Text.{IpAddr, ip_v4, ip_v6}

-- `Ipv4Addr::is_unspecified` and `is_loopback`, and those of `Ipv6Addr`
unfoldable pub unspecified_v4 : Ipv4Addr → Bool
unspecified_v4 a = (a.octet0 == 0 && a.octet1 == 0) && (a.octet2 == 0 && a.octet3 == 0)

unfoldable pub loopback_v4 : Ipv4Addr → Bool
loopback_v4 a = a.octet0 == 127

unfoldable pub unspecified_v6 : Ipv6Addr → Bool
unfolding eq_v6
unspecified_v6 a = eq_v6 a (0 ∷ 0 ∷ 0 ∷ 0 ∷ 0 ∷ 0 ∷ 0 ∷ 0 ∷ [])

unfoldable pub loopback_v6 : Ipv6Addr → Bool
unfolding eq_v6
loopback_v6 a = eq_v6 a (0 ∷ 0 ∷ 0 ∷ 0 ∷ 0 ∷ 0 ∷ 0 ∷ 1 ∷ [])

-- `IpAddr::is_unspecified`, `is_loopback` and `is_ipv4`
unfoldable pub is_unspecified : IpAddr → Bool
unfolding unspecified_v4 unspecified_v6
is_unspecified (ip_v4 a) = unspecified_v4 a
is_unspecified (ip_v6 a) = unspecified_v6 a

unfoldable pub is_loopback : IpAddr → Bool
unfolding loopback_v4 loopback_v6
is_loopback (ip_v4 a) = loopback_v4 a
is_loopback (ip_v6 a) = loopback_v6 a

unfoldable pub is_ipv4 : IpAddr → Bool
is_ipv4 (ip_v4 a) = true
is_ipv4 (ip_v6 a) = false

-- `SocketAddr::ip`, `set_ip`, `port` and `set_port`
unfoldable pub ip_of : SocketAddr → IpAddr
ip_of (v4 ip port) = ip_v4 ip
ip_of (v6 ip port flowinfo scope_id) = ip_v6 ip

unfoldable pub set_ip : IpAddr → SocketAddr → Option SocketAddr
set_ip (ip_v4 new) (v4 ip port) = some (v4 new port)
set_ip (ip_v6 new) (v6 ip port flowinfo scope_id) = some (v6 new port flowinfo scope_id)
set_ip _ _ = none

unfoldable pub port_of : SocketAddr → ℕ
port_of (v4 ip port) = port
port_of (v6 ip port flowinfo scope_id) = port

unfoldable pub set_port : ℕ → SocketAddr → SocketAddr
set_port new (v4 ip port) = v4 ip new
set_port new (v6 ip port flowinfo scope_id) = v6 ip new flowinfo scope_id

-- An address that could be replaced is the new one, beside the same port.
pub ip_of-set_ip :
    (new : IpAddr) (a : SocketAddr) {b : SocketAddr}
    → set_ip new a ≡ some b
    → (ip_of b ≡ new) × (port_of b ≡ port_of a)
unfolding set_ip ip_of port_of
ip_of-set_ip (ip_v4 new) (v4 ip port) h =
    subst (λ b. (ip_of b ≡ ip_v4 new) × (port_of b ≡ port)) (some-injective _ _ h) (refl, refl)
ip_of-set_ip (ip_v6 new) (v6 ip port f s) h =
    subst (λ b. (ip_of b ≡ ip_v6 new) × (port_of b ≡ port)) (some-injective _ _ h) (refl, refl)
ip_of-set_ip (ip_v4 new) (v6 ip port f s) h = cc
ip_of-set_ip (ip_v6 new) (v4 ip port) h = cc
