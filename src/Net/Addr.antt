-- ===== src/Net/Addr.antt =====
-- libs/lib_net/net/IpAddr.hpp and SocketAddr.hpp: addresses and the order by which they are keys of a
-- `std::map`. An octet is a number below 256, a segment and a port are numbers below 2 ^ 16.
pub mod Order
pub mod Text
pub mod Fields
use project_e.Common.{
  ℕ, ◌+◌, ◌*◌, ◌/◌, ◌%◌, ◌^◌, ◌≡◌, Bool, true, false, not, ◌&&◌, ◌||◌, List, [], ◌∷◌, ltb, ◌==◌,
  if◌then◌else◌,
}

-- `Ipv4Addr`
pub record Ipv4Addr : Type 0 where
  pub octet0 : ℕ
  pub octet1 : ℕ
  pub octet2 : ℕ
  pub octet3 : ℕ

-- `Ipv4Addr(uint32_t)`: the low byte comes first.
unfoldable pub ipv4_of_u32 : ℕ → Ipv4Addr
ipv4_of_u32 addr = record {
  octet0 = addr % 256;
  octet1 = addr / 2 ^ 8 % 256;
  octet2 = addr / 2 ^ 16 % 256;
  octet3 = addr / 2 ^ 24 % 256;
}

-- `to_uint32_t`: the octets are folded from the first; a shift and an `or` of disjoint bits.
unfoldable pub to_u32 : Ipv4Addr → ℕ
to_u32 a = ((a.octet0 * 256 + a.octet1) * 256 + a.octet2) * 256 + a.octet3

-- `Ipv6Addr`, with its segments in order
abbrev pub Ipv6Addr : Type 0
Ipv6Addr = List ℕ

unfoldable pub eq_v6 : Ipv6Addr → Ipv6Addr → Bool
eq_v6 [] [] = true
eq_v6 (x ∷ xs) (y ∷ ys) = x == y && eq_v6 xs ys
eq_v6 _ _ = false

unfoldable pub lt_v6 : Ipv6Addr → Ipv6Addr → Bool
lt_v6 (x ∷ xs) (y ∷ ys) =
    let rest = lt_v6 xs ys in if ltb x y then true else (if ltb y x then false else rest)
lt_v6 _ _ = false

-- `SocketAddr`, of the alternatives `SocketAddrV4` and `SocketAddrV6`
pub data SocketAddr : Type 0 where
  v4 : Ipv4Addr → ℕ → SocketAddr
  v6 : Ipv6Addr → ℕ → ℕ → ℕ → SocketAddr

-- The address of a default `SocketAddr`
abbrev pub unset : SocketAddr
unset = v4 (record { octet0 = 0; octet1 = 0; octet2 = 0; octet3 = 0 }) 0

unfoldable pub eq_addr : SocketAddr → SocketAddr → Bool
unfolding to_u32 eq_v6
eq_addr (v4 a p) (v4 b q) = to_u32 a == to_u32 b && p == q
eq_addr (v6 a p f s) (v6 b q g t) = eq_v6 a b && (p == q && (f == g && s == t))
eq_addr _ _ = false

unfoldable pub lt_addr : SocketAddr → SocketAddr → Bool
unfolding to_u32 eq_v6 lt_v6
lt_addr (v4 a p) (v4 b q) = ltb (to_u32 a) (to_u32 b) || (to_u32 a == to_u32 b && ltb p q)
lt_addr (v6 a p f s) (v6 b q g t) =
    lt_v6 a b
    || ((eq_v6 a b && ltb p q)
        || ((eq_v6 a b && (p == q && ltb f g)) || (eq_v6 a b && (p == q && (f == g && ltb s t)))))
lt_addr _ _ = false

-- What a `std::map` takes for one key
unfoldable pub same_key : SocketAddr → SocketAddr → Bool
unfolding lt_addr
same_key a b = not (lt_addr a b) && not (lt_addr b a)
