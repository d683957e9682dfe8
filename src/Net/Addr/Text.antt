-- ===== src/Net/Addr/Text.antt =====
-- libs/lib_net/net/IpAddr.hpp, IpAddr.cpp, SocketAddr.hpp, SocketAddr.cpp and AddrParseError.hpp:
-- addresses printed and parsed. A text is the list of its characters' codes. `std::to_string`,
-- `std::stoul` and `std::stoi` are written out; where they throw, the model gives `none`. What
-- `getaddrinfo` finds is an argument.
mod Digits
mod Splits
pub mod Examples
pub mod Printed
pub mod Brackets
use project_e.Common.{
  ℕ, zero, suc, ◌+◌, ◌-◌, ◌*◌, ◌/◌, ◌%◌, ◌^◌, Bool, true, false, ◌&&◌, ◌||◌, not, Option, none,
  some, List, [], ◌∷◌, ◌++◌, length, ltb, leb, ◌==◌, if◌then◌else◌, ◌>>=◌,
}
use project_e.Net.Result.{Result, success, failure, map_value}
use project_e.Net.Addr.{Ipv4Addr, Ipv6Addr, SocketAddr, v4, v6, ipv4_of_u32}

-- `AddrParseError::Kind`
pub data AddrParseError : Type 0 where
  empty_string invalid_ipv4_address invalid_ipv6_address missing_port : AddrParseError
  invalid_port invalid_ip : AddrParseError

-- `std::to_string` of a number with at most `k + 1` digits; an int has ten at most.
unfoldable pub decimal : ℕ → ℕ → List ℕ
decimal zero n = (48 + n % 10) ∷ []
decimal (suc k) n =
    let rest = decimal k (n / 10) in if ltb n 10 then (48 + n) ∷ [] else rest ++ (48 + n % 10) ∷ []

unfoldable pub to_text : ℕ → List ℕ
to_text n = decimal 9 n

-- `Ipv4Addr::to_string` and `Ipv6Addr::to_string`
unfoldable pub v4_to_string : Ipv4Addr → List ℕ
v4_to_string a =
    to_text a.octet0 ++ 46 ∷ (to_text a.octet1 ++ 46 ∷ (to_text a.octet2 ++ 46 ∷ to_text a.octet3))

unfoldable pub more_segments : Ipv6Addr → List ℕ
more_segments [] = []
more_segments (s ∷ ss) = 58 ∷ (to_text s ++ more_segments ss)

unfoldable pub v6_to_string : Ipv6Addr → List ℕ
unfolding more_segments
v6_to_string [] = []
v6_to_string (s ∷ ss) = to_text s ++ more_segments ss

-- `SocketAddr::to_string`
unfoldable pub addr_to_string : SocketAddr → List ℕ
unfolding v4_to_string v6_to_string
addr_to_string (v4 ip port) = v4_to_string ip ++ 58 ∷ to_text port
addr_to_string (v6 ip port flowinfo scope_id) =
    91 ∷ ((v6_to_string ip ++ 93 ∷ []) ++ 58 ∷ to_text port)

-- The value of a digit, 16 if the character is none
unfoldable pub digit_of : ℕ → ℕ
digit_of c =
    if leb 48 c && leb c 57
    then c - 48
    else (if leb 97 c && leb c 102 then c - 87 else (if leb 65 c && leb c 70 then c - 55 else 16))

unfoldable pub starts_digit : ℕ → List ℕ → Bool
unfolding digit_of
starts_digit base [] = false
starts_digit base (c ∷ s) = ltb (digit_of c) base

unfoldable pub read_digits : ℕ → ℕ → List ℕ → ℕ
unfolding digit_of
read_digits base acc [] = acc
read_digits base acc (c ∷ s) =
    let rest = read_digits base (acc * base + digit_of c) s in
    if ltb (digit_of c) base then rest else acc

-- What `std::strtoul` and `std::strtol` skip: blanks, a sign, and with base 16 `0x` before a digit
unfoldable pub skip_blanks : List ℕ → List ℕ
skip_blanks [] = []
skip_blanks (c ∷ s) =
    let rest = skip_blanks s in if c == 32 || (leb 9 c && leb c 13) then rest else c ∷ s

unfoldable pub split_sign : List ℕ → Bool × List ℕ
split_sign [] = (false, [])
split_sign (c ∷ s) = if c == 45 then (true, s) else (false, if c == 43 then s else c ∷ s)

unfoldable pub skip_prefix : List ℕ → List ℕ
unfolding starts_digit
skip_prefix (c ∷ x ∷ s) =
    if c == 48 && ((x == 120 || x == 88) && starts_digit 16 s) then s else c ∷ x ∷ s
skip_prefix s = s

unfoldable pub read_number : ℕ → List ℕ → Option ℕ
unfolding starts_digit read_digits
read_number base s = if starts_digit base s then some (read_digits base 0 s) else none

-- `static_cast<uint16_t>(std::stoul(str, nullptr, 16))`, of a text with at most four characters, which
-- is not out of range; a sign counts the number down from 2 ^ 64.
unfoldable pub stoul : List ℕ → Option ℕ
unfolding skip_blanks split_sign skip_prefix read_number
stoul s = do
  let (negative, digits) = split_sign (skip_blanks s)
  n ← read_number 16 (skip_prefix digits)
  some (if negative then (2 ^ 64 - n) % 2 ^ 16 else n % 2 ^ 16)

-- `std::stoi`: the sign and the absolute value; out of the range of an int it throws.
unfoldable pub stoi : List ℕ → Option (Bool × ℕ)
unfolding skip_blanks split_sign read_number
stoi s = do
  let (negative, digits) = split_sign (skip_blanks s)
  n ← read_number 10 digits
  if ltb (2 ^ 31 - 1 + (if negative then 1 else 0)) n then none else some (negative, n)

-- The characters up to a colon, and those behind it
unfoldable pub split_colon : List ℕ → List ℕ × List ℕ
split_colon [] = ([], [])
split_colon (c ∷ s) = let rest = split_colon s in if c == 58 then ([], s) else (c ∷ rest.0, rest.1)

-- The loop of `Ipv6Addr::parse_ascii`, with `k` segments to go; characters behind them are not read.
unfoldable pub parse_segments : ℕ → List ℕ → Option (Result Ipv6Addr AddrParseError)
unfolding split_colon stoul
parse_segments zero s = some (success [])
parse_segments (suc k) [] = some (failure invalid_ipv6_address)
parse_segments (suc k) (c ∷ s) =
    let token = (split_colon (c ∷ s)).0 in
    let later = parse_segments k (split_colon (c ∷ s)).1 in
    if ltb 4 (length token)
    then some (failure invalid_ipv6_address)
    else (do n ← stoul token; rest ← later; some (map_value (λ ss. n ∷ ss) rest))

-- `Ipv6Addr::parse_ascii` and `Ipv4Addr::parse_ascii`, for what `getaddrinfo` finds
unfoldable pub parse_v6 : List ℕ → Option (Result Ipv6Addr AddrParseError)
unfolding parse_segments
parse_v6 [] = some (failure empty_string)
parse_v6 (c ∷ s) = parse_segments 8 (c ∷ s)

unfoldable pub parse_ascii : Option ℕ → List ℕ → Result Ipv4Addr AddrParseError
parse_ascii looked_up [] = failure empty_string
parse_ascii none (c ∷ cs) = failure invalid_ipv4_address
parse_ascii (some addr) (c ∷ cs) = success (ipv4_of_u32 addr)

-- `IpAddr`
pub data IpAddr : Type 0 where
  ip_v4 : Ipv4Addr → IpAddr
  ip_v6 : Ipv6Addr → IpAddr

unfoldable pub has_colon : List ℕ → Bool
has_colon [] = false
has_colon (c ∷ s) = c == 58 || has_colon s

-- The last colon, with what is before it and behind it
unfoldable pub split_last_colon : List ℕ → Option (List ℕ × List ℕ)
split_last_colon [] = none
split_last_colon (c ∷ s) = elim (split_last_colon s) [
  | some (before, behind) ↦ some (c ∷ before, behind)
  | none ↦ if c == 58 then some ([], s) else none
]

module _ (look_up : List ℕ → Option ℕ) where
  -- `IpAddr::parse_ascii`
  unfoldable pub parse_ip : List ℕ → Option (Result IpAddr AddrParseError)
  unfolding has_colon parse_v6 parse_ascii
  parse_ip [] = some (failure empty_string)
  parse_ip (c ∷ s) =
      if has_colon (c ∷ s)
      then (do r ← parse_v6 (c ∷ s); some (map_value ip_v6 r))
      else some (map_value ip_v4 (parse_ascii (look_up (c ∷ s)) (c ∷ s)))

  -- `SocketAddr(ip, port)`
  unfoldable pub socket_addr : IpAddr → ℕ → SocketAddr
  socket_addr (ip_v4 ip) port = v4 ip port
  socket_addr (ip_v6 ip) port = v6 ip port 0 0

  -- The port of `SocketAddr::parse_ascii`, where the address has been parsed
  unfoldable pub with_port : IpAddr → Bool × ℕ → Result SocketAddr AddrParseError
  unfolding socket_addr
  with_port ip (negative, n) =
      if (negative && not (n == 0)) || ltb 65535 n
      then failure invalid_port
      else success (socket_addr ip n)

  unfoldable pub parse_port :
      List ℕ → Result IpAddr AddrParseError → Option (Result SocketAddr AddrParseError)
  unfolding stoi with_port
  parse_port behind (failure e) = some (failure e)
  parse_port behind (success ip) = do port ← stoi behind; some (with_port ip port)

  unfoldable pub parse_split : Option (List ℕ × List ℕ) → Option (Result SocketAddr AddrParseError)
  unfolding parse_ip parse_port
  parse_split none = some (failure missing_port)
  parse_split (some (before, behind)) = do ip ← parse_ip before; parse_port behind ip

  -- `SocketAddr::parse_ascii`
  unfoldable pub parse_addr : List ℕ → Option (Result SocketAddr AddrParseError)
  unfolding split_last_colon parse_split
  parse_addr [] = some (failure empty_string)
  parse_addr (c ∷ s) = parse_split (split_last_colon (c ∷ s))
