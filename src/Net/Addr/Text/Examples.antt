-- ===== src/Net/Addr/Text/Examples.antt =====
-- libs/lib_net/net/IpAddr.hpp and SocketAddr.hpp: the theorems on printed addresses at concrete ones.
use project_e.Common.{ℕ, ◌≡◌, refl, Option, none, some, List, [], ◌∷◌, arith}
use project_e.Net.Result.{success}
use project_e.Net.Addr.{Ipv4Addr, Ipv6Addr, v4, v6}
use project_e.Net.Addr.Text.{
  parse_v6, parse_addr, addr_to_string, v6_to_string, v4_to_string, decimal, to_text,
}
use project_e.Net.Addr.Text.Printed.{
  reread, word_of, parse_v6-v6_to_string, parse_addr-v4_to_string,
}
use project_e.Net.Addr.Text.Brackets.{parse_addr-v6_to_string}

-- 10:2:3:4:5:6:7:8, whose first segment is read as 16
abbrev six : Ipv6Addr
six = 10 ∷ 2 ∷ 3 ∷ 4 ∷ 5 ∷ 6 ∷ 7 ∷ 8 ∷ []

parse_v6-v6_to_string_example :
    parse_v6 (v6_to_string six) ≡ some (success (16 ∷ 2 ∷ 3 ∷ 4 ∷ 5 ∷ 6 ∷ 7 ∷ 8 ∷ []))
unfolding reread decimal to_text
parse_v6-v6_to_string_example = parse_v6-v6_to_string six refl

-- 192.168.1.20
abbrev home : Ipv4Addr
home = record { octet0 = 192; octet1 = 168; octet2 = 1; octet3 = 20 }

abbrev find_home : List ℕ → Option ℕ
find_home s = some (word_of home)

parse_addr-v4_to_string_example :
    parse_addr find_home (addr_to_string (v4 home 8080)) ≡ some (success (v4 home 8080))
parse_addr-v4_to_string_example =
    parse_addr-v4_to_string find_home home 8080
      ((omega arith, omega arith), (omega arith, omega arith), omega arith) refl

parse_addr-v6_to_string_example : parse_addr find_home (addr_to_string (v6 six 8080 0 0)) ≡ none
parse_addr-v6_to_string_example =
    parse_addr-v6_to_string find_home 10 (2 ∷ 3 ∷ 4 ∷ 5 ∷ 6 ∷ 7 ∷ 8 ∷ []) 8080 0 0 refl

-- The printer and the parsers on concrete texts: "192.168.1.20:80" and "1:2"
home_text :
    addr_to_string (v4 home 80)
    ≡ 49 ∷ 57 ∷ 50 ∷ 46 ∷ 49 ∷ 54 ∷ 56 ∷ 46 ∷ 49 ∷ 46 ∷ 50 ∷ 48 ∷ 58 ∷ 56 ∷ 48 ∷ []
unfolding addr_to_string v4_to_string to_text decimal
home_text = refl
