-- ===== src/Net/Addr/Text/Printed.antt =====
-- libs/lib_net/net/IpAddr.hpp, IpAddr.cpp, SocketAddr.hpp and SocketAddr.cpp: what the parsers make of
-- the texts that the printers write.
use project_e.Common.{
  ℕ, zero, suc, ◌+◌, ◌*◌, ◌%◌, ◌^◌, ◌<◌, ◌≡◌, refl, ap, subst, ◌∙◌, sym, true, false, Option, some,
  List, [], ◌∷◌, ◌++◌, length, ltb, if◌then◌else◌, arith, All, Bool-cases, inl, inr, All-append,
  append-nil, ◌>>=◌,
}
use project_e.Net.Result.{Result, success, failure, map_value}
use project_e.Net.Addr.{Ipv4Addr, Ipv6Addr, v4, ipv4_of_u32}
use project_e.Net.Addr.Text.{
  AddrParseError, invalid_ipv6_address, to_text, more_segments, v6_to_string, v4_to_string,
  addr_to_string, stoul, split_colon, split_last_colon, parse_segments, parse_v6, parse_ascii,
  parse_ip, ip_v4, parse_port, parse_split, parse_addr, with_port, socket_addr,
}
use project_e.Net.Addr.Text.Digits.{NoColon, text_digit, spelled, long_text}
use project_e.Net.Addr.Text.Splits.{
  NoColon-text, split_last_colon-append, has_colon-none, split_colon-segments, stoul-text,
  stoi-text,
}

-- What a printed IPv6 address is read as: each number's decimal digits are read in base 16, and a
-- number with five digits is refused.
unfoldable pub reread : Ipv6Addr → Result Ipv6Addr AddrParseError
reread [] = success []
reread (n ∷ ns) =
    let rest = reread ns in
    if ltb n 10000
    then map_value (λ ss. spelled 16 0 (to_text n) % 2 ^ 16 ∷ ss) rest
    else failure invalid_ipv6_address

-- One turn of the loop
pub parse_segments-step :
    (k : ℕ) (s : List ℕ)
    → ltb 0 (length s) ≡ true
    → parse_segments (suc k) s ≡ (
        if ltb 4 (length (split_colon s).0) then some (failure invalid_ipv6_address) else (do
          n ← stoul (split_colon s).0
          rest ← parse_segments k (split_colon s).1
          some (map_value (λ ss. n ∷ ss) rest)))
unfolding parse_segments
parse_segments-step k [] h = cc
parse_segments-step k (c ∷ s) h = refl

text_nonempty : (n : ℕ) (s : List ℕ) → ltb 0 (length (to_text n ++ s)) ≡ true
text_nonempty n s = let (c, t, e) = text_digit n in rw e (ground arith)

parse_segments-printed :
    (k : ℕ) (a : Ipv6Addr) → length a ≡ k → parse_segments k (v6_to_string a) ≡ some (reread a)
unfolding parse_segments v6_to_string reread
parse_segments-printed zero [] h = refl
parse_segments-printed zero (n ∷ ns) h = absurd (omega arith)
parse_segments-printed (suc k) [] h = absurd (omega arith)
parse_segments-printed (suc k) (n ∷ ns) h =
    let once = parse_segments-step k (to_text n ++ more_segments ns) (text_nonempty n _) in
    let ih = parse_segments-printed k ns (omega arith) in
    once ∙ elim (Bool-cases (ltb n 10000)) [
      | inl few ↦
          rw (split_colon-segments n ns, long_text n 3 (omega arith), few, stoul-text n, ih) refl
      | inr many ↦ rw (split_colon-segments n ns, long_text n 3 (omega arith), many) refl
    ]

-- What `Ipv6Addr::parse_ascii` gives for the text that `Ipv6Addr::to_string` writes of eight segments:
-- it does not throw; where every segment is below 10000, it gives the segments whose hexadecimal
-- digits are the decimal digits of the segments printed; otherwise the address is invalid.
pub parse_v6-v6_to_string :
    (a : Ipv6Addr) → length a ≡ 8 → parse_v6 (v6_to_string a) ≡ some (reread a)
unfolding parse_v6 v6_to_string
parse_v6-v6_to_string [] h = absurd (omega arith)
parse_v6-v6_to_string (n ∷ ns) h =
    let (c, s, e) = text_digit n in
    let all = parse_segments-printed 8 (n ∷ ns) h in
    ap parse_v6 (ap (λ t. t ++ more_segments ns) e)
    ∙ (ap (parse_segments 8) (ap (λ t. t ++ more_segments ns) (sym e)) ∙ all)

-- An address whose bytes and port are in their ranges
abbrev pub IsV4 : Ipv4Addr → ℕ → Type 0
IsV4 a port =
    ((a.octet0 < 256) × (a.octet1 < 256)) × ((a.octet2 < 256) × (a.octet3 < 256)) × (port < 65536)

-- The word that `getaddrinfo` finds for an address: its bytes in the order of the network
abbrev pub word_of : Ipv4Addr → ℕ
word_of a = a.octet0 + a.octet1 * 2 ^ 8 + a.octet2 * 2 ^ 16 + a.octet3 * 2 ^ 24

ipv4_of_u32-word_of : (a : Ipv4Addr) (port : ℕ) → IsV4 a port → ipv4_of_u32 (word_of a) ≡ a
unfolding ipv4_of_u32
ipv4_of_u32-word_of a port ((h0, h1), (h2, h3), p) =
    let e0 : (ipv4_of_u32 (word_of a)).octet0 ≡ a.octet0 = omega arith in
    let e1 : (ipv4_of_u32 (word_of a)).octet1 ≡ a.octet1 = omega arith in
    let e2 : (ipv4_of_u32 (word_of a)).octet2 ≡ a.octet2 = omega arith in
    let e3 : (ipv4_of_u32 (word_of a)).octet3 ≡ a.octet3 = omega arith in
    λ i. record { octet0 = e0 i; octet1 = e1 i; octet2 = e2 i; octet3 = e3 i }

NoColon-more : (s t : List ℕ) → All NoColon s → All NoColon t → All NoColon (s ++ 46 ∷ t)
NoColon-more s t a b = All-append NoColon s (46 ∷ t) a (refl, b)

NoColon-v4 : (a : Ipv4Addr) → All NoColon (v4_to_string a)
unfolding v4_to_string
NoColon-v4 a = NoColon-more (to_text a.octet0) _ (NoColon-text a.octet0) (
    NoColon-more (to_text a.octet1) _ (NoColon-text a.octet1)
      (NoColon-more (to_text a.octet2) _ (NoColon-text a.octet2) (NoColon-text a.octet3)))

text_v4 : (a : Ipv4Addr) → (c : ℕ) × (s : List ℕ) × (v4_to_string a ≡ c ∷ s)
unfolding v4_to_string
text_v4 a = let (c, s, e) = text_digit a.octet0 in rw e (_, _, refl)

full_v4 : (a : Ipv4Addr) (t : List ℕ) → ltb 0 (length (v4_to_string a ++ t)) ≡ true
full_v4 a t = let (c, s, e) = text_v4 a in rw e (ground arith)

parse_ip-nonempty :
    (look_up : List ℕ → Option ℕ) (s : List ℕ) {addr : ℕ}
    → ltb 0 (length s) ≡ true
    → All NoColon s
    → look_up s ≡ some addr
    → parse_ip look_up s ≡ some (success (ip_v4 (ipv4_of_u32 addr)))
unfolding parse_ip parse_ascii
parse_ip-nonempty look_up [] h a e = cc
parse_ip-nonempty look_up (c ∷ s) h a e = rw (has_colon-none (c ∷ s) a, e) refl

pub parse_addr-nonempty :
    (look_up : List ℕ → Option ℕ) (s : List ℕ)
    → ltb 0 (length s) ≡ true
    → parse_addr look_up s ≡ parse_split look_up (split_last_colon s)
unfolding parse_addr
parse_addr-nonempty look_up [] h = cc
parse_addr-nonempty look_up (c ∷ s) h = refl

-- `SocketAddr::parse_ascii` gives back the IPv4 address and port that `SocketAddr::to_string` has
-- written, where the bytes are below 256, the port is below 65536 and `getaddrinfo` finds, for the text
-- of the address, the word with the address's bytes in the order of the network.
pub parse_addr-v4_to_string :
    (look_up : List ℕ → Option ℕ) (a : Ipv4Addr) (port : ℕ)
    → IsV4 a port
    → look_up (v4_to_string a) ≡ some (word_of a)
    → parse_addr look_up (addr_to_string (v4 a port)) ≡ some (success (v4 a port))
unfolding addr_to_string parse_split parse_port with_port socket_addr
parse_addr-v4_to_string look_up a port h found =
    let full = subst (λ t. ltb 0 (length t) ≡ true) (append-nil (v4_to_string a)) (full_v4 a []) in
    let cut = split_last_colon-append (v4_to_string a) (to_text port) (NoColon-text port) in
    let ip = parse_ip-nonempty look_up (v4_to_string a) full (NoColon-v4 a) found in
    let fits : ltb 65535 port ≡ false = ground arith in
    parse_addr-nonempty look_up _ (full_v4 a (58 ∷ to_text port))
    ∙ rw (cut, ip, stoi-text port (omega arith), ipv4_of_u32-word_of a port h, fits) refl
