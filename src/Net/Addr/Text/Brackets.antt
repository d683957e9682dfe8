-- ===== src/Net/Addr/Text/Brackets.antt =====
-- libs/lib_net/net/SocketAddr.hpp and SocketAddr.cpp: what the parser makes of the text of an IPv6 socket
-- address.
use mathlib.Core.List.{append_assoc}
use project_e.Common.{
  ℕ, suc, ◌≡◌, refl, ap, ◌∙◌, true, not, Option, none, some, List, [], ◌∷◌, ◌++◌, length, ltb,
  if◌then◌else◌, arith, Bool-cases, inl, inr, ◌>>=◌,
}
use project_e.Net.Result.{failure, map_value}
use project_e.Net.Addr.{Ipv6Addr, v6}
use project_e.Net.Addr.Text.{
  invalid_ipv6_address, to_text, more_segments, v6_to_string, addr_to_string, stoul, has_colon,
  parse_segments, parse_v6, parse_ip, ip_v6, parse_port, parse_split, parse_addr,
}
use project_e.Net.Addr.Text.Digits.{long_text}
use project_e.Net.Addr.Text.Splits.{
  NoColon-text, split_colon-append, split_last_colon-append, has_colon-append,
}
use project_e.Net.Addr.Text.Printed.{parse_segments-step, parse_addr-nonempty}

-- A bracket is no digit.
stoul-bracket : (s : List ℕ) → stoul (91 ∷ s) ≡ none
unfolding stoul
stoul-bracket [] = refl
stoul-bracket (c ∷ s) = refl

ltb-suc : (m n : ℕ) → ltb (suc m) (suc n) ≡ ltb m n
ltb-suc m n = ground arith

parse_v6-bracket :
    (n : ℕ) (s : List ℕ)
    → parse_v6 (91 ∷ (to_text n ++ 58 ∷ s))
      ≡ (if ltb n 1000 then none else some (failure invalid_ipv6_address))
unfolding parse_v6
parse_v6-bracket n s =
    let cut = split_colon-append (91 ∷ to_text n) s (refl, NoColon-text n) in
    let short : ltb 4 (suc (length (to_text n))) ≡ not (ltb n 1000) =
      ltb-suc 3 (length (to_text n)) ∙ long_text n 2 (omega arith) in
    parse_segments-step 7 (91 ∷ (to_text n ++ 58 ∷ s)) (ground arith)
    ∙ (ap
          (λ p. if ltb 4 (length p.0) then some (failure invalid_ipv6_address) else (do
            n ← stoul p.0
            rest ← parse_segments 7 p.1
            some (map_value (λ ss. n ∷ ss) rest)))
          cut
        ∙ elim (Bool-cases (ltb n 1000)) [
          | inl few ↦ rw (short, few, stoul-bracket (to_text n)) refl
          | inr many ↦ rw (short, many) refl
        ])

parse_ip-colon :
    (look_up : List ℕ → Option ℕ) (c : ℕ) (s : List ℕ)
    → has_colon (c ∷ s) ≡ true
    → parse_ip look_up (c ∷ s) ≡ (do r ← parse_v6 (c ∷ s); some (map_value ip_v6 r))
unfolding parse_ip
parse_ip-colon look_up c s h = rw h refl

parse_ip-bracket :
    (look_up : List ℕ → Option ℕ) (n : ℕ) (s : List ℕ)
    → parse_ip look_up (91 ∷ (to_text n ++ 58 ∷ s))
      ≡ (if ltb n 1000 then none else some (failure invalid_ipv6_address))
parse_ip-bracket look_up n s =
    parse_ip-colon look_up 91 _ (has_colon-append (91 ∷ to_text n) s)
    ∙ elim (Bool-cases (ltb n 1000)) [
      | inl few ↦ rw (parse_v6-bracket n s, few) refl
      | inr many ↦ rw (parse_v6-bracket n s, many) refl
    ]

-- The text of an IPv6 address in brackets
bracketed :
    (n m : ℕ) (ns : Ipv6Addr)
    → 91 ∷ (v6_to_string (n ∷ m ∷ ns) ++ 93 ∷ [])
      ≡ 91 ∷ (to_text n ++ 58 ∷ (to_text m ++ more_segments ns ++ 93 ∷ []))
unfolding v6_to_string more_segments
bracketed n m ns =
    ap (λ t. 91 ∷ t) (append_assoc (to_text n) (58 ∷ (to_text m ++ more_segments ns)) (93 ∷ []))

-- `SocketAddr::parse_ascii` never gives an address for the text that `SocketAddr::to_string` writes of
-- an IPv6 address with eight segments: it throws where the first segment is below 1000, and otherwise
-- it says that the address is invalid.
pub parse_addr-v6_to_string :
    (look_up : List ℕ → Option ℕ) (n : ℕ) (ns : Ipv6Addr) (port flowinfo scope_id : ℕ)
    → length ns ≡ 7
    → parse_addr look_up (addr_to_string (v6 (n ∷ ns) port flowinfo scope_id))
      ≡ (if ltb n 1000 then none else some (failure invalid_ipv6_address))
unfolding addr_to_string parse_split parse_port v6_to_string
parse_addr-v6_to_string look_up n [] port f sc h = absurd (omega arith)
parse_addr-v6_to_string look_up n (m ∷ ns) port f sc h =
    let s = v6_to_string (n ∷ m ∷ ns) ++ 93 ∷ [] in
    let cut = split_last_colon-append (91 ∷ s) (to_text port) (NoColon-text port) in
    let ip = ap (parse_ip look_up) (bracketed n m ns) ∙ parse_ip-bracket look_up n _ in
    parse_addr-nonempty look_up (91 ∷ s ++ 58 ∷ to_text port) (ground arith)
    ∙ elim (Bool-cases (ltb n 1000)) [
      | inl few ↦ rw (cut, ip, few) refl
      | inr many ↦ rw (cut, ip, many) refl
    ]
