-- ===== src/Net/Server/Tables.antt =====
-- libs/lib_net/super/Server.hpp and Server.cpp: the payloads of the handshake, and the tables of
-- clients and addresses.
use mathlib.Core.List.{append-nil}
use project_e.Common.{
  ℕ, ◌^◌, ◌<◌, ◌≡◌, refl, ap, sym, ◌∙◌, inl, inr, true, false, Option, none, some, List, [], ◌∷◌,
  arith, length, take, drop, ◌==◌, Bool-cases, length-append, take-append_exact, drop-append_exact,
}
use project_e.Net.Packet.Bytes.{to_le, length-to_le, of_le-to_le_8}
use project_e.Net.Packet.{Packet, make, serialize, deserialize}
use project_e.Net.Packet.Wire.{IsWire, deserialize-serialize, make-IsWire}
use project_e.Net.Addr.{SocketAddr, same_key, lt_addr, lt_v6, v4, v6}
use project_e.Net.Server.{
  Client, ask_udp_number, ask_udp_response, transform_number, find_client, set_udp_addr, find_addr,
  insert_addr, pack_pair, unpack_pair,
}

pub length-pack_pair : (uuid number : ℕ) → length (pack_pair uuid number) ≡ 16
unfolding pack_pair
length-pack_pair uuid number = omega (
  arith,
  length-append {0} (to_le 8 uuid) (to_le 8 number),
  length-to_le 8 uuid,
  length-to_le 8 number,
)

pub unpack-pack :
    (uuid number : ℕ)
    → uuid < 2 ^ 64
    → number < 2 ^ 64
    → unpack_pair (pack_pair uuid number) ≡ some (uuid, number)
unfolding unpack_pair
unpack-pack uuid number hu hn =
    let first : take 8 (pack_pair uuid number) ≡ to_le 8 uuid =
      unfold pack_pair in
      take-append_exact 8 (to_le 8 uuid) (to_le 8 number) (length-to_le 8 uuid) in
    let second : drop 8 (pack_pair uuid number) ≡ to_le 8 number =
      unfold pack_pair in
      drop-append_exact 8 (to_le 8 uuid) (to_le 8 number) (length-to_le 8 uuid) in
    rw (length-pack_pair uuid number, first, second, of_le-to_le_8 uuid hu, of_le-to_le_8 number hn)

pub transform_number-lt : (number : ℕ) → transform_number number < 2 ^ 64
unfolding transform_number
transform_number-lt number = omega arith

-- The message that confirms, and the one that asks
abbrev pub confirmation : ℕ → ℕ → Packet
confirmation uuid transformed = make 0 ask_udp_response (pack_pair uuid transformed)

abbrev pub request : ℕ → ℕ → Packet
request uuid number = make 0 ask_udp_number (pack_pair uuid number)

pub pair-IsWire :
    (type uuid number : ℕ) → type < 2 ^ 32 → IsWire (make 0 type (pack_pair uuid number))
pair-IsWire type uuid number h =
    make-IsWire 0 type (pack_pair uuid number) h (omega arith)
      (omega (arith, length-pack_pair uuid number))

pub read_back : (p : Packet) → IsWire p → deserialize (serialize p) ≡ some p
read_back p w = ap deserialize (sym (append-nil (serialize p))) ∙ deserialize-serialize p [] w

lt_v6_irrefl : (xs : List ℕ) → lt_v6 xs xs ≡ false
unfolding lt_v6
lt_v6_irrefl [] = refl
lt_v6_irrefl (x ∷ xs) = ground (arith, lt_v6_irrefl xs)

lt_addr_irrefl : (addr : SocketAddr) → lt_addr addr addr ≡ false
unfolding lt_addr
lt_addr_irrefl (v4 a p) = ground arith
lt_addr_irrefl (v6 a p f s) = ground (arith, lt_v6_irrefl a)

same_key_refl : (addr : SocketAddr) → same_key addr addr ≡ true
unfolding same_key
same_key_refl addr = rw (lt_addr_irrefl addr)

pub find_addr-insert :
    (addr : SocketAddr) (uuid : ℕ) (cache : List (SocketAddr × ℕ))
    → find_addr addr cache ≡ none
    → find_addr addr (insert_addr addr uuid cache) ≡ some uuid
unfolding find_addr insert_addr
find_addr-insert addr uuid [] e = rw (same_key_refl addr)
find_addr-insert addr uuid ((key, old) ∷ cache) e = elim (Bool-cases (same_key addr key)) [
  | inl same ↦ ground arith
  | inr other ↦ ground (arith, find_addr-insert addr uuid cache)
]

readdress : SocketAddr → Option Client → Option Client
readdress addr none = none
readdress addr (some c) = some (record c { udp_addr = addr })

pub find_client-set_udp_addr :
    (uuid : ℕ) (addr : SocketAddr) (client : Client) (cs : List (ℕ × Client))
    → find_client uuid cs ≡ some client
    → find_client uuid (set_udp_addr uuid addr cs) ≡ some (record client { udp_addr = addr })
unfolding find_client set_udp_addr
find_client-set_udp_addr uuid addr client [] e = cc
find_client-set_udp_addr uuid addr client ((key, c) ∷ cs) e = elim (Bool-cases (uuid == key)) [
  | inl here ↦
      let same : some c ≡ some client = ground arith in ground (arith, ap (readdress addr) same)
  | inr other ↦
      let rest : find_client uuid cs ≡ some client = ground arith in
      ground (arith, find_client-set_udp_addr uuid addr client cs rest)
]

pub make-type : (type : ℕ) (payload : List ℕ) → (make 0 type payload).header.type ≡ type
unfolding make
make-type type payload = refl

pub make-payload : (type : ℕ) (payload : List ℕ) → (make 0 type payload).payload ≡ payload
unfolding make
make-payload type payload = refl
