-- ===== src/Net/Server/Handshake.antt =====
-- libs/lib_net/super/Server.cpp: the UDP handshake, from the number that the server sends over TCP to
-- the client that it takes for verified.
use mathlib.Core.List.{append-nil}
use project_e.Net.Buffer.{Buffer, buffer}
use project_e.Net.Server.Stream.{Drained, on_tcp_data-Drained}
use project_e.Net.Server.Tables.{
  length-pack_pair, unpack-pack, transform_number-lt, pair-IsWire, make-type, make-payload,
  read_back, confirmation, request,
}
use project_e.Common.{
  ℕ, ◌^◌, ◌≤◌, ◌<◌, ◌≡◌, refl, ap, sym, ◌∙◌, ◌⊎◌, inl, inr, false, none, some, List, [], ◌∷◌, ◌++◌,
  arith, length, ◌==◌, Bool-cases,
}
use project_e.Net.Packet.{make, serialize, deserialize}
use project_e.Net.Packet.Wire.{make-IsWire}
use project_e.Net.Addr.{SocketAddr}
use project_e.Net.Buffer.Unread.{IsValid}
use project_e.Net.Server.{
  Server, Client, ask_udp_number, ask_udp_response, transform_number, find_client, find_addr,
  pack_pair, verify, handle_udp_connection_request, on_udp_data, client_of_tcp,
  ask_udp_connection_response, send_udp,
}
use project_e.Net.Server.Receive.{on_tcp_packet, on_tcp_data}
use project_e.Net.Server.Accepted.{Connected, verify_lem, accepted, accepted-Connected}

read_make :
    (type : ℕ) (payload : List ℕ)
    → type < 2 ^ 32
    → length payload ≤ 65535
    → deserialize (serialize (make 0 type payload)) ≡ some (make 0 type payload)
read_make type payload ht h =
    read_back (make 0 type payload) (make-IsWire 0 type payload ht (omega arith) (omega arith))

handle_right :
    (uuid : ℕ) (addr : SocketAddr) (payload : List ℕ) (s : Server)
    → verify payload s.clients ≡ some uuid
    → length payload ≤ 65535
    → handle_udp_connection_request (serialize (make 0 ask_udp_response payload)) addr s
      ≡ accepted uuid addr s
unfolding handle_udp_connection_request
handle_right uuid addr payload s e h = rw (
  read_make ask_udp_response payload (omega arith) h,
  make-type ask_udp_response payload,
  make-payload ask_udp_response payload,
  e,
  handle_udp_connection_request,
)

handle_wrong :
    (addr : SocketAddr) (payload : List ℕ) (s : Server)
    → verify payload s.clients ≡ none
    → length payload ≤ 65535
    → handle_udp_connection_request (serialize (make 0 ask_udp_response payload)) addr s ≡ s
unfolding handle_udp_connection_request
handle_wrong addr payload s e h = rw (
  read_make ask_udp_response payload (omega arith) h,
  make-type ask_udp_response payload,
  make-payload ask_udp_response payload,
  e,
  handle_udp_connection_request,
)

pub on_udp_data-miss :
    (addr : SocketAddr) (bytes : List ℕ) (s : Server)
    → s.udp_confirmed ≡ false
    → find_addr addr s.cache ≡ none
    → on_udp_data addr bytes s ≡ some (handle_udp_connection_request bytes addr s)
unfolding on_udp_data
on_udp_data-miss addr bytes s open_ miss = rw (miss, open_, on_udp_data)

-- Before UDP is confirmed, let a peer that is not in the cache send the confirmation of a client
-- that is known, with numbers of 64 bits. If the number is the client's, transformed, the peer is
-- taken for that client and the game is told; otherwise the server does not change.
pub on_udp_data-confirmation :
    (addr : SocketAddr) (uuid transformed : ℕ) (client : Client) (s : Server)
    → uuid < 2 ^ 64
    → transformed < 2 ^ 64
    → s.udp_confirmed ≡ false
    → find_addr addr s.cache ≡ none
    → find_client uuid s.clients ≡ some client
    → (¬ transform_number client.generated_number ≡ transformed)
        × (on_udp_data addr (serialize (confirmation uuid transformed)) s ≡ some s)
      ⊎ (transform_number client.generated_number ≡ transformed)
        × Connected addr uuid s (on_udp_data addr (serialize (confirmation uuid transformed)) s)
on_udp_data-confirmation addr uuid transformed client s hu ht open_ miss known =
    let test = verify_lem uuid transformed s.clients client hu ht known in
    let short : length (pack_pair uuid transformed) ≤ 65535 =
      omega (arith, length-pack_pair uuid transformed) in
    let step = on_udp_data-miss addr (serialize (confirmation uuid transformed)) s open_ miss in
    elim (Bool-cases (transform_number client.generated_number == transformed)) [
      | inl right ↦ inr (
        ground arith,
        accepted-Connected addr uuid client s _ miss known (
            step
            ∙ ap some
                (handle_right uuid addr (pack_pair uuid transformed) s (rw (test, right)) short)),
      )
      | inr wrong ↦ inl (
        ground arith,
        step ∙ ap some (handle_wrong addr (pack_pair uuid transformed) s (rw (test, wrong)) short),
      )
    ]

-- The answer of a client to the number that it is asked to transform
abbrev pub answer : ℕ → ℕ → List ℕ
answer uuid number = serialize (confirmation uuid (transform_number number))

on_tcp_packet-request :
    (peer uuid number : ℕ) (dest : SocketAddr) (node : Server)
    → uuid < 2 ^ 64
    → number < 2 ^ 64
    → node.udp_connection_addr ≡ some dest
    → on_tcp_packet peer (request uuid number) node
      ≡ (record node { udp_out = node.udp_out ++ (dest, answer uuid number) ∷ [] })
unfolding on_tcp_packet ask_udp_connection_response send_udp
on_tcp_packet-request peer uuid number dest node hu hn e = rw (
  make-type ask_udp_number (pack_pair uuid number),
  make-payload ask_udp_number (pack_pair uuid number),
  unpack-pack uuid number hu hn,
  e,
  on_tcp_packet,
)

-- What the server and the client `node` have done when the handshake is over
pub record Handshake (tcp : ℕ) (b : Buffer) (addr dest : SocketAddr) (uuid number : ℕ)
    (node s : Server) : Type 0 where
  pub answered :
      (on_tcp_data tcp b node).0.udp_out ≡ node.udp_out ++ (dest, answer uuid number) ∷ []
  pub left : buffer (on_tcp_data tcp b node).1 ≡ []
  pub accepted : Connected addr uuid s (on_udp_data addr (answer uuid number) s)

-- Let a client's valid buffer hold just the request for the client `uuid` and the number that the
-- server keeps for it, 64 bits each, and let the client know the connection and have a server to
-- send to. Then it sends one datagram there, once, and empties the buffer; and a server that knows
-- `uuid`, with UDP not confirmed, and gets the datagram from an address that is not in its cache,
-- takes the address for `uuid`, tells the program so, and sends nothing back: no acknowledgement follows.
pub handshake :
    (tcp peer : ℕ) (self : Client) (b : Buffer) (addr dest : SocketAddr) (uuid : ℕ)
    (client : Client) (node s : Server)
    → client_of_tcp tcp node.clients ≡ some (peer, self)
    → node.udp_connection_addr ≡ some dest
    → IsValid b
    → buffer b ≡ serialize (request uuid client.generated_number)
    → uuid < 2 ^ 64
    → client.generated_number < 2 ^ 64
    → s.udp_confirmed ≡ false
    → find_addr addr s.cache ≡ none
    → find_client uuid s.clients ≡ some client
    → Handshake tcp b addr dest uuid client.generated_number node s
handshake tcp peer self b addr dest uuid client node s known_tcp connected v e hu hn open_ miss
      known =
    let number = client.generated_number in
    let done : Drained peer (request uuid number ∷ []) [] node (on_tcp_data tcp b node) =
      on_tcp_data-Drained tcp peer self (request uuid number ∷ []) [] b node known_tcp v
        (pair-IsWire ask_udp_number uuid number (omega arith), tt) (unfold deserialize in refl)
        (e ∙ sym (append-nil _)) in
    let test =
      verify_lem uuid (transform_number number) s.clients client hu (transform_number-lt number)
        known in
    let short : length (pack_pair uuid (transform_number number)) ≤ 65535 =
      omega (arith, length-pack_pair uuid (transform_number number)) in
    let right : verify (pack_pair uuid (transform_number number)) s.clients ≡ some uuid =
      ground arith in
    record {
      answered =
          ap (λ n. n.udp_out)
            (done.handled ∙ on_tcp_packet-request peer uuid number dest node hu hn connected);
      left = done.left;
      accepted = accepted-Connected addr uuid client s _ miss known (
          on_udp_data-miss addr _ s open_ miss
          ∙ ap some
              (handle_right uuid addr (pack_pair uuid (transform_number number)) s right short));
    }
