-- ===== src/Net/Server/Sessions.antt =====
-- libs/lib_net/super/Server.cpp: how a client comes in over TCP, what lets a UDP peer in, and how a
-- client goes.
use project_e.Common.{
  ℕ, ◌≡◌, refl, sym, ◌⊎◌, inl, inr, true, Option, none, some, List, [], ◌∷◌, ◌++◌, arith, ◌==◌,
  Bool-cases, Option-cases, false, ◌∙◌, ap,
}
use project_e.Net.Packet.{Packet, serialize, deserialize}
use project_e.Net.Addr.{SocketAddr, unset}
use project_e.Net.Uuid.{Generator, new_uuid, next_number}
use project_e.Net.Server.{
  Server, Client, ask_udp_response, transform_number, find_client, insert_client, find_addr,
  unpack_pair, verify, on_udp_data, deliver, on_tcp_connection, on_tcp_connect,
  ask_udp_connection_request, handle_udp_connection_request, emit,
}
use project_e.Net.Server.Tables.{request}
use project_e.Net.Server.Handshake.{on_udp_data-miss}
use project_e.Net.Server.Accepted.{Connected, accepted, accepted-Connected}

find_client-insert :
    (uuid : ℕ) (client : Client) (cs : List (ℕ × Client))
    → find_client uuid cs ≡ none
    → find_client uuid (insert_client uuid client cs) ≡ some client
unfolding find_client insert_client
find_client-insert uuid client [] e = ground arith
find_client-insert uuid client ((key, c) ∷ cs) e = elim (Bool-cases (uuid == key)) [
  | inl here ↦ ground arith
  | inr other ↦ ground (arith, find_client-insert uuid client cs)
]

find_client-insert_other :
    (uuid other : ℕ) (client : Client) (cs : List (ℕ × Client))
    → ¬ other ≡ uuid
    → find_client other (insert_client uuid client cs) ≡ find_client other cs
unfolding find_client insert_client
find_client-insert_other uuid other client [] ne = ground arith
find_client-insert_other uuid other client ((key, c) ∷ cs) ne = elim (Bool-cases (uuid == key)) [
  | inl here ↦ ground arith
  | inr there ↦ ground (arith, find_client-insert_other uuid other client cs ne)
]

-- The server after the connection `tcp` became the client `uuid`, which is asked for its UDP address
pub record Opened (tcp uuid number : ℕ) (s : Server) (outcome : Option Server) : Type 0 where
  pub after : Server
  pub returned : outcome ≡ some after
  pub asked : after.tcp_out ≡ s.tcp_out ++ (tcp, serialize (request uuid number)) ∷ []
  pub known :
      find_client uuid after.clients
      ≡ some (record { tcp_connection_id = tcp; udp_addr = unset; generated_number = number })
  pub kept :
      (other : ℕ) → ¬ other ≡ uuid → find_client other after.clients ≡ find_client other s.clients
  pub told : after.events ≡ s.events ++ on_tcp_connect uuid ∷ []

abbrev opened : ℕ → ℕ → ℕ → Generator → Server → Server
opened tcp uuid number g s =
    let client : Client = record {
      tcp_connection_id = tcp;
      udp_addr = unset;
      generated_number = number;
    } in
    ask_udp_connection_request uuid number tcp (
      emit (on_tcp_connect uuid)
        (record s { generator = g; clients = insert_client uuid client s.clients }))

-- If the generator gives an identifier that no client has and then a number, a new TCP connection
-- becomes the client of that identifier with that number; the request with both is sent to it, the
-- game is told, and every other client is kept.
pub on_tcp_connection-Opened :
    (tcp uuid number : ℕ) (g g' : Generator) (s : Server)
    → new_uuid s.generator ≡ some (uuid, g)
    → next_number g ≡ some (number, g')
    → find_client uuid s.clients ≡ none
    → Opened tcp uuid number s (on_tcp_connection tcp s)
unfolding on_tcp_connection ask_udp_connection_request
on_tcp_connection-Opened tcp uuid number g g' s e e' fresh = record {
  after = opened tcp uuid number g' s;
  returned = rw (e, e', on_tcp_connection) refl;
  asked = refl;
  known = find_client-insert uuid _ s.clients fresh;
  kept = λ other ne. find_client-insert_other uuid other _ s.clients ne;
  told = refl;
}

-- What lets a peer in: a response that names a client and has its number, transformed
pub record Admitted (addr : SocketAddr) (bytes : List ℕ) (s : Server) : Type 0 where
  pub uuid : ℕ
  pub client : Client
  pub packet : Packet
  pub read : deserialize bytes ≡ some packet
  pub response : packet.header.type ≡ ask_udp_response
  pub named : unpack_pair packet.payload ≡ some (uuid, transform_number client.generated_number)
  pub known : find_client uuid s.clients ≡ some client
  pub accepted : Connected addr uuid s (on_udp_data addr bytes s)

verify-known :
    (payload : List ℕ) (clients : List (ℕ × Client)) (uuid : ℕ)
    → verify payload clients ≡ some uuid
    → (client : Client) × (find_client uuid clients ≡ some client)
      × (unpack_pair payload ≡ some (uuid, transform_number client.generated_number))
unfolding verify
verify-known payload clients uuid e = elim (Option-cases (unpack_pair payload)) [
  | inl none_there ↦ absurd (ground arith)
  | inr ((id, transformed), pair) ↦ elim (Option-cases (find_client id clients)) [
    | inl unknown ↦ absurd (ground arith)
    | inr (client, known) ↦
        elim (Bool-cases (transform_number client.generated_number == transformed)) [
          | inl right ↦
              let same : id ≡ uuid = ground arith in
              let number : transform_number client.generated_number ≡ transformed = ground arith in
              (client, rw (sym same) known, rw (sym same, number) pair)
          | inr wrong ↦ absurd (ground arith)
        ]
  ]
]

-- With UDP confirmed, a well formed packet of a peer that is not known reads past the end of the cache
-- (`none`); without one, nothing changes.
pub on_udp_data-confirmed :
    (addr : SocketAddr) (bytes : List ℕ) (s : Server)
    → s.udp_confirmed ≡ true
    → find_addr addr s.cache ≡ none
    → (deserialize bytes ≡ none) × (on_udp_data addr bytes s ≡ some s)
      ⊎ (¬ deserialize bytes ≡ none) × (on_udp_data addr bytes s ≡ none)
unfolding on_udp_data deliver
on_udp_data-confirmed addr bytes s closed miss =
    let step : on_udp_data addr bytes s ≡ deliver none bytes s =
      rw (miss, closed, on_udp_data) refl in
    elim (Option-cases (deserialize bytes)) [
      | inl e ↦ inl (e, step ∙ rw (e, deliver) refl)
      | inr (p, e) ↦ inr (ground arith, step ∙ rw (e, deliver) refl)
    ]

not_a_packet :
    (addr : SocketAddr) (bytes : List ℕ) (s : Server)
    → deserialize bytes ≡ none
    → handle_udp_connection_request bytes addr s ≡ s
unfolding handle_udp_connection_request
not_a_packet addr bytes s e = rw (e, handle_udp_connection_request) refl

packet_refused :
    (addr : SocketAddr) (bytes : List ℕ) (packet : Packet) (s : Server)
    → deserialize bytes ≡ some packet
    → (¬ packet.header.type ≡ ask_udp_response) ⊎ (verify packet.payload s.clients ≡ none)
    → handle_udp_connection_request bytes addr s ≡ s
unfolding handle_udp_connection_request
packet_refused addr bytes packet s e (inl other) =
    let differs : (packet.header.type == ask_udp_response) ≡ false = ground arith in
    rw (e, differs, handle_udp_connection_request) refl
packet_refused addr bytes packet s e (inr refused) =
    elim (Bool-cases (packet.header.type == ask_udp_response)) [
      | inl matches ↦ rw (e, matches, refused, handle_udp_connection_request) refl
      | inr differs ↦ rw (e, differs, handle_udp_connection_request) refl
    ]

packet_accepted :
    (addr : SocketAddr) (bytes : List ℕ) (packet : Packet) (uuid : ℕ) (s : Server)
    → deserialize bytes ≡ some packet
    → packet.header.type ≡ ask_udp_response
    → verify packet.payload s.clients ≡ some uuid
    → handle_udp_connection_request bytes addr s ≡ accepted uuid addr s
unfolding handle_udp_connection_request
packet_accepted addr bytes packet uuid s e is_response right =
    let matches : (packet.header.type == ask_udp_response) ≡ true = ground arith in
    rw (e, matches, right, handle_udp_connection_request) refl

-- Before UDP is confirmed, a datagram of a peer that is not known, whatever its bytes, leaves the
-- server as it is, or it is the response of a client with that client's number, transformed, and the
-- peer is taken for that client.
pub on_udp_data-Admitted :
    (addr : SocketAddr) (bytes : List ℕ) (s : Server)
    → s.udp_confirmed ≡ false
    → find_addr addr s.cache ≡ none
    → (on_udp_data addr bytes s ≡ some s) ⊎ Admitted addr bytes s
on_udp_data-Admitted addr bytes s open_ miss =
    let step = on_udp_data-miss addr bytes s open_ miss in
    elim (Option-cases (deserialize bytes)) [
      | inl e ↦ inl (step ∙ ap some (not_a_packet addr bytes s e))
      | inr (packet, e) ↦ elim (Bool-cases (packet.header.type == ask_udp_response)) [
        | inr differs ↦
            inl (step ∙ ap some (packet_refused addr bytes packet s e (inl (ground arith))))
        | inl matches ↦ elim (Option-cases (verify packet.payload s.clients)) [
          | inl refused ↦ inl (step ∙ ap some (packet_refused addr bytes packet s e (inr refused)))
          | inr (uuid, right) ↦
              let (client, known, named) = verify-known packet.payload s.clients uuid right in
              inr (record {
                uuid = uuid;
                client = client;
                packet = packet;
                read = e;
                response = ground arith;
                named = named;
                known = known;
                accepted = accepted-Connected addr uuid client s _ miss known (
                    step
                    ∙ ap some (packet_accepted addr bytes packet uuid s e (ground arith) right));
              })
        ]
      ]
    ]
