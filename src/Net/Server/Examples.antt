-- ===== src/Net/Server/Examples.antt =====
-- A server, a client of it and the datagrams between them, for the theorems on the server.
use project_e.Common.{ℕ, ◌≡◌, ◌⊎◌, refl, false, none, some, List, [], ◌∷◌, ◌++◌, arith}
use project_e.Net.Packet.{serialize, deserialize, make, header_bytes}
use project_e.Net.Packet.Bytes.{to_le}
use project_e.Net.Packet.Wire.{IsWire}
use project_e.Net.Buffer.{Buffer, buffer}
use project_e.Net.Buffer.Unread.{IsValid}
use project_e.Net.Addr.{SocketAddr, unset, v4}
use project_e.Net.Uuid.{new_uuid, next_number}
use project_e.Net.Server.{
  Server, Client, client_of_tcp, find_client, find_addr, transform_number, pack_pair,
  on_tcp_connection, on_udp_data,
}
use project_e.Net.Server.Receive.{on_tcp_data}
use project_e.Net.Server.Tables.{request, confirmation, pair-IsWire}
use project_e.Net.Server.Stream.{Drained, on_tcp_data-Drained}
use project_e.Net.Server.Handshake.{Handshake, handshake, on_udp_data-confirmation}
use project_e.Net.Server.Accepted.{Connected}
use project_e.Net.Server.Sessions.{Opened, on_tcp_connection-Opened, Admitted, on_udp_data-Admitted}

abbrev address : ℕ → SocketAddr
address port = v4 (record { octet0 = 127; octet1 = 0; octet2 = 0; octet3 = 1 }) port

-- The client 5, asked to transform 99, and the server seen from the client
abbrev player : Client
player = record { tcp_connection_id = 1; udp_addr = unset; generated_number = 99 }

abbrev host : Client
host = record { tcp_connection_id = 3; udp_addr = unset; generated_number = 0 }

abbrev server : Server
server = record {
  clients = (5, player) ∷ [];
  cache = [];
  generator = record { draws = 8 ∷ 77 ∷ []; generated = 5 ∷ [] };
  udp_confirmed = false;
  udp_connection_addr = none;
  tcp_out = [];
  udp_out = [];
  events = [];
}

abbrev node : Server
node = record {
  clients = (6, host) ∷ [];
  cache = [];
  generator = record { draws = []; generated = 6 ∷ [] };
  udp_confirmed = false;
  udp_connection_addr = some (address 4242);
  tcp_out = [];
  udp_out = [];
  events = [];
}

-- The bytes of the request, as they came in, and two bytes of the next packet
abbrev asked : List ℕ
asked =
    1 ∷ 0 ∷ 0 ∷ 0 ∷ 16 ∷ 0 ∷ 0 ∷ 0 ∷ 5 ∷ 0 ∷ 0 ∷ 0 ∷ 0 ∷ 0 ∷ 0 ∷ 0 ∷ 99 ∷ 0 ∷ 0 ∷ 0 ∷ 0 ∷ 0 ∷ 0 ∷ 0
    ∷ []

abbrev received : Buffer
received = record { pos = 0; filled = 24; capacity = 26; bytes = asked ++ 4 ∷ 4 ∷ [] }

received-IsValid : IsValid received
received-IsValid = record {
  pos-le = omega arith;
  filled-le = omega arith;
  allocated = refl;
  addressable = omega arith;
}

asked_right : buffer received ≡ serialize (request 5 99)
unfolding buffer serialize header_bytes to_le make pack_pair
asked_right = refl

abbrev two_more : Buffer
two_more = record received { filled = 26 }

two_more-IsValid : IsValid two_more
two_more-IsValid = record {
  pos-le = omega arith;
  filled-le = omega arith;
  allocated = refl;
  addressable = omega arith;
}

two_more_right : buffer two_more ≡ serialize (request 5 99) ++ 4 ∷ 4 ∷ []
unfolding buffer serialize header_bytes to_le make pack_pair
two_more_right = refl

request-IsWire : IsWire (request 5 99)
request-IsWire = pair-IsWire 1 5 99 (omega arith)

on_tcp_data-Drained_example :
    Drained 6 (request 5 99 ∷ []) (4 ∷ 4 ∷ []) node (on_tcp_data 3 two_more node)
unfolding client_of_tcp deserialize
on_tcp_data-Drained_example =
    on_tcp_data-Drained 3 6 host (request 5 99 ∷ []) (4 ∷ 4 ∷ []) two_more node refl
      two_more-IsValid (request-IsWire, tt) refl two_more_right

handshake_example : Handshake 3 received (address 50000) (address 4242) 5 99 node server
unfolding client_of_tcp find_addr find_client
handshake_example =
    handshake 3 6 host received (address 50000) (address 4242) 5 player node server refl refl
      received-IsValid asked_right (omega arith) (omega arith) refl refl refl

on_udp_data-confirmation_example :
    (¬ transform_number 99 ≡ 1234)
      × (on_udp_data (address 50000) (serialize (confirmation 5 1234)) server ≡ some server)
    ⊎ (transform_number 99 ≡ 1234)
      × Connected
          (address 50000)
          5
          server
          (on_udp_data (address 50000) (serialize (confirmation 5 1234)) server)
unfolding find_addr find_client
on_udp_data-confirmation_example =
    on_udp_data-confirmation (address 50000) 5 1234 player server (omega arith) (omega arith) refl
      refl refl

on_tcp_connection-Opened_example : Opened 2 8 77 server (on_tcp_connection 2 server)
unfolding new_uuid next_number find_client
on_tcp_connection-Opened_example =
    on_tcp_connection-Opened 2 8 77 (record { draws = 77 ∷ []; generated = 8 ∷ 5 ∷ [] })
      (record { draws = []; generated = 8 ∷ 5 ∷ [] }) server refl refl refl

on_udp_data-Admitted_example :
    (on_udp_data (address 50000) asked server ≡ some server) ⊎ Admitted (address 50000) asked server
unfolding find_addr
on_udp_data-Admitted_example = on_udp_data-Admitted (address 50000) asked server refl refl
