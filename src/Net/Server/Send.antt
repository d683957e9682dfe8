-- ===== src/Net/Server/Send.antt =====
-- libs/lib_net/super/Server.cpp and BaseServer.cpp: packets to one client and to all.
use project_e.Common.{ℕ, ◌≡◌, ap, ◌∙◌, none, some, List, [], ◌∷◌, ◌++◌, map}
use mathlib.Core.List.{append_assoc, append-nil}
use project_e.Net.Packet.{make, serialize}
use project_e.Net.Addr.{SocketAddr}
use project_e.Net.Server.{Server, Client, find_client}

-- `BaseServer::send_tcp` and `BaseServer::send_udp`, to the queues
abbrev pub queue_tcp : ℕ → List ℕ → Server → Server
queue_tcp tcp bytes s = record s { tcp_out = s.tcp_out ++ (tcp, bytes) ∷ [] }

abbrev pub queue_udp : SocketAddr → List ℕ → Server → Server
queue_udp addr bytes s = record s { udp_out = s.udp_out ++ (addr, bytes) ∷ [] }

-- `Server::send_tcp` and `Server::send_udp`
unfoldable pub send_tcp_to : ℕ → ℕ → List ℕ → Server → Server
send_tcp_to uuid type bytes s = elim (find_client uuid s.clients) [
  | none ↦ s
  | some client ↦ queue_tcp client.tcp_connection_id (serialize (make 0 type bytes)) s
]

unfoldable pub send_udp_to : ℕ → ℕ → List ℕ → Server → Server
send_udp_to uuid type bytes s = elim (find_client uuid s.clients) [
  | none ↦ s
  | some client ↦ queue_udp client.udp_addr (serialize (make 0 type bytes)) s
]

-- The loops over the clients
unfoldable pub tcp_each : List (ℕ × Client) → List ℕ → Server → Server
tcp_each [] bytes s = s
tcp_each ((uuid, client) ∷ cs) bytes s =
    tcp_each cs bytes (queue_tcp client.tcp_connection_id bytes s)

unfoldable pub udp_each : List (ℕ × Client) → List ℕ → Server → Server
udp_each [] bytes s = s
udp_each ((uuid, client) ∷ cs) bytes s = udp_each cs bytes (queue_udp client.udp_addr bytes s)

-- `send_tcp_all` and `send_udp_all`
unfoldable pub send_tcp_all : ℕ → List ℕ → Server → Server
unfolding tcp_each
send_tcp_all type bytes s = tcp_each s.clients (serialize (make 0 type bytes)) s

unfoldable pub send_udp_all : ℕ → List ℕ → Server → Server
unfolding udp_each
send_udp_all type bytes s = udp_each s.clients (serialize (make 0 type bytes)) s

tcp_each-map :
    (cs : List (ℕ × Client)) (bytes : List ℕ) (s : Server)
    → tcp_each cs bytes s
      ≡ (record s { tcp_out = s.tcp_out ++ map (λ c. (c.1.tcp_connection_id, bytes)) cs })
unfolding tcp_each
tcp_each-map [] bytes s = rw (append-nil s.tcp_out)
tcp_each-map ((uuid, client) ∷ cs) bytes s =
    tcp_each-map cs bytes (queue_tcp client.tcp_connection_id bytes s)
    ∙ ap (λ out. record s { tcp_out = out })
        (append_assoc s.tcp_out ((client.tcp_connection_id, bytes) ∷ [])
          (map (λ c. (c.1.tcp_connection_id, bytes)) cs))

udp_each-map :
    (cs : List (ℕ × Client)) (bytes : List ℕ) (s : Server)
    → udp_each cs bytes s
      ≡ (record s { udp_out = s.udp_out ++ map (λ c. (c.1.udp_addr, bytes)) cs })
unfolding udp_each
udp_each-map [] bytes s = rw (append-nil s.udp_out)
udp_each-map ((uuid, client) ∷ cs) bytes s =
    udp_each-map cs bytes (queue_udp client.udp_addr bytes s)
    ∙ ap (λ out. record s { udp_out = out })
        (append_assoc s.udp_out ((client.udp_addr, bytes) ∷ [])
          (map (λ c. (c.1.udp_addr, bytes)) cs))

-- A broadcast over TCP or over UDP sends the packet's bytes once to each client, in the order of the
-- table, behind what was to be sent before, and changes nothing else. UDP bytes go to the unset address
-- of a client that is not verified, too.
pub send_all-map :
    (type : ℕ) (bytes : List ℕ) (s : Server)
    → (send_tcp_all type bytes s ≡ (record s {
      tcp_out =
          s.tcp_out ++ map (λ c. (c.1.tcp_connection_id, serialize (make 0 type bytes))) s.clients;
    }))
      × (send_udp_all type bytes s ≡ (record s {
        udp_out = s.udp_out ++ map (λ c. (c.1.udp_addr, serialize (make 0 type bytes))) s.clients;
      }))
unfolding send_tcp_all send_udp_all
send_all-map type bytes s = (
  tcp_each-map s.clients (serialize (make 0 type bytes)) s,
  udp_each-map s.clients (serialize (make 0 type bytes)) s,
)
