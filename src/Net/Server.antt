-- ===== src/Net/Server.antt =====
-- libs/lib_net/super/Server.hpp and Server.cpp: clients with a TCP connection and, once they are
-- verified, a UDP address. The calls of `BaseServer` are the two send queues; the calls of the
-- virtual functions of the game are a list of events. A `std::map` is a list of entries, searched by
-- the equality of keys that its order gives. Undefined behaviour is `none`, and so is a run that
-- needs more of the random engine's numbers than are given.
pub mod Tables
pub mod Receive
pub mod Accepted
pub mod Stream
pub mod Handshake
pub mod Sessions
pub mod Send
pub mod Examples
use Prim.Native.Nat.{bit_xor}
use project_e.Common.{
  ℕ, zero, suc, ◌+◌, ◌%◌, ◌^◌, ◌≡◌, Bool, true, false, not, ◌&&◌, ◌||◌, Option, none, some, List,
  [], ◌∷◌, ◌++◌, length, take, drop, ltb, ◌==◌, if◌then◌else◌, ◌>>=◌,
}
use project_e.Net.Packet.Bytes.{to_le, of_le}
use project_e.Net.Packet.{Packet, make, serialize, deserialize}
use project_e.Net.Packet
use project_e.Net.Buffer.{Buffer, buffer, consume}
use project_e.Net.Addr.{SocketAddr, unset, same_key}
use project_e.Net.Uuid.{Generator, new_uuid, next_number}

-- `Server::Client`
pub record Client : Type 0 where
  pub tcp_connection_id : ℕ
  pub udp_addr : SocketAddr
  pub generated_number : ℕ

-- The game's virtual functions, as they are called
pub data Event : Type 0 where
  on_tcp_connect on_tcp_disconnect on_udp_connect : ℕ → Event
  on_packet : Packet → ℕ → Event

pub record Server : Type 0 where
  pub clients : List (ℕ × Client)
  pub cache : List (SocketAddr × ℕ)
  pub generator : Generator
  pub udp_confirmed : Bool
  pub udp_connection_addr : Option SocketAddr
  pub tcp_out : List (ℕ × List ℕ)
  pub udp_out : List (SocketAddr × List ℕ)
  pub events : List Event

-- `Packet::SystemTypes`
abbrev pub ask_udp_number : ℕ
ask_udp_number = 1

abbrev pub ask_udp_response : ℕ
ask_udp_response = 2

-- `transformNumberFunction`, a `uint64_t`
unfoldable pub transform_number : ℕ → ℕ
transform_number number = bit_xor number 0x1234567890ABCDEF % 2 ^ 64

-- `_clients.find`, and the search for a connection's client
unfoldable pub find_client : ℕ → List (ℕ × Client) → Option Client
find_client id [] = none
find_client id ((key, c) ∷ cs) = if id == key then some c else find_client id cs

unfoldable pub client_of_tcp : ℕ → List (ℕ × Client) → Option (ℕ × Client)
client_of_tcp tcp [] = none
client_of_tcp tcp ((key, c) ∷ cs) =
    if c.tcp_connection_id == tcp then some (key, c) else client_of_tcp tcp cs

-- `_clients.insert` leaves the entry of a key that is there.
unfoldable pub insert_client : ℕ → Client → List (ℕ × Client) → List (ℕ × Client)
insert_client id c [] = (id, c) ∷ []
insert_client id c ((key, d) ∷ cs) =
    if id == key then (key, d) ∷ cs else (key, d) ∷ insert_client id c cs

unfoldable pub erase_client : ℕ → List (ℕ × Client) → List (ℕ × Client)
erase_client id [] = []
erase_client id ((key, c) ∷ cs) = if id == key then cs else (key, c) ∷ erase_client id cs

-- `matchingClient->second.udp_addr = addr`
unfoldable pub set_udp_addr : ℕ → SocketAddr → List (ℕ × Client) → List (ℕ × Client)
set_udp_addr id addr [] = []
set_udp_addr id addr ((key, c) ∷ cs) =
    if id == key
    then (key, record c { udp_addr = addr }) ∷ cs
    else (key, c) ∷ set_udp_addr id addr cs

-- `_udp_connection_cache.find`, `insert` and `erase`
unfoldable pub find_addr : SocketAddr → List (SocketAddr × ℕ) → Option ℕ
find_addr addr [] = none
find_addr addr ((key, id) ∷ rest) = if same_key addr key then some id else find_addr addr rest

unfoldable pub insert_addr : SocketAddr → ℕ → List (SocketAddr × ℕ) → List (SocketAddr × ℕ)
insert_addr addr id [] = (addr, id) ∷ []
insert_addr addr id ((key, old) ∷ rest) =
    if same_key addr key then (key, old) ∷ rest else (key, old) ∷ insert_addr addr id rest

unfoldable pub erase_addr : SocketAddr → List (SocketAddr × ℕ) → List (SocketAddr × ℕ)
erase_addr addr [] = []
erase_addr addr ((key, old) ∷ rest) =
    if same_key addr key then rest else (key, old) ∷ erase_addr addr rest

-- `UdpConnectionPacketInitialisation` and `UdpConnectionPacketConfirmation`: two packed numbers of
-- eight bytes, as `serializeStruct` and `deserializeStruct` copy them
unfoldable pub pack_pair : ℕ → ℕ → List ℕ
pack_pair uuid number = to_le 8 uuid ++ to_le 8 number

unfoldable pub unpack_pair : List ℕ → Option (ℕ × ℕ)
unpack_pair bytes =
    if length bytes == 16 then some (of_le (take 8 bytes), of_le (drop 8 bytes)) else none

-- `ask_udp_connection_request`. The padding of a new header is not initialised; it is taken as 0.
unfoldable pub ask_udp_connection_request : ℕ → ℕ → ℕ → Server → Server
unfolding pack_pair
ask_udp_connection_request uuid number tcp s = record s {
  tcp_out = s.tcp_out ++ (tcp, serialize (make 0 ask_udp_number (pack_pair uuid number))) ∷ [];
}

-- `BaseServer::send_udp(data)`: nothing is sent without a server that this one is connected to.
unfoldable pub send_udp : List ℕ → Server → Server
send_udp bytes s = elim s.udp_connection_addr [
  | none ↦ s
  | some addr ↦ record s { udp_out = s.udp_out ++ (addr, bytes) ∷ [] }
]

-- `ask_udp_connection_response`
unfoldable pub ask_udp_connection_response : ℕ → ℕ → Server → Server
unfolding pack_pair send_udp
ask_udp_connection_response uuid transformed s =
    send_udp (serialize (make 0 ask_udp_response (pack_pair uuid transformed))) s

abbrev pub emit : Event → Server → Server
emit e s = record s { events = s.events ++ e ∷ [] }

-- `on_tcp_connection`
unfoldable pub on_tcp_connection : ℕ → Server → Option Server
unfolding ask_udp_connection_request insert_client
on_tcp_connection tcp s = do
  (uuid, g) ← new_uuid s.generator
  (number, g') ← next_number g
  let client : Client = record {
    tcp_connection_id = tcp;
    udp_addr = unset;
    generated_number = number;
  }
  let s' =
      emit (on_tcp_connect uuid)
        (record s { generator = g'; clients = insert_client uuid client s.clients })
  some (ask_udp_connection_request uuid number tcp s')

-- `on_tcp_disconnection`
unfoldable pub on_tcp_disconnection : ℕ → Server → Server
unfolding client_of_tcp erase_client erase_addr
on_tcp_disconnection tcp s = elim (client_of_tcp tcp s.clients) [
  | none ↦ s
  | some (uuid, client) ↦ emit (on_tcp_disconnect uuid) (record s {
    cache = erase_addr client.udp_addr s.cache;
    clients = erase_client uuid s.clients;
  })
]

-- The client that a confirmation names, if it answers with the right number
unfoldable pub verify : List ℕ → List (ℕ × Client) → Option ℕ
unfolding unpack_pair find_client transform_number
verify payload clients = do
  (uuid, transformed) ← unpack_pair payload
  client ← find_client uuid clients
  if transform_number client.generated_number == transformed then some uuid else none

-- `handle_udp_connection_request`
unfoldable pub handle_udp_connection_request : List ℕ → SocketAddr → Server → Server
unfolding verify set_udp_addr insert_addr
handle_udp_connection_request bytes addr s = elim (deserialize bytes) [
  | none ↦ s
  | some packet ↦
      if packet.header.type == ask_udp_response
      then elim (verify packet.payload s.clients) [
        | none ↦ s
        | some uuid ↦ emit (on_udp_connect uuid) (record s {
          clients = set_udp_addr uuid addr s.clients;
          cache = insert_addr addr uuid s.cache;
        })
      ]
      else s
]

-- The packet of a UDP peer whose address is in the cache, or is not although UDP is confirmed
deliver : Option ℕ → List ℕ → Server → Option Server
deliver found bytes s = elim (deserialize bytes) [
  | none ↦ some s
  | some packet ↦ elim found [ none ↦ none | some uuid ↦ some (emit (on_packet packet uuid) s) ]
]

-- `on_udp_data`
unfoldable pub on_udp_data : SocketAddr → List ℕ → Server → Option Server
unfolding find_addr deliver handle_udp_connection_request
on_udp_data addr bytes s = elim (find_addr addr s.cache) [
  | some uuid ↦ deliver (some uuid) bytes s
  | none ↦
      if s.udp_confirmed
      then deliver none bytes s
      else some (handle_udp_connection_request bytes addr s)
]
