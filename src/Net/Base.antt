-- ===== src/Net/Base.antt =====
-- libs/lib_net/super/BaseServer.hpp and the part of BaseServer.cpp that the main thread calls. A socket
-- is its descriptor. A `TsQueue` is the list of what waits in it (Net/Queue), a `std::unordered_map` a
-- list of entries that is searched by its key. `tcp_connection` and `tcp_connection_id`, which are set
-- and reset together, are one field; so is the `Poll` that `run_context` makes. What the operating
-- system and the calls of the sockets answer are arguments. `closed`, `datagrams`, `popped` and `calls` record
-- what is done: `close`, `send_to`, `_tcp_events.wait_pop` and the virtual functions.
pub mod Handlers
pub mod Events
pub mod Dispatch
pub mod Loop
pub mod Tables
pub mod Invariant
pub mod Keeps
pub mod Handled
pub mod Watch
pub mod Steps
pub mod Hosting
pub mod SameIds
pub mod Supply
pub mod Reach
pub mod Turn
pub mod Setup
pub mod Closing
pub mod Examples
use project_e.Common.{
  ℕ, Bool, true, false, Option, none, some, List, [], ◌∷◌, ◌++◌, ◌==◌, if◌then◌else◌,
}
use project_e.Net.Result.{Result, success, failure}
use project_e.Net.Buffer.{Buffer, default_buf_size}
use project_e.Net.Buffer
use project_e.Net.Writer.{BufWriter}
use project_e.Net.Addr.{SocketAddr, Ipv4Addr, v4, ipv4_of_u32}
use project_e.Net.Addr.Text.{AddrParseError, parse_ascii}
use project_e.Net.Uuid.{Generator, new_uuid}
use project_e.Net.Poll.{Fd}

-- `BaseServer::TcpConnection`
pub record TcpConnection : Type 0 where
  pub stream : ℕ
  pub reader : Buffer
  pub writer : BufWriter

unfoldable pub new_connection : ℕ → TcpConnection
new_connection fd = record {
  stream = fd;
  reader = Buffer.new default_buf_size;
  writer = record { bytes = []; capacity = default_buf_size; sent = [] };
}

-- `TCPEvent`
pub data TcpEvent : Type 0 where
  tcp_read tcp_connected tcp_disconnected : TcpEvent

-- The virtual functions, as they are called
pub data Call : Type 0 where
  call_connection call_disconnection : ℕ → Call
  call_tcp_data : ℕ → Buffer → Call
  call_udp_data : SocketAddr → List ℕ → Call

-- `BaseServerError::Kind`
pub data Kind : Type 0 where
  bind_error socket_already_connected bad_ip_address tcp_connect_error server_already_running : Kind

pub record BaseServer : Type 0 where
  pub udp_socket : Option ℕ
  pub tcp_listener : Option ℕ
  pub tcp_connection : Option (ℕ × TcpConnection)
  pub udp_connection_addr : Option SocketAddr
  pub udp_confirmed : Bool
  pub tcp_connections : List (ℕ × TcpConnection)
  pub generator : Generator
  pub running : Bool
  pub tcp_events : List (TcpEvent × ℕ)
  pub recv_udp_queue : List (SocketAddr × List ℕ)
  pub send_tcp_queue : List (ℕ × List ℕ)
  pub send_udp_queue : List (SocketAddr × List ℕ)
  pub disconnect_queue : List ℕ
  pub poll : List Fd
  pub closed : List ℕ
  pub datagrams : List (SocketAddr × List ℕ)
  pub popped : List (TcpEvent × ℕ)
  pub calls : List Call

-- `_tcp_events.push`
abbrev pub raise : TcpEvent → ℕ → BaseServer → BaseServer
raise event id s = record s { tcp_events = s.tcp_events ++ (event, id) ∷ [] }

abbrev pub call : Call → BaseServer → BaseServer
call c s = record s { calls = s.calls ++ c ∷ [] }

-- `tcp_connections.find`, `erase` and what is done to the reader or the writer of an entry
unfoldable pub find_connection : ℕ → List (ℕ × TcpConnection) → Option TcpConnection
find_connection id [] = none
find_connection id ((key, c) ∷ cs) = if id == key then some c else find_connection id cs

unfoldable pub erase_connection : ℕ → List (ℕ × TcpConnection) → List (ℕ × TcpConnection)
erase_connection id [] = []
erase_connection id ((key, c) ∷ cs) =
    let rest = erase_connection id cs in if id == key then cs else (key, c) ∷ rest

unfoldable pub set_reader : ℕ → Buffer → List (ℕ × TcpConnection) → List (ℕ × TcpConnection)
set_reader id b [] = []
set_reader id b ((key, c) ∷ cs) =
    let rest = set_reader id b cs in
    if id == key then (key, record c { reader = b }) ∷ cs else (key, c) ∷ rest

unfoldable pub set_writer : ℕ → BufWriter → List (ℕ × TcpConnection) → List (ℕ × TcpConnection)
set_writer id w [] = []
set_writer id w ((key, c) ∷ cs) =
    let rest = set_writer id w cs in
    if id == key then (key, record c { writer = w }) ∷ cs else (key, c) ∷ rest

-- `host_tcp` and `host_udp`, for what `bind` answers
unfoldable pub host_tcp : Result ℕ ℕ → BaseServer → Result (Unit {0}) Kind × BaseServer
host_tcp (failure e) s = (failure bind_error, s)
host_tcp (success fd) s = (success tt, record s { tcp_listener = some fd })

unfoldable pub host_udp : Result ℕ ℕ → BaseServer → Result (Unit {0}) Kind × BaseServer
host_udp (failure e) s = (failure bind_error, s)
host_udp (success fd) s = (success tt, record s { udp_socket = some fd })

-- `connect_tcp` where it has connected; `none` where the random engine's numbers run out
unfoldable pub tcp_connect : ℕ → BaseServer → Option (Result (Unit {0}) Kind × BaseServer)
tcp_connect fd s = elim (new_uuid s.generator) [
  | none ↦ none
  | some (id, g) ↦ some (
    success tt,
    raise tcp_connected id
        (record s { tcp_connection = some (id, new_connection fd); generator = g }),
  )
]

-- The early returns of `connect_tcp`, in their order
unfoldable pub connect_checked :
    Bool
    → Option (ℕ × TcpConnection)
    → Result Ipv4Addr AddrParseError
    → Result ℕ ℕ
    → BaseServer
    → Option (Result (Unit {0}) Kind × BaseServer)
unfolding tcp_connect
connect_checked true single address connected s = some (failure server_already_running, s)
connect_checked false (some c) address connected s = some (failure socket_already_connected, s)
connect_checked false none (failure e) connected s = some (failure bad_ip_address, s)
connect_checked false none (success address) (failure e) s = some (failure tcp_connect_error, s)
connect_checked false none (success address) (success fd) s = tcp_connect fd s

-- `connect_tcp`, for what `getaddrinfo` and `TcpStream::connect` answer
unfoldable pub connect_tcp :
    Option ℕ → Result ℕ ℕ → List ℕ → BaseServer → Option (Result (Unit {0}) Kind × BaseServer)
unfolding parse_ascii connect_checked
connect_tcp looked_up connected ip s =
    connect_checked s.running s.tcp_connection (parse_ascii looked_up ip) connected s

-- `connect_udp`, for what `getaddrinfo`, `UdpSocket::any` and `local_addr` answer
unfoldable pub connect_udp :
    Option ℕ
    → Result ℕ ℕ
    → Result SocketAddr ℕ
    → List ℕ
    → ℕ
    → BaseServer
    → Result (Unit {0}) Kind × BaseServer
unfolding parse_ascii
connect_udp looked_up bound local ip port s =
    if s.running then (failure server_already_running, s) else elim s.udp_socket [
      | some _ ↦ (failure socket_already_connected, s)
      | none ↦ elim (parse_ascii looked_up ip) [
        | failure _ ↦ (failure bad_ip_address, s)
        | success address ↦ elim bound [
          | failure _ ↦ (failure bind_error, s)
          | success fd ↦ elim local [
            | failure _ ↦ (failure bind_error, record s { udp_socket = some fd })
            | success _ ↦ (
              success tt,
              record s {
                udp_socket = some fd;
                udp_connection_addr = some (v4 address port);
                udp_confirmed = true;
              },
            )
          ]
        ]
      ]
    ]

-- `start_context`, for whether the thread starts, and `stop_context`
unfoldable pub start_context : Bool → BaseServer → Result (Unit {0}) Kind × BaseServer
start_context started s =
    if s.running
    then (failure server_already_running, s)
    else (if started
        then (success tt, record s { running = true })
        else (failure tcp_connect_error, s))

unfoldable pub stop_context : BaseServer → BaseServer
stop_context s = record s { running = false }

-- `send_tcp`, both functions `send_udp`, and `ask_disconnect`
unfoldable pub send_tcp : ℕ → List ℕ → BaseServer → BaseServer
send_tcp id bytes s = record s { send_tcp_queue = s.send_tcp_queue ++ (id, bytes) ∷ [] }

unfoldable pub send_udp_to : SocketAddr → List ℕ → BaseServer → BaseServer
send_udp_to addr bytes s = record s { send_udp_queue = s.send_udp_queue ++ (addr, bytes) ∷ [] }

unfoldable pub send_udp_connected : List ℕ → BaseServer → BaseServer
unfolding send_udp_to
send_udp_connected bytes s = elim s.udp_connection_addr [
  | none ↦ s
  | some addr ↦ send_udp_to addr bytes s
]

unfoldable pub ask_disconnect : ℕ → BaseServer → BaseServer
ask_disconnect id s = record s { disconnect_queue = s.disconnect_queue ++ id ∷ [] }
