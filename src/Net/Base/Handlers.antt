-- ===== src/Net/Base/Handlers.antt =====
-- libs/lib_net/super/BaseServer.cpp: what the context thread does on an event of the poll. The
-- operating system's answers to it are a record; `fill_buf`, `flush` and `recv_from` ask it once.
use project_e.Common.{
  ℕ, ◌-◌, Bool, true, false, not, Option, none, some, List, [], ◌∷◌, ◌++◌, length, replicate, ◌==◌,
  if◌then◌else◌,
}
use project_e.Net.Result.{Result, success, failure}
use project_e.Net.Packet.{deserialize}
use project_e.Net.Buffer.{Buffer, fill_buf}
use project_e.Net.Writer.{BufWriter, flush_buf}
use project_e.Net.Addr.{SocketAddr}
use project_e.Net.Uuid.{new_uuid}
use project_e.Net.Poll.{add, remove}
use project_e.Net.Base.{
  BaseServer, TcpConnection, new_connection, tcp_read, tcp_connected, tcp_disconnected, raise,
  find_connection, erase_connection, set_reader, set_writer,
}

pub record Answers : Type 0 where
  pub accepted : Result (ℕ × SocketAddr) ℕ
  pub nonblocking : Bool
  pub read : ℕ → Result (List ℕ) ℕ
  pub written : Result ℕ ℕ
  pub received : Result (List ℕ × SocketAddr) ℕ
  pub sent : Bool

-- `MAX_BUFFER_SIZE`
abbrev pub max_buffer_size : ℕ
max_buffer_size = 8192

-- `handle_new_tcp_connections` once `accept` gave a stream
unfoldable pub admit : ℕ → Bool → BaseServer → Option BaseServer
unfolding add
admit fd true s = elim (new_uuid s.generator) [
  | none ↦ none
  | some (id, g) ↦ some (
      raise tcp_connected id (record s {
        poll = add fd s.poll;
        generator = g;
        tcp_connections = (id, new_connection fd) ∷ s.tcp_connections;
      }))
]
admit fd false s = some (record s { poll = add fd s.poll; closed = s.closed ++ fd ∷ [] })

unfoldable pub accept_stream : Result (ℕ × SocketAddr) ℕ → Bool → BaseServer → Option BaseServer
unfolding admit
accept_stream (failure e) nonblocking s = some s
accept_stream (success (fd, addr)) nonblocking s = admit fd nonblocking s

unfoldable pub handle_new_tcp_connections : Answers → BaseServer → Option BaseServer
unfolding accept_stream
handle_new_tcp_connections a s = accept_stream a.accepted a.nonblocking s

-- `get_tcp_connection`
unfoldable pub get_tcp_connection : ℕ → List (ℕ × TcpConnection) → Option (ℕ × TcpConnection)
get_tcp_connection fd [] = none
get_tcp_connection fd ((id, c) ∷ cs) =
    let rest = get_tcp_connection fd cs in if c.stream == fd then some (id, c) else rest

-- `close` of a stream, and the `close` of the destructor of the connection that holds it
abbrev close_both : ℕ → BaseServer → BaseServer
close_both fd s = record s { poll = remove fd s.poll; closed = s.closed ++ fd ∷ fd ∷ [] }

unfoldable pub disconnect_tcp_connection : ℕ → BaseServer → BaseServer
unfolding find_connection erase_connection remove
disconnect_tcp_connection id s = elim (find_connection id s.tcp_connections) [
  | none ↦ s
  | some c ↦
      raise tcp_disconnected id
        (record (close_both c.stream s) { tcp_connections = erase_connection id s.tcp_connections })
]

unfoldable pub disconnect_tcp_connection_single : BaseServer → BaseServer
unfolding remove
disconnect_tcp_connection_single s = elim s.tcp_connection [
  | none ↦ s
  | some (id, c) ↦
      raise tcp_disconnected id (record (close_both c.stream s) { tcp_connection = none })
]

-- `handle_tcp_read_connection`, for what `fill_buf` gave
unfoldable pub read_single :
    ℕ → TcpConnection → Result (List ℕ) ℕ × Buffer → BaseServer → BaseServer
read_single id c (failure e, b) s = record s { tcp_connection = some (id, record c { reader = b }) }
read_single id c (success [], b) s = record s {
  tcp_connection = some (id, record c { reader = b });
}
read_single id c (success (x ∷ xs), b) s =
    raise tcp_read id (record s { tcp_connection = some (id, record c { reader = b }) })

unfoldable pub handle_tcp_read_connection : Answers → BaseServer → BaseServer
unfolding read_single
handle_tcp_read_connection a s = elim s.tcp_connection [
  | none ↦ s
  | some (id, c) ↦ read_single id c (fill_buf a.read c.reader) s
]

-- `handle_tcp_read_events`, for what `fill_buf` gave
unfoldable pub read_events : ℕ → Result (List ℕ) ℕ × Buffer → BaseServer → BaseServer
unfolding set_reader disconnect_tcp_connection
read_events id (failure e, b) s = record s { tcp_connections = set_reader id b s.tcp_connections }
read_events id (success [], b) s =
    disconnect_tcp_connection id (record s { tcp_connections = set_reader id b s.tcp_connections })
read_events id (success (x ∷ xs), b) s =
    raise tcp_read id (record s { tcp_connections = set_reader id b s.tcp_connections })

unfoldable pub handle_tcp_read_events : ℕ → Answers → BaseServer → BaseServer
unfolding get_tcp_connection read_events
handle_tcp_read_events fd a s = elim (get_tcp_connection fd s.tcp_connections) [
  | none ↦ s
  | some (id, c) ↦ read_events id (fill_buf a.read c.reader) s
]

-- `handle_tcp_write_events`, for what `flush` gave; the stream's own `flush` does nothing.
unfoldable pub write_events : ℕ → Result (Unit {0}) ℕ × BufWriter → BaseServer → BaseServer
unfolding set_writer disconnect_tcp_connection
write_events id (failure e, w) s =
    disconnect_tcp_connection id (record s { tcp_connections = set_writer id w s.tcp_connections })
write_events id (success _, w) s = record s { tcp_connections = set_writer id w s.tcp_connections }

unfoldable pub handle_tcp_write_events : ℕ → Answers → BaseServer → BaseServer
unfolding get_tcp_connection write_events
handle_tcp_write_events fd a s = elim (get_tcp_connection fd s.tcp_connections) [
  | none ↦ s
  | some (id, c) ↦ write_events id (flush_buf a.written c.writer) s
]

-- `handle_tcp_write_connection`
unfoldable pub write_single :
    ℕ → TcpConnection → Result (Unit {0}) ℕ × BufWriter → BaseServer → BaseServer
unfolding disconnect_tcp_connection_single
write_single id c (failure e, w) s =
    disconnect_tcp_connection_single
      (record s { tcp_connection = some (id, record c { writer = w }) })
write_single id c (success _, w) s = record s {
  tcp_connection = some (id, record c { writer = w });
}

unfoldable pub handle_tcp_write_connection : Answers → BaseServer → BaseServer
unfolding write_single
handle_tcp_write_connection a s = elim s.tcp_connection [
  | none ↦ s
  | some (id, c) ↦ write_single id c (flush_buf a.written c.writer) s
]

-- `Server::is_valid_udp_message`
unfoldable pub is_valid_udp_message : List ℕ → Bool
unfolding deserialize
is_valid_udp_message bytes = elim (deserialize bytes) [
  | none ↦ false
  | some packet ↦ not (packet.header.size == 0)
]

-- `handle_udp_read_event` once `recv_from` gave a datagram: the whole buffer is looked at.
unfoldable pub receive_udp : List ℕ → SocketAddr → BaseServer → BaseServer
unfolding is_valid_udp_message
receive_udp [] addr s = s
receive_udp (x ∷ xs) addr s =
    if is_valid_udp_message ((x ∷ xs) ++ replicate (max_buffer_size - length (x ∷ xs)) 0)
    then record s { recv_udp_queue = s.recv_udp_queue ++ (addr, x ∷ xs) ∷ [] }
    else s

unfoldable pub received_udp : Result (List ℕ × SocketAddr) ℕ → BaseServer → BaseServer
unfolding receive_udp
received_udp (failure e) s = s
received_udp (success (bytes, addr)) s = receive_udp bytes addr s

unfoldable pub handle_udp_read_event : Answers → BaseServer → BaseServer
unfolding received_udp
handle_udp_read_event a s = received_udp a.received s

-- Where `handle_udp_write_event` sends
destination : Option SocketAddr → SocketAddr → SocketAddr
destination none addr = addr
destination (some server) addr = server

unfoldable pub handle_udp_write_event : Answers → BaseServer → BaseServer
unfolding destination
handle_udp_write_event a s = elim s.send_udp_queue [
  | [] ↦ s
  | (addr, bytes) ∷ rest ↦ record s {
    send_udp_queue = rest;
    datagrams =
        if a.sent
        then s.datagrams ++ (destination s.udp_connection_addr addr, bytes) ∷ []
        else s.datagrams;
  }
]
