-- ===== src/Net/Base/Events.antt =====
-- libs/lib_net/super/BaseServer.cpp: `handle_events`, by which the main thread takes what waits.
use project_e.Common.{ℕ, none, some, List, [], ◌∷◌, ◌++◌, ◌==◌, if◌then◌else◌}
use project_e.Net.Buffer.{Buffer}
use project_e.Net.Addr.{SocketAddr}
use project_e.Net.Base.{
  TcpEvent, BaseServer, call, find_connection, set_reader, tcp_read, tcp_connected,
  tcp_disconnected, call_connection, call_disconnection, call_tcp_data, call_udp_data,
}

-- The main thread's part, for what `on_tcp_data` leaves of a reader
module _ (on_data : ℕ → Buffer → Buffer) where
  -- A `TcpRead` event of an id that is not the single connection's
  unfoldable pub read_of_connection : ℕ → BaseServer → BaseServer
  unfolding find_connection set_reader
  read_of_connection id s = elim (find_connection id s.tcp_connections) [
    | none ↦ s
    | some c ↦
        call (call_tcp_data id c.reader)
          (record s { tcp_connections = set_reader id (on_data id c.reader) s.tcp_connections })
  ]

  unfoldable pub handle_event : TcpEvent → ℕ → BaseServer → BaseServer
  unfolding read_of_connection
  handle_event tcp_connected id s = call (call_connection id) s
  handle_event tcp_disconnected id s = call (call_disconnection id) s
  handle_event tcp_read id s = elim s.tcp_connection [
    | none ↦ read_of_connection id s
    | some (single, c) ↦
        if single == id
        then call (call_tcp_data id c.reader)
            (record s { tcp_connection = some (single, record c { reader = on_data id c.reader }) })
        else read_of_connection id s
  ]

  -- One turn of each of the loops of `handle_events`
  unfoldable pub pop_tcp_event : BaseServer → BaseServer
  unfolding handle_event
  pop_tcp_event s = elim s.tcp_events [
    | [] ↦ s
    | (event, id) ∷ rest ↦
        handle_event event id
          (record s { tcp_events = rest; popped = s.popped ++ (event, id) ∷ [] })
  ]

unfoldable pub pop_datagram : BaseServer → BaseServer
pop_datagram s = elim s.recv_udp_queue [
  | [] ↦ s
  | (addr, bytes) ∷ rest ↦ call (call_udp_data addr bytes) (record s { recv_udp_queue = rest })
]

-- `handle_events`: both loops, for what waits as they begin
module _ (on_data : ℕ → Buffer → Buffer) where
  pop_tcp_events : List (TcpEvent × ℕ) → BaseServer → BaseServer
  unfolding pop_tcp_event
  pop_tcp_events [] s = s
  pop_tcp_events (e ∷ es) s = pop_tcp_events es (pop_tcp_event on_data s)

  pop_datagrams : List (SocketAddr × List ℕ) → BaseServer → BaseServer
  unfolding pop_datagram
  pop_datagrams [] s = s
  pop_datagrams (d ∷ ds) s = pop_datagrams ds (pop_datagram s)

  unfoldable pub handle_events : BaseServer → BaseServer
  unfolding pop_tcp_events pop_datagrams
  handle_events s = let s' = pop_tcp_events s.tcp_events s in pop_datagrams s'.recv_udp_queue s'
