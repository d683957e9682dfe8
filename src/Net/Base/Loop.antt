-- ===== src/Net/Base/Loop.antt =====
-- libs/lib_net/super/BaseServer.cpp: `run_context` and the turns of `context_loop`.
use project_e.Common.{
  if◌then◌else◌, ◌++◌, map, ℕ, Bool, true, false, Option, none, some, List, [], ◌∷◌,
}
use project_e.Net.Result.{Result, success, failure}
use project_e.Net.Writer.{BufWriter}
use project_e.Net.Writer
use project_e.Net.Poll.{PollEvent, Fd, add, add_write, remove_write}
use project_e.Net.Base.{BaseServer, TcpConnection, find_connection, set_writer}
use project_e.Net.Base.Handlers.{Answers, disconnect_tcp_connection}
use project_e.Net.Base.Dispatch.{handle_poll_event}

-- `is_empty`
unfoldable pub is_empty : {A : Type 0} → List A → Bool
is_empty [] = true
is_empty (x ∷ xs) = false

-- The choice that the three functions below make
abbrev pub watch_write : Bool → ℕ → List Fd → List Fd
watch_write true fd ps = remove_write fd ps
watch_write false fd ps = add_write fd ps

unfoldable pub watch_connection : Option (ℕ × TcpConnection) → List Fd → List Fd
unfolding is_empty
watch_connection none ps = ps
watch_connection (some (id, c)) ps = watch_write (is_empty c.writer.bytes) c.stream ps

unfoldable pub handle_tcp_connection_write : BaseServer → BaseServer
unfolding watch_connection
handle_tcp_connection_write s = record s { poll = watch_connection s.tcp_connection s.poll }

-- The loop of `handle_tcp_connections_write`
unfoldable pub watch_all : List (ℕ × TcpConnection) → List Fd → List Fd
unfolding is_empty
watch_all [] ps = ps
watch_all ((id, c) ∷ cs) ps = watch_all cs (watch_write (is_empty c.writer.bytes) c.stream ps)

unfoldable pub handle_tcp_connections_write : BaseServer → BaseServer
unfolding watch_all
handle_tcp_connections_write s = record s { poll = watch_all s.tcp_connections s.poll }

unfoldable pub watch_udp : Option ℕ → Bool → List Fd → List Fd
watch_udp none empty ps = ps
watch_udp (some fd) empty ps = watch_write empty fd ps

unfoldable pub handle_udp_socket_write : BaseServer → BaseServer
unfolding is_empty watch_udp
handle_udp_socket_write s = record s {
  poll = watch_udp s.udp_socket (is_empty s.send_udp_queue) s.poll;
}

unfoldable pub prepare_write : BaseServer → BaseServer
prepare_write s =
    handle_udp_socket_write (handle_tcp_connections_write (handle_tcp_connection_write s))

-- The loop over the events of the poll
unfoldable pub handle_poll_events : List (PollEvent × Answers) → BaseServer → Option BaseServer
unfolding handle_poll_event
handle_poll_events [] s = some s
handle_poll_events ((event, a) ∷ rest) s = elim (handle_poll_event event a s) [
  | none ↦ none
  | some s' ↦ handle_poll_events rest s'
]

-- `handle_disconnection`, by one request and for all that wait
unfoldable pub pop_disconnect : BaseServer → BaseServer
unfolding disconnect_tcp_connection
pop_disconnect s = elim s.disconnect_queue [
  | [] ↦ s
  | id ∷ rest ↦ disconnect_tcp_connection id (record s { disconnect_queue = rest })
]

unfoldable pub disconnect_all : List ℕ → BaseServer → BaseServer
unfolding pop_disconnect
disconnect_all [] s = s
disconnect_all (id ∷ ids) s = disconnect_all ids (pop_disconnect s)

unfoldable pub handle_disconnection : BaseServer → BaseServer
unfolding disconnect_all
handle_disconnection s = disconnect_all s.disconnect_queue s

-- `connection.writer.write(data)`, by one of what waits to be sent and for all
unfoldable pub append_data : ℕ → List ℕ → BaseServer → BaseServer
unfolding find_connection set_writer
append_data id bytes s = elim (find_connection id s.tcp_connections) [
  | none ↦ s
  | some c ↦ record s {
    tcp_connections = set_writer id (Writer.write {E = ℕ} bytes c.writer).1 s.tcp_connections;
  }
]

unfoldable pub pop_send : BaseServer → BaseServer
unfolding append_data
pop_send s = elim s.send_tcp_queue [
  | [] ↦ s
  | (id, bytes) ∷ rest ↦ append_data id bytes (record s { send_tcp_queue = rest })
]

unfoldable pub send_all_tcp : List (ℕ × List ℕ) → BaseServer → BaseServer
unfolding pop_send
send_all_tcp [] s = s
send_all_tcp (d ∷ ds) s = send_all_tcp ds (pop_send s)

-- One turn of `context_loop`, for what `poll.wait` answers
unfoldable pub context_turn :
    Result (List (PollEvent × Answers)) ℕ → BaseServer → Option (Bool × BaseServer)
unfolding prepare_write handle_poll_events handle_disconnection send_all_tcp
context_turn (failure e) s = some (false, prepare_write s)
context_turn (success events) s = elim (handle_poll_events events (prepare_write s)) [
  | none ↦ none
  | some s1 ↦ let s2 = handle_disconnection s1 in some (true, send_all_tcp s2.send_tcp_queue s2)
]

-- `context_loop`, as long as the poll's answers are known
unfoldable pub context_loop :
    List (Result (List (PollEvent × Answers)) ℕ) → BaseServer → Option BaseServer
unfolding context_turn
context_loop [] s = some s
context_loop (answer ∷ answers) s =
    if s.running
    then elim (context_turn answer s) [
      | none ↦ none
      | some (false, s') ↦ some s'
      | some (true, s') ↦ context_loop answers s'
    ]
    else some s

-- `run_context` before its loop
unfoldable pub watch_socket : Option ℕ → List Fd → List Fd
unfolding add
watch_socket none ps = ps
watch_socket (some fd) ps = add fd ps

unfoldable pub watch_single : Option (ℕ × TcpConnection) → List Fd → List Fd
unfolding add
watch_single none ps = ps
watch_single (some (id, c)) ps = add c.stream ps

unfoldable pub run_context : BaseServer → BaseServer
unfolding watch_socket watch_single
run_context s = record s {
  poll = watch_single s.tcp_connection (watch_socket s.tcp_listener (watch_socket s.udp_socket []));
}

-- `~BaseServer`: the sockets are closed, and then the connections are destroyed, which closes their streams.
abbrev pub streams : List (ℕ × TcpConnection) → List ℕ
streams cs = map (λ c. c.1.stream) cs

unfoldable pub socket_fd : Option ℕ → List ℕ
socket_fd none = []
socket_fd (some fd) = fd ∷ []

unfoldable pub single_fd : Option (ℕ × TcpConnection) → List ℕ
single_fd none = []
single_fd (some (id, c)) = c.stream ∷ []

unfoldable pub destroy : BaseServer → BaseServer
unfolding socket_fd single_fd
destroy s = record s {
  running = false;
  closed =
      s.closed
      ++ streams s.tcp_connections
      ++ socket_fd s.tcp_listener
      ++ socket_fd s.udp_socket
      ++ single_fd s.tcp_connection
      ++ streams s.tcp_connections
      ++ single_fd s.tcp_connection;
}
