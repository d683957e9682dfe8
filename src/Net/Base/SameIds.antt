-- ===== src/Net/Base/SameIds.antt =====
-- libs/lib_net/super/BaseServer.cpp: the handlers that leave the generator of identifiers alone.
use project_e.Common.{
  ℕ, ◌≡◌, refl, Bool, true, false, some, List, [], ◌∷◌, length, Option-cases, Bool-cases,
  List-cases, inl, inr, if◌then◌else◌, ◌++◌, replicate, ◌-◌,
}
use project_e.Net.Result.{Result, success, failure}
use project_e.Net.Addr.{SocketAddr}
use project_e.Net.Buffer.{Buffer, fill_buf}
use project_e.Net.Writer.{BufWriter, flush_buf}
use project_e.Net.Base.{BaseServer, TcpConnection, find_connection}
use project_e.Net.Base.Handlers.{
  Answers, get_tcp_connection, disconnect_tcp_connection, disconnect_tcp_connection_single,
  read_single, handle_tcp_read_connection, read_events, handle_tcp_read_events, write_events,
  handle_tcp_write_events, write_single, handle_tcp_write_connection, receive_udp, received_udp,
  handle_udp_write_event, is_valid_udp_message, max_buffer_size,
}
use project_e.Net.Base.Dispatch.{is_fd, is_single, handle_write, handle_error}

-- A handler that leaves the generator alone
abbrev pub SameIds : BaseServer → BaseServer → Type 0
SameIds s s' = s'.generator ≡ s.generator

disconnect-SameIds : (id : ℕ) (s : BaseServer) → SameIds s (disconnect_tcp_connection id s)
unfolding disconnect_tcp_connection
disconnect-SameIds id s = elim (Option-cases (find_connection id s.tcp_connections)) [
  | inl e ↦ rw (e, disconnect_tcp_connection) refl
  | inr (c, e) ↦ rw (e, disconnect_tcp_connection) refl
]

disconnect_single-SameIds : (s : BaseServer) → SameIds s (disconnect_tcp_connection_single s)
unfolding disconnect_tcp_connection_single
disconnect_single-SameIds s = elim (Option-cases s.tcp_connection) [
  | inl e ↦ rw (e, disconnect_tcp_connection_single) refl
  | inr ((id, c), e) ↦ rw (e, disconnect_tcp_connection_single) refl
]

read_single-SameIds :
    (id : ℕ) (c : TcpConnection) (r : Result (List ℕ) ℕ × Buffer) (s : BaseServer)
    → SameIds s (read_single id c r s)
unfolding read_single
read_single-SameIds id c (failure e, b) s = refl
read_single-SameIds id c (success [], b) s = refl
read_single-SameIds id c (success (x ∷ xs), b) s = refl

read_events-SameIds :
    (id : ℕ) (r : Result (List ℕ) ℕ × Buffer) (s : BaseServer) → SameIds s (read_events id r s)
unfolding read_events
read_events-SameIds id (failure e, b) s = refl
read_events-SameIds id (success [], b) s = disconnect-SameIds id _
read_events-SameIds id (success (x ∷ xs), b) s = refl

write_events-SameIds :
    (id : ℕ) (r : Result (Unit {0}) ℕ × BufWriter) (s : BaseServer)
    → SameIds s (write_events id r s)
unfolding write_events
write_events-SameIds id (failure e, w) s = disconnect-SameIds id _
write_events-SameIds id (success _, w) s = refl

write_single-SameIds :
    (id : ℕ) (c : TcpConnection) (r : Result (Unit {0}) ℕ × BufWriter) (s : BaseServer)
    → SameIds s (write_single id c r s)
unfolding write_single
write_single-SameIds id c (failure e, w) s =
    disconnect_single-SameIds (record s { tcp_connection = some (id, record c { writer = w }) })
write_single-SameIds id c (success _, w) s = refl

pub read_connection-SameIds :
    (a : Answers) (s : BaseServer) → SameIds s (handle_tcp_read_connection a s)
unfolding handle_tcp_read_connection
read_connection-SameIds a s = elim (Option-cases s.tcp_connection) [
  | inl e ↦ rw (e, handle_tcp_read_connection) refl
  | inr ((id, c), e) ↦
      rw (e, handle_tcp_read_connection) (read_single-SameIds id c (fill_buf a.read c.reader) s)
]

pub tcp_read-SameIds :
    (fd : ℕ) (a : Answers) (s : BaseServer) → SameIds s (handle_tcp_read_events fd a s)
unfolding handle_tcp_read_events
tcp_read-SameIds fd a s = elim (Option-cases (get_tcp_connection fd s.tcp_connections)) [
  | inl e ↦ rw (e, handle_tcp_read_events) refl
  | inr ((id, c), e) ↦
      rw (e, handle_tcp_read_events) (read_events-SameIds id (fill_buf a.read c.reader) s)
]

write_connection-SameIds :
    (a : Answers) (s : BaseServer) → SameIds s (handle_tcp_write_connection a s)
unfolding handle_tcp_write_connection
write_connection-SameIds a s = elim (Option-cases s.tcp_connection) [
  | inl e ↦ rw (e, handle_tcp_write_connection) refl
  | inr ((id, c), e) ↦
      rw (e, handle_tcp_write_connection)
        (write_single-SameIds id c (flush_buf a.written c.writer) s)
]

tcp_write-SameIds :
    (fd : ℕ) (a : Answers) (s : BaseServer) → SameIds s (handle_tcp_write_events fd a s)
unfolding handle_tcp_write_events
tcp_write-SameIds fd a s = elim (Option-cases (get_tcp_connection fd s.tcp_connections)) [
  | inl e ↦ rw (e, handle_tcp_write_events) refl
  | inr ((id, c), e) ↦
      rw (e, handle_tcp_write_events) (write_events-SameIds id (flush_buf a.written c.writer) s)
]

pub received_udp-SameIds :
    (r : Result (List ℕ × SocketAddr) ℕ) (s : BaseServer) → SameIds s (received_udp r s)
unfolding received_udp receive_udp
received_udp-SameIds (failure e) s = refl
received_udp-SameIds (success ([], addr)) s = refl
received_udp-SameIds (success (x ∷ xs, addr)) s =
    elim (Bool-cases
      (is_valid_udp_message ((x ∷ xs) ++ replicate (max_buffer_size - length (x ∷ xs)) 0))) [
        | inl e ↦ rw (e, received_udp, receive_udp) refl
        | inr e ↦ rw (e, received_udp, receive_udp) refl
      ]

udp_write-SameIds : (a : Answers) (s : BaseServer) → SameIds s (handle_udp_write_event a s)
unfolding handle_udp_write_event
udp_write-SameIds a s = elim (List-cases s.send_udp_queue) [
  | inl e ↦ rw (e, handle_udp_write_event) refl
  | inr (d, rest, e) ↦ rw (e, handle_udp_write_event) refl
]

SameIds-if :
    (b : Bool) (s t t' : BaseServer) → SameIds s t → SameIds s t' → SameIds s (if b then t else t')
SameIds-if true s t t' h h' = h
SameIds-if false s t t' h h' = h'

pub handle_write-SameIds : (fd : ℕ) (a : Answers) (s : BaseServer) → SameIds s (handle_write fd a s)
unfolding handle_write
handle_write-SameIds fd a s = SameIds-if (is_fd fd s.udp_socket) s _ _ (udp_write-SameIds a s) (
    SameIds-if (is_single fd s.tcp_connection) s _ _ (write_connection-SameIds a s)
      (tcp_write-SameIds fd a s))

pub handle_error-SameIds : (fd : ℕ) (s : BaseServer) → SameIds s (handle_error fd s)
unfolding handle_error
handle_error-SameIds fd s = SameIds-if (is_fd fd s.udp_socket) s _ _ refl (
    SameIds-if (is_fd fd s.tcp_listener) s _ _ refl (
      SameIds-if (is_single fd s.tcp_connection) s _ _ (disconnect_single-SameIds s)
        (elim (Option-cases (get_tcp_connection fd s.tcp_connections)) [
          | inl e ↦ rw e refl
          | inr ((id, c), e) ↦ rw e (disconnect-SameIds id s)
        ])))
