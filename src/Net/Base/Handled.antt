-- ===== src/Net/Base/Handled.antt =====
-- libs/lib_net/super/BaseServer.cpp: what each event of the poll leaves.
use project_e.Common.{
  ℕ, ◌≤◌, ◌≡◌, refl, ap, subst, Bool, true, false, some, List, [], ◌∷◌, ◌++◌, arith, ◌==◌,
  Bool-cases, Option-cases, inl, inr, List-cases, replicate, ◌-◌, length,
}
use project_e.Net.Result.{Result, success, failure}
use project_e.Net.Buffer.{Buffer, fill_buf}
use project_e.Net.Writer.{BufWriter, flush_buf}
use project_e.Net.Addr.{SocketAddr}
use project_e.Net.Base.{BaseServer, TcpConnection, set_reader, set_writer}
use project_e.Net.Base.Handlers.{
  accept_stream, received_udp, Answers, read_single, handle_tcp_read_connection, read_events,
  handle_tcp_read_events, write_events, handle_tcp_write_events, write_single,
  handle_tcp_write_connection, get_tcp_connection, receive_udp, is_valid_udp_message,
  handle_udp_write_event, max_buffer_size,
}
use project_e.Net.Base.Dispatch.{is_single}
use project_e.Net.Base.Tables.{bit, count_id, count_id-set_reader, count_id-get}
use project_e.Net.Poll.Refines.{reads_of, writes_of}
use project_e.Net.Base.Invariant.{Tracked, phase, raised, IsContext, holds, Owned}
use project_e.Net.Uuid.{contains}
use project_e.Net.Base.Keeps.{
  AdmitsStream, raise_read-IsContext, set_reader-IsContext, set_writer-IsContext,
  disconnect_tcp_connection-IsContext, disconnect_tcp_connection_single-IsContext, Kept, admit-Kept,
}

-- A change of the single connection's reader or writer
pub set_single-IsContext :
    (id : ℕ) (c d : TcpConnection) (s : BaseServer)
    → s.tcp_connection ≡ some (id, c)
    → d.stream ≡ c.stream
    → IsContext s
    → IsContext (record s { tcp_connection = some (id, d) })
unfolding is_single
set_single-IsContext id c d s e same (t, o, k) = (
  t,
  λ fd.
      subst (λ n. Owned n (reads_of fd s.poll) (writes_of fd s.poll))
        (omega (arith, ap (λ x. bit (is_single fd x)) e, ap (λ y. bit (fd == y)) same)) (o fd),
  λ j.
      subst (λ n. Tracked (contains j s.generator.generated) n (phase j (raised s)))
        (omega (arith, ap (λ x. bit (holds j x)) e)) (k j),
)

pub accept_stream-Kept :
    (r : Result (ℕ × SocketAddr) ℕ) (nonblocking : Bool) (s : BaseServer)
    → AdmitsStream r nonblocking s
    → IsContext s
    → Kept (accept_stream r nonblocking s)
unfolding accept_stream
accept_stream-Kept (failure e) nonblocking s ok h = h
accept_stream-Kept (success (fd, addr)) true s (free, n) h = admit-Kept fd s free h
accept_stream-Kept (success (fd, addr)) false s (free, n) h = cc

read_single-IsContext :
    (id : ℕ) (c : TcpConnection) (r : Result (List ℕ) ℕ × Buffer) (s : BaseServer)
    → s.tcp_connection ≡ some (id, c)
    → IsContext s
    → IsContext (read_single id c r s)
unfolding read_single
read_single-IsContext id c (failure e, b) s at h =
    set_single-IsContext id c (record c { reader = b }) s at refl h
read_single-IsContext id c (success [], b) s at h =
    set_single-IsContext id c (record c { reader = b }) s at refl h
read_single-IsContext id c (success (x ∷ xs), b) s at h =
    raise_read-IsContext id (record s { tcp_connection = some (id, record c { reader = b }) })
      (ground arith) (set_single-IsContext id c (record c { reader = b }) s at refl h)

read_events-IsContext :
    (id : ℕ) (r : Result (List ℕ) ℕ × Buffer) (s : BaseServer)
    → 1 ≤ count_id id s.tcp_connections
    → IsContext s
    → IsContext (read_events id r s)
unfolding read_events
read_events-IsContext id (failure e, b) s there h = set_reader-IsContext id b s h
read_events-IsContext id (success [], b) s there h =
    disconnect_tcp_connection-IsContext id
      (record s { tcp_connections = set_reader id b s.tcp_connections })
      (set_reader-IsContext id b s h)
read_events-IsContext id (success (x ∷ xs), b) s there h =
    raise_read-IsContext id (record s { tcp_connections = set_reader id b s.tcp_connections })
      (omega (arith, count_id-set_reader id id b s.tcp_connections)) (set_reader-IsContext id b s h)

write_events-IsContext :
    (id : ℕ) (r : Result (Unit {0}) ℕ × BufWriter) (s : BaseServer)
    → IsContext s
    → IsContext (write_events id r s)
unfolding write_events
write_events-IsContext id (failure e, w) s h =
    disconnect_tcp_connection-IsContext id
      (record s { tcp_connections = set_writer id w s.tcp_connections })
      (set_writer-IsContext id w s h)
write_events-IsContext id (success _, w) s h = set_writer-IsContext id w s h

write_single-IsContext :
    (id : ℕ) (c : TcpConnection) (r : Result (Unit {0}) ℕ × BufWriter) (s : BaseServer)
    → s.tcp_connection ≡ some (id, c)
    → IsContext s
    → IsContext (write_single id c r s)
unfolding write_single
write_single-IsContext id c (failure e, w) s at h =
    disconnect_tcp_connection_single-IsContext
      (record s { tcp_connection = some (id, record c { writer = w }) })
      (set_single-IsContext id c (record c { writer = w }) s at refl h)
write_single-IsContext id c (success _, w) s at h =
    set_single-IsContext id c (record c { writer = w }) s at refl h

pub read_connection-IsContext :
    (a : Answers) (s : BaseServer) → IsContext s → IsContext (handle_tcp_read_connection a s)
unfolding handle_tcp_read_connection
read_connection-IsContext a s h = elim (Option-cases s.tcp_connection) [
  | inl e ↦ rw (e, handle_tcp_read_connection) h
  | inr ((id, c), e) ↦
      rw (e, handle_tcp_read_connection)
        (read_single-IsContext id c (fill_buf a.read c.reader) s e h)
]

pub tcp_read-IsContext :
    (fd : ℕ) (a : Answers) (s : BaseServer)
    → IsContext s
    → IsContext (handle_tcp_read_events fd a s)
unfolding handle_tcp_read_events
tcp_read-IsContext fd a s h = elim (Option-cases (get_tcp_connection fd s.tcp_connections)) [
  | inl e ↦ rw (e, handle_tcp_read_events) h
  | inr ((id, c), e) ↦
      rw (e, handle_tcp_read_events)
        (read_events-IsContext id (fill_buf a.read c.reader) s (count_id-get fd s.tcp_connections e)
          h)
]

pub write_connection-IsContext :
    (a : Answers) (s : BaseServer) → IsContext s → IsContext (handle_tcp_write_connection a s)
unfolding handle_tcp_write_connection
write_connection-IsContext a s h = elim (Option-cases s.tcp_connection) [
  | inl e ↦ rw (e, handle_tcp_write_connection) h
  | inr ((id, c), e) ↦
      rw (e, handle_tcp_write_connection)
        (write_single-IsContext id c (flush_buf a.written c.writer) s e h)
]

pub tcp_write-IsContext :
    (fd : ℕ) (a : Answers) (s : BaseServer)
    → IsContext s
    → IsContext (handle_tcp_write_events fd a s)
unfolding handle_tcp_write_events
tcp_write-IsContext fd a s h = elim (Option-cases (get_tcp_connection fd s.tcp_connections)) [
  | inl e ↦ rw (e, handle_tcp_write_events) h
  | inr ((id, c), e) ↦
      rw (e, handle_tcp_write_events) (write_events-IsContext id (flush_buf a.written c.writer) s h)
]

pub received_udp-IsContext :
    (r : Result (List ℕ × SocketAddr) ℕ) (s : BaseServer)
    → IsContext s
    → IsContext (received_udp r s)
unfolding received_udp receive_udp
received_udp-IsContext (failure e) s h = h
received_udp-IsContext (success ([], addr)) s h = h
received_udp-IsContext (success (x ∷ xs, addr)) s h =
    elim (Bool-cases
      (is_valid_udp_message ((x ∷ xs) ++ replicate (max_buffer_size - length (x ∷ xs)) 0))) [
        | inl e ↦ rw (e, received_udp, receive_udp) h
        | inr e ↦ rw (e, received_udp, receive_udp) h
      ]

pub udp_write-IsContext :
    (a : Answers) (s : BaseServer) → IsContext s → IsContext (handle_udp_write_event a s)
unfolding handle_udp_write_event
udp_write-IsContext a s h = elim (List-cases s.send_udp_queue) [
  | inl e ↦ rw (e, handle_udp_write_event) h
  | inr (d, rest, e) ↦ rw (e, handle_udp_write_event) h
]
