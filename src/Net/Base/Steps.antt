-- ===== src/Net/Base/Steps.antt =====
-- libs/lib_net/super/BaseServer.cpp: a running server, as steps of its context thread and of the main
-- thread in any order.
use project_e.Common.{
  ◌∷◌, [], ◌≡◌, refl, ◌++◌, ◌==◌, subst, ℕ, Bool, true, false, Option, List, if◌then◌else◌,
  Option-cases, List-cases, inl, inr,
}
use project_e.Net.Writer
use project_e.Net.Buffer.{Buffer}
use project_e.Net.Poll.{EventType, read_event, write_event, error_event, PollEvent}
use project_e.Net.Base.{
  BaseServer, find_connection, TcpEvent, tcp_read, tcp_connected, tcp_disconnected,
}
use project_e.Net.Base.Events.{pop_tcp_event, handle_event, read_of_connection}
use project_e.Net.Base.Handlers.{
  handle_udp_read_event, handle_new_tcp_connections, Answers, get_tcp_connection,
}
use project_e.Net.Base.Dispatch.{
  dispatch, is_fd, is_single, handle_read, handle_write, handle_error, handle_poll_event,
}
use project_e.Net.Base.Loop.{pop_disconnect, append_data, pop_send}
use project_e.Net.Uuid.{contains}
use project_e.Net.Base.Invariant.{absent, phase-append, holders, Tracked, IsContext, phase}
use project_e.Net.Base.Keeps.{
  set_writer-IsContext, disconnect_tcp_connection-IsContext,
  disconnect_tcp_connection_single-IsContext, Kept, Admits, set_reader-IsContext,
}
use project_e.Net.Base.Handled.{
  accept_stream-Kept, read_connection-IsContext, tcp_read-IsContext, write_connection-IsContext,
  tcp_write-IsContext, received_udp-IsContext, udp_write-IsContext, set_single-IsContext,
}

Kept-if : (b : Bool) (r r' : Option BaseServer) → Kept r → Kept r' → Kept (if b then r else r')
Kept-if true r r' h h' = h
Kept-if false r r' h h' = h'

IsContext-if :
    (b : Bool) (s s' : BaseServer) → IsContext s → IsContext s' → IsContext (if b then s else s')
IsContext-if true s s' h h' = h
IsContext-if false s s' h h' = h'

handle_read-Kept :
    (fd : ℕ) (a : Answers) (s : BaseServer) → Admits a s → IsContext s → Kept (handle_read fd a s)
unfolding handle_read handle_udp_read_event handle_new_tcp_connections
handle_read-Kept fd a s ok h =
    Kept-if (is_fd fd s.udp_socket) _ _ (received_udp-IsContext a.received s h) (
      Kept-if (is_fd fd s.tcp_listener) _ _ (accept_stream-Kept a.accepted a.nonblocking s ok h) (
        Kept-if (is_single fd s.tcp_connection) _ _ (read_connection-IsContext a s h)
          (tcp_read-IsContext fd a s h)))

handle_write-IsContext :
    (fd : ℕ) (a : Answers) (s : BaseServer) → IsContext s → IsContext (handle_write fd a s)
unfolding handle_write
handle_write-IsContext fd a s h =
    IsContext-if (is_fd fd s.udp_socket) _ _ (udp_write-IsContext a s h) (
      IsContext-if (is_single fd s.tcp_connection) _ _ (write_connection-IsContext a s h)
        (tcp_write-IsContext fd a s h))

handle_error-IsContext : (fd : ℕ) (s : BaseServer) → IsContext s → IsContext (handle_error fd s)
unfolding handle_error
handle_error-IsContext fd s h = IsContext-if (is_fd fd s.udp_socket) _ _ h (
    IsContext-if (is_fd fd s.tcp_listener) _ _ h (
      IsContext-if (is_single fd s.tcp_connection) _ _
        (disconnect_tcp_connection_single-IsContext s h)
        (elim (Option-cases (get_tcp_connection fd s.tcp_connections)) [
          | inl e ↦ rw e h
          | inr ((id, c), e) ↦ rw e (disconnect_tcp_connection-IsContext id s h)
        ])))

dispatch-Kept :
    (type : EventType) (fd : ℕ) (a : Answers) (s : BaseServer)
    → Admits a s
    → IsContext s
    → Kept (dispatch type fd a s)
unfolding dispatch
dispatch-Kept read_event fd a s ok h = handle_read-Kept fd a s ok h
dispatch-Kept write_event fd a s ok h = handle_write-IsContext fd a s h
dispatch-Kept error_event fd a s ok h = handle_error-IsContext fd s h

pub handle_poll_event-Kept :
    (event : PollEvent) (a : Answers) (s : BaseServer)
    → Admits a s
    → IsContext s
    → Kept (handle_poll_event event a s)
unfolding handle_poll_event
handle_poll_event-Kept event a s ok h = dispatch-Kept event.type event.fd a s ok h

pub pop_disconnect-IsContext : (s : BaseServer) → IsContext s → IsContext (pop_disconnect s)
unfolding pop_disconnect
pop_disconnect-IsContext s h = elim (List-cases s.disconnect_queue) [
  | inl e ↦ rw (e, pop_disconnect) h
  | inr (id, rest, e) ↦
      rw (e, pop_disconnect)
        (disconnect_tcp_connection-IsContext id (record s { disconnect_queue = rest }) h)
]

append_data-IsContext :
    (id : ℕ) (bytes : List ℕ) (s : BaseServer) → IsContext s → IsContext (append_data id bytes s)
unfolding append_data
append_data-IsContext id bytes s h = elim (Option-cases (find_connection id s.tcp_connections)) [
  | inl e ↦ rw (e, append_data) h
  | inr (c, e) ↦
      rw (e, append_data) (set_writer-IsContext id (Writer.write {E = ℕ} bytes c.writer).1 s h)
]

pub pop_send-IsContext : (s : BaseServer) → IsContext s → IsContext (pop_send s)
unfolding pop_send
pop_send-IsContext s h = elim (List-cases s.send_tcp_queue) [
  | inl e ↦ rw (e, pop_send) h
  | inr ((id, bytes), rest, e) ↦
      rw (e, pop_send) (append_data-IsContext id bytes (record s { send_tcp_queue = rest }) h)
]

-- What the main thread does to an event that it takes
phase-pop :
    (id : ℕ) (xs : List (TcpEvent × ℕ)) (e : TcpEvent × ℕ) (ys : List (TcpEvent × ℕ))
    → phase id ((xs ++ e ∷ []) ++ ys) ≡ phase id (xs ++ e ∷ ys)
phase-pop id xs e ys =
    rw
      (
        phase-append id (xs ++ e ∷ []) ys absent,
        phase-append id xs (e ∷ []) absent,
        phase-append id xs (e ∷ ys) absent,
      )
      refl

module _ (on_data : ℕ → Buffer → Buffer) where
  read_of_connection-IsContext :
      (id : ℕ) (s : BaseServer) → IsContext s → IsContext (read_of_connection on_data id s)
  unfolding read_of_connection
  read_of_connection-IsContext id s h = elim (Option-cases (find_connection id s.tcp_connections)) [
    | inl e ↦ rw (e, read_of_connection) h
    | inr (c, e) ↦ rw (e, read_of_connection) (set_reader-IsContext id (on_data id c.reader) s h)
  ]

  handle_event-IsContext :
      (event : TcpEvent) (id : ℕ) (s : BaseServer)
      → IsContext s
      → IsContext (handle_event on_data event id s)
  unfolding handle_event
  handle_event-IsContext tcp_connected id s h = h
  handle_event-IsContext tcp_disconnected id s h = h
  handle_event-IsContext tcp_read id s h = elim (Option-cases s.tcp_connection) [
    | inl e ↦ rw (e, handle_event) (read_of_connection-IsContext id s h)
    | inr ((single, c), e) ↦
        rw (e, handle_event)
          (IsContext-if (single == id) _ _
            (set_single-IsContext single c (record c { reader = on_data id c.reader }) s e refl h)
            (read_of_connection-IsContext id s h))
  ]

  pub pop_tcp_event-IsContext : (s : BaseServer) → IsContext s → IsContext (pop_tcp_event on_data s)
  unfolding pop_tcp_event
  pop_tcp_event-IsContext s (t, o, k) = elim (List-cases s.tcp_events) [
    | inl e ↦ rw (e, pop_tcp_event) (t, o, k)
    | inr ((event, id), rest, e) ↦
        rw (e, pop_tcp_event)
          (handle_event-IsContext event id
            (record s { tcp_events = rest; popped = s.popped ++ (event, id) ∷ [] })
            (
              t,
              o,
              λ j. rw (phase-pop j s.popped (event, id) rest) (
                  subst
                    (λ es.
                      Tracked (contains j s.generator.generated) (holders j s)
                        (phase j (s.popped ++ es)))
                    e (k j)),
            ))
  ]
