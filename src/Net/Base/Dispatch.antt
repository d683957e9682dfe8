-- ===== src/Net/Base/Dispatch.antt =====
-- libs/lib_net/super/BaseServer.cpp: the context thread's answer to one event of the poll.
use project_e.Common.{ℕ, Bool, false, Option, none, some, ◌==◌, if◌then◌else◌}
use project_e.Net.Poll.{EventType, read_event, write_event, error_event, PollEvent}
use project_e.Net.Base.{BaseServer, TcpConnection}
use project_e.Net.Base.Handlers.{
  Answers, handle_new_tcp_connections, get_tcp_connection, disconnect_tcp_connection,
  disconnect_tcp_connection_single, handle_tcp_read_connection, handle_tcp_read_events,
  handle_tcp_write_events, handle_tcp_write_connection, handle_udp_read_event,
  handle_udp_write_event,
}

-- `udp_socket && event.fd == udp_socket->get_fd()`, and the same of the single connection
unfoldable pub is_fd : ℕ → Option ℕ → Bool
is_fd fd none = false
is_fd fd (some own) = fd == own

unfoldable pub is_single : ℕ → Option (ℕ × TcpConnection) → Bool
is_single fd none = false
is_single fd (some (id, c)) = fd == c.stream

unfoldable pub handle_read : ℕ → Answers → BaseServer → Option BaseServer
unfolding is_fd is_single
handle_read fd a s =
    if is_fd fd s.udp_socket
    then some (handle_udp_read_event a s)
    else (if is_fd fd s.tcp_listener
        then handle_new_tcp_connections a s
        else (if is_single fd s.tcp_connection
            then some (handle_tcp_read_connection a s)
            else some (handle_tcp_read_events fd a s)))

unfoldable pub handle_write : ℕ → Answers → BaseServer → BaseServer
unfolding is_fd is_single
handle_write fd a s =
    if is_fd fd s.udp_socket
    then handle_udp_write_event a s
    else (if is_single fd s.tcp_connection
        then handle_tcp_write_connection a s
        else handle_tcp_write_events fd a s)

unfoldable pub handle_error : ℕ → BaseServer → BaseServer
unfolding is_fd is_single
handle_error fd s =
    if is_fd fd s.udp_socket
    then s
    else (if is_fd fd s.tcp_listener
        then s
        else (if is_single fd s.tcp_connection
            then disconnect_tcp_connection_single s
            else elim (get_tcp_connection fd s.tcp_connections) [
              | none ↦ s
              | some (id, c) ↦ disconnect_tcp_connection id s
            ]))

-- The `switch` of `context_loop`
unfoldable pub dispatch : EventType → ℕ → Answers → BaseServer → Option BaseServer
dispatch read_event fd a s = handle_read fd a s
dispatch write_event fd a s = some (handle_write fd a s)
dispatch error_event fd a s = some (handle_error fd s)

unfoldable pub handle_poll_event : PollEvent → Answers → BaseServer → Option BaseServer
unfolding dispatch
handle_poll_event event a s = dispatch event.type event.fd a s
