-- ===== src/Net/Base/Examples.antt =====
-- A server with a listener and one connection, and runs of it, for the theorems on `BaseServer`.
use project_e.Common.{
  ℕ, ◌≤◌, ◌≡◌, refl, true, false, Option, none, some, [], ◌∷◌, arith, if◌then◌else◌, ltb, ◌||◌,
  subst,
}
use project_e.Net.Result.{success, failure}
use project_e.Net.Uuid.{contains, new_uuid}
use project_e.Net.Addr.{unset}
use project_e.Net.Poll.{PollEvent, read_event, add}
use project_e.Net.Poll.Refines.{writes_of}
use project_e.Net.Base.{
  BaseServer, new_connection, connect_tcp, connect_checked, tcp_connect, tcp_connected,
  ask_disconnect,
}
use project_e.Net.Addr.Text.{parse_ascii}
use project_e.Net.Base.Handlers.{Answers, handle_new_tcp_connections, accept_stream, admit}
use project_e.Net.Base.Dispatch.{handle_poll_event, handle_read, is_fd, is_single, dispatch}
use project_e.Net.Base.Loop.{
  prepare_write, handle_disconnection, context_turn, run_context, watch_socket, watch_single,
}
use project_e.Net.Base.Tables.{count_id, count_stream}
use project_e.Net.Base.Invariant.{IsContext, owners}
use project_e.Net.Base.Watch.{pending, prepare_write-pending}
use project_e.Net.Base.Reach.{IsReady, Reaches, starts, goes_on, handles, asks, run_context-Reaches}
use project_e.Net.Base.Turn.{
  OnSome, AdmitsAll, handle_disconnection_lem, Turned, context_turn-Turned,
}
use project_e.Net.Base.Setup.{Connected, connect_tcp-Connected}

abbrev fresh : BaseServer
fresh = record {
  udp_socket = some 3;
  tcp_listener = some 4;
  tcp_connection = none;
  udp_connection_addr = none;
  udp_confirmed = false;
  tcp_connections = [];
  generator = record { draws = 70 ∷ 71 ∷ []; generated = [] };
  running = false;
  tcp_events = [];
  recv_udp_queue = [];
  send_tcp_queue = [];
  send_udp_queue = (unset, 1 ∷ []) ∷ [];
  disconnect_queue = [];
  poll = [];
  closed = [];
  datagrams = [];
  popped = [];
  calls = [];
}

two_sockets : (fd : ℕ) → owners fd fresh ≤ 1
unfolding is_fd is_single
two_sockets fd = ground arith

fresh-IsReady : IsReady fresh
fresh-IsReady = record {
  none_accepted = refl;
  one_socket = two_sockets;
  tracked = λ id. (omega arith, refl);
}

-- A client is accepted through descriptor 5, and its peer has sent three bytes.
abbrev answers : Answers
answers = record {
  accepted = success (5, unset);
  nonblocking = true;
  read = λ room. success (1 ∷ 2 ∷ 3 ∷ []);
  written = success 3;
  received = failure 11;
  sent = true;
}

abbrev failed : Answers
failed = record answers { accepted = failure 11 }

abbrev accepts : PollEvent
accepts = record { type = read_event; fd = 4 }

abbrev accepted : BaseServer
accepted = record fresh {
  generator = record { draws = 71 ∷ []; generated = 70 ∷ [] };
  tcp_connections = (70, new_connection 5) ∷ [];
  tcp_events = (tcp_connected, 70) ∷ [];
  poll =
      record { fd = 3; reads = true; writes = false }
      ∷ record { fd = 4; reads = true; writes = false }
      ∷ record { fd = 5; reads = true; writes = false }
      ∷ [];
}

free_socket : owners 5 (run_context fresh) ≡ 0
unfolding run_context is_fd is_single
free_socket = refl

accepted_right : handle_poll_event accepts answers (run_context fresh) ≡ some accepted
unfolding handle_poll_event dispatch handle_read is_fd is_single handle_new_tcp_connections
    accept_stream admit new_uuid run_context watch_socket watch_single add
accepted_right = refl

accepted-Reaches : Reaches (run_context fresh) accepted
accepted-Reaches = goes_on starts (handles accepts answers (free_socket, refl) accepted_right)

accepted-IsContext : IsContext accepted
accepted-IsContext = run_context-Reaches fresh accepted fresh-IsReady accepted-Reaches

run_context-Reaches_example : IsContext (ask_disconnect 70 accepted)
run_context-Reaches_example =
    run_context-Reaches fresh (ask_disconnect 70 accepted) fresh-IsReady
      (goes_on accepted-Reaches (asks 70))

prepare_write-pending_example :
    IsContext (prepare_write accepted)
    × ((fd : ℕ)
        → writes_of fd (prepare_write accepted).poll ≡ (
            if is_fd fd accepted.udp_socket
              || (is_single fd accepted.tcp_connection
                  || ltb 0 (count_stream fd accepted.tcp_connections))
            then pending fd accepted
            else writes_of fd accepted.poll))
prepare_write-pending_example = prepare_write-pending accepted accepted-IsContext

handle_disconnection_lem_example :
    IsContext (handle_disconnection (ask_disconnect 70 accepted))
    × ((handle_disconnection (ask_disconnect 70 accepted)).disconnect_queue ≡ [])
    × ((id : ℕ)
        → count_id id (handle_disconnection (ask_disconnect 70 accepted)).tcp_connections ≡ (
            if contains id (ask_disconnect 70 accepted).disconnect_queue
            then 0
            else count_id id (ask_disconnect 70 accepted).tcp_connections))
handle_disconnection_lem_example =
    handle_disconnection_lem (ask_disconnect 70 accepted) run_context-Reaches_example

-- The connection's peer has sent three bytes, and then the main thread asks for its end.
abbrev reads : PollEvent
reads = record { type = read_event; fd = 5 }

nothing_left : (r : Option BaseServer) → OnSome (AdmitsAll []) r
nothing_left none = tt
nothing_left (some s) = tt

context_turn-Turned_example : Turned (context_turn (success ((reads, failed) ∷ [])) accepted)
context_turn-Turned_example =
    context_turn-Turned ((reads, failed) ∷ []) accepted (omega arith) (tt, nothing_left _)
      accepted-IsContext

free_nine : owners 9 fresh ≡ 0
unfolding is_fd is_single
free_nine = refl

connect_tcp-Connected_example :
    Connected
      (some 0)
      (success 9)
      (49 ∷ [])
      fresh
      (connect_tcp (some 0) (success 9) (49 ∷ []) fresh)
connect_tcp-Connected_example =
    connect_tcp-Connected (some 0) (success 9) (49 ∷ []) fresh free_nine fresh-IsReady

-- The client that `connect_tcp` makes of it, which then sends to its server
abbrev client : BaseServer
client = record fresh {
  generator = record { draws = 71 ∷ []; generated = 70 ∷ [] };
  tcp_connection = some (70, new_connection 9);
  tcp_events = (tcp_connected, 70) ∷ [];
}

client_right : connect_tcp (some 0) (success 9) (49 ∷ []) fresh ≡ some (success tt, client)
unfolding connect_tcp parse_ascii connect_checked tcp_connect new_uuid
client_right = refl

client-IsReady : IsReady client
client-IsReady =
    let c =
      subst (Connected (some 0) (success 9) (49 ∷ []) fresh) client_right
        (connect_tcp-Connected (some 0) (success 9) (49 ∷ []) fresh free_nine fresh-IsReady) in
    c.2.2.4
