-- ===== src/Net/Base/Reach.antt =====
-- libs/lib_net/super/BaseServer.cpp: the states that a running server reaches, with the context thread's
-- steps and the main thread's in any order.
use project_e.Common.{
  ℕ, ◌+◌, ◌≤◌, ◌≡◌, refl, ◌∙◌, ap, subst, sym, Bool, true, false, Option, none, some, List, [],
  arith, Option-cases, List-cases, inl, inr, ◌||◌,
}
use project_e.Net.Buffer.{Buffer}
use project_e.Net.Addr.{SocketAddr}
use project_e.Net.Uuid.{contains}
use project_e.Net.Poll.{PollEvent, Fd}
use project_e.Net.Poll.Refines.{IsTable, reads_of, writes_of, adds, step_refines}
use project_e.Net.Base.{
  BaseServer, TcpConnection, send_tcp, send_udp_to, send_udp_connected, ask_disconnect,
  stop_context, start_context, Kind, connect_tcp, connect_checked, connect_udp, host_tcp, host_udp,
}
use project_e.Net.Result.{Result, failure}
use project_e.Net.Addr.Text.{parse_ascii}
use project_e.Net.Base.Events.{pop_tcp_event, pop_datagram}
use project_e.Net.Base.Handlers.{Answers}
use project_e.Net.Base.Dispatch.{handle_poll_event, is_fd, is_single}
use project_e.Net.Base.Loop.{
  prepare_write, pop_disconnect, pop_send, run_context, watch_socket, watch_single,
}
use project_e.Net.Base.Tables.{bit, count_stream}
use project_e.Net.Base.Invariant.{IsContext, Tracked, owners, holders, phase, raised, Owned}
use project_e.Net.Base.Keeps.{Kept, Admits}
use project_e.Net.Base.Watch.{prepare_write-pending}
use project_e.Net.Base.Steps.{
  handle_poll_event-Kept, pop_disconnect-IsContext, pop_send-IsContext, pop_tcp_event-IsContext,
}

pub data Step (s : BaseServer) : BaseServer → Type 0 where
  prepares : Step s (prepare_write s)
  handles :
      (event : PollEvent) (a : Answers) {s' : BaseServer}
      → Admits a s
      → handle_poll_event event a s ≡ some s'
      → Step s s'
  disconnects : Step s (pop_disconnect s)
  appends : Step s (pop_send s)
  sends_tcp : (id : ℕ) (bytes : List ℕ) → Step s (send_tcp id bytes s)
  sends_udp : (addr : SocketAddr) (bytes : List ℕ) → Step s (send_udp_to addr bytes s)
  sends_connected : (bytes : List ℕ) → Step s (send_udp_connected bytes s)
  asks : (id : ℕ) → Step s (ask_disconnect id s)
  pops : (on_data : ℕ → Buffer → Buffer) → Step s (pop_tcp_event on_data s)
  pops_datagram : Step s (pop_datagram s)
  stops : Step s (stop_context s)
  refuses_tcp :
      (looked_up : Option ℕ) (connected : Result ℕ ℕ) (ip : List ℕ)
      {answer : Result (Unit {0}) Kind} {s' : BaseServer}
      → s.running ≡ true
      → connect_tcp looked_up connected ip s ≡ some (answer, s')
      → Step s s'
  refuses_udp :
      (looked_up : Option ℕ) (bound : Result ℕ ℕ) (local : Result SocketAddr ℕ) (ip : List ℕ)
      (port : ℕ)
      → s.running ≡ true
      → Step s (connect_udp looked_up bound local ip port s).1
  starts_again : (started : Bool) → s.running ≡ true → Step s (start_context started s).1
  hosts_no_tcp : (code : ℕ) → Step s (host_tcp (failure code) s).1
  hosts_no_udp : (code : ℕ) → Step s (host_udp (failure code) s).1

pub data Reaches (s : BaseServer) : BaseServer → Type 0 where
  starts : Reaches s s
  goes_on : {m s' : BaseServer} → Reaches s m → Step m s' → Reaches s s'

abbrev OnState : (BaseServer → Type 0) → Option (Result (Unit {0}) Kind × BaseServer) → Type 0
OnState P none = Unit
OnState P (some (answer, s)) = P s

Step-IsContext : (s s' : BaseServer) → Step s s' → IsContext s → IsContext s'
unfolding send_tcp send_udp_to send_udp_connected ask_disconnect pop_datagram stop_context
    connect_tcp connect_checked connect_udp start_context host_tcp host_udp
Step-IsContext s _ prepares h = (prepare_write-pending s h).0
Step-IsContext s s' (handles event a ok e) h = subst Kept e (handle_poll_event-Kept event a s ok h)
Step-IsContext s _ disconnects h = pop_disconnect-IsContext s h
Step-IsContext s _ appends h = pop_send-IsContext s h
Step-IsContext s _ (sends_tcp id bytes) h = h
Step-IsContext s _ (sends_udp addr bytes) h = h
Step-IsContext s _ (sends_connected bytes) h = elim (Option-cases s.udp_connection_addr) [
  | inl e ↦ rw (e, send_udp_connected) h
  | inr (addr, e) ↦ rw (e, send_udp_connected) h
]
Step-IsContext s _ (asks id) h = h
Step-IsContext s _ (pops on_data) h = pop_tcp_event-IsContext on_data s h
Step-IsContext s _ pops_datagram h = elim (List-cases s.recv_udp_queue) [
  | inl e ↦ rw (e, pop_datagram) h
  | inr (d, rest, e) ↦ rw (e, pop_datagram) h
]
Step-IsContext s _ stops h = h
Step-IsContext s s' (refuses_tcp looked_up connected ip run e) h =
    let refused =
      ap (λ r. connect_checked r s.tcp_connection (parse_ascii looked_up ip) connected s) run in
    subst (OnState IsContext) (sym refused ∙ e) h
Step-IsContext s _ (refuses_udp looked_up bound local ip port run) h = rw (run, connect_udp) h
Step-IsContext s _ (starts_again started run) h = rw (run, start_context) h
Step-IsContext s _ (hosts_no_tcp code) h = h
Step-IsContext s _ (hosts_no_udp code) h = h

Reaches-IsContext : (s s' : BaseServer) → Reaches s s' → IsContext s → IsContext s'
Reaches-IsContext s _ starts h = h
Reaches-IsContext s s' (goes_on {m = m} r step) h =
    Step-IsContext m s' step (Reaches-IsContext s m r h)

-- A server that is set up and has not run yet
pub record IsReady (s : BaseServer) : Type 0 where
  pub none_accepted : s.tcp_connections ≡ []
  pub one_socket : (fd : ℕ) → owners fd s ≤ 1
  pub tracked :
      (id : ℕ) → Tracked (contains id s.generator.generated) (holders id s) (phase id (raised s))

watch_socket-Rewatched :
    (socket : Option ℕ) (ps : List Fd)
    → IsTable ps
    → IsTable (watch_socket socket ps)
      × ((g : ℕ)
          → (reads_of g (watch_socket socket ps) ≡ (is_fd g socket || reads_of g ps))
            × (writes_of g (watch_socket socket ps) ≡ writes_of g ps))
unfolding watch_socket is_fd
watch_socket-Rewatched none ps t = (t, λ g. (refl, refl))
watch_socket-Rewatched (some fd) ps t = (
  (step_refines (adds fd) ps 0 t).0,
  λ g. let w = (step_refines (adds fd) ps g t).1 in (w.reads, w.writes),
)

watch_single-Rewatched :
    (single : Option (ℕ × TcpConnection)) (ps : List Fd)
    → IsTable ps
    → IsTable (watch_single single ps)
      × ((g : ℕ)
          → (reads_of g (watch_single single ps) ≡ (is_single g single || reads_of g ps))
            × (writes_of g (watch_single single ps) ≡ writes_of g ps))
unfolding watch_single is_single
watch_single-Rewatched none ps t = (t, λ g. (refl, refl))
watch_single-Rewatched (some (id, c)) ps t = (
  (step_refines (adds c.stream) ps 0 t).0,
  λ g. let w = (step_refines (adds c.stream) ps g t).1 in (w.reads, w.writes),
)

started-Owned :
    (udp listener single reads writes : Bool) (count : ℕ)
    → count ≡ 0
    → bit udp + (bit listener + (bit single + count)) ≤ 1
    → reads ≡ (single || (listener || (udp || false)))
    → writes ≡ false
    → Owned (bit udp + (bit listener + (bit single + count))) reads writes
started-Owned udp listener single reads writes count none_there one r w =
    (one, ground arith, ground arith)

run_context-IsContext : (s : BaseServer) → IsReady s → IsContext (run_context s)
unfolding run_context
run_context-IsContext s ready =
    let (t1, w1) = watch_socket-Rewatched s.udp_socket [] tt in
    let (t2, w2) = watch_socket-Rewatched s.tcp_listener _ t1 in
    let (t3, w3) = watch_single-Rewatched s.tcp_connection _ t2 in
    (
      t3,
      λ g.
          started-Owned (is_fd g s.udp_socket) (is_fd g s.tcp_listener)
            (is_single g s.tcp_connection) _ _ (count_stream g s.tcp_connections)
            (ap (count_stream g) ready.none_accepted) (ready.one_socket g)
            ((w3 g).0
              ∙ ap (λ r. is_single g s.tcp_connection || r)
                  ((w2 g).0 ∙ ap (λ r. is_fd g s.tcp_listener || r) (w1 g).0))
            ((w3 g).1 ∙ (w2 g).1 ∙ (w1 g).1),
      ready.tracked,
    )

-- A server that has no connection yet, whose sockets are distinct, and whose events agree with its ids,
-- keeps the invariant once it runs, through any sequence of the following steps: the context thread
-- prepares the poll for writing, handles an event of the poll, or takes a request to disconnect or to
-- send from its queue; the main thread calls `send_tcp`, `send_udp`, `ask_disconnect` or `stop_context`,
-- takes an event or a datagram, has `connect_tcp`, `connect_udp` or `start_context` refused while the
-- server runs, or has `bind` fail in `host_tcp` or `host_udp`. The events, and what the sockets answer, are
-- any, except that an accepted socket has a descriptor that no other socket has and can be made
-- non-blocking. The invariant is that a descriptor has one socket at most, the poll watches exactly the
-- sockets for reading and only sockets for writing, ids are unique and never given out twice, and of
-- each id the main thread is told in order of its connection, its data and its disconnection. Not among the steps are a
-- `host_tcp` or `host_udp` that succeeds on a running server and a `connect_tcp`, `connect_udp` or
-- `start_context` after `stop_context`.
pub run_context-Reaches :
    (s s' : BaseServer) → IsReady s → Reaches (run_context s) s' → IsContext s'
run_context-Reaches s s' ready r =
    Reaches-IsContext (run_context s) s' r (run_context-IsContext s ready)
