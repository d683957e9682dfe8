-- ===== src/Net/Base/Setup.antt =====
-- libs/lib_net/super/BaseServer.cpp: what `connect_tcp` and the destructor leave, and what is sent to
-- the server that a client has connected to.
use project_e.Common.{
  ℕ, ◌+◌, ◌≤◌, ◌≡◌, refl, sym, ap, subst, Bool, true, false, Option, none, some, List, [], ◌∷◌,
  ◌++◌, arith, ◌==◌, Option-cases, inl, inr, All, ==_iff, ◌⊎◌,
}
use project_e.Net.Result.{Result, success, failure}
use project_e.Net.Addr.{Ipv4Addr}
use project_e.Net.Uuid.{contains, new_uuid}
use project_e.Net.Uuid.Fresh.{Fresh, new_uuid-Fresh}
use project_e.Net.Base.{
  BaseServer, connect_checked, Kind, bind_error, TcpConnection, tcp_connected, connect_tcp,
  tcp_connect, new_connection, server_already_running, socket_already_connected, bad_ip_address,
  tcp_connect_error,
}
use project_e.Net.Addr.Text.{AddrParseError, parse_ascii}
use project_e.Net.Base.Dispatch.{is_fd, is_single}
use project_e.Net.Base.Loop.{pop_send, append_data}
use project_e.Net.Base.Turn.{bit_le}
use project_e.Net.Base.Tables.{find_connection-none, bit, count_stream}
use project_e.Net.Base.Invariant.{IsContext, owners, holders, holds, phase-raise, connected-Tracked}
use project_e.Net.Base.Reach.{IsReady}

-- What `connect_tcp` asks for before it opens a socket: no running thread, no connection yet, and a
-- text that names an address
abbrev pub IsIdle : BaseServer → Type 0
IsIdle s = (s.running ≡ false) × (s.tcp_connection ≡ none)

abbrev pub IsResolved : Option ℕ → List ℕ → Type 0
IsResolved looked_up ip = (¬ ip ≡ []) × (¬ looked_up ≡ none)

-- When `connect_tcp` gives an error: each where what is asked before it is met
abbrev pub Reason : Option ℕ → Result ℕ ℕ → List ℕ → BaseServer → Kind → Type 0
Reason looked_up connected ip s server_already_running = (s.running ≡ true)
Reason looked_up connected ip s socket_already_connected =
    (s.running ≡ false) × ¬ s.tcp_connection ≡ none
Reason looked_up connected ip s bad_ip_address = IsIdle s × ((ip ≡ []) ⊎ (looked_up ≡ none))
Reason looked_up connected ip s tcp_connect_error =
    IsIdle s × IsResolved looked_up ip × ((code : ℕ) × (connected ≡ failure code))
Reason looked_up connected ip s bind_error = ⊥

abbrev pub FreeSocket : Result ℕ ℕ → BaseServer → Type 0
FreeSocket (failure e) s = Unit
FreeSocket (success fd) s = (owners fd s ≡ 0)

-- What a connected server is: the socket is the single connection's, under a new id.
abbrev pub IsConnected : ℕ → BaseServer → BaseServer → Type 0
IsConnected fd s s' =
    (id : ℕ) × (s'.tcp_connection ≡ some (id, new_connection fd))
    × (s'.tcp_events ≡ s.tcp_events ++ (tcp_connected, id) ∷ [])
    × (contains id s.generator.generated ≡ false)
    × IsReady s'

abbrev pub Connected :
    Option ℕ
    → Result ℕ ℕ
    → List ℕ
    → BaseServer
    → Option (Result (Unit {0}) Kind × BaseServer)
    → Type 0
Connected looked_up connected ip s none =
    IsIdle s
    × IsResolved looked_up ip
    × ((fd : ℕ) × (connected ≡ success fd))
    × All (λ d. contains d s.generator.generated ≡ true) s.generator.draws
Connected looked_up connected ip s (some (failure e, s')) =
    (s' ≡ s) × Reason looked_up connected ip s e
Connected looked_up connected ip s (some (success _, s')) =
    IsIdle s × IsResolved looked_up ip × ((fd : ℕ) × (connected ≡ success fd) × IsConnected fd s s')

with_single :
    (udp listener single new : Bool) (count : ℕ)
    → (new ≡ true → bit udp + (bit listener + (bit single + count)) ≡ 0)
    → bit udp + (bit listener + (bit single + count)) ≤ 1
    → single ≡ false
    → bit udp + (bit listener + (bit new + count)) ≤ 1
with_single udp listener single true count free one e = omega (arith, free refl)
with_single udp listener single false count free one e = ground arith

tcp_connect-Connected :
    (looked_up : Option ℕ) (ip : List ℕ) (fd : ℕ) (s : BaseServer)
    → owners fd s ≡ 0
    → IsIdle s
    → IsResolved looked_up ip
    → IsReady s
    → Connected looked_up (success fd) ip s (tcp_connect fd s)
unfolding tcp_connect new_connection is_single
tcp_connect-Connected looked_up ip fd s free (stopped, none_yet) resolved ready =
    elim (Option-cases (new_uuid s.generator)) [
      | inl e ↦
          rw (e, tcp_connect)
            (
              (stopped, none_yet),
              resolved,
              (fd, refl),
              subst (Fresh s.generator) e (new_uuid-Fresh s.generator),
            )
      | inr ((id, g), e) ↦
          let (_, _, _, new, gen) = subst (Fresh s.generator) e (new_uuid-Fresh s.generator) in
          rw (e, tcp_connect)
            (
              (stopped, none_yet),
              resolved,
              (
                fd,
                refl,
                (
                  id,
                  refl,
                  refl,
                  new,
                  record {
                    none_accepted = ready.none_accepted;
                    one_socket = λ x.
                        with_single (is_fd x s.udp_socket) (is_fd x s.tcp_listener)
                          (is_single x s.tcp_connection) (x == fd)
                          (count_stream x s.tcp_connections)
                          (λ hit. subst (λ y. owners y s ≡ 0) (sym ((==_iff x fd).0 hit)) free)
                          (ready.one_socket x) (ap (is_single x) none_yet);
                    tracked = λ j.
                        rw (gen, phase-raise j s.popped s.tcp_events tcp_connected id)
                          (connected-Tracked j id _ (holders j s) _ _
                            (λ e. subst (λ y. contains y s.generator.generated ≡ false) (sym e) new)
                            (omega (arith, ap (λ x. bit (holds j x)) none_yet)) (ready.tracked j));
                  },
                ),
              ),
            )
    ]

unresolved :
    (looked_up : Option ℕ) (ip : List ℕ) {e : AddrParseError}
    → parse_ascii looked_up ip ≡ failure e
    → (ip ≡ []) ⊎ (looked_up ≡ none)
unfolding parse_ascii
unresolved looked_up [] h = inl refl
unresolved none (c ∷ cs) h = inr refl
unresolved (some addr) (c ∷ cs) h = cc

resolves :
    (looked_up : Option ℕ) (ip : List ℕ) {address : Ipv4Addr}
    → parse_ascii looked_up ip ≡ success address
    → IsResolved looked_up ip
unfolding parse_ascii
resolves looked_up [] h = cc
resolves none (c ∷ cs) h = cc
resolves (some addr) (c ∷ cs) h = (λ no. cc, λ no. cc)

connect_checked-Connected :
    (looked_up : Option ℕ) (ip : List ℕ) (running : Bool) (single : Option (ℕ × TcpConnection))
    (address : Result Ipv4Addr AddrParseError) (connected : Result ℕ ℕ) (s : BaseServer)
    → s.running ≡ running
    → s.tcp_connection ≡ single
    → parse_ascii looked_up ip ≡ address
    → FreeSocket connected s
    → IsReady s
    → Connected looked_up connected ip s (connect_checked running single address connected s)
unfolding connect_checked
connect_checked-Connected looked_up ip true single address connected s run e p free ready =
    (refl, run)
connect_checked-Connected looked_up ip false (some c) address connected s run e p free ready =
    (refl, (run, λ no. cc))
connect_checked-Connected looked_up ip false none (failure why) connected s run e p free ready =
    (refl, ((run, e), unresolved looked_up ip p))
connect_checked-Connected looked_up ip false none (success a) (failure code) s run e p free ready =
    (refl, ((run, e), resolves looked_up ip p, (code, refl)))
connect_checked-Connected looked_up ip false none (success a) (success fd) s run e p free ready =
    tcp_connect-Connected looked_up ip fd s free (run, e) (resolves looked_up ip p) ready

-- `connect_tcp`, on a server that is ready and with a socket that no other one has, comes to one of these.
-- It is refused, and leaves the server as it was: because the server runs; or, where it does not, because it
-- is connected already; or, where it is not, because the text is empty or names no address; or, where it names
-- one, because the socket's `connect` fails. Or, where the server does not run, had no connection,
-- the text names an address and `connect` succeeds, the socket is the connection's under an id that was not given out
-- before, the main thread is told so, and the server is still ready; unless every number that the random
-- engine will give was given out before.
pub connect_tcp-Connected :
    (looked_up : Option ℕ) (connected : Result ℕ ℕ) (ip : List ℕ) (s : BaseServer)
    → FreeSocket connected s
    → IsReady s
    → Connected looked_up connected ip s (connect_tcp looked_up connected ip s)
unfolding connect_tcp
connect_tcp-Connected looked_up connected ip s free ready =
    connect_checked-Connected looked_up ip s.running s.tcp_connection (parse_ascii looked_up ip)
      connected s refl refl refl free ready

-- On a state that satisfies the invariant, what the main thread sends to the id of the single connection, the one that
-- `connect_tcp` made, is dropped: it is taken from the queue, and nothing else changes.
pub pop_send_single :
    (id : ℕ) (c : TcpConnection) (bytes : List ℕ) (rest : List (ℕ × List ℕ)) (s : BaseServer)
    → s.tcp_connection ≡ some (id, c)
    → s.send_tcp_queue ≡ (id, bytes) ∷ rest
    → IsContext s
    → pop_send s ≡ record s { send_tcp_queue = rest }
unfolding pop_send append_data
pop_send_single id c bytes rest s single queue (t, o, k) =
    let absent = find_connection-none id s.tcp_connections (
      ground (
        arith,
        (k id).0,
        ap (λ x. bit (holds id x)) single,
        bit_le (contains id s.generator.generated),
      )) in
    rw (queue, pop_send, append_data, absent) refl
