-- ===== src/Net/Base/Supply.antt =====
-- libs/lib_net/super/BaseServer.cpp: an event of the poll takes one identifier at most from the generator,
-- so that a turn ends where the random engine has a new number for each event.
use project_e.Common.{
  ℕ, suc, ◌≤◌, ◌≡◌, refl, subst, Bool, true, false, Option, none, some, List, [], ◌∷◌, length,
  arith, Option-cases, inl, inr, if◌then◌else◌,
}
use project_e.Net.Result.{Result, success, failure}
use project_e.Net.Addr.{SocketAddr}
use project_e.Net.Poll.{EventType, read_event, write_event, error_event, PollEvent}
use project_e.Net.Uuid.{new_uuid}
use project_e.Net.Uuid.Supply.{identifiers_in, Drew, new_uuid-Drew}
use project_e.Net.Base.{BaseServer}
use project_e.Net.Base.Handlers.{
  Answers, admit, accept_stream, handle_new_tcp_connections, handle_tcp_read_connection,
  handle_tcp_read_events, received_udp, handle_udp_read_event,
}
use project_e.Net.Base.Dispatch.{
  dispatch, is_fd, is_single, handle_read, handle_write, handle_error, handle_poll_event,
}
use project_e.Net.Base.Loop.{
  handle_poll_events, prepare_write, handle_udp_socket_write, handle_tcp_connections_write,
  handle_tcp_connection_write,
}
use project_e.Net.Base.SameIds.{
  SameIds, read_connection-SameIds, tcp_read-SameIds, received_udp-SameIds, handle_write-SameIds,
  handle_error-SameIds,
}

abbrev pub identifiers_left : BaseServer → ℕ
identifiers_left s = identifiers_in s.generator.draws s.generator.generated

-- The server goes on, with as many identifiers left or one less.
abbrev Supplied : ℕ → Option BaseServer → Type 0
Supplied n none = ⊥
Supplied n (some s) = n ≤ suc (identifiers_left s)

same-Supplied : (s s' : BaseServer) → SameIds s s' → Supplied (identifiers_left s) (some s')
same-Supplied s s' e = rw e (omega arith)

admit-Supplied :
    (fd : ℕ) (nonblocking : Bool) (s : BaseServer)
    → 1 ≤ identifiers_left s
    → Supplied (identifiers_left s) (admit fd nonblocking s)
unfolding admit new_uuid
admit-Supplied fd false s h = omega arith
admit-Supplied fd true s h = elim (Option-cases (new_uuid s.generator)) [
  | inl e ↦ absurd (omega (arith, subst (Drew (identifiers_left s)) e (new_uuid-Drew s.generator)))
  | inr ((id, g), e) ↦
      let d = subst (Drew (identifiers_left s)) e (new_uuid-Drew s.generator) in
      rw (e, admit) (omega (arith, d))
]

accept_stream-Supplied :
    (r : Result (ℕ × SocketAddr) ℕ) (nonblocking : Bool) (s : BaseServer)
    → 1 ≤ identifiers_left s
    → Supplied (identifiers_left s) (accept_stream r nonblocking s)
unfolding accept_stream
accept_stream-Supplied (failure e) nonblocking s h = omega arith
accept_stream-Supplied (success (fd, addr)) nonblocking s h = admit-Supplied fd nonblocking s h

Supplied-if :
    (n : ℕ) (b : Bool) (r r' : Option BaseServer)
    → Supplied n r
    → Supplied n r'
    → Supplied n (if b then r else r')
Supplied-if n true r r' h h' = h
Supplied-if n false r r' h h' = h'

handle_read-Supplied :
    (fd : ℕ) (a : Answers) (s : BaseServer)
    → 1 ≤ identifiers_left s
    → Supplied (identifiers_left s) (handle_read fd a s)
unfolding handle_read handle_udp_read_event handle_new_tcp_connections
handle_read-Supplied fd a s h =
    Supplied-if _ (is_fd fd s.udp_socket) _ _
      (same-Supplied s (received_udp a.received s) (received_udp-SameIds a.received s))
      (Supplied-if _ (is_fd fd s.tcp_listener) _ _
        (accept_stream-Supplied a.accepted a.nonblocking s h)
        (Supplied-if _ (is_single fd s.tcp_connection) _ _
          (same-Supplied s (handle_tcp_read_connection a s) (read_connection-SameIds a s))
          (same-Supplied s (handle_tcp_read_events fd a s) (tcp_read-SameIds fd a s))))

dispatch-Supplied :
    (type : EventType) (fd : ℕ) (a : Answers) (s : BaseServer)
    → 1 ≤ identifiers_left s
    → Supplied (identifiers_left s) (dispatch type fd a s)
unfolding dispatch
dispatch-Supplied read_event fd a s h = handle_read-Supplied fd a s h
dispatch-Supplied write_event fd a s h =
    same-Supplied s (handle_write fd a s) (handle_write-SameIds fd a s)
dispatch-Supplied error_event fd a s h =
    same-Supplied s (handle_error fd s) (handle_error-SameIds fd s)

-- What is left after the events that are handled
after-Supplied :
    (n m : ℕ) (r : Option BaseServer) (f : BaseServer → Option BaseServer)
    → suc n ≤ m
    → Supplied m r
    → ((s : BaseServer) → n ≤ identifiers_left s → (s' : BaseServer) × (f s ≡ some s'))
    → (s' : BaseServer) × (elim r [ none ↦ none | some s ↦ f s ] ≡ some s')
after-Supplied n m none f le supplied go = absurd supplied
after-Supplied n m (some s) f le supplied go = go s (omega arith)

-- All events are handled where the engine has a new number for each.
pub handle_poll_events_total :
    (events : List (PollEvent × Answers)) (s : BaseServer)
    → length events ≤ identifiers_left s
    → (s' : BaseServer) × (handle_poll_events events s ≡ some s')
unfolding handle_poll_events handle_poll_event
handle_poll_events_total [] s h = (s, refl)
handle_poll_events_total ((event, a) ∷ rest) s h =
    after-Supplied (length rest) (identifiers_left s) (handle_poll_event event a s)
      (handle_poll_events rest) h (dispatch-Supplied event.type event.fd a s (omega arith))
      (handle_poll_events_total rest)

pub prepare_write-identifiers :
    (s : BaseServer) → identifiers_left (prepare_write s) ≡ identifiers_left s
unfolding prepare_write handle_udp_socket_write handle_tcp_connections_write
    handle_tcp_connection_write
prepare_write-identifiers s = refl
