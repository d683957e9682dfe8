-- ===== src/Net/Base/Keeps.antt =====
-- libs/lib_net/super/BaseServer.cpp: the handlers of the context thread keep the invariant.
use project_e.Common.{
  ℕ, ◌≤◌, ◌≡◌, sym, ap, true, false, Option, none, some, arith, Option-cases, inl, inr, subst, Bool,
}
use project_e.Net.Result.{Result, success, failure}
use project_e.Net.Addr.{SocketAddr}
use project_e.Net.Buffer.{Buffer}
use project_e.Net.Writer.{BufWriter}
use project_e.Net.Uuid.{contains, new_uuid}
use project_e.Net.Uuid.Fresh.{Fresh, new_uuid-Fresh}
use project_e.Net.Poll.Refines.{adds, removes, step_refines}
use project_e.Net.Base.{
  BaseServer, new_connection, find_connection, set_reader, set_writer, tcp_read, tcp_connected,
  tcp_disconnected, raise,
}
use project_e.Net.Base.Handlers.{
  Answers, disconnect_tcp_connection, disconnect_tcp_connection_single, admit,
}
use project_e.Net.Base.Dispatch.{is_single}
use project_e.Net.Base.Tables.{
  bit, count_stream-set_reader, count_id-set_reader, count_stream-set_writer, count_id-set_writer,
  count_stream-erase, count_id-erase,
}
use project_e.Net.Base.Invariant.{
  IsContext, holds, owners, holders, phase-raise, remove-Owned, add-Owned, connected-Tracked,
  read-Tracked, disconnected-Tracked,
}

-- What an event leaves
pub raise_read-IsContext :
    (id : ℕ) (s : BaseServer) → 1 ≤ holders id s → IsContext s → IsContext (raise tcp_read id s)
raise_read-IsContext id s there (t, o, k) = (
  t,
  o,
  λ j.
      rw (phase-raise j s.popped s.tcp_events tcp_read id)
        (read-Tracked j id _ (holders j s) _ (λ e. rw e there) (k j)),
)

pub set_reader-IsContext :
    (id : ℕ) (b : Buffer) (s : BaseServer)
    → IsContext s
    → IsContext (record s { tcp_connections = set_reader id b s.tcp_connections })
set_reader-IsContext id b s (t, o, k) = (
  t,
  λ fd. rw (count_stream-set_reader fd id b s.tcp_connections) (o fd),
  λ j. rw (count_id-set_reader j id b s.tcp_connections) (k j),
)

pub set_writer-IsContext :
    (id : ℕ) (w : BufWriter) (s : BaseServer)
    → IsContext s
    → IsContext (record s { tcp_connections = set_writer id w s.tcp_connections })
set_writer-IsContext id w s (t, o, k) = (
  t,
  λ fd. rw (count_stream-set_writer fd id w s.tcp_connections) (o fd),
  λ j. rw (count_id-set_writer j id w s.tcp_connections) (k j),
)

pub disconnect_tcp_connection-IsContext :
    (id : ℕ) (s : BaseServer) → IsContext s → IsContext (disconnect_tcp_connection id s)
unfolding disconnect_tcp_connection
disconnect_tcp_connection-IsContext id s (t, o, k) =
    elim (Option-cases (find_connection id s.tcp_connections)) [
      | inl e ↦ rw (e, disconnect_tcp_connection) (t, o, k)
      | inr (c, e) ↦
          rw (e, disconnect_tcp_connection)
            (
              (step_refines (removes c.stream) s.poll 0 t).0,
              λ fd.
                  remove-Owned c.stream fd (owners fd s) _ s.poll t
                    (omega (arith, count_stream-erase fd id s.tcp_connections e)) (o fd),
              λ j. rw (phase-raise j s.popped s.tcp_events tcp_disconnected id) (
                  disconnected-Tracked j id _ (holders j s) _ _
                    (omega (arith, count_id-erase j id s.tcp_connections e)) (k j)),
            )
    ]

pub disconnect_tcp_connection_single-IsContext :
    (s : BaseServer) → IsContext s → IsContext (disconnect_tcp_connection_single s)
unfolding disconnect_tcp_connection_single is_single
disconnect_tcp_connection_single-IsContext s (t, o, k) = elim (Option-cases s.tcp_connection) [
  | inl e ↦ rw (e, disconnect_tcp_connection_single) (t, o, k)
  | inr ((id, c), e) ↦
      rw (e, disconnect_tcp_connection_single)
        (
          (step_refines (removes c.stream) s.poll 0 t).0,
          λ fd.
              remove-Owned c.stream fd (owners fd s) _ s.poll t
                (omega (arith, ap (λ x. bit (is_single fd x)) e)) (o fd),
          λ j. rw (phase-raise j s.popped s.tcp_events tcp_disconnected id) (
              disconnected-Tracked j id _ (holders j s) _ _
                (omega (arith, ap (λ x. bit (holds j x)) e)) (k j)),
        )
]

-- The run after a handler keeps the invariant, where it has not ended.
abbrev pub Kept : Option BaseServer → Type 0
Kept none = Unit
Kept (some s) = IsContext s

-- What the operating system is relied on for: an accepted socket has a descriptor that no open socket
-- has, and can be made non-blocking.
abbrev pub AdmitsStream : Result (ℕ × SocketAddr) ℕ → Bool → BaseServer → Type 0
AdmitsStream (failure _) nonblocking s = Unit {0}
AdmitsStream (success (fd, _)) nonblocking s = (owners fd s ≡ 0) × (nonblocking ≡ true)

abbrev pub Admits : Answers → BaseServer → Type 0
Admits a s = AdmitsStream a.accepted a.nonblocking s

pub admit-Kept : (fd : ℕ) (s : BaseServer) → owners fd s ≡ 0 → IsContext s → Kept (admit fd true s)
unfolding admit new_connection
admit-Kept fd s free (t, o, k) = elim (Option-cases (new_uuid s.generator)) [
  | inl e ↦ rw (e, admit) tt
  | inr ((id, g), e) ↦
      let (_, _, _, new, gen) = subst (Fresh s.generator) e (new_uuid-Fresh s.generator) in
      rw (e, admit)
        (
          (step_refines (adds fd) s.poll 0 t).0,
          λ x.
              add-Owned fd x (owners x s) _ s.poll t (λ e. subst (λ y. owners y s ≡ 0) (sym e) free)
                (omega arith) (o x),
          λ j.
              rw (gen, phase-raise j s.popped s.tcp_events tcp_connected id)
                (connected-Tracked j id _ (holders j s) _ _
                  (λ e. subst (λ y. contains y s.generator.generated ≡ false) (sym e) new)
                  (omega arith) (k j)),
        )
]
