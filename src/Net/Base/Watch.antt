-- ===== src/Net/Base/Watch.antt =====
-- libs/lib_net/super/BaseServer.cpp: `prepare_write` and the poll that it leaves.
use project_e.Common.{
  ℕ, ◌+◌, ◌≤◌, ◌≡◌, refl, ◌∙◌, ap, Bool, true, false, not, Option, none, some, List, [], ◌∷◌, arith,
  ◌==◌, if◌then◌else◌, ltb, ◌&&◌, ◌||◌,
}
use project_e.Net.Poll.{Fd}
use project_e.Net.Poll.Refines.{
  IsTable, reads_of, writes_of, add_writes, remove_writes, step_refines,
}
use project_e.Net.Base.{BaseServer, TcpConnection}
use project_e.Net.Base.Dispatch.{is_fd, is_single}
use project_e.Net.Base.Loop.{
  watch_connection, watch_udp, is_empty, watch_write, handle_tcp_connection_write, watch_all,
  handle_tcp_connections_write, handle_udp_socket_write, prepare_write,
}
use project_e.Net.Base.Tables.{bit, count_stream}
use project_e.Net.Base.Invariant.{IsContext}

-- A table after `add_write` or `remove_write` calls: the same descriptors are watched for reading, and
-- `writes` says which are for writing.
abbrev pub Rewatched : List Fd → (ℕ → Bool) → List Fd → Type 0
Rewatched ps writes qs =
    IsTable qs × ((g : ℕ) → (reads_of g qs ≡ reads_of g ps) × (writes_of g qs ≡ writes g))

watch_write-Rewatched :
    (empty : Bool) (fd : ℕ) (ps : List Fd)
    → IsTable ps
    → Rewatched ps (λ g. if g == fd then not empty else writes_of g ps) (watch_write empty fd ps)
watch_write-Rewatched true fd ps t = (
  (step_refines (remove_writes fd) ps 0 t).0,
  λ g. let w = (step_refines (remove_writes fd) ps g t).1 in (w.reads, ground (arith, w.writes)),
)
watch_write-Rewatched false fd ps t = (
  (step_refines (add_writes fd) ps 0 t).0,
  λ g. let w = (step_refines (add_writes fd) ps g t).1 in (w.reads, ground (arith, w.writes)),
)

-- Whether a connection waits to write, if it has the descriptor
abbrev pub waits_in : ℕ → List (ℕ × TcpConnection) → Bool → Bool
waits_in fd [] otherwise = otherwise
waits_in fd ((id, c) ∷ cs) otherwise =
    waits_in fd cs (if fd == c.stream then not (is_empty c.writer.bytes) else otherwise)

watch_all-Rewatched :
    (cs : List (ℕ × TcpConnection)) (ps : List Fd)
    → IsTable ps
    → Rewatched ps (λ g. waits_in g cs (writes_of g ps)) (watch_all cs ps)
unfolding watch_all
watch_all-Rewatched [] ps t = (t, λ g. (refl, refl))
watch_all-Rewatched ((id, c) ∷ cs) ps t =
    let (t', w) = watch_write-Rewatched (is_empty c.writer.bytes) c.stream ps t in
    let (t'', v) = watch_all-Rewatched cs (watch_write (is_empty c.writer.bytes) c.stream ps) t' in
    (t'', λ g. ((v g).0 ∙ (w g).0, (v g).1 ∙ ap (waits_in g cs) (w g).1))

-- Whether there is something to be written to a descriptor
abbrev pub pending_in : ℕ → List (ℕ × TcpConnection) → Bool
pending_in fd [] = false
pending_in fd ((id, c) ∷ cs) = (fd == c.stream && not (is_empty c.writer.bytes)) || pending_in fd cs

abbrev pub pending_single : ℕ → Option (ℕ × TcpConnection) → Bool
pending_single fd none = false
pending_single fd (some (id, c)) = fd == c.stream && not (is_empty c.writer.bytes)

abbrev pub pending : ℕ → BaseServer → Bool
pending fd s =
    (is_fd fd s.udp_socket && not (is_empty s.send_udp_queue))
    || (pending_single fd s.tcp_connection || pending_in fd s.tcp_connections)

pending_in-absent :
    (fd : ℕ) (cs : List (ℕ × TcpConnection)) → count_stream fd cs ≡ 0 → pending_in fd cs ≡ false
pending_in-absent fd [] h = refl
pending_in-absent fd ((id, c) ∷ cs) h = ground (arith, pending_in-absent fd cs)

waits_in-pending_in :
    (fd : ℕ) (cs : List (ℕ × TcpConnection)) (otherwise : Bool)
    → count_stream fd cs ≤ 1
    → waits_in fd cs otherwise
      ≡ (if ltb 0 (count_stream fd cs) then pending_in fd cs else otherwise)
waits_in-pending_in fd [] otherwise h = refl
waits_in-pending_in fd ((id, c) ∷ cs) otherwise h = ground (
  arith,
  waits_in-pending_in fd cs (if fd == c.stream then not (is_empty c.writer.bytes) else otherwise),
  pending_in-absent fd cs,
)

single-Rewatched :
    (single : Option (ℕ × TcpConnection)) (ps : List Fd)
    → IsTable ps
    → Rewatched ps
        (λ g. if is_single g single then pending_single g single else writes_of g ps)
        (watch_connection single ps)
unfolding watch_connection is_single
single-Rewatched none ps t = (t, λ g. (refl, refl))
single-Rewatched (some (id, c)) ps t =
    let (t', w) = watch_write-Rewatched (is_empty c.writer.bytes) c.stream ps t in
    (t', λ g. ((w g).0, ground (arith, (w g).1)))

udp-Rewatched :
    (udp : Option ℕ) (empty : Bool) (ps : List Fd)
    → IsTable ps
    → Rewatched ps (λ g. if is_fd g udp then not empty else writes_of g ps) (watch_udp udp empty ps)
unfolding watch_udp is_fd
udp-Rewatched none empty ps t = (t, λ g. (refl, refl))
udp-Rewatched (some fd) empty ps t = watch_write-Rewatched empty fd ps t

pending_single-absent :
    (fd : ℕ) (single : Option (ℕ × TcpConnection))
    → is_single fd single ≡ false
    → pending_single fd single ≡ false
unfolding is_single
pending_single-absent fd none h = refl
pending_single-absent fd (some (id, c)) h = rw h refl

-- Where each descriptor has one socket at most, the last call decides for the one that it is about.
choose :
    (udp listener single : Bool) (count : ℕ) (wanted p q old : Bool)
    → bit udp + (bit listener + (bit single + count)) ≤ 1
    → (single ≡ false → p ≡ false)
    → (count ≡ 0 → q ≡ false)
    → (if udp then wanted else (if ltb 0 count then q else (if single then p else old)))
      ≡ (if udp || (single || ltb 0 count) then (udp && wanted) || (p || q) else old)
choose udp listener single count wanted p q old one no_single none_there = ground arith

prepare_write-Rewatched :
    (s : BaseServer)
    → IsContext s
    → Rewatched s.poll
        (λ g.
          if is_fd g s.udp_socket
            || (is_single g s.tcp_connection || ltb 0 (count_stream g s.tcp_connections))
          then pending g s
          else writes_of g s.poll)
        (prepare_write s).poll
unfolding prepare_write handle_udp_socket_write handle_tcp_connections_write
    handle_tcp_connection_write
prepare_write-Rewatched s (t, o, k) =
    let (t1, w1) = single-Rewatched s.tcp_connection s.poll t in
    let (t2, w2) = watch_all-Rewatched s.tcp_connections _ t1 in
    let (t3, w3) = udp-Rewatched s.udp_socket (is_empty s.send_udp_queue) _ t2 in
    (
      t3,
      λ g. (
        (w3 g).0 ∙ (w2 g).0 ∙ (w1 g).0,
        (w3 g).1
            ∙ ap (λ o. if is_fd g s.udp_socket then not (is_empty s.send_udp_queue) else o)
                ((w2 g).1
                  ∙ waits_in-pending_in g s.tcp_connections _ (omega (arith, (o g).0))
                  ∙ ap
                      (λ o.
                        if ltb 0 (count_stream g s.tcp_connections)
                        then pending_in g s.tcp_connections
                        else o)
                      (w1 g).1)
            ∙ choose (is_fd g s.udp_socket) (is_fd g s.tcp_listener) (is_single g s.tcp_connection)
                (count_stream g s.tcp_connections) _ _ _ _ (o g).0
                (pending_single-absent g s.tcp_connection) (pending_in-absent g s.tcp_connections),
      ),
    )

bit-choose :
    (udp listener single p old : Bool) (count : ℕ)
    → bit old ≤ bit udp + (bit listener + (bit single + count))
    → bit (if udp || (single || ltb 0 count) then p else old)
      ≤ bit udp + (bit listener + (bit single + count))
bit-choose udp listener single true old count h = ground arith
bit-choose udp listener single false old count h = ground arith

-- Before it waits, the context thread makes the poll watch a socket for writing exactly where something
-- is to be written: for the UDP socket where its queue holds a datagram, for a connection where its
-- writer holds bytes; on a state that satisfies the invariant, which it keeps, and whatever was
-- watched before. The listener and descriptors without a socket are left as they are.
pub prepare_write-pending :
    (s : BaseServer)
    → IsContext s
    → IsContext (prepare_write s)
      × ((fd : ℕ)
          → writes_of fd (prepare_write s).poll ≡ (
              if is_fd fd s.udp_socket
                || (is_single fd s.tcp_connection || ltb 0 (count_stream fd s.tcp_connections))
              then pending fd s
              else writes_of fd s.poll))
unfolding prepare_write handle_udp_socket_write handle_tcp_connections_write
    handle_tcp_connection_write
prepare_write-pending s h =
    let (t, w) = prepare_write-Rewatched s h in
    (
      (
        t,
        λ fd. (
          (h.1 fd).0,
          (w fd).0 ∙ (h.1 fd).1,
          rw (w fd).1 (
              bit-choose (is_fd fd s.udp_socket) (is_fd fd s.tcp_listener)
                (is_single fd s.tcp_connection) (pending fd s) _ _ (h.1 fd).2),
        ),
        h.2,
      ),
      λ fd. (w fd).1,
    )
