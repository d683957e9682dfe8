-- ===== src/Net/Base/Closing.antt =====
-- libs/lib_net/super/BaseServer.cpp: what the destructor closes.
use project_e.Common.{ℕ, ◌+◌, ◌≡◌, refl, ap, Option, none, some, List, [], ◌∷◌, ◌++◌, arith, ◌==◌}
use project_e.Net.Base.{BaseServer, TcpConnection}
use project_e.Net.Base.Dispatch.{is_fd, is_single}
use project_e.Net.Base.Loop.{destroy, streams, socket_fd, single_fd}
use project_e.Net.Base.Tables.{bit, count_stream}
use project_e.Net.Base.Invariant.{owners}

-- How often a descriptor is closed
abbrev pub closes : ℕ → List ℕ → ℕ
closes fd [] = 0
closes fd (x ∷ xs) = bit (fd == x) + closes fd xs

closes-append : (fd : ℕ) (xs ys : List ℕ) → closes fd (xs ++ ys) ≡ closes fd xs + closes fd ys
closes-append fd [] ys = omega arith
closes-append fd (x ∷ xs) ys = omega (arith, closes-append fd xs ys)

closes-streams :
    (fd : ℕ) (cs : List (ℕ × TcpConnection)) → closes fd (streams cs) ≡ count_stream fd cs
closes-streams fd [] = refl
closes-streams fd ((id, c) ∷ cs) = ap (λ n. bit (fd == c.stream) + n) (closes-streams fd cs)

closes-socket_fd :
    (fd : ℕ) (socket : Option ℕ) → closes fd (socket_fd socket) ≡ bit (is_fd fd socket)
unfolding socket_fd is_fd
closes-socket_fd fd none = refl
closes-socket_fd fd (some own) = omega arith

closes-single_fd :
    (fd : ℕ) (single : Option (ℕ × TcpConnection))
    → closes fd (single_fd single) ≡ bit (is_single fd single)
unfolding single_fd is_single
closes-single_fd fd none = refl
closes-single_fd fd (some (id, c)) = omega arith

-- The destructor closes the listener and the UDP socket once, and the stream of each connection
-- twice: once itself, and once as the connection is destroyed.
pub closes-destroy :
    (fd : ℕ) (s : BaseServer)
    → closes fd (destroy s).closed
      ≡ closes fd s.closed
        + (owners fd s + (bit (is_single fd s.tcp_connection) + count_stream fd s.tcp_connections))
unfolding destroy
closes-destroy fd s =
    let cs = streams s.tcp_connections in
    let l = socket_fd s.tcp_listener in
    let u = socket_fd s.udp_socket in
    let c = single_fd s.tcp_connection in
    omega (
      arith,
      closes-append fd (s.closed ++ cs ++ l ++ u ++ c ++ cs) c,
      closes-append fd (s.closed ++ cs ++ l ++ u ++ c) cs,
      closes-append fd (s.closed ++ cs ++ l ++ u) c,
      closes-append fd (s.closed ++ cs ++ l) u,
      closes-append fd (s.closed ++ cs) l,
      closes-append fd s.closed cs,
      closes-streams fd s.tcp_connections,
      closes-socket_fd fd s.tcp_listener,
      closes-socket_fd fd s.udp_socket,
      closes-single_fd fd s.tcp_connection,
    )
