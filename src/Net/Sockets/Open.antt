-- ===== src/Net/Sockets/Open.antt =====
-- libs/lib_net/net/Socket.cpp, TcpListener.cpp, TcpStream.cpp and UdpSocket.cpp: the operations that
-- take or give a socket address, and those that make a socket.
use project_e.Common.{ℕ, Bool, true, false, Option, none, some, List, [], ◌∷◌}
use project_e.Net.Result.{Result, success, failure}
use project_e.Net.Addr.{SocketAddr, v6, unset}
use project_e.Net.Sockets.{
  Domain, inet, inet6, SockType, sock_stream, sock_dgram, ByteOrder, Os, default_max_listeners,
  domain_of, initialize_address, address_from_sockaddr, from_sender, checked, answered, or_close,
  new_socket, close_result, set_reuse_addr,
}

module _ {S : Type 0} (order : ByteOrder) (os : Os S) where
  unfoldable pub connect_socket : ℕ → SocketAddr → S → Result (Unit {0}) ℕ × S
  unfolding checked initialize_address
  connect_socket fd addr s = checked os (os.os_connect fd (initialize_address order addr) s)

  accept_socket : ℕ → S → Result (ℕ × SocketAddr) ℕ × S
  unfolding answered from_sender
  accept_socket fd s = answered os (from_sender order) (os.os_accept fd s)

  recv_from : ℕ → ℕ → S → Result (List ℕ × SocketAddr) ℕ × S
  unfolding answered from_sender
  recv_from fd size s = answered os (from_sender order) (os.os_recvfrom fd size s)

  send_to : ℕ → List ℕ → SocketAddr → S → Result ℕ ℕ × S
  unfolding answered initialize_address
  send_to fd buf addr s =
      answered os (λ n. n) (os.os_sendto fd buf (initialize_address order addr) s)

  peer_addr : ℕ → S → Result SocketAddr ℕ × S
  unfolding answered address_from_sockaddr
  peer_addr fd s = answered os (address_from_sockaddr order) (os.os_getpeername fd s)

  local_addr : ℕ → S → Result SocketAddr ℕ × S
  unfolding answered address_from_sockaddr
  local_addr fd s = answered os (address_from_sockaddr order) (os.os_getsockname fd s)

  -- `Socket::create` of an address, where the system has answered
  unfoldable pub bind_created : SocketAddr → Option ℕ × S → Result ℕ ℕ × S
  unfolding or_close initialize_address
  bind_created addr (none, s) = (failure (os.errno s), s)
  bind_created addr (some fd, s) =
      or_close os fd fd (os.os_bind fd (initialize_address order addr) s)

  unfoldable pub create_bound : SocketAddr → SockType → S → Result ℕ ℕ × S
  unfolding bind_created domain_of
  create_bound addr type s = bind_created addr (os.os_socket (domain_of addr) type s)

  -- `TcpListener::bind`, where the socket has been made, and what `listen` gives
  unfoldable pub listened : ℕ → Bool × S → Result ℕ ℕ × S
  listened fd (true, s) = (success fd, s)
  listened fd (false, s) = (failure (os.errno s), s)

  unfoldable pub listen_on : Result ℕ ℕ × S → Result ℕ ℕ × S
  unfolding listened set_reuse_addr
  listen_on (failure e, s) = (failure e, s)
  listen_on (success fd, s) =
      listened fd (os.os_listen fd default_max_listeners (set_reuse_addr os fd true s).1)

  unfoldable pub bind_listener : SocketAddr → S → Result ℕ ℕ × S
  unfolding listen_on create_bound
  bind_listener addr s = listen_on (create_bound addr sock_stream s)

  -- `TcpStream::connect`, for what `close` gives, for what `Socket::connect` gives, and whole
  unfoldable pub gave_up : ℕ → Result (Unit {0}) ℕ × S → Result ℕ ℕ × S
  gave_up e (success _, s) = (failure e, s)
  gave_up e (failure e', s) = (failure e', s)

  unfoldable pub connected : ℕ → Result (Unit {0}) ℕ × S → Result ℕ ℕ × S
  unfolding gave_up close_result
  connected fd (success _, s) = (success fd, s)
  connected fd (failure e, s) = gave_up e (close_result os fd s)

  unfoldable pub connect_created : SocketAddr → Result ℕ ℕ × S → Result ℕ ℕ × S
  unfolding connected connect_socket
  connect_created addr (failure e, s) = (failure e, s)
  connect_created addr (success fd, s) = connected fd (connect_socket fd addr s)

  unfoldable pub connect_stream : SocketAddr → S → Result ℕ ℕ × S
  unfolding connect_created new_socket domain_of
  connect_stream addr s = connect_created addr (new_socket os (domain_of addr) sock_stream s)

  -- `UdpSocket::bind` and `UdpSocket::any`
  unfoldable pub bind_udp : SocketAddr → S → Result ℕ ℕ × S
  unfolding create_bound
  bind_udp addr s = create_bound addr sock_dgram s

  any_addr : Domain → SocketAddr
  any_addr inet = unset
  any_addr inet6 = v6 (0 ∷ 0 ∷ 0 ∷ 0 ∷ 0 ∷ 0 ∷ 0 ∷ 0 ∷ []) 0 0 0

  any_udp : Domain → S → Result ℕ ℕ × S
  unfolding bind_udp any_addr
  any_udp domain s = bind_udp (any_addr domain) s
