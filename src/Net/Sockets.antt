-- ===== src/Net/Sockets.antt =====
-- libs/lib_net/net/Socket.hpp and Socket.cpp, close_socket of _base.hpp, and what TcpListener, TcpStream
-- and UdpSocket add to them. A socket is its descriptor. The calls of the operating system and the
-- byte order are records of parameters: `false` and `none` stand for SOCKET_ERROR and INVALID_SOCKET,
-- and `errno` is read from the state of the system. The flowinfo and the scope of a sockaddr_in6, which
-- the code leaves 0, have no field.
pub mod Address
pub mod Open
pub mod Descriptors
pub mod Leaks
pub mod Examples
use project_e.Common.{
  ℕ, ◌+◌, ◌-◌, ◌*◌, ◌/◌, ◌%◌, Bool, true, false, Option, none, some, List, [], ◌∷◌, ◌==◌,
  if◌then◌else◌,
}
use project_e.Net.Result.{Result, success, failure}
use project_e.Net.Addr.{Ipv4Addr, Ipv6Addr, SocketAddr, v4, v6, to_u32, ipv4_of_u32}

-- `AF_INET` and `AF_INET6`
pub data Domain : Type 0 where
  inet inet6 : Domain

-- `SOCK_STREAM` and `SOCK_DGRAM`
pub data SockType : Type 0 where
  sock_stream sock_dgram : SockType

-- `sockaddr_storage`: the port and the address, as they are sent
pub data SockAddrStorage : Type 0 where
  sockaddr_in : ℕ → ℕ → SockAddrStorage
  sockaddr_in6 : ℕ → Ipv6Addr → SockAddrStorage

-- The functions of the platform between its byte order and the network's
pub record ByteOrder : Type 0 where
  pub htons : ℕ → ℕ
  pub ntohs : ℕ → ℕ
  pub htonl : ℕ → ℕ

-- The calls of the operating system, and its constants
pub record Os (S : Type 0) : Type 0 where
  pub os_socket : Domain → SockType → S → Option ℕ × S
  pub os_setsockopt : ℕ → ℕ → ℕ → ℕ → S → Bool × S
  pub os_bind : ℕ → SockAddrStorage → S → Bool × S
  pub os_connect : ℕ → SockAddrStorage → S → Bool × S
  pub os_listen : ℕ → ℕ → S → Bool × S
  pub os_accept : ℕ → S → Option (ℕ × SockAddrStorage) × S
  pub os_recv : ℕ → ℕ → S → Option (List ℕ) × S
  pub os_recvfrom : ℕ → ℕ → S → Option (List ℕ × SockAddrStorage) × S
  pub os_send : ℕ → List ℕ → S → Option ℕ × S
  pub os_sendto : ℕ → List ℕ → SockAddrStorage → S → Option ℕ × S
  pub os_shutdown : ℕ → S → Bool × S
  pub os_close : ℕ → S → Bool × S
  pub os_getpeername : ℕ → S → Option SockAddrStorage × S
  pub os_getsockname : ℕ → S → Option SockAddrStorage × S
  pub os_getfl : ℕ → S → Option ℕ × S
  pub os_setfl : ℕ → ℕ → S → Bool × S
  pub errno : S → ℕ
  pub sol_socket : ℕ
  pub so_reuseaddr : ℕ
  pub o_nonblock : ℕ

-- `DEFAULT_MAX_LISTENERS`
abbrev pub default_max_listeners : ℕ
default_max_listeners = 128

-- `addr.is_ipv4() ? AF_INET : AF_INET6`
unfoldable pub domain_of : SocketAddr → Domain
domain_of (v4 ip port) = inet
domain_of (v6 ip port flowinfo scope_id) = inet6

module _ (order : ByteOrder) where
  unfoldable pub initialize_address : SocketAddr → SockAddrStorage
  initialize_address (v4 ip port) = sockaddr_in (order.htons port) (order.htonl (to_u32 ip))
  initialize_address (v6 ip port flowinfo scope_id) = sockaddr_in6 (order.htons port) ip

  unfoldable pub address_from_sockaddr : SockAddrStorage → SocketAddr
  address_from_sockaddr (sockaddr_in port addr) = v4 (ipv4_of_u32 addr) (order.ntohs port)
  address_from_sockaddr (sockaddr_in6 port addr) = v6 addr (order.ntohs port) 0 0

  -- What comes with the sender's address
  from_sender : {T : Type 0} → T × SockAddrStorage → T × SocketAddr
  unfolding address_from_sockaddr
  from_sender (x, address) = (x, address_from_sockaddr address)

-- `flags |= O_NONBLOCK` and `flags &= ~O_NONBLOCK`, where the flag is one bit
unfoldable pub with_flag : ℕ → ℕ → ℕ
with_flag bit flags = if flags / bit % 2 == 1 then flags else flags + bit

unfoldable pub without_flag : ℕ → ℕ → ℕ
without_flag bit flags = if flags / bit % 2 == 1 then flags - bit else flags

module _ {S : Type 0} (os : Os S) where
  -- A call that has failed gives `errno`.
  unfoldable pub checked : Bool × S → Result (Unit {0}) ℕ × S
  checked (true, s) = (success tt, s)
  checked (false, s) = (failure (os.errno s), s)

  unfoldable pub answered : {T U : Type 0} → (T → U) → Option T × S → Result U ℕ × S
  answered f (some x, s) = (success (f x), s)
  answered f (none, s) = (failure (os.errno s), s)

  -- `close_socket` closes what it could shut down.
  unfoldable pub close_if : ℕ → Bool × S → Bool × S
  close_if fd (true, s) = os.os_close fd s
  close_if fd (false, s) = (false, s)

  unfoldable pub close_socket : ℕ → S → Bool × S
  unfolding close_if
  close_socket fd s = close_if fd (os.os_shutdown fd s)

  -- A call after whose failure the socket is closed, and `errno` is read
  unfoldable pub or_close : {T : Type 0} → ℕ → T → Bool × S → Result T ℕ × S
  unfolding close_socket
  or_close fd x (true, s) = (success x, s)
  or_close fd x (false, s) = let after = (close_socket fd s).1 in (failure (os.errno after), after)

  unfoldable pub create_socket : Domain → SockType → S → Result ℕ ℕ × S
  unfolding answered
  create_socket domain type s = answered (λ fd. fd) (os.os_socket domain type s)

  -- `Socket::create` of a domain
  unfoldable pub new_socket : Domain → SockType → S → Result ℕ ℕ × S
  unfolding answered
  new_socket domain type s = answered (λ fd. fd) (os.os_socket domain type s)

  -- `setsockopt` and `bind_socket`
  unfoldable pub set_option : ℕ → ℕ → ℕ → ℕ → S → Result (Unit {0}) ℕ × S
  unfolding or_close
  set_option fd level optname optval s = or_close fd tt (os.os_setsockopt fd level optname optval s)

  bind_socket : ℕ → SockAddrStorage → S → Result (Unit {0}) ℕ × S
  unfolding or_close
  bind_socket fd address s = or_close fd tt (os.os_bind fd address s)

  close_result : ℕ → S → Result (Unit {0}) ℕ × S
  unfolding checked close_socket
  close_result fd s = checked (close_socket fd s)

  shutdown_socket : ℕ → S → Result (Unit {0}) ℕ × S
  unfolding checked
  shutdown_socket fd s = checked (os.os_shutdown fd s)

  read_socket : ℕ → ℕ → S → Result (List ℕ) ℕ × S
  unfolding answered
  read_socket fd size s = answered (λ bytes. bytes) (os.os_recv fd size s)

  write_socket : ℕ → List ℕ → S → Result ℕ ℕ × S
  unfolding answered
  write_socket fd buf s = answered (λ n. n) (os.os_send fd buf s)

  unfoldable pub set_reuse_addr : ℕ → Bool → S → Result (Unit {0}) ℕ × S
  unfolding set_option
  set_reuse_addr fd enable s =
      set_option fd os.sol_socket os.so_reuseaddr (if enable then 1 else 0) s

  -- `set_nonblocking`, where F_GETFL has answered
  put_flags : ℕ → Bool → Option ℕ × S → Result (Unit {0}) ℕ × S
  unfolding checked with_flag without_flag
  put_flags fd enable (none, s) = (failure (os.errno s), s)
  put_flags fd enable (some flags, s) =
      let changed =
        if enable then with_flag os.o_nonblock flags else without_flag os.o_nonblock flags in
      checked (os.os_setfl fd changed s)

  set_nonblocking : ℕ → Bool → S → Result (Unit {0}) ℕ × S
  unfolding put_flags
  set_nonblocking fd enable s = put_flags fd enable (os.os_getfl fd s)
