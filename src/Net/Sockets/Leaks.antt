-- ===== src/Net/Sockets/Leaks.antt =====
-- libs/lib_net/net/_base.hpp, net/Socket.cpp, TcpListener.cpp and TcpStream.cpp: what `close_socket` leaves
-- open, where the system refuses to shut down a socket that is not connected.
use project_e.Common.{
  ℕ, ◌≡◌, ◌∙◌, ap, Bool, true, false, Option, none, some, List, if◌then◌else◌, refl, arith,
}
use project_e.Net.Result.{Result, success, failure}
use project_e.Net.Addr.{SocketAddr}
use project_e.Net.Sockets.{
  Domain, SockType, sock_stream, SockAddrStorage, ByteOrder, Os, default_max_listeners, domain_of,
  checked, answered, close_if, close_socket, or_close, new_socket, close_result, set_option,
  set_reuse_addr, initialize_address,
}
use project_e.Net.Sockets.Open.{
  connect_socket, bind_created, create_bound, listened, listen_on, bind_listener, gave_up,
  connected, connect_created, connect_stream,
}
use project_e.Net.Sockets.Descriptors.{added, IsTable}

-- The socket that a call has made is not connected.
abbrev pub IsFresh : {S : Type 0} → (ℕ → S → Bool) → Option ℕ × S → Type 0
IsFresh linked (none, s) = Unit {0}
IsFresh linked (some fd, s) = linked fd s ≡ false

abbrev pub IsUnlinked : {S : Type 0} → (ℕ → S → Bool) → Result ℕ ℕ × S → Type 0
IsUnlinked linked (failure e, s) = Unit {0}
IsUnlinked linked (success fd, s) = linked fd s ≡ false

-- What the documentation of the system says of connected sockets: `socket` makes one that is not, `bind`
-- and a `connect` that fails change nothing, and `shutdown` of one that is not fails (ENOTCONN).
pub record IsLinked {S : Type 0} (os : Os S) (linked : ℕ → S → Bool) : Type 0 where
  pub fresh :
      (domain : Domain) (type : SockType) (s : S) → IsFresh linked (os.os_socket domain type s)
  pub bound :
      (fd : ℕ) (address : SockAddrStorage) (s : S)
      → linked fd (os.os_bind fd address s).1 ≡ linked fd s
  pub refused :
      (fd : ℕ) (address : SockAddrStorage) (s : S)
      → (os.os_connect fd address s).0 ≡ false
      → linked fd (os.os_connect fd address s).1 ≡ linked fd s
  pub option :
      (fd level name value : ℕ) (s : S)
      → linked fd (os.os_setsockopt fd level name value s).1 ≡ linked fd s
  pub shut : (fd : ℕ) (s : S) → linked fd s ≡ false → (os.os_shutdown fd s).0 ≡ false

module _ {S : Type 0} (os : Os S) (fds : S → List ℕ) (table : IsTable os fds)
    (linked : ℕ → S → Bool) (links : IsLinked os linked) (order : ByteOrder) where
  close_if-left : (fd : ℕ) (r : Bool × S) → r.0 ≡ false → (close_if os fd r).1 ≡ r.1
  unfolding close_if
  close_if-left fd (true, s) h = ground arith
  close_if-left fd (false, s) h = refl

  close_socket-left : (fd : ℕ) (s : S) → linked fd s ≡ false → fds (close_socket os fd s).1 ≡ fds s
  unfolding close_socket
  close_socket-left fd s h =
      ap fds (close_if-left fd (os.os_shutdown fd s) (links.shut fd s h)) ∙ table.on_shutdown fd s

  or_close-left :
      {T : Type 0} (fd : ℕ) (x : T) (r : Bool × S)
      → linked fd r.1 ≡ false
      → fds (or_close os fd x r).1 ≡ fds r.1
  unfolding or_close
  or_close-left fd x (true, s) h = refl
  or_close-left fd x (false, s) h = close_socket-left fd s h

  or_close-IsUnlinked :
      (fd : ℕ) (r : Bool × S) → linked fd r.1 ≡ false → IsUnlinked linked (or_close os fd fd r)
  unfolding or_close
  or_close-IsUnlinked fd (true, s) h = h
  or_close-IsUnlinked fd (false, s) h = tt

  bind_created-left :
      (addr : SocketAddr) (r : Option ℕ × S)
      → IsFresh linked r
      → (fds (bind_created order os addr r).1 ≡ fds r.1)
        × IsUnlinked linked (bind_created order os addr r)
  unfolding bind_created
  bind_created-left addr (none, s) h = (refl, tt)
  bind_created-left addr (some fd, s) h =
      let address = initialize_address order addr in
      let unlinked = links.bound fd address s ∙ h in
      (
        or_close-left fd fd (os.os_bind fd address s) unlinked ∙ table.on_bind fd address s,
        or_close-IsUnlinked fd (os.os_bind fd address s) unlinked,
      )

  create_bound-left :
      (addr : SocketAddr) (type : SockType) (s : S)
      → (fds (create_bound order os addr type s).1
          ≡ added (os.os_socket (domain_of addr) type s).0 (fds s))
        × IsUnlinked linked (create_bound order os addr type s)
  unfolding create_bound
  create_bound-left addr type s =
      let (same, unlinked) =
        bind_created-left addr (os.os_socket (domain_of addr) type s)
          (links.fresh (domain_of addr) type s) in
      (same ∙ table.on_socket (domain_of addr) type s, unlinked)

  set_reuse_addr-left :
      (fd : ℕ) (enable : Bool) (s : S)
      → linked fd s ≡ false
      → fds (set_reuse_addr os fd enable s).1 ≡ fds s
  unfolding set_reuse_addr set_option
  set_reuse_addr-left fd enable s h =
      let level = os.sol_socket in
      let name = os.so_reuseaddr in
      let value = if enable then 1 else 0 in
      or_close-left fd tt (os.os_setsockopt fd level name value s)
        (links.option fd level name value s ∙ h)
      ∙ table.on_setsockopt fd level name value s

  listened-fds : (fd : ℕ) (r : Bool × S) → fds (listened order os fd r).1 ≡ fds r.1
  unfolding listened
  listened-fds fd (true, s) = refl
  listened-fds fd (false, s) = refl

  listen_on-left :
      (r : Result ℕ ℕ × S) → IsUnlinked linked r → fds (listen_on order os r).1 ≡ fds r.1
  unfolding listen_on
  listen_on-left (failure e, s) h = refl
  listen_on-left (success fd, s) h =
      let s' = (set_reuse_addr os fd true s).1 in
      listened-fds fd (os.os_listen fd default_max_listeners s')
      ∙ table.on_listen fd default_max_listeners s'
      ∙ set_reuse_addr-left fd true s h

  bind_listener-left :
      (addr : SocketAddr) (s : S)
      → fds (bind_listener order os addr s).1
        ≡ added (os.os_socket (domain_of addr) sock_stream s).0 (fds s)
  unfolding bind_listener
  bind_listener-left addr s =
      let (same, unlinked) = create_bound-left addr sock_stream s in
      listen_on-left (create_bound order os addr sock_stream s) unlinked ∙ same

  checked-fds : (r : Bool × S) → fds (checked os r).1 ≡ fds r.1
  unfolding checked
  checked-fds (true, s) = refl
  checked-fds (false, s) = refl

  gave_up-fds : (e : ℕ) (r : Result (Unit {0}) ℕ × S) → fds (gave_up order os e r).1 ≡ fds r.1
  unfolding gave_up
  gave_up-fds e (success _, s) = refl
  gave_up-fds e (failure e', s) = refl

  -- `Socket::connect` of a socket that is not connected, and what `TcpStream::connect` does next
  connected-left :
      (fd : ℕ) (r : Bool × S)
      → (r.0 ≡ false → linked fd r.1 ≡ false)
      → fds (connected order os fd (checked os r)).1 ≡ fds r.1
  unfolding connected checked close_result
  connected-left fd (true, s) h = refl
  connected-left fd (false, s) h =
      gave_up-fds (os.errno s) (checked os (close_socket os fd s))
      ∙ checked-fds (close_socket os fd s)
      ∙ close_socket-left fd s (h refl)

  connect_created-left :
      (addr : SocketAddr) (r : Option ℕ × S)
      → IsFresh linked r
      → fds (connect_created order os addr (answered os (λ fd. fd) r)).1 ≡ fds r.1
  unfolding connect_created answered connect_socket
  connect_created-left addr (none, s) h = refl
  connect_created-left addr (some fd, s) h =
      let address = initialize_address order addr in
      connected-left fd (os.os_connect fd address s)
        (λ failed. links.refused fd address s failed ∙ h)
      ∙ table.on_connect fd address s

  connect_stream-left :
      (addr : SocketAddr) (s : S)
      → fds (connect_stream order os addr s).1
        ≡ added (os.os_socket (domain_of addr) sock_stream s).0 (fds s)
  unfolding connect_stream new_socket
  connect_stream-left addr s =
      connect_created-left addr (os.os_socket (domain_of addr) sock_stream s)
        (links.fresh (domain_of addr) sock_stream s)
      ∙ table.on_socket (domain_of addr) sock_stream s

-- Where the system keeps a table of open descriptors and refuses to shut down a socket that is not
-- connected, as its documentation says: whether they succeed or fail, and wherever they fail,
-- `Socket::create` of an address, `TcpListener::bind` and `TcpStream::connect` leave open what was
-- open before and the descriptor, if any, that `socket` has given to them.
pub open-left :
    {S : Type 0} (os : Os S) (fds : S → List ℕ) (linked : ℕ → S → Bool) (order : ByteOrder)
    (addr : SocketAddr) (type : SockType) (s : S)
    → IsTable os fds
    → IsLinked os linked
    → (fds (create_bound order os addr type s).1
        ≡ added (os.os_socket (domain_of addr) type s).0 (fds s))
      × (fds (bind_listener order os addr s).1
          ≡ added (os.os_socket (domain_of addr) sock_stream s).0 (fds s))
      × (fds (connect_stream order os addr s).1
          ≡ added (os.os_socket (domain_of addr) sock_stream s).0 (fds s))
open-left os fds linked order addr type s table links = (
  (create_bound-left os fds table linked links order addr type s).0,
  bind_listener-left os fds table linked links order addr s,
  connect_stream-left os fds table linked links order addr s,
)
