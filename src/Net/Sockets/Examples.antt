-- ===== src/Net/Sockets/Examples.antt =====
-- A system that refuses to bind and to connect, for the theorems on sockets.
use project_e.Common.{
  ℕ, ◌+◌, ◌*◌, ◌/◌, ◌%◌, ◌^◌, ◌≡◌, refl, Bool, true, false, none, some, List, [], ◌∷◌, length,
  arith,
}
use project_e.Net.Result.{failure}
use project_e.Net.Addr.{Ipv4Addr, v4}
use project_e.Net.Sockets.{
  ByteOrder, Os, sock_dgram, sockaddr_in, initialize_address, address_from_sockaddr,
}
use project_e.Net.Sockets.Open.{bind_udp, connect_stream, bind_listener, create_bound}
use project_e.Net.Sockets.Address.{IsLittleEndian, address_from_sockaddr-initialize_address}
use project_e.Net.Sockets.Descriptors.{IsTable, removed, Opened, added, open-Opened}
use project_e.Net.Sockets.Leaks.{IsLinked, open-left}

abbrev little : ByteOrder
little = record {
  htons = λ n. n % 256 * 256 + n / 256;
  ntohs = λ n. n % 256 * 256 + n / 256;
  htonl = λ n.
      n % 256 * 2 ^ 24 + n / 2 ^ 8 % 256 * 2 ^ 16 + n / 2 ^ 16 % 256 * 2 ^ 8 + n / 2 ^ 24 % 256;
}

little-IsLittleEndian : IsLittleEndian little
little-IsLittleEndian = record {
  shorts = λ n h. omega arith;
  longs = λ a b c d ha hb hc hd. omega arith;
}

abbrev localhost : Ipv4Addr
localhost = record { octet0 = 127; octet1 = 0; octet2 = 0; octet3 = 1 }

address_from_sockaddr-initialize_address_example :
    address_from_sockaddr little (initialize_address little (v4 localhost 8080)) ≡ v4 localhost 8080
address_from_sockaddr-initialize_address_example =
    address_from_sockaddr-initialize_address little (v4 localhost 8080) little-IsLittleEndian
      (((omega arith, omega arith, omega arith, omega arith)), omega arith)

-- The descriptors that are open, and `errno`
abbrev State : Type 0
State = List ℕ × ℕ

-- `can_shut` is what `shutdown` answers.
abbrev refusing : Bool → Os State
refusing can_shut = record {
  os_socket = λ domain type s. (some (3 + length s.0), ((3 + length s.0) ∷ s.0, s.1));
  os_setsockopt = λ fd level name value s. (true, s);
  os_bind = λ fd address s. (false, (s.0, 98));
  os_connect = λ fd address s. (false, (s.0, 111));
  os_listen = λ fd backlog s. (true, s);
  os_accept = λ fd s. (none, (s.0, 11));
  os_recv = λ fd size s. (none, (s.0, 107));
  os_recvfrom = λ fd size s. (none, (s.0, 11));
  os_send = λ fd buf s. (none, (s.0, 107));
  os_sendto = λ fd buf address s. (some (length buf), s);
  os_shutdown = λ fd s. (can_shut, (s.0, 107));
  os_close = λ fd s. (true, (removed fd s.0, s.1));
  os_getpeername = λ fd s. (none, (s.0, 107));
  os_getsockname = λ fd s. (some (sockaddr_in 0 0), s);
  os_getfl = λ fd s. (some 2, s);
  os_setfl = λ fd flags s. (true, s);
  errno = λ s. s.1;
  sol_socket = 1;
  so_reuseaddr = 2;
  o_nonblock = 2048;
}

refusing-IsTable : (can_shut : Bool) → IsTable (refusing can_shut) (λ s. s.0)
unfolding added removed
refusing-IsTable can_shut = record {
  on_socket = λ domain type s. refl;
  on_setsockopt = λ fd level name value s. refl;
  on_bind = λ fd address s. refl;
  on_connect = λ fd address s. refl;
  on_listen = λ fd backlog s. refl;
  on_shutdown = λ fd s. refl;
  on_close = λ fd s. refl;
}

refusing-IsLinked : IsLinked (refusing false) (λ fd s. false)
refusing-IsLinked = record {
  fresh = λ domain type s. refl;
  bound = λ fd address s. refl;
  refused = λ fd address s h. refl;
  option = λ fd level name value s. refl;
  shut = λ fd s h. refl;
}

-- With a descriptor open, neither call leaves another behind.
open-Opened_example :
    Opened
      (refusing true)
      (λ s. s.0)
      (3 ∷ [])
      (bind_udp little (refusing true) (v4 localhost 8080) (3 ∷ [], 0))
    × Opened
        (refusing true)
        (λ s. s.0)
        (3 ∷ [])
        (connect_stream little (refusing true) (v4 localhost 8080) (3 ∷ [], 0))
open-Opened_example =
    open-Opened (refusing true) (λ s. s.0) little (v4 localhost 8080) (3 ∷ [], 0)
      (refusing-IsTable true)

-- Each call that fails leaves its descriptor open.
open-left_example :
    ((create_bound little (refusing false) (v4 localhost 8080) sock_dgram (3 ∷ [], 0)).1.0
      ≡ 4 ∷ 3 ∷ [])
    × ((bind_listener little (refusing false) (v4 localhost 8080) (3 ∷ [], 0)).1.0 ≡ 4 ∷ 3 ∷ [])
    × ((connect_stream little (refusing false) (v4 localhost 8080) (3 ∷ [], 0)).1.0 ≡ 4 ∷ 3 ∷ [])
unfolding added
open-left_example =
    open-left (refusing false) (λ s. s.0) (λ fd s. false) little (v4 localhost 8080) sock_dgram
      (3 ∷ [], 0) (refusing-IsTable false) refusing-IsLinked

-- A connection that is refused (111) reports that its socket could not be shut down (107).
refused_test :
    connect_stream little (refusing false) (v4 localhost 8080) ([], 0)
    ≡ (failure 107, (3 ∷ [], 107))
unfolding connect_stream
refused_test = refl
