-- ===== src/Net/Server/Accepted.antt =====
-- libs/lib_net/super/Server.cpp: a client whose UDP address is accepted.
use project_e.Net.Server.Tables.{unpack-pack, find_addr-insert, find_client-set_udp_addr}
use project_e.Common.{
  ℕ, ◌^◌, ◌<◌, ◌≡◌, refl, true, Option, none, some, List, [], ◌∷◌, ◌++◌, ◌==◌, if◌then◌else◌,
}
use project_e.Net.Addr.{SocketAddr}
use project_e.Net.Server.{
  Server, Client, emit, transform_number, find_client, set_udp_addr, find_addr, insert_addr,
  pack_pair, verify, on_udp_connect,
}
use project_e.Net.Server.Receive.{has_udp_connection}

-- The client `uuid` is known by the UDP address `addr`, and the game has been told.
pub record Connected (addr : SocketAddr) (uuid : ℕ) (s : Server) (outcome : Option Server)
    : Type 0 where
  pub after : Server
  pub returned : outcome ≡ some after
  pub cached : find_addr addr after.cache ≡ some uuid
  pub connected : has_udp_connection uuid after ≡ true
  pub told : after.events ≡ s.events ++ on_udp_connect uuid ∷ []
  pub silent : (after.tcp_out ≡ s.tcp_out) × (after.udp_out ≡ s.udp_out)

pub verify_lem :
    (uuid transformed : ℕ) (clients : List (ℕ × Client)) (client : Client)
    → uuid < 2 ^ 64
    → transformed < 2 ^ 64
    → find_client uuid clients ≡ some client
    → verify (pack_pair uuid transformed) clients
      ≡ (if transform_number client.generated_number == transformed then some uuid else none)
unfolding verify
verify_lem uuid transformed clients client hu ht e = rw (unpack-pack uuid transformed hu ht, e)

-- The server once it has taken `addr` for the client `uuid`
abbrev pub accepted : ℕ → SocketAddr → Server → Server
accepted uuid addr s =
    emit (on_udp_connect uuid) (record s {
      clients = set_udp_addr uuid addr s.clients;
      cache = insert_addr addr uuid s.cache;
    })

pub accepted-Connected :
    (addr : SocketAddr) (uuid : ℕ) (client : Client) (s : Server) (outcome : Option Server)
    → find_addr addr s.cache ≡ none
    → find_client uuid s.clients ≡ some client
    → outcome ≡ some (accepted uuid addr s)
    → Connected addr uuid s outcome
unfolding has_udp_connection
accepted-Connected addr uuid client s outcome miss known e = record {
  after = accepted uuid addr s;
  returned = e;
  cached = find_addr-insert addr uuid s.cache miss;
  connected = rw (
    has_udp_connection,
    find_client-set_udp_addr uuid addr client s.clients known,
    find_addr-insert addr uuid s.cache miss,
  );
  told = refl;
  silent = (refl, refl);
}
