-- ===== src/Net/Sockets/Descriptors.antt =====
-- libs/lib_net/net/Socket.cpp and TcpStream.cpp: the descriptors that are open after a socket is made,
-- whether it succeeds or not.
use project_e.Common.{
  ℕ, ◌≡◌, ◌∙◌, Bool, true, false, Option, none, some, List, [], ◌∷◌, ◌==◌, if◌then◌else◌, refl,
  arith, ap, sym, subst, ◌⊎◌, inl, inr, Bool-cases,
}
use project_e.Net.Result.{Result, success, failure}
use project_e.Net.Addr.{SocketAddr}
use project_e.Net.Sockets.{
  Domain, SockType, sock_stream, sock_dgram, SockAddrStorage, ByteOrder, Os, domain_of, checked,
  answered, close_if, close_socket, or_close, new_socket, close_result, initialize_address,
}
use project_e.Net.Sockets.Open.{
  connect_socket, bind_created, create_bound, bind_udp, gave_up, connected, connect_created,
  connect_stream,
}

-- The descriptors with the one that `socket` has given, and without one that is closed
unfoldable pub added : Option ℕ → List ℕ → List ℕ
added none fds = fds
added (some fd) fds = fd ∷ fds

unfoldable pub removed : ℕ → List ℕ → List ℕ
removed fd [] = []
removed fd (x ∷ xs) = let rest = removed fd xs in if x == fd then xs else x ∷ rest

-- What the documentation of the system says of its table of open descriptors
pub record IsTable {S : Type 0} (os : Os S) (fds : S → List ℕ) : Type 0 where
  pub on_socket :
      (domain : Domain) (type : SockType) (s : S)
      → fds (os.os_socket domain type s).1 ≡ added (os.os_socket domain type s).0 (fds s)
  pub on_setsockopt :
      (fd level name value : ℕ) (s : S) → fds (os.os_setsockopt fd level name value s).1 ≡ fds s
  pub on_bind :
      (fd : ℕ) (address : SockAddrStorage) (s : S) → fds (os.os_bind fd address s).1 ≡ fds s
  pub on_connect :
      (fd : ℕ) (address : SockAddrStorage) (s : S) → fds (os.os_connect fd address s).1 ≡ fds s
  pub on_listen : (fd backlog : ℕ) (s : S) → fds (os.os_listen fd backlog s).1 ≡ fds s
  pub on_shutdown : (fd : ℕ) (s : S) → fds (os.os_shutdown fd s).1 ≡ fds s
  pub on_close : (fd : ℕ) (s : S) → fds (os.os_close fd s).1 ≡ removed fd (fds s)

-- The descriptors that a result should leave open: those before, and the one that it gives
unfoldable pub owned : Result ℕ ℕ → List ℕ → List ℕ
owned (success fd) fds = fd ∷ fds
owned (failure e) fds = fds

-- A failure whose last call was the `shutdown` of the socket, which was refused, so that the socket
-- is not closed
pub record IsUnclosed {S : Type 0} (os : Os S) (fds : S → List ℕ) (l : List ℕ) (r : Result ℕ ℕ × S)
    : Type 0 where
  pub fd : ℕ
  pub code : ℕ
  pub before : S
  pub failed : r.0 ≡ failure code
  pub stays : fds r.1 ≡ fd ∷ l
  pub refused : (os.os_shutdown fd before).0 ≡ false
  pub last : r.1 ≡ (os.os_shutdown fd before).1

abbrev pub Opened : {S : Type 0} → Os S → (S → List ℕ) → List ℕ → Result ℕ ℕ × S → Type 0
Opened os fds l r = (fds r.1 ≡ owned r.0 l) ⊎ IsUnclosed os fds l r

removed-first : (fd : ℕ) (l : List ℕ) → removed fd (fd ∷ l) ≡ l
unfolding removed
removed-first fd l = ground arith

module _ {S : Type 0} (os : Os S) (fds : S → List ℕ) (table : IsTable os fds)
    (order : ByteOrder) where
  close_if-fds :
      (fd : ℕ) (r : Bool × S) → r.0 ≡ true → fds (close_if os fd r).1 ≡ removed fd (fds r.1)
  unfolding close_if
  close_if-fds fd (true, s) h = table.on_close fd s
  close_if-fds fd (false, s) h = ground arith

  close_if-kept : (fd : ℕ) (r : Bool × S) → r.0 ≡ false → (close_if os fd r).1 ≡ r.1
  unfolding close_if
  close_if-kept fd (true, s) h = cc
  close_if-kept fd (false, s) h = refl

  -- What `close_socket` does: the descriptor is closed, or its `shutdown` is refused.
  Closes : ℕ → S → List ℕ → Type 0
  Closes fd s l =
      (fds (close_socket os fd s).1 ≡ l)
      ⊎ ((os.os_shutdown fd s).0 ≡ false)
        × ((close_socket os fd s).1 ≡ (os.os_shutdown fd s).1)
        × (fds (close_socket os fd s).1 ≡ fd ∷ l)

  close_socket-Closes : (fd : ℕ) (s : S) (l : List ℕ) → fds s ≡ fd ∷ l → Closes fd s l
  unfolding Closes close_socket
  close_socket-Closes fd s l h =
      let before = table.on_shutdown fd s in
      elim (Bool-cases (os.os_shutdown fd s).0) [
        | inl ok ↦
            let closed = close_if-fds fd (os.os_shutdown fd s) ok in inl (cc (removed-first fd l))
        | inr denied ↦
            let kept = close_if-kept fd (os.os_shutdown fd s) denied in
            inr (denied, kept, ap fds kept ∙ before ∙ h)
      ]

  unclosed :
      (fd code : ℕ) (s : S) (l : List ℕ)
      → Closes fd s l
      → Opened os fds l (failure code, (close_socket os fd s).1)
  unfolding Closes owned
  unclosed fd code s l (inl closed) = inl closed
  unclosed fd code s l (inr (denied, kept, stays)) = inr (record {
    fd = fd;
    code = code;
    before = s;
    failed = refl;
    stays = stays;
    refused = denied;
    last = kept;
  })

  or_close-Opened :
      (fd : ℕ) (r : Bool × S) (l : List ℕ)
      → fds r.1 ≡ fd ∷ l
      → Opened os fds l (or_close os fd fd r)
  unfolding or_close owned
  or_close-Opened fd (true, s) l h = inl h
  or_close-Opened fd (false, s) l h = unclosed fd _ s l (close_socket-Closes fd s l h)

  bind_created-Opened :
      (addr : SocketAddr) (r : Option ℕ × S) (l : List ℕ)
      → fds r.1 ≡ added r.0 l
      → Opened os fds l (bind_created order os addr r)
  unfolding bind_created owned added
  bind_created-Opened addr (none, s) l h = inl h
  bind_created-Opened addr (some fd, s) l h =
      let address = initialize_address order addr in
      or_close-Opened fd (os.os_bind fd address s) l (table.on_bind fd address s ∙ h)

  create_bound-Opened :
      (addr : SocketAddr) (type : SockType) (s : S)
      → Opened os fds (fds s) (create_bound order os addr type s)
  unfolding create_bound
  create_bound-Opened addr type s =
      bind_created-Opened addr (os.os_socket (domain_of addr) type s) (fds s)
        (table.on_socket (domain_of addr) type s)

  checked-fds : (r : Bool × S) → (checked os r).1 ≡ r.1
  unfolding checked
  checked-fds (true, s) = refl
  checked-fds (false, s) = refl

  -- The errors that `gave_up` may give: the one before, or that of the `close` itself
  gave_up-fails :
      (e : ℕ) (r : Result (Unit {0}) ℕ × S)
      → (code : ℕ) × (gave_up order os e r ≡ (failure code, r.1))
  unfolding gave_up
  gave_up-fails e (success _, s) = (e, refl)
  gave_up-fails e (failure e', s) = (e', refl)

  connected-Opened :
      (fd : ℕ) (r : Result (Unit {0}) ℕ × S) (l : List ℕ)
      → fds r.1 ≡ fd ∷ l
      → Opened os fds l (connected order os fd r)
  unfolding connected owned close_result
  connected-Opened fd (success _, s) l h = inl h
  connected-Opened fd (failure e, s) l h =
      let (code, same) = gave_up-fails e (close_result os fd s) in
      let closed = ap (λ t. (failure code, t)) (checked-fds (close_socket os fd s)) in
      subst (Opened os fds l) (sym (same ∙ closed))
        (unclosed fd code s l (close_socket-Closes fd s l h))

  connect_socket-fds :
      (fd : ℕ) (addr : SocketAddr) (s : S) → fds (connect_socket order os fd addr s).1 ≡ fds s
  unfolding connect_socket
  connect_socket-fds fd addr s =
      let address = initialize_address order addr in
      ap fds (checked-fds (os.os_connect fd address s)) ∙ table.on_connect fd address s

  connect_created-Opened :
      (addr : SocketAddr) (r : Option ℕ × S) (l : List ℕ)
      → fds r.1 ≡ added r.0 l
      → Opened os fds l (connect_created order os addr (answered os (λ fd. fd) r))
  unfolding connect_created answered owned added
  connect_created-Opened addr (none, s) l h = inl h
  connect_created-Opened addr (some fd, s) l h =
      connected-Opened fd (connect_socket order os fd addr s) l (connect_socket-fds fd addr s ∙ h)

  connect_stream-Opened :
      (addr : SocketAddr) (s : S) → Opened os fds (fds s) (connect_stream order os addr s)
  unfolding connect_stream new_socket
  connect_stream-Opened addr s =
      connect_created-Opened addr (os.os_socket (domain_of addr) sock_stream s) (fds s)
        (table.on_socket (domain_of addr) sock_stream s)

-- Where the system keeps a table of open descriptors, as its documentation says: `UdpSocket::bind` and
-- `TcpStream::connect` leave open, besides what was open before, the socket that they give when
-- they succeed, and nothing when they fail; except for a failure whose last call is a `shutdown` of the
-- new socket that the system refuses, which leaves that socket open.
pub open-Opened :
    {S : Type 0} (os : Os S) (fds : S → List ℕ) (order : ByteOrder) (addr : SocketAddr) (s : S)
    → IsTable os fds
    → Opened os fds (fds s) (bind_udp order os addr s)
      × Opened os fds (fds s) (connect_stream order os addr s)
unfolding bind_udp
open-Opened os fds order addr s table = (
  create_bound-Opened os fds table order addr sock_dgram s,
  connect_stream-Opened os fds table order addr s,
)
