-- ===== src/Net/Base/Invariant.antt =====
-- libs/lib_net/super/BaseServer.cpp: what holds of the sockets, the poll, the ids and the events, and
-- that every handler of the context thread keeps it.
use project_e.Common.{
  ℕ, ◌+◌, ◌≤◌, ◌≡◌, refl, Bool, true, false, ◌||◌, Option, none, some, List, [], ◌∷◌, ◌++◌, arith,
  ◌==◌, if◌then◌else◌, ltb,
}
use project_e.Net.Uuid.{contains}
use project_e.Net.Poll.{Fd, add, remove}
use project_e.Net.Poll.Refines.{IsTable, reads_of, writes_of, adds, removes, step_refines}
use project_e.Net.Base.{
  BaseServer, TcpConnection, TcpEvent, tcp_read, tcp_connected, tcp_disconnected,
}
use project_e.Net.Base.Dispatch.{is_fd, is_single}
use project_e.Net.Base.Tables.{bit, count_stream, count_id}

-- What the main thread may be told of an id: first that it is connected, then of data, and at last
-- that it is disconnected.
pub data Phase : Type 0 where
  absent live gone wrong : Phase

abbrev pub next : TcpEvent → Phase → Phase
next tcp_connected absent = live
next tcp_read live = live
next tcp_disconnected live = gone
next _ _ = wrong

abbrev pub phase_from : ℕ → List (TcpEvent × ℕ) → Phase → Phase
phase_from id [] p = p
phase_from id ((event, key) ∷ es) p = phase_from id es (if id == key then next event p else p)

abbrev pub phase : ℕ → List (TcpEvent × ℕ) → Phase
phase id es = phase_from id es absent

-- The sockets that have a descriptor, and the connections that have an id
abbrev pub owners : ℕ → BaseServer → ℕ
owners fd s =
    bit (is_fd fd s.udp_socket)
    + (bit (is_fd fd s.tcp_listener)
        + (bit (is_single fd s.tcp_connection) + count_stream fd s.tcp_connections))

abbrev pub holds : ℕ → Option (ℕ × TcpConnection) → Bool
holds id none = false
holds id (some (key, c)) = id == key

abbrev pub holders : ℕ → BaseServer → ℕ
holders id s = bit (holds id s.tcp_connection) + count_id id s.tcp_connections

-- A descriptor has one socket at most; the poll watches it for reading if it has one, and for writing only then.
abbrev pub Owned : ℕ → Bool → Bool → Type 0
Owned count reads writes = (count ≤ 1) × (reads ≡ ltb 0 count) × (bit writes ≤ count)

-- Of an id that was given out, the last event says whether it has a connection.
abbrev pub expected : Bool → ℕ → Phase
expected false count = absent
expected true count = if ltb 0 count then live else gone

abbrev pub Tracked : Bool → ℕ → Phase → Type 0
Tracked given count p = (count ≤ bit given) × (p ≡ expected given count)

-- The events that were raised, in their order
abbrev pub raised : BaseServer → List (TcpEvent × ℕ)
raised s = s.popped ++ s.tcp_events

abbrev pub IsContext : BaseServer → Type 0
IsContext s =
    IsTable s.poll
    × ((fd : ℕ) → Owned (owners fd s) (reads_of fd s.poll) (writes_of fd s.poll))
    × ((id : ℕ) → Tracked (contains id s.generator.generated) (holders id s) (phase id (raised s)))

pub phase-append :
    (id : ℕ) (xs ys : List (TcpEvent × ℕ)) (p : Phase)
    → phase_from id (xs ++ ys) p ≡ phase_from id ys (phase_from id xs p)
phase-append id [] ys p = refl
phase-append id ((event, key) ∷ xs) ys p = phase-append id xs ys _

-- One more event
pub phase-raise :
    (id : ℕ) (xs ys : List (TcpEvent × ℕ)) (event : TcpEvent) (key : ℕ)
    → phase id (xs ++ (ys ++ (event, key) ∷ []))
      ≡ (if id == key then next event (phase id (xs ++ ys)) else phase id (xs ++ ys))
phase-raise id xs ys event key =
    rw
      (
        phase-append id xs (ys ++ (event, key) ∷ []) absent,
        phase-append id ys ((event, key) ∷ []) (phase id xs),
        phase-append id xs ys absent,
      )
      refl

pub remove-Owned :
    (fd g count rest : ℕ) (ps : List Fd)
    → IsTable ps
    → count ≡ bit (g == fd) + rest
    → Owned count (reads_of g ps) (writes_of g ps)
    → Owned rest (reads_of g (remove fd ps)) (writes_of g (remove fd ps))
remove-Owned fd g count rest ps t e (one, reads, writes) =
    let w = (step_refines (removes fd) ps g t).1 in
    (ground arith, rw w.reads (ground arith), rw w.writes (ground arith))

pub add-Owned :
    (fd g count more : ℕ) (ps : List Fd)
    → IsTable ps
    → (g ≡ fd → count ≡ 0)
    → more ≡ bit (g == fd) + count
    → Owned count (reads_of g ps) (writes_of g ps)
    → Owned more (reads_of g (add fd ps)) (writes_of g (add fd ps))
add-Owned fd g count more ps t free e (one, reads, writes) =
    let w = (step_refines (adds fd) ps g t).1 in
    (ground arith, rw w.reads (ground arith), rw w.writes (ground arith))

pub connected-Tracked :
    (id key : ℕ) (given : Bool) (count more : ℕ) (p : Phase)
    → (id ≡ key → given ≡ false)
    → more ≡ bit (id == key) + count
    → Tracked given count p
    → Tracked (id == key || given) more (if id == key then next tcp_connected p else p)
connected-Tracked id key false count more p new m (one, e) = ground arith
connected-Tracked id key true count more p new m (one, e) = ground arith

pub read-Tracked :
    (id key : ℕ) (given : Bool) (count : ℕ) (p : Phase)
    → (id ≡ key → 1 ≤ count)
    → Tracked given count p
    → Tracked given count (if id == key then next tcp_read p else p)
read-Tracked id key false count p there (one, e) = ground arith
read-Tracked id key true count p there (one, e) = ground arith

pub disconnected-Tracked :
    (id key : ℕ) (given : Bool) (count rest : ℕ) (p : Phase)
    → count ≡ bit (id == key) + rest
    → Tracked given count p
    → Tracked given rest (if id == key then next tcp_disconnected p else p)
disconnected-Tracked id key false count rest p e (one, f) = ground arith
disconnected-Tracked id key true count rest p e (one, f) = ground arith
