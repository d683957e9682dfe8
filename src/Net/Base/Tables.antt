-- ===== src/Net/Base/Tables.antt =====
-- libs/lib_net/super/BaseServer.cpp: how often a descriptor and an id stand in the connections.
use project_e.Common.{
  ℕ, ◌+◌, ◌≤◌, ◌≡◌, refl, Bool, true, false, some, List, [], ◌∷◌, arith, ◌==◌, none,
}
use project_e.Net.Buffer.{Buffer}
use project_e.Net.Writer.{BufWriter}
use project_e.Net.Base.{TcpConnection, find_connection, erase_connection, set_reader, set_writer}
use project_e.Net.Base.Handlers.{get_tcp_connection}

abbrev pub bit : Bool → ℕ
bit true = 1
bit false = 0

abbrev pub count_stream : ℕ → List (ℕ × TcpConnection) → ℕ
count_stream fd [] = 0
count_stream fd ((id, c) ∷ cs) = bit (fd == c.stream) + count_stream fd cs

abbrev pub count_id : ℕ → List (ℕ × TcpConnection) → ℕ
count_id id [] = 0
count_id id ((key, c) ∷ cs) = bit (id == key) + count_id id cs

pub count_stream-set_reader :
    (fd id : ℕ) (b : Buffer) (cs : List (ℕ × TcpConnection))
    → count_stream fd (set_reader id b cs) ≡ count_stream fd cs
unfolding set_reader
count_stream-set_reader fd id b [] = refl
count_stream-set_reader fd id b ((key, c) ∷ cs) = ground (arith, count_stream-set_reader fd id b cs)

pub count_id-set_reader :
    (j id : ℕ) (b : Buffer) (cs : List (ℕ × TcpConnection))
    → count_id j (set_reader id b cs) ≡ count_id j cs
unfolding set_reader
count_id-set_reader j id b [] = refl
count_id-set_reader j id b ((key, c) ∷ cs) = ground (arith, count_id-set_reader j id b cs)

pub count_stream-set_writer :
    (fd id : ℕ) (w : BufWriter) (cs : List (ℕ × TcpConnection))
    → count_stream fd (set_writer id w cs) ≡ count_stream fd cs
unfolding set_writer
count_stream-set_writer fd id w [] = refl
count_stream-set_writer fd id w ((key, c) ∷ cs) = ground (arith, count_stream-set_writer fd id w cs)

pub count_id-set_writer :
    (j id : ℕ) (w : BufWriter) (cs : List (ℕ × TcpConnection))
    → count_id j (set_writer id w cs) ≡ count_id j cs
unfolding set_writer
count_id-set_writer j id w [] = refl
count_id-set_writer j id w ((key, c) ∷ cs) = ground (arith, count_id-set_writer j id w cs)

pub count_stream-erase :
    (fd id : ℕ) {c : TcpConnection} (cs : List (ℕ × TcpConnection))
    → find_connection id cs ≡ some c
    → count_stream fd cs ≡ bit (fd == c.stream) + count_stream fd (erase_connection id cs)
unfolding find_connection erase_connection
count_stream-erase fd id [] h = cc
count_stream-erase fd id {c = c} ((key, d) ∷ cs) h =
    ground (arith, count_stream-erase fd id {c = c} cs)

pub count_id-erase :
    (j id : ℕ) {c : TcpConnection} (cs : List (ℕ × TcpConnection))
    → find_connection id cs ≡ some c
    → count_id j cs ≡ bit (j == id) + count_id j (erase_connection id cs)
unfolding find_connection erase_connection
count_id-erase j id [] h = cc
count_id-erase j id {c = c} ((key, d) ∷ cs) h = ground (arith, count_id-erase j id {c = c} cs)

-- The connection of a descriptor is one of the connections.
pub count_id-get :
    (fd : ℕ) {id : ℕ} {c : TcpConnection} (cs : List (ℕ × TcpConnection))
    → get_tcp_connection fd cs ≡ some (id, c)
    → 1 ≤ count_id id cs
unfolding get_tcp_connection
count_id-get fd [] h = cc
count_id-get fd {id = id} {c = c} ((key, d) ∷ cs) h =
    ground (arith, count_id-get fd {id = id} {c = c} cs)

pub count_id-none :
    (id : ℕ) (cs : List (ℕ × TcpConnection)) → find_connection id cs ≡ none → count_id id cs ≡ 0
unfolding find_connection
count_id-none id [] h = refl
count_id-none id ((key, d) ∷ cs) h = ground (arith, count_id-none id cs)

pub find_connection-none :
    (id : ℕ) (cs : List (ℕ × TcpConnection)) → count_id id cs ≡ 0 → find_connection id cs ≡ none
unfolding find_connection
find_connection-none id [] h = refl
find_connection-none id ((key, d) ∷ cs) h = ground (arith, find_connection-none id cs)
