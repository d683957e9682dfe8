-- ===== src/Net/Poll.antt =====
-- libs/lib_net/net/Poll.hpp and Poll.cpp: the table of descriptors that `poll` watches. The requested
-- events are the two bits that the code sets, POLLIN and POLLOUT. The overloads for streams, sockets
-- and listeners have one text. What the system call answers, an error or the events of each entry, is
-- an argument of `wait`.
pub mod Refines
pub mod Wait
use project_e.Common.{ℕ, Bool, true, false, ◌||◌, List, [], ◌∷◌, ◌++◌, ◌==◌, if◌then◌else◌}
use project_e.Net.Result.{Result, success, failure}

-- `Poll::Fd`
pub record Fd : Type 0 where
  pub fd : ℕ
  pub reads : Bool
  pub writes : Bool

unfoldable pub add : ℕ → List Fd → List Fd
add fd [] = record { fd = fd; reads = true; writes = false } ∷ []
add fd (p ∷ ps) =
    let rest = add fd ps in if p.fd == fd then record p { reads = true } ∷ ps else p ∷ rest

unfoldable pub add_write : ℕ → List Fd → List Fd
add_write fd [] = record { fd = fd; reads = false; writes = true } ∷ []
add_write fd (p ∷ ps) =
    let rest = add_write fd ps in if p.fd == fd then record p { writes = true } ∷ ps else p ∷ rest

unfoldable pub remove : ℕ → List Fd → List Fd
remove fd [] = []
remove fd (p ∷ ps) = let rest = remove fd ps in if p.fd == fd then rest else p ∷ rest

-- `std::remove` and `erase` of the element `p` before `ps`, where the value to remove is a reference to
-- that element: once another element is moved to its place, that one is what the rest is compared with.
drop_equal : ℕ → List Fd → List Fd
drop_equal fd [] = []
drop_equal fd (p ∷ ps) = let rest = drop_equal fd ps in if p.fd == fd then rest else p ∷ rest

unfoldable pub erase_in_place : Fd → List Fd → List Fd
unfolding drop_equal
erase_in_place p [] = []
erase_in_place p (q ∷ qs) =
    let rest = erase_in_place p qs in if q.fd == p.fd then rest else q ∷ drop_equal q.fd qs

unfoldable pub remove_write : ℕ → List Fd → List Fd
unfolding erase_in_place
remove_write fd [] = []
remove_write fd (p ∷ ps) =
    let rest = remove_write fd ps in
    if p.fd == fd
    then (if p.reads then record p { writes = false } ∷ ps else erase_in_place p ps)
    else p ∷ rest

-- `PollEvent`
pub data EventType : Type 0 where
  read_event write_event error_event : EventType

pub record PollEvent : Type 0 where
  pub type : EventType
  pub fd : ℕ

-- `revents`: the bits POLLIN, POLLOUT and POLLERR
pub record Revents : Type 0 where
  pub pollin : Bool
  pub pollout : Bool
  pub pollerr : Bool

-- What `wait` puts into `poll_events` for an entry of the table
unfoldable pub event_if : Bool → EventType → ℕ → List PollEvent
event_if set type fd = if set then record { type = type; fd = fd } ∷ [] else []

unfoldable pub events_of : List Fd → List Revents → List PollEvent
unfolding event_if
events_of (p ∷ ps) (r ∷ rs) =
    event_if r.pollin read_event p.fd
    ++ (event_if r.pollout write_event p.fd
        ++ (event_if r.pollerr error_event p.fd ++ events_of ps rs))
events_of _ _ = []

unfoldable pub wait : Result (List Revents) ℕ → List Fd → Result (List PollEvent) ℕ
unfolding events_of
wait (failure errno) fds = failure errno
wait (success revents) fds = success (events_of fds revents)
