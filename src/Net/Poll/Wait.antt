-- ===== src/Net/Poll/Wait.antt =====
-- libs/lib_net/net/Poll.cpp: the events that `wait` reports.
use project_e.Common.{
  ℕ, ◌+◌, ◌≡◌, refl, subst, Bool, true, false, ◌&&◌, List, [], ◌∷◌, ◌++◌, arith, ◌==◌,
  if◌then◌else◌, Bool-cases, inl, inr,
}
use project_e.Net.Result.{Result, success, failure}
use project_e.Net.Poll.{
  Fd, EventType, read_event, write_event, error_event, PollEvent, Revents, event_if, events_of,
  wait,
}
use project_e.Net.Poll.Refines.{has, IsTable}

abbrev pub same_type : EventType → EventType → Bool
same_type read_event read_event = true
same_type write_event write_event = true
same_type error_event error_event = true
same_type _ _ = false

-- How often a kind of event is reported for a descriptor
abbrev pub times : EventType → ℕ → List PollEvent → ℕ
times type g [] = 0
times type g (e ∷ es) = (if same_type e.type type && e.fd == g then 1 else 0) + times type g es

abbrev pub bit_of : EventType → Revents → Bool
bit_of read_event r = r.pollin
bit_of write_event r = r.pollout
bit_of error_event r = r.pollerr

-- The bit that the system has set in the descriptor's entry
abbrev pub answered_bit : EventType → ℕ → List Fd → List Revents → Bool
answered_bit type g (p ∷ ps) (r ∷ rs) =
    if p.fd == g then bit_of type r else answered_bit type g ps rs
answered_bit type g _ _ = false

abbrev pub times_in : EventType → ℕ → Result (List PollEvent) ℕ → ℕ
times_in type g (failure errno) = 0
times_in type g (success events) = times type g events

times-++ :
    (type : EventType) (g : ℕ) (a b : List PollEvent)
    → times type g (a ++ b) ≡ times type g a + times type g b
times-++ type g [] b = omega arith
times-++ type g (e ∷ a) b = omega (arith, times-++ type g a b)

times-event_if :
    (type other : EventType) (set : Bool) (g fd : ℕ)
    → times type g (event_if set other fd)
      ≡ (if set && (same_type other type && fd == g) then 1 else 0)
unfolding event_if
times-event_if type other true g fd = omega arith
times-event_if type other false g fd = refl

times_three :
    (type : EventType) (g : ℕ) (a b c d : List PollEvent)
    → times type g (a ++ (b ++ (c ++ d)))
      ≡ times type g a + (times type g b + (times type g c + times type g d))
times_three type g a b c d =
    omega
      (arith, times-++ type g a (b ++ (c ++ d)), times-++ type g b (c ++ d), times-++ type g c d)

times-entry :
    (type : EventType) (g : ℕ) (p : Fd) (ps : List Fd) (r : Revents) (rs : List Revents)
    → times type g (events_of (p ∷ ps) (r ∷ rs))
      ≡ (if bit_of type r && p.fd == g then 1 else 0) + times type g (events_of ps rs)
unfolding events_of
times-entry read_event g p ps r rs =
    let all =
      times_three read_event g (event_if r.pollin read_event p.fd)
        (event_if r.pollout write_event p.fd) (event_if r.pollerr error_event p.fd)
        (events_of ps rs) in
    let ins = times-event_if read_event read_event r.pollin g p.fd in
    let outs = times-event_if read_event write_event r.pollout g p.fd in
    let errs = times-event_if read_event error_event r.pollerr g p.fd in ground arith
times-entry write_event g p ps r rs =
    let all =
      times_three write_event g (event_if r.pollin read_event p.fd)
        (event_if r.pollout write_event p.fd) (event_if r.pollerr error_event p.fd)
        (events_of ps rs) in
    let ins = times-event_if write_event read_event r.pollin g p.fd in
    let outs = times-event_if write_event write_event r.pollout g p.fd in
    let errs = times-event_if write_event error_event r.pollerr g p.fd in ground arith
times-entry error_event g p ps r rs =
    let all =
      times_three error_event g (event_if r.pollin read_event p.fd)
        (event_if r.pollout write_event p.fd) (event_if r.pollerr error_event p.fd)
        (events_of ps rs) in
    let ins = times-event_if error_event read_event r.pollin g p.fd in
    let outs = times-event_if error_event write_event r.pollout g p.fd in
    let errs = times-event_if error_event error_event r.pollerr g p.fd in ground arith

not_reported :
    (type : EventType) (g : ℕ) (ps : List Fd) (rs : List Revents)
    → has g ps ≡ false
    → times type g (events_of ps rs) ≡ 0
unfolding events_of
not_reported type g [] rs h = refl
not_reported type g (p ∷ ps) [] h = refl
not_reported type g (p ∷ ps) (r ∷ rs) h =
    let rest : has g ps ≡ false = ground arith in
    let later = not_reported type g ps rs rest in
    let here = times-entry type g p ps r rs in ground arith

times-events_of :
    (type : EventType) (g : ℕ) (ps : List Fd) (rs : List Revents)
    → IsTable ps
    → times type g (events_of ps rs) ≡ (if answered_bit type g ps rs then 1 else 0)
unfolding events_of
times-events_of type g [] rs t = refl
times-events_of type g (p ∷ ps) [] t = refl
times-events_of type g (p ∷ ps) (r ∷ rs) (once, some_event, t) =
    let here = times-entry type g p ps r rs in
    let rest = times-events_of type g ps rs t in
    elim (Bool-cases (p.fd == g)) [
      | inl found ↦
          (let same : p.fd ≡ g = ground arith in
            let later = not_reported type g ps rs (subst (λ x. has x ps ≡ false) same once) in
            ground arith)
      | inr other ↦ ground arith
    ]

-- What the system's answer says of a descriptor: with an error, nothing
abbrev pub times_answered : EventType → ℕ → List Fd → Result (List Revents) ℕ → ℕ
times_answered type g ps (failure errno) = 0
times_answered type g ps (success rs) = if answered_bit type g ps rs then 1 else 0

-- On a table in which no descriptor stands twice and each is watched for something, `wait` reports a
-- kind of event once for each descriptor of the table whose bit for it the system has set, and for no
-- other, whichever of reading, writing and errors it is; when the system call fails, it reports nothing.
pub wait-reported :
    (type : EventType) (g : ℕ) (ps : List Fd) (answer : Result (List Revents) ℕ)
    → IsTable ps
    → times_in type g (wait answer ps) ≡ times_answered type g ps answer
unfolding wait
wait-reported type g ps (failure errno) table = refl
wait-reported type g ps (success rs) table = times-events_of type g ps rs table
