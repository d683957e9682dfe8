-- ===== src/Net/Base/Turn.antt =====
-- libs/lib_net/super/BaseServer.cpp: a turn of `context_loop` as steps, and what it has done at its end.
use project_e.Common.{
  ℕ, ◌≤◌, ◌≡◌, refl, ◌∙◌, subst, sym, length, Bool, true, false, Option, none, some, List, [], ◌∷◌,
  arith, ◌==◌, if◌then◌else◌, Option-cases, inl, inr,
}
use project_e.Net.Result.{success}
use project_e.Net.Uuid.{contains}
use project_e.Net.Poll.{PollEvent}
use project_e.Net.Base.{BaseServer, find_connection}
use project_e.Net.Base.Handlers.{Answers, disconnect_tcp_connection}
use project_e.Net.Base.Dispatch.{handle_poll_event}
use project_e.Net.Base.Loop.{
  prepare_write, pop_disconnect, pop_send, append_data, handle_poll_events, disconnect_all,
  handle_disconnection, send_all_tcp, context_turn,
}
use project_e.Net.Base.Tables.{bit, count_id, count_id-erase, count_id-none}
use project_e.Net.Base.Invariant.{IsContext}
use project_e.Net.Base.Keeps.{Kept, Admits}
use project_e.Net.Base.Supply.{
  identifiers_left, prepare_write-identifiers, handle_poll_events_total,
}
use project_e.Net.Base.Watch.{prepare_write-pending}
use project_e.Net.Base.Steps.{handle_poll_event-Kept, pop_disconnect-IsContext, pop_send-IsContext}

abbrev pub OnSome : (BaseServer → Type 0) → Option BaseServer → Type 0
OnSome P none = Unit
OnSome P (some s) = P s

-- Every event is answered as `Admits` asks, in the state that it meets.
abbrev pub AdmitsAll : List (PollEvent × Answers) → BaseServer → Type 0
AdmitsAll [] s = Unit
AdmitsAll ((event, a) ∷ rest) s = Admits a s × OnSome (AdmitsAll rest) (handle_poll_event event a s)

Kept-bind :
    (P : BaseServer → Type 0) (f : BaseServer → Option BaseServer)
    → ((s : BaseServer) → P s → IsContext s → Kept (f s))
    → (r : Option BaseServer) → OnSome P r
    → Kept r
    → Kept (elim r [ none ↦ none | some s ↦ f s ])
Kept-bind P f go none ok k = k
Kept-bind P f go (some s) ok k = go s ok k

handle_poll_events-Kept :
    (events : List (PollEvent × Answers)) (s : BaseServer)
    → AdmitsAll events s
    → IsContext s
    → Kept (handle_poll_events events s)
unfolding handle_poll_events
handle_poll_events-Kept [] s ok h = h
handle_poll_events-Kept ((event, a) ∷ rest) s (ok, oks) h =
    Kept-bind (AdmitsAll rest) (handle_poll_events rest) (λ s'. handle_poll_events-Kept rest s')
      (handle_poll_event event a s) oks (handle_poll_event-Kept event a s ok h)

pub bit_le : (b : Bool) → bit b ≤ 1
bit_le true = omega arith
bit_le false = omega arith

disconnect-count :
    (j id : ℕ) (s : BaseServer)
    → IsContext s
    → count_id j (disconnect_tcp_connection id s).tcp_connections
      ≡ (if j == id then 0 else count_id j s.tcp_connections)
unfolding disconnect_tcp_connection
disconnect-count j id s (t, o, k) = elim (Option-cases (find_connection id s.tcp_connections)) [
  | inl e ↦ rw (e, disconnect_tcp_connection) (ground (arith, count_id-none id s.tcp_connections e))
  | inr (c, e) ↦
      rw (e, disconnect_tcp_connection)
        (ground (
          arith,
          count_id-erase j id s.tcp_connections e,
          (k j).0,
          bit_le (contains j s.generator.generated),
        ))
]

disconnect-queue :
    (id : ℕ) (s : BaseServer)
    → (disconnect_tcp_connection id s).disconnect_queue ≡ s.disconnect_queue
unfolding disconnect_tcp_connection
disconnect-queue id s = elim (Option-cases (find_connection id s.tcp_connections)) [
  | inl e ↦ rw (e, disconnect_tcp_connection) refl
  | inr (c, e) ↦ rw (e, disconnect_tcp_connection) refl
]

pop_disconnect_lem :
    (id : ℕ) (ids : List ℕ) (s : BaseServer)
    → s.disconnect_queue ≡ id ∷ ids
    → IsContext s
    → ((pop_disconnect s).disconnect_queue ≡ ids)
      × ((j : ℕ)
          → count_id j (pop_disconnect s).tcp_connections
            ≡ (if j == id then 0 else count_id j s.tcp_connections))
unfolding pop_disconnect
pop_disconnect_lem id ids s e h =
    rw (e, pop_disconnect)
      (
        disconnect-queue id (record s { disconnect_queue = ids }),
        λ j. disconnect-count j id (record s { disconnect_queue = ids }) h,
      )

disconnect_all_lem :
    (ids : List ℕ) (s : BaseServer)
    → s.disconnect_queue ≡ ids
    → IsContext s
    → IsContext (disconnect_all ids s)
      × ((disconnect_all ids s).disconnect_queue ≡ [])
      × ((j : ℕ)
          → count_id j (disconnect_all ids s).tcp_connections
            ≡ (if contains j ids then 0 else count_id j s.tcp_connections))
unfolding disconnect_all
disconnect_all_lem [] s e h = (h, e, λ j. refl)
disconnect_all_lem (id ∷ ids) s e h =
    let (queue, count) = pop_disconnect_lem id ids s e h in
    let (kept, empty, all) =
      disconnect_all_lem ids (pop_disconnect s) queue (pop_disconnect-IsContext s h) in
    (kept, empty, λ j. ground (arith, all j, count j))

-- On a state that satisfies the invariant, which it keeps, `handle_disconnection` empties the queue of
-- the requests; afterwards no id that was asked for has a connection, and every other id has as many
-- as before.
pub handle_disconnection_lem :
    (s : BaseServer)
    → IsContext s
    → IsContext (handle_disconnection s)
      × ((handle_disconnection s).disconnect_queue ≡ [])
      × ((id : ℕ)
          → count_id id (handle_disconnection s).tcp_connections
            ≡ (if contains id s.disconnect_queue then 0 else count_id id s.tcp_connections))
unfolding handle_disconnection
handle_disconnection_lem s h = disconnect_all_lem s.disconnect_queue s refl h

append_data_lem :
    (id : ℕ) (bytes : List ℕ) (s : BaseServer)
    → ((append_data id bytes s).send_tcp_queue ≡ s.send_tcp_queue)
      × ((append_data id bytes s).disconnect_queue ≡ s.disconnect_queue)
unfolding append_data
append_data_lem id bytes s = elim (Option-cases (find_connection id s.tcp_connections)) [
  | inl e ↦ rw (e, append_data) (refl, refl)
  | inr (c, e) ↦ rw (e, append_data) (refl, refl)
]

pop_send_lem :
    (d : ℕ × List ℕ) (ds : List (ℕ × List ℕ)) (s : BaseServer)
    → s.send_tcp_queue ≡ d ∷ ds
    → ((pop_send s).send_tcp_queue ≡ ds) × ((pop_send s).disconnect_queue ≡ s.disconnect_queue)
unfolding pop_send
pop_send_lem (id, bytes) ds s e =
    rw (e, pop_send) (append_data_lem id bytes (record s { send_tcp_queue = ds }))

send_all_tcp_lem :
    (ds : List (ℕ × List ℕ)) (s : BaseServer)
    → s.send_tcp_queue ≡ ds
    → IsContext s
    → IsContext (send_all_tcp ds s)
      × ((send_all_tcp ds s).send_tcp_queue ≡ [])
      × ((send_all_tcp ds s).disconnect_queue ≡ s.disconnect_queue)
unfolding send_all_tcp
send_all_tcp_lem [] s e h = (h, e, refl)
send_all_tcp_lem (d ∷ ds) s e h =
    let (queue, same) = pop_send_lem d ds s e in
    let (kept, empty, same') = send_all_tcp_lem ds (pop_send s) queue (pop_send-IsContext s h) in
    (kept, empty, same' ∙ same)

-- What a turn whose `poll.wait` succeeds comes to
abbrev pub Turned : Option (Bool × BaseServer) → Type 0
Turned none = ⊥
Turned (some (goes_on, s)) =
    (goes_on ≡ true) × IsContext s × (s.send_tcp_queue ≡ []) × (s.disconnect_queue ≡ [])

after_events :
    (r : Option BaseServer) (s : BaseServer)
    → r ≡ some s
    → Kept r
    → Turned (elim r [
      | none ↦ none
      | some s ↦ let s' = handle_disconnection s in some (true, send_all_tcp s'.send_tcp_queue s')
    ])
after_events none s e k = cc
after_events (some s) s' e k =
    let (kept, empty, _) = handle_disconnection_lem s k in
    let (kept', sent, same) = send_all_tcp_lem _ (handle_disconnection s) refl kept in
    (refl, kept', sent, same ∙ empty)

-- A turn of `context_loop` whose `poll.wait` succeeds ends, and the loop goes on: from a state that
-- satisfies the invariant, on events that are answered as `Admits` asks, and where the random engine has
-- as many new numbers as there are events, it comes to a state that satisfies the invariant, with
-- no request for a disconnection and nothing to be sent left in the queues.
pub context_turn-Turned :
    (events : List (PollEvent × Answers)) (s : BaseServer)
    → length events ≤ identifiers_left s
    → AdmitsAll events (prepare_write s)
    → IsContext s
    → Turned (context_turn (success events) s)
unfolding context_turn
context_turn-Turned events s enough ok h =
    let (s', e) =
      handle_poll_events_total events (prepare_write s)
        (subst (λ n. length events ≤ n) (sym (prepare_write-identifiers s)) enough) in
    after_events (handle_poll_events events (prepare_write s)) s' e
      (handle_poll_events-Kept events (prepare_write s) ok (prepare_write-pending s h).0)
