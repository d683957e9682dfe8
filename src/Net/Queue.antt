-- ===== src/Net/Queue.antt =====
-- libs/lib_net/super/TSQueue.hpp: the queue between the threads. Each operation holds the mutex from
-- its first to its last access, so operations of several threads are a sequence of these functions.
pub mod Fifo
use project_e.Common.{
  ℕ, Bool, true, false, not, ◌&&◌, ◌||◌, Option, none, some, List, [], ◌∷◌, ◌++◌, length,
  if◌then◌else◌,
}

pub record TsQueue {ℓ} (A : Type ℓ) : Type ℓ where
  pub items : List A
  pub stopped : Bool

-- What a wait for an item comes to: the caller sleeps on, or it returns.
pub data Wait {ℓ} (A : Type ℓ) : Type ℓ where
  sleeps : Wait A
  returns : Option A → Wait A

module _ {ℓ} {A : Type ℓ} where
  unfoldable pub new : TsQueue A
  new = record { items = []; stopped = false }

  unfoldable pub size : TsQueue A → ℕ
  size q = length q.items

  unfoldable pub empty : TsQueue A → Bool
  empty q = elim q.items [ [] ↦ true | _ ↦ false ]

  unfoldable pub push : A → TsQueue A → TsQueue A
  push a q = record q { items = q.items ++ a ∷ [] }

  pop_items : List A → Bool → Option A × TsQueue A
  pop_items [] stopped = (none, record { items = []; stopped = stopped })
  pop_items (a ∷ rest) stopped = (some a, record { items = rest; stopped = stopped })

  unfoldable pub try_pop : TsQueue A → Option A × TsQueue A
  unfolding pop_items
  try_pop q = pop_items q.items q.stopped

  -- `wait_pop()`, as it finds the queue when it is woken
  unfoldable pub wait_pop : TsQueue A → Wait A × TsQueue A
  unfolding pop_items empty
  wait_pop q =
      if not (empty q) || q.stopped
      then (if q.stopped && empty q
          then (returns none, q)
          else (returns (pop_items q.items q.stopped).0, (pop_items q.items q.stopped).1))
      else (sleeps, q)

  -- `wait_pop(timeout)`, as it finds the queue when it is woken or when the time is over
  unfoldable pub wait_pop_for : Bool → TsQueue A → Wait A × TsQueue A
  unfolding pop_items empty
  wait_pop_for timed_out q =
      if not (empty q) || q.stopped
      then (if q.stopped && empty q
          then (returns none, q)
          else (returns (pop_items q.items q.stopped).0, (pop_items q.items q.stopped).1))
      else (if timed_out then (returns none, q) else (sleeps, q))

  unfoldable pub clear : TsQueue A → TsQueue A
  clear q = record q { items = [] }

  unfoldable pub stop : TsQueue A → TsQueue A
  stop q = record q { stopped = true }
