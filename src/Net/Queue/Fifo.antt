-- ===== src/Net/Queue/Fifo.antt =====
-- libs/lib_net/super/TSQueue.hpp: what any interleaving of the threads' operations does.
use mathlib.Core.List.{append_assoc, append-nil}
use project_e.Common.{
  ◌≡◌, refl, ap, sym, ◌∙◌, Bool, none, some, List, [], ◌∷◌, ◌++◌, arith, if◌then◌else◌,
}
use project_e.Net.Queue.{
  TsQueue, Wait, sleeps, returns, push, try_pop, wait_pop, wait_pop_for, stop, pop_items, empty,
}

-- An operation of one of the threads; a wait says whether its time is over.
pub data Op {ℓ} (A : Type ℓ) : Type ℓ where
  pushes : A → Op A
  tries : Op A
  waits : Op A
  waits_for : Bool → Op A
  stops : Op A

module _ {ℓ} {A : Type ℓ} where
  -- What an operation hands to its caller.
  abbrev pub received : Wait A → List A
  received sleeps = []
  received (returns none) = []
  received (returns (some a)) = a ∷ []

  abbrev pub step : Op A → TsQueue A → List A × TsQueue A
  step (pushes a) q = ([], push a q)
  step tries q = let (r, q') = try_pop q in (received (returns r), q')
  step waits q = let (r, q') = wait_pop q in (received r, q')
  step (waits_for over) q = let (r, q') = wait_pop_for over q in (received r, q')
  step stops q = ([], stop q)

  abbrev pub run : List (Op A) → TsQueue A → List A × TsQueue A
  run [] q = ([], q)
  run (o ∷ os) q = let (now, q') = step o q in let (later, q'') = run os q' in (now ++ later, q'')

  abbrev pub pushed : List (Op A) → List A
  pushed [] = []
  pushed (pushes a ∷ os) = a ∷ pushed os
  pushed (o ∷ os) = pushed os

  abbrev pushed_by : Op A → List A
  pushed_by (pushes a) = a ∷ []
  pushed_by o = []

  pop_items-append :
      (xs : List A) (stopped : Bool)
      → received (returns (pop_items xs stopped).0) ++ (pop_items xs stopped).1.items ≡ xs
  unfolding pop_items
  pop_items-append [] stopped = refl
  pop_items-append (x ∷ xs) stopped = refl

  step-append :
      (o : Op A) (q : TsQueue A) → (step o q).0 ++ (step o q).1.items ≡ q.items ++ pushed_by o
  unfolding push try_pop wait_pop wait_pop_for stop
  step-append (pushes a) q = refl
  step-append tries q = pop_items-append q.items q.stopped ∙ sym (append-nil q.items)
  step-append waits q = ground (arith, pop_items-append q.items q.stopped, append-nil q.items)
  step-append (waits_for over) q =
      ground (arith, pop_items-append q.items q.stopped, append-nil q.items)
  step-append stops q = sym (append-nil q.items)

  pushed-cons : (o : Op A) (os : List (Op A)) → pushed (o ∷ os) ≡ pushed_by o ++ pushed os
  pushed-cons (pushes a) os = refl
  pushed-cons tries os = refl
  pushed-cons waits os = refl
  pushed-cons (waits_for over) os = refl
  pushed-cons stops os = refl

  -- In every interleaving without `clear`, what the consumers have received so far, in order, and
  -- then what is still queued, is what was queued at first and then what was pushed, in order.
  pub run-append :
      (os : List (Op A)) (q : TsQueue A) → (run os q).0 ++ (run os q).1.items ≡ q.items ++ pushed os
  run-append [] q = sym (append-nil q.items)
  run-append (o ∷ os) q =
      let q' = (step o q).1 in
      append_assoc (step o q).0 (run os q').0 (run os q').1.items
      ∙ ap (◌++◌ (step o q).0) (run-append os q')
      ∙ sym (append_assoc (step o q).0 q'.items (pushed os))
      ∙ ap (λ xs. xs ++ pushed os) (step-append o q)
      ∙ append_assoc q.items (pushed_by o) (pushed os)
      ∙ ap (◌++◌ q.items) (sym (pushed-cons o os))

  -- `wait_pop` sleeps exactly when the queue is empty and not stopped, gives nothing exactly when it
  -- is empty and stopped, and otherwise takes the oldest item, stopped or not, as `try_pop` does.
  pub wait_pop_lem :
      (q : TsQueue A)
      → wait_pop q ≡ (
          if empty q
          then (if q.stopped then (returns none, q) else (sleeps, q))
          else (returns (try_pop q).0, (try_pop q).1))
  unfolding wait_pop try_pop
  wait_pop_lem q = ground arith
