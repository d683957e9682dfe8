-- ===== src/Net/Writer/Order.antt =====
-- libs/lib_net/io/buffered/BufWriter.hpp: the order of the bytes that leave.
use mathlib.Core.List.{append_assoc, append-nil}
use project_e.Common.{
  ℕ, ◌≤◌, ◌<◌, ◌≡◌, refl, ap, sym, ◌∙◌, true, false, List, [], ◌∷◌, ◌++◌, arith, length, take, drop,
  ltb, leb, Bool-cases, inl, inr, take-append-drop,
}
use project_e.Net.Result.{Result, success, failure}
use project_e.Net.Writer.{
  BufWriter, write, flush_bytes, flush_buf, write_all, write_all_cold, write_large, after_flush,
  append, available,
}

-- A call of the socket's thread; a flush comes with the answer of the inner writer.
pub data Op {ℓ} (E : Type ℓ) : Type ℓ where
  writes : List ℕ → Op E
  flushes : Result ℕ E → Op E

-- What has left or is buffered, in order
abbrev pub stream : BufWriter → List ℕ
stream w = w.sent ++ w.bytes

take-length {ℓ} : {A : Type ℓ} (xs : List A) → take (length xs) xs ≡ xs
take-length [] = refl
take-length (x ∷ xs) = ap (◌∷◌ x) (take-length xs)

module _ {ℓ} {E : Type ℓ} where
  abbrev pub step : Op E → BufWriter → BufWriter
  step (writes given) w = (write {E = E} given w).1
  step (flushes answer) w = (flush_buf answer w).1

  -- The bytes that a call says it took
  abbrev pub took : List ℕ → Result ℕ E → List ℕ
  took given (success n) = take n given
  took given (failure e) = []

  abbrev pub taken : Op E → BufWriter → List ℕ
  taken (writes given) w = took given (write {E = E} given w).0
  taken (flushes answer) w = []

  abbrev pub run : List (Op E) → BufWriter → BufWriter
  run [] w = w
  run (o ∷ os) w = run os (step o w)

  abbrev pub all_taken : List (Op E) → BufWriter → List ℕ
  all_taken [] w = []
  all_taken (o ∷ os) w = taken o w ++ all_taken os (step o w)

  flush_bytes-stream :
      (held : List ℕ) (answer : Result ℕ E) (w : BufWriter)
      → w.bytes ≡ held
      → stream (flush_bytes held answer w).1 ≡ w.sent ++ held
  unfolding flush_bytes
  flush_bytes-stream [] answer w e = ap (◌++◌ w.sent) e
  flush_bytes-stream (b ∷ bs) (failure err) w e = ap (◌++◌ w.sent) e
  flush_bytes-stream (b ∷ bs) (success n) w e =
      append_assoc w.sent (take n (b ∷ bs)) (drop n (b ∷ bs))
      ∙ ap (◌++◌ w.sent) (take-append-drop n (b ∷ bs))

  flush_buf-stream :
      (answer : Result ℕ E) (w : BufWriter) → stream (flush_buf answer w).1 ≡ stream w
  unfolding flush_buf
  flush_buf-stream answer w = flush_bytes-stream w.bytes answer w refl

  write_fits :
      (given : List ℕ) (w : BufWriter)
      → ltb (length given) (available w) ≡ true
      → write {E = E} given w ≡ (success (length given), append given w)
  unfolding write
  write_fits given w fits = rw (fits, write) refl

  write_full :
      (given : List ℕ) (w : BufWriter)
      → ltb (length given) (available w) ≡ false
      → write {E = E} given w ≡ (success 0, w)
  unfolding write
  write_full given w full = rw (full, write) refl

  step-stream : (o : Op E) (w : BufWriter) → stream (step o w) ≡ stream w ++ taken o w
  step-stream (writes given) w = elim (Bool-cases (ltb (length given) (available w))) [
    | inl fits ↦
        let e = write_fits given w fits in
        ap (λ r. stream r.1) e
        ∙ sym (append_assoc w.sent w.bytes given)
        ∙ ap (◌++◌ (stream w)) (sym (ap (λ r. took given r.0) e ∙ take-length given))
    | inr full ↦
        let e = write_full given w full in
        ap (λ r. stream r.1) e
        ∙ sym (append-nil (stream w))
        ∙ ap (◌++◌ (stream w)) (sym (ap (λ r. took given r.0) e))
  ]
  step-stream (flushes answer) w = flush_buf-stream answer w ∙ sym (append-nil (stream w))

  -- In any sequence of `write` and `flush_buf`, whatever the inner writer answers, the bytes that have left
  -- and those in the buffer are those from before and then those that the calls said they took, in order.
  pub run-stream :
      (os : List (Op E)) (w : BufWriter) → stream (run os w) ≡ stream w ++ all_taken os w
  run-stream [] w = sym (append-nil (stream w))
  run-stream (o ∷ os) w =
      run-stream os (step o w)
      ∙ ap (λ xs. xs ++ all_taken os (step o w)) (step-stream o w)
      ∙ append_assoc (stream w) (taken o w) (all_taken os (step o w))

  -- With bytes in the buffer, `write_all` of data that is not empty and at least as long as the
  -- buffer's capacity flushes once and then sends the data, so that it leaves before the buffered
  -- bytes that the flush did not take.
  pub write_all_overtakes :
      (n b : ℕ) (bs given : List ℕ) (w : BufWriter)
      → w.bytes ≡ b ∷ bs
      → 0 < length given
      → w.capacity ≤ length given
      → write_all {E = E} (success n) (success tt) given w ≡ (
        success tt,
        record w { bytes = drop n (b ∷ bs); sent = w.sent ++ take n (b ∷ bs) ++ given },
      )
  unfolding write_all write_all_cold flush_buf flush_bytes after_flush write_large
  write_all_overtakes n b bs given w held some_given large =
      let used : 0 < length w.bytes = omega (arith, ap length held) in
      let too_long : ltb (length given) (available w) ≡ false = ground arith in
      let no_room : ltb (available w) (length given) ≡ true = ground arith in
      let at_once : leb w.capacity (length given) ≡ true = ground arith in
      let flushed : write_all {E = E} (success n) (success tt) given w
          ≡ after_flush (success tt) given (flush_bytes w.bytes (success n) w) =
        rw (too_long, no_room) refl in
      flushed
      ∙ ap (λ held. after_flush (success tt) given (flush_bytes held (success n) w)) held
      ∙ rw at_once refl
