-- ===== src/Net/Writer/Vectored.antt =====
-- libs/lib_net/io/buffered/BufWriter.hpp: the writes of several spans at once, the write of one that does not
-- fit, and the flush. The answers of the inner writer are lists, taken in their order; `none` is a run
-- that needs more of them.
use project_e.Common.{
  ℕ, ◌+◌, ◌<◌, ◌≤◌, ◌≡◌, refl, ap, ◌∙◌, Bool, true, false, not, ◌&&◌, Option, none, some, List, [],
  ◌∷◌, ◌++◌, length, length-append, take, ltb, leb, if◌then◌else◌, arith,
}
use project_e.Net.Result.{Result, success, failure}
use project_e.Net.Writer.{BufWriter, available, append, flush_buf}

abbrev no_bytes : List ℕ → Bool
no_bytes [] = true
no_bytes (b ∷ bs) = false

-- All bytes of the spans
abbrev pub joined : List (List ℕ) → List ℕ
joined [] = []
joined (b ∷ bs) = b ++ joined bs

module _ {ℓ} {E : Type ℓ} where
  -- `write_cold`: the count of all bytes is given, however many the inner writer takes.
  cold_large : Result ℕ E → List ℕ → BufWriter → Result ℕ E × BufWriter
  cold_large answer given w =
      if leb w.capacity (length given)
      then elim answer [
        | failure e ↦ (failure e, w)
        | success n ↦ (success (length given), record w { sent = w.sent ++ take n given })
      ]
      else (success (length given), append given w)

  cold_flushed : Result ℕ E → List ℕ → Result (Unit {0}) E × BufWriter → Result ℕ E × BufWriter
  unfolding cold_large
  cold_flushed answer given (failure e, w) = (failure e, w)
  cold_flushed answer given (success _, w) = cold_large answer given w

  unfoldable pub write_cold : Result ℕ E → Result ℕ E → List ℕ → BufWriter → Result ℕ E × BufWriter
  unfolding flush_buf cold_large cold_flushed
  write_cold flushed answer given w =
      if ltb (available w) (length given)
      then cold_flushed answer given (flush_buf flushed w)
      else cold_large answer given w

  -- The inner loop of `write_vectored`: every span is written, and the count is that of the outer loop.
  write_bufs : List (Result ℕ E) → List (List ℕ) → ℕ → BufWriter → Option (Result ℕ E × BufWriter)
  write_bufs answers [] total w = some (success total, w)
  write_bufs [] (b ∷ bs) total w = none
  write_bufs (failure e ∷ answers) (b ∷ bs) total w = some (failure e, w)
  write_bufs (success n ∷ answers) (b ∷ bs) total w =
      write_bufs answers bs total (record w { sent = w.sent ++ take n b })

  -- The flush of a turn, where one is needed, with the answers that are left
  flush_turn :
      Bool
      → List (Result ℕ E)
      → BufWriter
      → Option (List (Result ℕ E) × (Result (Unit {0}) E × BufWriter))
  unfolding flush_buf
  flush_turn false flushes w = some (flushes, (success tt, w))
  flush_turn true [] w = none
  flush_turn true (f ∷ flushes) w = some (flushes, flush_buf f w)

  vectored_step :
      (List (Result ℕ E) → BufWriter → Option (Result ℕ E × BufWriter))
      → (BufWriter → Option (Result ℕ E × BufWriter))
      → ℕ
      → Option (List (Result ℕ E) × (Result (Unit {0}) E × BufWriter))
      → Option (Result ℕ E × BufWriter)
  vectored_step next direct total none = none
  vectored_step next direct total (some (flushes, (failure e, w))) = some (failure e, w)
  vectored_step next direct total (some (flushes, (success _, w))) =
      if leb w.capacity total then direct w else next flushes w

  -- `write_vectored`, with the spans that the outer loop has still to count
  vectored_loop :
      List (Result ℕ E)
      → List (List ℕ)
      → List (List ℕ)
      → ℕ
      → List (Result ℕ E)
      → BufWriter
      → Option (Result ℕ E × BufWriter)
  unfolding write_bufs flush_turn vectored_step
  vectored_loop answers bufs [] total flushes w = some (success total, append (joined bufs) w)
  vectored_loop answers bufs (b ∷ rest) total flushes w =
      vectored_step (vectored_loop answers bufs rest (total + length b))
        (write_bufs answers bufs (total + length b)) (total + length b)
        (flush_turn (ltb (available w) (total + length b) && not (no_bytes w.bytes)) flushes w)

  unfoldable pub write_vectored :
      List (Result ℕ E)
      → List (Result ℕ E)
      → List (List ℕ)
      → BufWriter
      → Option (Result ℕ E × BufWriter)
  unfolding vectored_loop
  write_vectored flushes answers bufs w = vectored_loop answers bufs bufs 0 flushes w

  -- `flush`: what is buffered, and then the inner writer
  flushed_inner :
      Result (Unit {0}) E → Result (Unit {0}) E × BufWriter → Result (Unit {0}) E × BufWriter
  flushed_inner inner (failure e, w) = (failure e, w)
  flushed_inner inner (success _, w) = (inner, w)

  unfoldable pub flush :
      Result ℕ E → Result (Unit {0}) E → BufWriter → Result (Unit {0}) E × BufWriter
  unfolding flush_buf flushed_inner
  flush answer inner w = flushed_inner inner (flush_buf answer w)

  vectored_loop-fits :
      (flushes answers : List (Result ℕ E)) (bufs rest : List (List ℕ)) (total : ℕ) (w : BufWriter)
      → total + length (joined rest) ≤ available w
      → total + length (joined rest) < w.capacity
      → vectored_loop answers bufs rest total flushes w
        ≡ some (success (total + length (joined rest)), append (joined bufs) w)
  unfolding vectored_loop
  vectored_loop-fits flushes answers bufs [] total w h g =
      let e : total ≡ total + 0 = omega arith in
      ap (λ n. some (success n, append (joined bufs) w)) e
  vectored_loop-fits flushes answers bufs (b ∷ rest) total w h g =
      let size = length-append b (joined rest) in
      let quiet : ltb (available w) (total + length b) && not (no_bytes w.bytes) ≡ false =
        ground arith in
      let small : leb w.capacity (total + length b) ≡ false = ground arith in
      let ih =
        vectored_loop-fits flushes answers bufs rest (total + length b) w (omega arith)
          (omega arith) in
      let e : total + length b + length (joined rest) ≡ total + length (b ++ joined rest) =
        omega arith in
      rw (quiet, small, ih) (ap (λ n. some (success n, append (joined bufs) w)) e)

  -- Spans that fit together are buffered in their order, whatever the inner writer would answer.
  pub write_vectored-fits :
      (flushes answers : List (Result ℕ E)) (bufs : List (List ℕ)) (w : BufWriter)
      → length (joined bufs) ≤ available w
      → length (joined bufs) < w.capacity
      → write_vectored flushes answers bufs w
        ≡ some (success (length (joined bufs)), append (joined bufs) w)
  unfolding write_vectored
  write_vectored-fits flushes answers bufs w h g =
      let e : 0 + length (joined bufs) ≡ length (joined bufs) = omega arith in
      vectored_loop-fits flushes answers bufs bufs 0 w (omega arith) (omega arith)
      ∙ ap (λ n. some (success n, append (joined bufs) w)) e

-- Two spans of four bytes at a writer of capacity four are both written, and four is the count.
write_vectored_test :
    write_vectored {E = ℕ} []
      (success 4 ∷ success 4 ∷ [])
      ((1 ∷ 2 ∷ 3 ∷ 4 ∷ []) ∷ (5 ∷ 6 ∷ 7 ∷ 8 ∷ []) ∷ [])
      (record { bytes = []; capacity = 4; sent = [] })
    ≡ some
        (success 4, record { bytes = []; capacity = 4; sent = 1 ∷ 2 ∷ 3 ∷ 4 ∷ 5 ∷ 6 ∷ 7 ∷ 8 ∷ [] })
unfolding write_vectored
write_vectored_test = refl
