-- ===== src/Net/Writer.antt =====
-- libs/lib_net/io/buffered/BufWriter.hpp: the writes of a socket, behind a buffer of fixed capacity (a
-- `std::vector` whose capacity `reserve` restores). What the inner writer answers is an argument: the
-- number of bytes that it took, never more than it was given, or an error. `sent` is what it took so far.
-- Bytes put in beyond the capacity, which make a vector grow, leave `capacity` as it is here.
pub mod Order
mod Vectored
use project_e.Common.{
  ℕ, ◌-◌, Bool, List, [], ◌∷◌, ◌++◌, length, take, drop, ltb, leb, if◌then◌else◌,
}
use project_e.Net.Result.{Result, success, failure}

pub record BufWriter : Type 0 where
  pub bytes : List ℕ
  pub capacity : ℕ
  pub sent : List ℕ

abbrev pub available : BufWriter → ℕ
available w = w.capacity - length w.bytes

-- `_buffer.insert` at the end
abbrev pub append : List ℕ → BufWriter → BufWriter
append given w = record w { bytes = w.bytes ++ given }

module _ {ℓ} {E : Type ℓ} where
  -- `write`: data that does not fit is not taken.
  unfoldable pub write : List ℕ → BufWriter → Result ℕ E × BufWriter
  write given w =
      if ltb (length given) (available w)
      then (success (length given), append given w)
      else (success 0, w)

  -- `flush_buf`, for what the buffer holds
  flush_bytes : List ℕ → Result ℕ E → BufWriter → Result (Unit {0}) E × BufWriter
  flush_bytes [] answer w = (success tt, w)
  flush_bytes (b ∷ bs) (failure e) w = (failure e, w)
  flush_bytes (b ∷ bs) (success n) w =
      (success tt, record w { bytes = drop n (b ∷ bs); sent = w.sent ++ take n (b ∷ bs) })

  unfoldable pub flush_buf : Result ℕ E → BufWriter → Result (Unit {0}) E × BufWriter
  unfolding flush_bytes
  flush_buf answer w = flush_bytes w.bytes answer w

  -- `write_all_cold` after its flush; what an inner writer that fails has taken is not known.
  write_large : Result (Unit {0}) E → List ℕ → BufWriter → Result (Unit {0}) E × BufWriter
  write_large answer given w =
      if leb w.capacity (length given)
      then elim answer [
        | failure e ↦ (failure e, w)
        | success _ ↦ (success tt, record w { sent = w.sent ++ given })
      ]
      else (success tt, append given w)

  after_flush :
      Result (Unit {0}) E
      → List ℕ
      → Result (Unit {0}) E × BufWriter
      → Result (Unit {0}) E × BufWriter
  unfolding write_large
  after_flush answer given (failure e, w) = (failure e, w)
  after_flush answer given (success _, w) = write_large answer given w

  -- `write_all_cold`
  unfoldable pub write_all_cold :
      Result ℕ E → Result (Unit {0}) E → List ℕ → BufWriter → Result (Unit {0}) E × BufWriter
  unfolding flush_buf write_large after_flush
  write_all_cold flushed answer given w =
      if ltb (available w) (length given)
      then after_flush answer given (flush_buf flushed w)
      else write_large answer given w

  -- `write_all`
  unfoldable pub write_all :
      Result ℕ E → Result (Unit {0}) E → List ℕ → BufWriter → Result (Unit {0}) E × BufWriter
  unfolding write_all_cold
  write_all flushed answer given w =
      if ltb (length given) (available w)
      then (success tt, append given w)
      else write_all_cold flushed answer given w
