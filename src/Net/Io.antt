-- ===== src/Net/Io.antt =====
-- libs/lib_net/io/Read.cpp and Write.cpp: what `Read` and `Write` do by repeated calls of `read` and
-- `write`, which are parameters. `read` is told the room and gives the bytes that it put there; `write`
-- is given bytes and says how many it took. The bytes that a call has moved are returned with its
-- result. The loops have fuel; `none` is a loop that is still running.
pub mod Exact
pub mod Examples
use project_e.Common.{
  ℕ, zero, suc, ◌+◌, ◌-◌, ◌%◌, Option, none, some, List, [], ◌∷◌, ◌++◌, length, take, drop, map,
  ltb, if◌then◌else◌,
}
use project_e.Net.Result.{Result, success, failure}

-- The errors of the operating system, and `std::errc::io_error`
pub data IoError : Type 0 where
  system : ℕ → IoError
  io_error : IoError

-- What a call has done: its result, the bytes that it moved, and the other end
abbrev pub Done : Type 0 → Type 0 → Type 0
Done T S = Result T IoError × List ℕ × S

-- A turn of `read_exact`, for what `read` gave, and what the turns after it do
unfoldable pub read_turn :
    {S : Type 0}
    → ℕ
    → List ℕ
    → (ℕ → List ℕ → S → Option (Done ℕ S))
    → Result (List ℕ) ℕ × S
    → Option (Done ℕ S)
read_turn room got next (failure e, s) = some (failure (system e), got, s)
read_turn room got next (success [], s) = some (failure io_error, got, s)
read_turn room got next (success (x ∷ xs), s) = next (room - length (x ∷ xs)) (got ++ (x ∷ xs)) s

-- A turn of `read_to_end`, which reads into the same bytes again and again: what is read there last stays.
unfoldable pub end_turn :
    {S : Type 0}
    → ℕ
    → List ℕ
    → (ℕ → List ℕ → S → Option (Done ℕ S))
    → Result (List ℕ) ℕ × S
    → Option (Done ℕ S)
end_turn total kept next (failure e, s) = some (failure (system e), kept, s)
end_turn total kept next (success [], s) = some (success total, kept, s)
end_turn total kept next (success (x ∷ xs), s) =
    next (total + length (x ∷ xs)) ((x ∷ xs) ++ drop (length (x ∷ xs)) kept) s

-- A turn of `read_vectored`: the caller's `bytesRead` is not set by `read`.
vectored_turn :
    {S : Type 0}
    → ℕ
    → ℕ
    → ℕ
    → (ℕ → S → Result ℕ IoError × S)
    → Result (List ℕ) ℕ × S
    → Result ℕ IoError × S
vectored_turn bytes_read size total next (failure e, s) = (failure (system e), s)
vectored_turn bytes_read size total next (success got, s) =
    if ltb bytes_read size then (success (total + bytes_read), s) else next (total + bytes_read) s

module _ {S : Type 0} (read : ℕ → S → Result (List ℕ) ℕ × S) where
  -- The loop of `read_exact`, with `room` bytes to go
  unfoldable pub read_exact_loop : ℕ → ℕ → List ℕ → S → Option (Done ℕ S)
  unfolding read_turn
  read_exact_loop fuel zero got s = some (success (length got), got, s)
  read_exact_loop zero (suc room) got s = none
  read_exact_loop (suc fuel) (suc room) got s =
      read_turn (suc room) got (read_exact_loop fuel) (read (suc room) s)

  -- `read_exact`: each turn but the last moves one byte at least, so that the size is enough fuel.
  unfoldable pub read_exact : ℕ → S → Option (Done ℕ S)
  unfolding read_exact_loop
  read_exact size s = read_exact_loop size size [] s

  unfoldable pub read_to_end_loop : ℕ → ℕ → ℕ → List ℕ → S → Option (Done ℕ S)
  unfolding end_turn
  read_to_end_loop zero room total kept s = none
  read_to_end_loop (suc fuel) room total kept s =
      end_turn total kept (read_to_end_loop fuel room) (read room s)

  -- `read_to_end`
  unfoldable pub read_to_end : ℕ → List ℕ → S → Option (Done ℕ S)
  unfolding read_to_end_loop
  read_to_end fuel kept s = read_to_end_loop fuel (length kept) 0 kept s

  -- `read_to_string`, of an empty `tempBuf`
  unfoldable pub appended : List ℕ → Option (Done ℕ S) → Option (Done ℕ S)
  appended text none = none
  appended text (some (failure e, kept, s)) = some (failure e, text, s)
  appended text (some (success n, kept, s)) = some (success n, text ++ kept, s)

  unfoldable pub read_to_string : ℕ → List ℕ → S → Option (Done ℕ S)
  unfolding read_to_end appended
  read_to_string fuel text s = appended text (read_to_end fuel [] s)

  -- `read_vectored`, for buffers of these sizes
  unfoldable pub read_vectored : ℕ → List ℕ → ℕ → S → Result ℕ IoError × S
  unfolding vectored_turn
  read_vectored bytes_read [] total s = (success total, s)
  read_vectored bytes_read (size ∷ sizes) total s =
      vectored_turn bytes_read size total (read_vectored bytes_read sizes) (read size s)

-- Turns of `write_vectored`, `write_all` and `write_all_vectored`
count_turn :
    {S : Type 0} → ℕ → (ℕ → S → Result ℕ IoError × S) → Result ℕ ℕ × S → Result ℕ IoError × S
count_turn total next (failure e, s) = (failure (system e), s)
count_turn total next (success n, s) = next (total + n) s

unfoldable pub write_turn :
    {S : Type 0}
    → List ℕ
    → List ℕ
    → (List ℕ → List ℕ → S → Option (Done (Unit {0}) S))
    → Result ℕ ℕ × S
    → Option (Done (Unit {0}) S)
write_turn buf sent next (failure e, s) = some (failure (system e), sent, s)
write_turn buf sent next (success n, s) = next (drop n buf) (sent ++ take n buf) s

all_turn :
    {S : Type 0}
    → List ℕ
    → (List ℕ → S → Option (Done (Unit {0}) S))
    → Option (Done (Unit {0}) S)
    → Option (Done (Unit {0}) S)
all_turn sent next none = none
all_turn sent next (some (failure e, more, s)) = some (failure e, sent ++ more, s)
all_turn sent next (some (success _, more, s)) = next (sent ++ more) s

module _ {S : Type 0} (write : List ℕ → S → Result ℕ ℕ × S) where
  unfoldable pub write_vectored : List (List ℕ) → ℕ → S → Result ℕ IoError × S
  unfolding count_turn
  write_vectored [] total s = (success total, s)
  write_vectored (buf ∷ bufs) total s = count_turn total (write_vectored bufs) (write buf s)

  -- The loop of `write_all`, with these bytes to go
  unfoldable pub write_all_loop : ℕ → List ℕ → List ℕ → S → Option (Done (Unit {0}) S)
  unfolding write_turn
  write_all_loop fuel [] sent s = some (success tt, sent, s)
  write_all_loop zero (b ∷ bs) sent s = none
  write_all_loop (suc fuel) (b ∷ bs) sent s =
      write_turn (b ∷ bs) sent (write_all_loop fuel) (write (b ∷ bs) s)

  -- `write_all`: a writer that takes one byte at least each time needs as many turns as there are bytes.
  unfoldable pub write_all : List ℕ → S → Option (Done (Unit {0}) S)
  unfolding write_all_loop
  write_all buf s = write_all_loop (length buf) buf [] s

  unfoldable pub write_all_vectored : List (List ℕ) → List ℕ → S → Option (Done (Unit {0}) S)
  unfolding write_all all_turn
  write_all_vectored [] sent s = some (success tt, sent, s)
  write_all_vectored (buf ∷ bufs) sent s = all_turn sent (write_all_vectored bufs) (write_all buf s)

  -- `write_str`, of the characters' codes
  unfoldable pub write_str : List ℕ → S → Option (Done (Unit {0}) S)
  unfolding write_all
  write_str text s = write_all (map (λ c. c % 256) text) s
