-- ===== src/Net/Buffer.antt =====
-- libs/lib_net/io/buffered/Buffer.hpp and the calls of it that BufReader.hpp passes on. Positions are
-- `size_t` and wrap. A reader is a function from the room that it is offered to what it answers.
pub mod Unread
use project_e.Common.{
  ℕ, ◌+◌, ◌-◌, ◌^◌, ◌≤◌, ◌<◌, ◌≡◌, Bool, Option, none, some, List, [], ◌∷◌, ◌++◌, length, take,
  drop, replicate, ltb, ◌==◌, if◌then◌else◌, add64, sub64,
}
use project_e.Net.Result.{Result, success, failure}

pub record Buffer : Type 0 where
  pub pos : ℕ
  pub filled : ℕ
  pub capacity : ℕ
  pub bytes : List ℕ

-- `DEFAULT_BUF_SIZE`
abbrev pub default_buf_size : ℕ
default_buf_size = 8192

unfoldable pub new : ℕ → Buffer
new capacity = record { pos = 0; filled = 0; capacity = capacity; bytes = replicate capacity 0 }

-- `Buffer::buffer`, the bytes that are read and not yet consumed
unfoldable pub buffer : Buffer → List ℕ
buffer b = take (sub64 b.filled b.pos) (drop b.pos b.bytes)

unfoldable pub discard_buffer : Buffer → Buffer
discard_buffer b = record b { pos = 0; filled = 0 }

unfoldable pub consume : ℕ → Buffer → Buffer
consume amt b = record b {
  pos = if ltb (add64 b.pos amt) b.filled then add64 b.pos amt else b.filled;
}

-- The bytes that the visitor is given, if there are enough.
unfoldable pub consume_with : ℕ → Buffer → Option (List ℕ) × Buffer
consume_with amt b =
    if ltb (sub64 b.filled b.pos) amt
    then (none, b)
    else (some (take amt (drop b.pos b.bytes)), consume amt b)

unfoldable pub unconsume : ℕ → Buffer → Buffer
unconsume amt b = record b { pos = if ltb 0 (sub64 b.pos amt) then sub64 b.pos amt else 0 }

-- `memory[at] ... = data`
unfoldable pub overwrite : ℕ → List ℕ → List ℕ → List ℕ
overwrite at new_bytes memory = take at memory ++ (new_bytes ++ drop (at + length new_bytes) memory)

-- The first test of `fill_buf`
unfoldable pub rewind : Buffer → Buffer
rewind b = if b.pos == b.filled then record b { pos = 0; filled = 0 } else b

module _ {ℓ} {E : Type ℓ} where
  -- What `fill_buf` makes of the reader's answer.
  accept : Buffer → Result (List ℕ) E → Result (List ℕ) E × Buffer
  accept b (success got) = (
    success got,
    record b { filled = add64 b.filled (length got); bytes = overwrite b.filled got b.bytes },
  )
  accept b (failure e) = (failure e, b)

  -- `fill_buf` after its first test
  read_more : (ℕ → Result (List ℕ) E) → Buffer → Result (List ℕ) E × Buffer
  read_more read b =
      if b.filled == b.capacity
      then (success [], b)
      else accept b (read (length b.bytes - b.filled))

  -- `fill_buf`: the bytes that came in, none if there was no room for any
  unfoldable pub fill_buf : (ℕ → Result (List ℕ) E) → Buffer → Result (List ℕ) E × Buffer
  unfolding rewind read_more accept
  fill_buf read b = read_more read (rewind b)
