-- ===== src/Net/Examples.antt =====
-- Small inputs for the theorems on packets, queues, buffers, identifiers and addresses.
use project_e.Common.{
  ℕ, ◌≡◌, refl, true, false, some, List, [], ◌∷◌, ◌++◌, arith, length, take, ap, length-take,
}
use project_e.Net.Packet.{read_header, Packet, serialize, deserialize}
use project_e.Net.Packet.Bytes.{of_le, IsBytes}
use project_e.Net.Packet.Wire.{IsWire, Reads, deserialize-serialize, deserialize-Reads}
use project_e.Net.Queue.{TsQueue}
use project_e.Net.Queue.Fifo.{Op, pushes, tries, waits, waits_for, stops, run, pushed, run-append}
use project_e.Net.Result.{Result, success, failure}
use project_e.Net.Buffer.{Buffer, buffer, fill_buf}
use project_e.Net.Buffer.Unread.{IsValid, Obeys, Filled, fill_buf-Filled}
use project_e.Net.Poll.{Fd, error_event, Revents, wait}
use project_e.Net.Poll.Wait.{times_in, wait-reported}
use project_e.Net.Poll.Refines.{IsTable, Watches, step, remove_writes, step_refines}
use project_e.Net.Writer.{BufWriter}
use project_e.Net.Writer.Order.{writes, flushes, stream, all_taken, run-stream, write_all_overtakes}
use project_e.Net.Writer.Order
use project_e.Net.Uuid.Text.{hex_char, hex, to_str, new_from_str, from_str}
use project_e.Net.Uuid.Hex.{new_from_str-to_str}
use project_e.Net.Addr.{Ipv4Addr}

-- A packet of type 7 with three bytes, and one byte of the next packet behind it
abbrev hello : Packet
hello = record { header = record { type = 7; size = 3; padding = 0 }; payload = 10 ∷ 20 ∷ 30 ∷ [] }

abbrev bytes_in : List ℕ
bytes_in = 7 ∷ 0 ∷ 0 ∷ 0 ∷ 3 ∷ 0 ∷ 0 ∷ 0 ∷ 10 ∷ 20 ∷ 30 ∷ 9 ∷ []

hello-IsWire : IsWire hello
hello-IsWire = record {
  type_fits = omega arith;
  size_exact = refl;
  size_fits = omega arith;
  padding_fits = omega arith;
}

bytes_in-IsBytes : IsBytes bytes_in
bytes_in-IsBytes = (
  omega arith,
  (
    omega arith,
    (
      omega arith,
      (
        omega arith,
        (
          omega arith,
          (
            omega arith,
            (
              omega arith,
              (omega arith, (omega arith, (omega arith, (omega arith, (omega arith, tt))))),
            ),
          ),
        ),
      ),
    ),
  ),
)

deserialize_test : deserialize bytes_in ≡ some hello
unfolding deserialize read_header of_le
deserialize_test = refl

deserialize-serialize_example : deserialize (serialize hello ++ 9 ∷ []) ≡ some hello
deserialize-serialize_example = deserialize-serialize hello (9 ∷ []) hello-IsWire

deserialize-Reads_example : Reads bytes_in (deserialize bytes_in)
deserialize-Reads_example = deserialize-Reads bytes_in bytes_in-IsBytes

-- Two producers and two consumers
abbrev trace : List (Op ℕ)
trace = pushes 1 ∷ pushes 2 ∷ waits ∷ pushes 3 ∷ tries ∷ stops ∷ waits_for true ∷ waits ∷ []

abbrev queue : TsQueue ℕ
queue = record { items = 8 ∷ []; stopped = false }

run-append_example : (run trace queue).0 ++ (run trace queue).1.items ≡ queue.items ++ pushed trace
run-append_example = run-append trace queue

-- Eight bytes of room, five filled, two of them read
abbrev half_read : Buffer
half_read = record { pos = 2; filled = 5; capacity = 8; bytes = 1 ∷ 2 ∷ 3 ∷ 4 ∷ 5 ∷ 0 ∷ 0 ∷ 0 ∷ [] }

-- A socket with three bytes waiting
abbrev socket : ℕ → Result (List ℕ) ℕ
socket room = success (take room (6 ∷ 7 ∷ 8 ∷ []))

half_read-IsValid : IsValid half_read
half_read-IsValid = record {
  pos-le = omega arith;
  filled-le = omega arith;
  allocated = refl;
  addressable = omega arith;
}

bytes_of : Result (List ℕ) ℕ → List ℕ
bytes_of (success got) = got
bytes_of (failure e) = []

socket-Obeys : Obeys socket
unfolding bytes_of
socket-Obeys room got e =
    let same : take room (6 ∷ 7 ∷ 8 ∷ []) ≡ got = ap bytes_of e in
    omega (arith, ap length same, length-take {A = ℕ} room (6 ∷ 7 ∷ 8 ∷ []))

fill_buf-Filled_example : Filled (buffer half_read) (fill_buf socket half_read)
fill_buf-Filled_example = fill_buf-Filled socket half_read socket-Obeys half_read-IsValid

new_from_str-to_str_example :
    (new_from_str (to_str 48879) ≡ success 48879) × (from_str (to_str 48879) ≡ (success tt, 48879))
new_from_str-to_str_example = new_from_str-to_str 48879 (omega arith)

-- "beef"
to_str_test : to_str 48879 ≡ 98 ∷ 101 ∷ 101 ∷ 102 ∷ []
unfolding to_str hex hex_char
to_str_test = refl

abbrev localhost : Ipv4Addr
localhost = record { octet0 = 127; octet1 = 0; octet2 = 0; octet3 = 1 }

-- A socket that is read and written, and one that is only written
abbrev watched : List Fd
watched =
    record { fd = 4; reads = true; writes = true }
    ∷ record { fd = 5; reads = false; writes = true }
    ∷ record { fd = 6; reads = true; writes = false }
    ∷ []

watched-IsTable : IsTable watched
watched-IsTable = (refl, refl, (refl, refl, (refl, refl, tt)))

step_refines_example :
    IsTable (step (remove_writes 5) watched) × Watches (remove_writes 5) watched 6
step_refines_example = step_refines (remove_writes 5) watched 6 watched-IsTable

-- A writer with room for four bytes, two of them taken
abbrev writer : BufWriter
writer = record { bytes = 1 ∷ 2 ∷ []; capacity = 4; sent = [] }

abbrev writer_calls : List (Order.Op ℕ)
writer_calls =
    writes (3 ∷ []) ∷ flushes (success 2) ∷ writes (4 ∷ 5 ∷ 6 ∷ 7 ∷ []) ∷ flushes (failure 9) ∷ []

run-stream_example :
    stream (Order.run writer_calls writer) ≡ stream writer ++ all_taken writer_calls writer
run-stream_example = run-stream writer_calls writer

abbrev readable : Revents
readable = record { pollin = true; pollout = false; pollerr = false }

abbrev broken : Revents
broken = record { pollin = false; pollout = false; pollerr = true }

-- The first descriptor may be read, the second is broken.
wait-reported_example :
    times_in error_event 5 (wait (success (readable ∷ broken ∷ readable ∷ [])) watched) ≡ 1
wait-reported_example =
    wait-reported error_event 5 watched (success (readable ∷ broken ∷ readable ∷ []))
      watched-IsTable
