-- ===== src/Net/Packet.antt =====
-- libs/lib_net/Packet.hpp and Packet.cpp: the header, and packets as bytes.
-- `memcpy` of a header is modelled for the platforms that the project builds on: little-endian, with
-- a header of eight bytes, the last two of which are padding. The padding is copied with the rest,
-- so it is a field here; what an uninitialised header holds there is an argument.
pub mod Bytes
pub mod Wire
use project_e.Common.{
  ℕ, ◌+◌, ◌*◌, ◌%◌, ◌^◌, ◌<◌, ◌≡◌, Bool, Option, none, some, List, ◌++◌, length, take, drop, ltb,
  if◌then◌else◌,
}
use Bytes.{to_le, of_le}

-- `Packet::Header`
pub record Header : Type 0 where
  pub type : ℕ
  pub size : ℕ
  pub padding : ℕ

pub record Packet : Type 0 where
  pub header : Header
  pub payload : List ℕ

-- `sizeof(Header)`
abbrev pub header_size : ℕ
header_size = 8

unfoldable pub header_bytes : Header → List ℕ
header_bytes h = to_le 4 h.type ++ (to_le 2 h.size ++ to_le 2 h.padding)

unfoldable pub read_header : List ℕ → Header
read_header bs = record {
  type = of_le (take 4 bs);
  size = of_le (take 2 (drop 4 bs));
  padding = of_le (take 2 (drop 6 bs));
}

-- `Packet::size`
unfoldable pub size : Packet → ℕ
size p = header_size + length p.payload

-- `Packet::serialize`
unfoldable pub serialize : Packet → List ℕ
serialize p = header_bytes p.header ++ p.payload

-- `Packet::deserialize(type, data)`: the size field is a `uint16_t`.
unfoldable pub make : ℕ → ℕ → List ℕ → Packet
make padding type payload = record {
  header = record { type = type; size = length payload % 2 ^ 16; padding = padding };
  payload = payload;
}

-- `Packet::deserialize(data)`, the same text for a vector and for a span
unfoldable pub deserialize : List ℕ → Option Packet
deserialize bs =
    if ltb (length bs) header_size
    then none
    else (let header = read_header bs in
        if ltb (length bs) (header_size + header.size)
        then none
        else some (record { header = header; payload = take header.size (drop header_size bs) }))
