-- ===== src/Net/Server/Receive.antt =====
-- libs/lib_net/super/Server.cpp: the bytes that came in over TCP, cut into packets.
use project_e.Common.{ℕ, zero, suc, Bool, true, false, none, some, length, ◌==◌, if◌then◌else◌}
use project_e.Net.Packet.{Packet, make, serialize, deserialize}
use project_e.Net.Packet
use project_e.Net.Buffer.{Buffer, buffer, consume}
use project_e.Net.Server.{
  Server, ask_udp_number, transform_number, find_client, client_of_tcp, find_addr, unpack_pair,
  ask_udp_connection_response, emit, on_packet,
}

-- One packet of a TCP peer
unfoldable pub on_tcp_packet : ℕ → Packet → Server → Server
unfolding unpack_pair transform_number ask_udp_connection_response
on_tcp_packet uuid packet s =
    if packet.header.type == ask_udp_number
    then elim (unpack_pair packet.payload) [
      | none ↦ s
      | some (id, number) ↦ ask_udp_connection_response id (transform_number number) s
    ]
    else emit (on_packet packet uuid) s

-- The loop of `on_tcp_data`, for at most as many packets as the fuel says
unfoldable pub drain : ℕ → ℕ → Buffer → Server → Server × Buffer
unfolding on_tcp_packet
drain zero uuid b s = (s, b)
drain (suc fuel) uuid b s = elim (deserialize (buffer b)) [
  | none ↦ (s, b)
  | some packet ↦ drain fuel uuid (consume (Packet.size packet) b) (on_tcp_packet uuid packet s)
]

-- `on_tcp_data`: a packet has eight bytes at least, so the buffer's length is more than enough fuel.
unfoldable pub on_tcp_data : ℕ → Buffer → Server → Server × Buffer
unfolding client_of_tcp drain
on_tcp_data tcp b s = elim (client_of_tcp tcp s.clients) [
  | none ↦ (s, b)
  | some (uuid, _) ↦ drain (length (buffer b)) uuid b s
]

-- `has_udp_connection`
unfoldable pub has_udp_connection : ℕ → Server → Bool
unfolding find_client find_addr
has_udp_connection uuid s = elim (find_client uuid s.clients) [
  | none ↦ false
  | some client ↦ elim (find_addr client.udp_addr s.cache) [ none ↦ false | some _ ↦ true ]
]
