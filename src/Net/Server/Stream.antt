-- ===== src/Net/Server/Stream.antt =====
-- libs/lib_net/super/Server.cpp: `on_tcp_data` cuts the stream of bytes into packets.
use project_e.Common.{
  ℕ, zero, suc, ◌^◌, ◌≤◌, ◌<◌, ◌≡◌, refl, ap, ◌∙◌, none, some, List, [], ◌∷◌, ◌++◌, arith, length,
  drop, All, length-append, drop-append_exact,
}
use project_e.Net.Packet.{Packet, serialize, deserialize, size}
use project_e.Net.Packet.Wire.{IsWire, deserialize-serialize, length-serialize}
use project_e.Net.Buffer.{Buffer, buffer, consume}
use project_e.Net.Buffer.Unread.{IsValid, buffer-consume, consume-IsValid}
use project_e.Net.Server.{Server, Client, client_of_tcp}
use project_e.Net.Server.Receive.{on_tcp_packet, drain, on_tcp_data}

-- The bytes of some packets, and then others
abbrev pub wire : List Packet → List ℕ → List ℕ
wire [] tail = tail
wire (p ∷ ps) tail = serialize p ++ wire ps tail

abbrev pub handle_all : ℕ → List Packet → Server → Server
handle_all uuid [] s = s
handle_all uuid (p ∷ ps) s = handle_all uuid ps (on_tcp_packet uuid p s)

-- What is left of a buffer, and the server after its packets
pub record Drained (uuid : ℕ) (ps : List Packet) (tail : List ℕ) (s : Server)
    (outcome : Server × Buffer) : Type 0 where
  pub handled : outcome.0 ≡ handle_all uuid ps s
  pub left : buffer outcome.1 ≡ tail
  pub valid : IsValid outcome.1

size-lt : (p : Packet) → IsWire p → size p < 2 ^ 63
unfolding size
size-lt p w = omega (arith, w.size_exact, w.size_fits)

drain-Drained :
    (fuel uuid : ℕ) (ps : List Packet) (tail : List ℕ) (b : Buffer) (s : Server)
    → IsValid b
    → All IsWire ps
    → deserialize tail ≡ none
    → buffer b ≡ wire ps tail
    → length ps ≤ fuel
    → Drained uuid ps tail s (drain fuel uuid b s)
unfolding drain
drain-Drained zero uuid [] tail b s v ws none_left e h = record {
  handled = refl;
  left = e;
  valid = v;
}
drain-Drained zero uuid (p ∷ ps) tail b s v ws none_left e h = absurd (omega arith)
drain-Drained (suc fuel) uuid [] tail b s v ws none_left e h =
    rw (e, none_left, drain) (record { handled = refl; left = e; valid = v })
drain-Drained (suc fuel) uuid (p ∷ ps) tail b s v ws none_left e h =
    let rest : buffer (consume (size p) b) ≡ wire ps tail =
      buffer-consume (size p) b v (size-lt p ws.0)
      ∙ ap (drop (size p)) e
      ∙ drop-append_exact (size p) (serialize p) (wire ps tail) (length-serialize p) in
    let done =
      drain-Drained fuel uuid ps tail (consume (size p) b) (on_tcp_packet uuid p s)
        (consume-IsValid (size p) b v (size-lt p ws.0)) ws.1 none_left rest (omega arith) in
    rw (e, deserialize-serialize p (wire ps tail) ws.0, drain)
      (record { handled = done.handled; left = done.left; valid = done.valid })

length-wire : (ps : List Packet) (tail : List ℕ) → length ps ≤ length (wire ps tail)
unfolding size
length-wire [] tail = omega arith
length-wire (p ∷ ps) tail =
    omega (
      arith,
      length-append {0} (serialize p) (wire ps tail),
      length-serialize p,
      length-wire ps tail,
    )

-- For a connection of a known client and a valid buffer that holds any well formed packets and
-- then bytes from which no packet can be read, `on_tcp_data` handles each of the packets once, in
-- order, and leaves exactly the bytes behind them in a valid buffer.
pub on_tcp_data-Drained :
    (tcp uuid : ℕ) (client : Client) (ps : List Packet) (tail : List ℕ) (b : Buffer) (s : Server)
    → client_of_tcp tcp s.clients ≡ some (uuid, client)
    → IsValid b
    → All IsWire ps
    → deserialize tail ≡ none
    → buffer b ≡ wire ps tail
    → Drained uuid ps tail s (on_tcp_data tcp b s)
unfolding on_tcp_data
on_tcp_data-Drained tcp uuid client ps tail b s known v ws none_left e =
    rw (known, on_tcp_data)
      (drain-Drained (length (buffer b)) uuid ps tail b s v ws none_left e
        (omega (arith, ap length e, length-wire ps tail)))
