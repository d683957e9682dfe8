-- ===== src/Net/Packet/Wire.antt =====
-- libs/lib_net/Packet.cpp: packets as bytes and back.
use mathlib.Core.List.{append_assoc}
use project_e.Common.{
  ℕ, ◌+◌, ◌%◌, ◌^◌, ◌≤◌, ◌<◌, ◌≡◌, refl, ap, sym, ◌∙◌, ◌⊎◌, inl, inr, Option, none, some, List, [],
  ◌∷◌, ◌++◌, arith, length, take, drop, ltb, ltb→lt, Bool-cases, length-append, length-take,
  length-drop, take-append-drop, take-append_exact, drop-append_exact, drop-drop,
}
use project_e.Net.Packet.Bytes.{to_le, of_le, IsBytes, of_le-to_le_2, of_le-to_le_4, to_le-of_le}
use project_e.Net.Packet.{
  Header, Packet, header_bytes, read_header, size, serialize, make, deserialize,
}

-- The fields are in the range of their types, and the size field is that of the payload.
pub record IsWire (p : Packet) : Type 0 where
  pub type_fits : p.header.type < 2 ^ 32
  pub size_exact : p.header.size ≡ length p.payload
  pub size_fits : p.header.size < 2 ^ 16
  pub padding_fits : p.header.padding < 2 ^ 16

length-header_bytes : (h : Header) → length (header_bytes h) ≡ 8
unfolding to_le header_bytes
length-header_bytes h = refl

read_header-header_bytes :
    (h : Header) (tail : List ℕ)
    → h.type < 2 ^ 32
    → h.size < 2 ^ 16
    → h.padding < 2 ^ 16
    → read_header (header_bytes h ++ tail) ≡ h
unfolding to_le of_le header_bytes read_header
read_header-header_bytes h tail ht hs hp = λ i. record {
  type = of_le-to_le_4 h.type ht i;
  size = of_le-to_le_2 h.size hs i;
  padding = of_le-to_le_2 h.padding hp i;
}

-- The length that `size` reports is the number of bytes that `serialize` writes.
pub length-serialize : (p : Packet) → length (serialize p) ≡ size p
unfolding serialize size
length-serialize p =
    omega (arith, length-append {0} (header_bytes p.header) p.payload, length-header_bytes p.header)

-- `deserialize` on a header and enough bytes behind it.
deserialize_enough :
    (h : Header) (payload tail : List ℕ)
    → read_header (header_bytes h ++ (payload ++ tail)) ≡ h
    → h.size ≡ length payload
    → deserialize (header_bytes h ++ (payload ++ tail))
      ≡ some (record { header = h; payload = payload })
unfolding deserialize
deserialize_enough h payload tail head e =
    let all = header_bytes h ++ (payload ++ tail) in
    ground (
      arith,
      length-append {0} (header_bytes h) (payload ++ tail),
      length-append {0} payload tail,
      length-header_bytes h,
      drop-append_exact 8 (header_bytes h) (payload ++ tail) (length-header_bytes h),
      take-append_exact h.size payload tail (sym e),
      head,
    )

-- A well formed packet is read back from its bytes, whatever bytes stand behind them.
pub deserialize-serialize :
    (p : Packet) (rest : List ℕ) → IsWire p → deserialize (serialize p ++ rest) ≡ some p
unfolding serialize
deserialize-serialize p rest w = rw (append_assoc (header_bytes p.header) p.payload rest) (
    deserialize_enough p.header p.payload rest
      (read_header-header_bytes p.header (p.payload ++ rest) w.type_fits w.size_fits w.padding_fits)
      w.size_exact)

header_bytes-read_header :
    (bs : List ℕ) → IsBytes bs → 8 ≤ length bs → header_bytes (read_header bs) ≡ take 8 bs
unfolding header_bytes read_header
header_bytes-read_header (a ∷ b ∷ c ∷ d ∷ e ∷ f ∷ g ∷ h ∷ bs) ok n = rw (
  to_le-of_le (a ∷ b ∷ c ∷ d ∷ []) (omega arith),
  to_le-of_le (e ∷ f ∷ []) (omega arith),
  to_le-of_le (g ∷ h ∷ []) (omega arith),
)
header_bytes-read_header _ ok n = absurd (omega arith)

read_header-lt :
    (bs : List ℕ)
    → IsBytes bs
    → 8 ≤ length bs
    → let h = read_header bs in (h.type < 2 ^ 32) × (h.size < 2 ^ 16) × (h.padding < 2 ^ 16)
unfolding of_le read_header
read_header-lt (a ∷ b ∷ c ∷ d ∷ e ∷ f ∷ g ∷ h ∷ bs) ok n = omega arith
read_header-lt _ ok n = absurd (omega arith)

-- What reading a packet off the front of a buffer comes to
abbrev pub Reads : List ℕ → Option Packet → Type 0
Reads bs none = (length bs < 8) ⊎ (length bs < 8 + (read_header bs).size)
Reads bs (some p) = IsWire p × (serialize p ++ drop (size p) bs ≡ bs)

deserialize_short :
    (bs : List ℕ)
    → (length bs < 8) ⊎ (length bs < 8 + (read_header bs).size)
    → deserialize bs ≡ none
unfolding deserialize
deserialize_short bs h = ground arith

-- The packet that `deserialize` builds from a buffer that is long enough.
abbrev packet_at : List ℕ → Packet
packet_at bs = record { header = read_header bs; payload = take (read_header bs).size (drop 8 bs) }

length-payload_at :
    (bs : List ℕ)
    → 8 + (read_header bs).size ≤ length bs
    → length (packet_at bs).payload ≡ (read_header bs).size
length-payload_at bs h =
    omega (arith, length-take (read_header bs).size (drop 8 bs), length-drop {0} 8 bs)

serialize-packet_at :
    (bs : List ℕ)
    → IsBytes bs
    → 8 + (read_header bs).size ≤ length bs
    → serialize (packet_at bs) ++ drop (size (packet_at bs)) bs ≡ bs
unfolding serialize size
serialize-packet_at bs ok h =
    let n = (read_header bs).size in
    rw
      (
        length-payload_at bs h,
        header_bytes-read_header bs ok (omega arith),
        ← drop-drop 8 n bs,
        append_assoc (take 8 bs) (take n (drop 8 bs)) (drop n (drop 8 bs)),
        take-append-drop n (drop 8 bs),
      )
      (take-append-drop 8 bs)

packet_at-IsWire :
    (bs : List ℕ) → IsBytes bs → 8 + (read_header bs).size ≤ length bs → IsWire (packet_at bs)
packet_at-IsWire bs ok h =
    let fits = read_header-lt bs ok (omega arith) in
    record {
      type_fits = fits.0;
      size_exact = sym (length-payload_at bs h);
      size_fits = fits.1;
      padding_fits = fits.2;
    }

-- On a list of bytes, `deserialize` gives nothing where there are no eight bytes of a header or not
-- as many bytes behind them as the two bytes of the header's size field announce, and otherwise a well
-- formed packet whose bytes are those at the front. The two bytes behind the size field are the
-- packet's padding, and do not count for its size.
pub deserialize-Reads : (bs : List ℕ) → IsBytes bs → Reads bs (deserialize bs)
unfolding deserialize
deserialize-Reads bs ok = elim (Bool-cases (ltb (length bs) 8)) [
  | inl e ↦ rw e (inl (ltb→lt _ _ e))
  | inr e ↦ elim (Bool-cases (ltb (length bs) (8 + (read_header bs).size))) [
    | inl f ↦ rw (e, f) (inr (ltb→lt _ _ f))
    | inr f ↦
        let enough : 8 + (read_header bs).size ≤ length bs = ground arith in
        rw (e, f) (packet_at-IsWire bs ok enough, serialize-packet_at bs ok enough)
  ]
]

-- What a receiver makes of a packet that was built from data of any length, its type and padding
-- in the range of their fields: it reads the first `length payload % 2 ^ 16` bytes of the data as
-- the payload, whatever follows.
pub deserialize-make :
    (padding type : ℕ) (payload rest : List ℕ)
    → type < 2 ^ 32
    → padding < 2 ^ 16
    → let n = length payload % 2 ^ 16 in
      deserialize (serialize (make padding type payload) ++ rest)
      ≡ some (record { header = (make padding type payload).header; payload = take n payload })
unfolding serialize make
deserialize-make padding type payload rest ht hp =
    let n = length payload % 2 ^ 16 in
    let h : Header = record { type = type; size = n; padding = padding } in
    let split : header_bytes h ++ payload ++ rest
        ≡ header_bytes h ++ (take n payload ++ (drop n payload ++ rest)) =
      append_assoc (header_bytes h) payload rest
      ∙ ap (◌++◌ (header_bytes h)) (
          sym (
            sym (append_assoc (take n payload) (drop n payload) rest)
            ∙ ap (λ ys. ys ++ rest) (take-append-drop n payload))) in
    rw split (
      deserialize_enough h (take n payload) (drop n payload ++ rest)
        (read_header-header_bytes h _ ht (omega arith) hp) (omega (arith, length-take n payload)))

-- A packet that was built from data that its size field can count
pub make-IsWire :
    (padding type : ℕ) (payload : List ℕ)
    → type < 2 ^ 32
    → padding < 2 ^ 16
    → length payload < 2 ^ 16
    → IsWire (make padding type payload)
unfolding make
make-IsWire padding type payload ht hp h = omega arith
