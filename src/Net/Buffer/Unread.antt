-- ===== src/Net/Buffer/Unread.antt =====
-- libs/lib_net/io/buffered/Buffer.hpp: the buffer as the list of its unread bytes.
use project_e.Common.{
  ℕ, ◌+◌, ◌-◌, ◌^◌, ◌≤◌, ◌<◌, ◌≡◌, refl, sym, inl, inr, List, [], ◌++◌, arith, length, take, drop,
  min, ltb, ◌==◌, add64, sub64, sub64-le, length-take, length-drop, length-append,
  take-append_exact, drop-drop, Bool-cases, drop-append_le, drop-take,
}
use mathlib.Core.List.{append_assoc, append-nil}
use project_e.Net.Result.{Result, success, failure}
use project_e.Net.Buffer.{
  Buffer, buffer, consume, unconsume, overwrite, rewind, fill_buf, read_more, accept,
}

pub record IsValid (b : Buffer) : Type 0 where
  pub pos-le : b.pos ≤ b.filled
  pub filled-le : b.filled ≤ b.capacity
  pub allocated : length b.bytes ≡ b.capacity
  pub addressable : b.capacity < 2 ^ 63

-- The unread bytes, without the wrap-around.
abbrev pub unread : Buffer → List ℕ
unread b = take (b.filled - b.pos) (drop b.pos b.bytes)

pub buffer-unread : (b : Buffer) → IsValid b → buffer b ≡ unread b
unfolding buffer
buffer-unread b v = rw (sub64-le b.filled b.pos v.pos-le (omega arith))

pub length-unread : (b : Buffer) → IsValid b → length (unread b) ≡ b.filled - b.pos
length-unread b v =
    omega
      (arith, length-take (b.filled - b.pos) (drop b.pos b.bytes), length-drop {0} b.pos b.bytes)

consume_pos :
    (n : ℕ) (b : Buffer) → IsValid b → n < 2 ^ 63 → (consume n b).pos ≡ min (b.pos + n) b.filled
unfolding consume
consume_pos n b v h = ground arith

consume-rest :
    (n : ℕ) (b : Buffer)
    → let c = consume n b in (c.filled ≡ b.filled) × (c.capacity ≡ b.capacity) × (c.bytes ≡ b.bytes)
unfolding consume
consume-rest n b = (refl, refl, refl)

pub consume-IsValid : (n : ℕ) (b : Buffer) → IsValid b → n < 2 ^ 63 → IsValid (consume n b)
consume-IsValid n b v h = let e = consume_pos n b v h in ground (arith, consume-rest n b)

-- Consuming fewer than 2 ^ 63 bytes of a valid buffer drops that many unread bytes, or all of them
-- where there are fewer.
pub buffer-consume :
    (n : ℕ) (b : Buffer) → IsValid b → n < 2 ^ 63 → buffer (consume n b) ≡ drop n (buffer b)
buffer-consume n b v h =
    rw (buffer-unread b v, buffer-unread (consume n b) (consume-IsValid n b v h))
      (elim (Bool-cases (ltb (b.pos + n) b.filled)) [
        | inl less ↦
            let e : (consume n b).pos ≡ b.pos + n = ground (arith, consume_pos n b v h) in
            let f : b.filled - (b.pos + n) ≡ b.filled - b.pos - n = omega arith in
            rw (
              drop-take n (b.filled - b.pos) (drop b.pos b.bytes),
              drop-drop b.pos n b.bytes,
              e,
              ← f,
              (consume-rest n b).0,
              (consume-rest n b).2,
            )
        | inr more ↦
            let e : (consume n b).pos ≡ b.filled = ground (arith, consume_pos n b v h) in
            let z : b.filled - b.filled ≡ 0 = omega arith in
            let f : b.filled - b.pos - n ≡ 0 = ground arith in
            rw (drop-take n (b.filled - b.pos) (drop b.pos b.bytes), e, f, (consume-rest n b).0, z)
      ])

unread-overwrite :
    (pos filled : ℕ) (got memory : List ℕ)
    → pos ≤ filled
    → filled + length got ≤ length memory
    → take (filled + length got - pos) (drop pos (overwrite filled got memory))
      ≡ take (filled - pos) (drop pos memory) ++ got
unfolding overwrite
unread-overwrite pos filled got memory h room =
    let old = take (filled - pos) (drop pos memory) in
    let rest = drop (filled + length got) memory in
    rw
      (
        drop-append_le pos (take filled memory) (got ++ rest)
            (omega (arith, length-take filled memory)),
        drop-take pos filled memory,
        ← append_assoc old got rest,
      )
      (take-append_exact (filled + length got - pos) (old ++ got) rest (
        omega (
          arith,
          length-append {0} old got,
          length-take (filled - pos) (drop pos memory),
          length-drop {0} pos memory,
        )))

length-overwrite :
    (at : ℕ) (got memory : List ℕ)
    → at + length got ≤ length memory
    → length (overwrite at got memory) ≡ length memory
unfolding overwrite
length-overwrite at got memory h = omega (
  arith,
  length-append {0} (take at memory) (got ++ drop (at + length got) memory),
  length-append {0} got (drop (at + length got) memory),
  length-take at memory,
  length-drop {0} (at + length got) memory,
)

-- What a reader promises of the room that it is offered.
abbrev pub Obeys {ℓ} : {E : Type ℓ} → (ℕ → Result (List ℕ) E) → Type ℓ
Obeys {E} read = (room : ℕ) (got : List ℕ) → read room ≡ success got → length got ≤ room

-- The buffer is valid, and its unread bytes are those that it had and then those that came in.
abbrev pub Filled {ℓ} : {E : Type ℓ} → List ℕ → Result (List ℕ) E × Buffer → Type 0
Filled old (success got, b) = IsValid b × (buffer b ≡ old ++ got)
Filled old (failure e, b) = IsValid b × (buffer b ≡ old)

rewind-IsValid : (b : Buffer) → IsValid b → IsValid (rewind b)
unfolding rewind
rewind-IsValid b v = ground arith

buffer-rewind : (b : Buffer) → IsValid b → buffer (rewind b) ≡ buffer b
unfolding rewind buffer
buffer-rewind b v = elim (Bool-cases (b.pos == b.filled)) [
  | inl same ↦ let z : sub64 b.filled b.pos ≡ 0 = ground arith in rw (same, z)
  | inr other ↦ rw other
]

module _ {ℓ} {E : Type ℓ} where
  accept-Filled :
      (b : Buffer) (r : Result (List ℕ) E)
      → ((got : List ℕ) → r ≡ success got → length got ≤ length b.bytes - b.filled)
      → IsValid b
      → Filled (buffer b) (accept b r)
  unfolding accept
  accept-Filled b (failure e) fits v = (v, refl)
  accept-Filled b (success got) fits v =
      let r : Result (List ℕ) E = success got in
      let short : length got ≤ length b.bytes - b.filled = fits got refl in
      let end : add64 b.filled (length got) ≡ b.filled + length got =
        omega (arith, v.filled-le, v.allocated, v.addressable) in
      let v' : IsValid (accept b r).1 = record {
        pos-le = omega (arith, v.pos-le, end);
        filled-le = omega (arith, end, v.allocated, v.filled-le);
        allocated = omega (arith, length-overwrite b.filled got b.bytes (omega arith), v.allocated);
        addressable = v.addressable;
      } in
      (
        v',
        rw (buffer-unread b v, buffer-unread (accept b r).1 v', end)
            (unread-overwrite b.pos b.filled got b.bytes v.pos-le
              (omega (arith, v.filled-le, v.allocated))),
      )

  read_more-Filled :
      (read : ℕ → Result (List ℕ) E) (b : Buffer)
      → Obeys read
      → IsValid b
      → Filled (buffer b) (read_more read b)
  unfolding read_more
  read_more-Filled read b obeys v = elim (Bool-cases (b.filled == b.capacity)) [
    | inl full ↦ rw full (v, sym (append-nil (buffer b)))
    | inr room ↦ rw room (accept-Filled b (read (length b.bytes - b.filled)) (obeys _) v)
  ]

  -- For a reader that gives no more bytes than it is offered room for, and a valid buffer,
  -- `fill_buf` keeps the buffer valid, keeps all unread bytes, and on success adds behind them the
  -- bytes that it reports.
  pub fill_buf-Filled :
      (read : ℕ → Result (List ℕ) E) (b : Buffer)
      → Obeys read
      → IsValid b
      → Filled (buffer b) (fill_buf read b)
  unfolding fill_buf
  fill_buf-Filled read b obeys v =
      rw (← buffer-rewind b v) (read_more-Filled read (rewind b) obeys (rewind-IsValid b v))

  -- A buffer that is filled to its end and not read to its end offers the reader no room, also when
  -- the bytes at its start are consumed: `fill_buf` reports success with no bytes, whatever the
  -- reader would answer, and changes nothing.
  pub fill_buf_full :
      (read : ℕ → Result (List ℕ) E) (b : Buffer)
      → b.filled ≡ b.capacity
      → b.pos < b.filled
      → fill_buf read b ≡ (success [], b)
  unfolding fill_buf
  fill_buf_full read b full unread = ground arith

-- On a valid buffer, `unconsume` of more than was consumed, and less than 2 ^ 63, leaves the
-- position above the capacity, and the buffer not valid.
pub unconsume_wraps :
    (n : ℕ) (b : Buffer)
    → IsValid b
    → b.pos < n
    → n < 2 ^ 63
    → (b.capacity < (unconsume n b).pos) × ¬ IsValid (unconsume n b)
unfolding unconsume
unconsume_wraps n b v more h =
    let above : b.capacity < (unconsume n b).pos = ground arith in
    (above, λ w. absurd (omega (arith, above, w.pos-le, v.filled-le)))
