-- ===== src/Net/Uuid/Hex.antt =====
-- libs/lib_net/uuid/Uuid.hpp: an identifier that is written is read again; libs/lib_net/uuid/UuidGenerator.hpp: one
-- that is deleted may be given out again.
use native.Mathlib.Numerals.{unary_clauses}
use project_e.Common.{
  ℕ, zero, suc, ◌+◌, ◌*◌, ◌/◌, ◌%◌, ◌^◌, ◌<◌, ◌≤◌, ◌≡◌, refl, true, false, ◌&&◌, ◌||◌, not, List,
  [], ◌∷◌, ◌++◌, ltb, leb, ◌==◌, arith, All, All-append, Bool-cases, inl, inr,
}
use project_e.Net.Result.{success}
use project_e.Net.Addr.Text.{starts_digit, read_digits, skip_blanks, split_sign, digit_of}
use project_e.Net.Uuid.{Generator, contains}
use project_e.Net.Uuid.Text.{
  hex_char, hex, to_str, after_prefix, extracted, extract, c_str, new_from_str, from_str, erase,
  delete_uuid,
}

-- A character of a number written in base 16
abbrev IsHex : ℕ → Type 0
IsHex c = (ltb (digit_of c) 16 ≡ true) × (48 ≤ c) × (c ≤ 102) × (c == 88 ≡ false)

digit_of-hex_char : (d : ℕ) → d < 16 → digit_of (hex_char d) ≡ d
unfolding digit_of hex_char
digit_of-hex_char d h = ground arith

hex_char-IsHex : (d : ℕ) → d < 16 → IsHex (hex_char d)
unfolding hex_char
hex_char-IsHex d h =
    let v = digit_of-hex_char d h in (rw v (ground arith), ground arith, ground arith, ground arith)

hex-digits : (k n : ℕ) → All IsHex (hex k n)
unfolding hex
hex-digits zero n = (hex_char-IsHex (n % 16) (omega arith), tt)
hex-digits (suc k) n = elim (Bool-cases (ltb n 16)) [
  | inl one ↦ rw one (hex_char-IsHex n (ground arith), tt)
  | inr more ↦ rw more (
      All-append IsHex (hex k (n / 16)) _ (hex-digits k (n / 16))
        (hex_char-IsHex (n % 16) (omega arith), tt))
]

-- The number that the characters spell
abbrev spelled : ℕ → List ℕ → ℕ
spelled acc [] = acc
spelled acc (c ∷ s) = spelled (acc * 16 + digit_of c) s

read_digits-spelled : (acc : ℕ) (s : List ℕ) → All IsHex s → read_digits 16 acc s ≡ spelled acc s
unfolding read_digits
read_digits-spelled acc [] d = refl
read_digits-spelled acc (c ∷ s) (dc, ds) =
    let small = dc.0 in rw small (read_digits-spelled (acc * 16 + digit_of c) s ds)

spelled-snoc :
    (acc : ℕ) (s : List ℕ) (c : ℕ) → spelled acc (s ++ c ∷ []) ≡ spelled acc s * 16 + digit_of c
spelled-snoc acc [] c = refl
spelled-snoc acc (x ∷ s) c = spelled-snoc (acc * 16 + digit_of x) s c

spelled-hex : (k n : ℕ) → n < 16 ^ suc k → spelled 0 (hex k n) ≡ n
unfolding hex
spelled-hex zero n h = omega (arith, digit_of-hex_char (n % 16) (omega arith))
spelled-hex (suc k) n h =
    let p : 16 ^ suc (suc k) ≡ 16 ^ suc k * 16 = simp unary_clauses refl in
    elim (Bool-cases (ltb n 16)) [
      | inl one ↦ rw one (omega (arith, digit_of-hex_char n (ground arith)))
      | inr more ↦
          let ih = spelled-hex k (n / 16) (omega arith) in
          let last = digit_of-hex_char (n % 16) (omega arith) in
          rw (more, spelled-snoc 0 (hex k (n / 16)) (hex_char (n % 16)), ih, last) (omega arith)
    ]

c_str_whole : (s : List ℕ) → All IsHex s → c_str s ≡ s
unfolding c_str
c_str_whole [] d = refl
c_str_whole (c ∷ s) (dc, ds) =
    let lo = dc.1 in let e : c == 0 ≡ false = ground arith in rw (e, c_str_whole s ds) refl

unprefixed : (s : List ℕ) → All IsHex s → after_prefix s ≡ s
unfolding after_prefix
unprefixed [] d = refl
unprefixed (c ∷ []) d = refl
unprefixed (c ∷ x ∷ s) (dc, ds) =
    let dx = ds.0 in
    let hi = dx.2 in
    let no = dx.3 in let e : c == 48 && (x == 120 || x == 88) ≡ false = ground arith in rw e refl

extracted-digits :
    (s : List ℕ) {n : ℕ}
    → starts_digit 16 s ≡ true
    → read_digits 16 0 s ≡ n
    → n < 2 ^ 64
    → extracted false s ≡ (true, n)
unfolding extracted
extracted-digits s {n} h e b =
    let fits : ltb n (2 ^ 64) ≡ true = ground arith in rw (h, e, fits) refl

contains-erase :
    (x uuid : ℕ) (ys : List ℕ) → contains x (erase uuid ys) ≡ (contains x ys && not (x == uuid))
unfolding erase
contains-erase x uuid [] = refl
contains-erase x uuid (y ∷ ys) = ground (arith, contains-erase x uuid ys)

extract-digits :
    (s : List ℕ)
    → All IsHex s
    → starts_digit 16 s ≡ true
    → spelled 0 s < 2 ^ 64
    → extract s ≡ (true, spelled 0 s)
unfolding extract skip_blanks split_sign extracted
extract-digits [] d h b = cc
extract-digits (c ∷ s) d h b =
    let lo = d.0.1 in
    let blank : c == 32 || (leb 9 c && leb c 13) ≡ false = ground arith in
    let minus : c == 45 ≡ false = ground arith in
    let plus : c == 43 ≡ false = ground arith in
    rw (blank, minus, plus, unprefixed (c ∷ s) d)
      (extracted-digits (c ∷ s) h (read_digits-spelled 0 (c ∷ s) d) b)

starts_digit-append : (s t : List ℕ) → starts_digit 16 s ≡ true → starts_digit 16 (s ++ t) ≡ true
unfolding starts_digit
starts_digit-append [] t h = cc
starts_digit-append (c ∷ s) t h = h

starts_digit-hex : (k n : ℕ) → starts_digit 16 (hex k n) ≡ true
unfolding hex starts_digit
starts_digit-hex zero n = (hex_char-IsHex (n % 16) (omega arith)).0
starts_digit-hex (suc k) n = elim (Bool-cases (ltb n 16)) [
  | inl one ↦ rw one ((hex_char-IsHex n (ground arith)).0)
  | inr more ↦ rw more (starts_digit-append (hex k (n / 16)) _ (starts_digit-hex k (n / 16)))
]

to_str-fits : (uuid : ℕ) → uuid < 2 ^ 64 → spelled 0 (to_str uuid) ≡ uuid
unfolding to_str
to_str-fits uuid h = spelled-hex 15 uuid h

to_str-digits : (uuid : ℕ) → All IsHex (to_str uuid)
unfolding to_str
to_str-digits uuid = hex-digits 15 uuid

to_str-starts_digit : (uuid : ℕ) → starts_digit 16 (to_str uuid) ≡ true
unfolding to_str
to_str-starts_digit uuid = starts_digit-hex 15 uuid

-- `new_from_str` and `from_str` give back the identifier below 2 ^ 64 that `to_str` has written.
pub new_from_str-to_str :
    (uuid : ℕ)
    → uuid < 2 ^ 64
    → (new_from_str (to_str uuid) ≡ success uuid) × (from_str (to_str uuid) ≡ (success tt, uuid))
unfolding new_from_str from_str
new_from_str-to_str uuid h =
    let v = to_str-fits uuid h in
    let whole = c_str_whole (to_str uuid) (to_str-digits uuid) in
    let got =
      extract-digits (to_str uuid) (to_str-digits uuid) (to_str-starts_digit uuid) (rw v h) in
    rw (whole, got, v) (refl, refl)

-- An identifier that is deleted may be given out again, and no other.
pub contains-delete_uuid :
    (x uuid : ℕ) (g : Generator)
    → contains x (delete_uuid uuid g).generated ≡ (contains x g.generated && not (x == uuid))
unfolding delete_uuid
contains-delete_uuid x uuid g = contains-erase x uuid g.generated
