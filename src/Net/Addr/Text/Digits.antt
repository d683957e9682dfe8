-- ===== src/Net/Addr/Text/Digits.antt =====
-- libs/lib_net/net: the texts of numbers, read again in base 10 and in base 16.
use project_e.Common.{
  ℕ, zero, suc, ◌+◌, ◌-◌, ◌*◌, ◌/◌, ◌%◌, ◌^◌, ◌<◌, ◌≤◌, ◌≡◌, refl, ap, ◌∙◌, true, false, ◌&&◌, ◌||◌,
  not, some, List, [], ◌∷◌, ◌++◌, length, ltb, leb, ◌==◌, arith, All, Bool-cases, inl, inr,
  All-append, length-append,
}
use native.Mathlib.Numerals.{unary_clauses}
use project_e.Net.Addr.Text.{
  decimal, to_text, digit_of, starts_digit, read_digits, skip_blanks, split_sign, skip_prefix,
  read_number,
}

-- The character of a decimal digit
abbrev pub IsDigit : ℕ → Type 0
IsDigit c = (48 ≤ c) × (c ≤ 57)

-- A character that is no colon
abbrev pub NoColon : ℕ → Type 0
NoColon c = c == 58 ≡ false

pub digits_of_decimal : (k n : ℕ) → All IsDigit (decimal k n)
unfolding decimal
digits_of_decimal zero n = (omega arith, tt)
digits_of_decimal (suc k) n = elim (Bool-cases (ltb n 10)) [
  | inl one ↦ rw one ((ground arith, tt))
  | inr more ↦
      rw more
        (All-append IsDigit (decimal k (n / 10)) _ (digits_of_decimal k (n / 10)) (omega arith, tt))
]

pub some_digit : (k n : ℕ) → (c : ℕ) × (s : List ℕ) × (decimal k n ≡ c ∷ s)
unfolding decimal
some_digit zero n = (_, _, refl)
some_digit (suc k) n = elim (Bool-cases (ltb n 10)) [
  | inl one ↦ rw one (_, _, refl)
  | inr more ↦ let (c, s, e) = some_digit k (n / 10) in rw (more, e) (_, _, refl)
]

digit_value : (c : ℕ) → IsDigit c → digit_of c ≡ c - 48
unfolding digit_of
digit_value c h = ground arith

-- The number that digits spell in a base, behind `acc`
abbrev pub spelled : ℕ → ℕ → List ℕ → ℕ
spelled base acc [] = acc
spelled base acc (c ∷ s) = spelled base (acc * base + (c - 48)) s

read_digits-spelled :
    (base acc : ℕ) (s : List ℕ)
    → 10 ≤ base
    → All IsDigit s
    → read_digits base acc s ≡ spelled base acc s
unfolding read_digits
read_digits-spelled base acc [] h d = refl
read_digits-spelled base acc (c ∷ s) h (dc, ds) =
    let v = digit_value c dc in
    let small : ltb (digit_of c) base ≡ true = ground arith in
    rw (small, v) (read_digits-spelled base (acc * base + (c - 48)) s h ds)

spelled-snoc :
    (base acc : ℕ) (s : List ℕ) (c : ℕ)
    → spelled base acc (s ++ c ∷ []) ≡ spelled base acc s * base + (c - 48)
spelled-snoc base acc [] c = refl
spelled-snoc base acc (x ∷ s) c = spelled-snoc base (acc * base + (x - 48)) s c

pub pow-suc : (k : ℕ) → 10 ^ suc (suc k) ≡ 10 ^ suc k * 10
pow-suc k = simp unary_clauses refl

one_le_pow : (j : ℕ) → 1 ≤ 10 ^ suc j
one_le_pow zero = omega arith
one_le_pow (suc j) = omega (arith, pow-suc j, one_le_pow j)

pub spelled-decimal : (k n : ℕ) → n < 10 ^ suc k → spelled 10 0 (decimal k n) ≡ n
unfolding decimal
spelled-decimal zero n h = omega arith
spelled-decimal (suc k) n h =
    let p = pow-suc k in
    elim (Bool-cases (ltb n 10)) [
      | inl one ↦ rw one (omega arith)
      | inr more ↦
          let ih = spelled-decimal k (n / 10) (omega arith) in
          rw (more, spelled-snoc 10 0 (decimal k (n / 10)) (48 + n % 10), ih) (omega arith)
    ]

-- Digits are digits in both bases, no blank, no sign, no `x` and no colon.
pub skip_blanks-digit : (c : ℕ) (s : List ℕ) → IsDigit c → skip_blanks (c ∷ s) ≡ c ∷ s
unfolding skip_blanks
skip_blanks-digit c s h =
    let e : c == 32 || (leb 9 c && leb c 13) ≡ false = ground arith in rw e refl

pub split_sign-digit : (c : ℕ) (s : List ℕ) → IsDigit c → split_sign (c ∷ s) ≡ (false, c ∷ s)
unfolding split_sign
split_sign-digit c s h =
    let m : c == 45 ≡ false = ground arith in
    let p : c == 43 ≡ false = ground arith in rw (m, p) refl

pub skip_prefix-digits : (s : List ℕ) → All IsDigit s → skip_prefix s ≡ s
unfolding skip_prefix
skip_prefix-digits [] d = refl
skip_prefix-digits (c ∷ []) d = refl
skip_prefix-digits (c ∷ x ∷ s) (dc, ds) =
    let dx = ds.0 in
    let e : c == 48 && ((x == 120 || x == 88) && starts_digit 16 s) ≡ false = ground arith in
    rw e refl

pub read_number-digits :
    (base c : ℕ) (s : List ℕ)
    → 10 ≤ base
    → All IsDigit (c ∷ s)
    → read_number base (c ∷ s) ≡ some (spelled base 0 (c ∷ s))
unfolding read_number starts_digit
read_number-digits base c s h d =
    let v = digit_value c d.0 in
    let small : ltb (digit_of c) base ≡ true = ground arith in
    let once : read_number base (c ∷ s) ≡ some (read_digits base 0 (c ∷ s)) = rw small refl in
    once ∙ ap some (read_digits-spelled base 0 (c ∷ s) h d)

pub NoColon-digits : (s : List ℕ) → All IsDigit s → All NoColon s
NoColon-digits [] d = tt
NoColon-digits (c ∷ s) (dc, ds) = (ground arith, NoColon-digits s ds)

more_digits :
    (k n : ℕ) → ltb n 10 ≡ false → length (decimal (suc k) n) ≡ suc (length (decimal k (n / 10)))
unfolding decimal
more_digits k n more =
    rw more (omega (arith, length-append (decimal k (n / 10)) ((48 + n % 10) ∷ [])))

-- How many digits a number below a power of ten has, and one that is not
pub length-decimal_small : (k n j : ℕ) → n < 10 ^ suc j → length (decimal k n) ≤ suc j
unfolding decimal
length-decimal_small zero n j h = omega arith
length-decimal_small (suc k) n zero h =
    let one : ltb n 10 ≡ true = ground arith in rw one (omega arith)
length-decimal_small (suc k) n (suc j) h = elim (Bool-cases (ltb n 10)) [
  | inl one ↦ rw one (omega arith)
  | inr more ↦
      let p = pow-suc j in
      let ih = length-decimal_small k (n / 10) j (omega arith) in
      omega (arith, more_digits k n more)
]

pub length-decimal_large : (k n j : ℕ) → j < k → 10 ^ suc j ≤ n → suc j < length (decimal k n)
length-decimal_large zero n j b h = absurd (omega arith)
length-decimal_large (suc k) n zero b h =
    let more : ltb n 10 ≡ false = ground arith in
    let (c, s, e) = some_digit k (n / 10) in
    let one : length (decimal k (n / 10)) ≡ suc (length s) = ap length e in
    omega (arith, more_digits k n more)
length-decimal_large (suc k) n (suc j) b h =
    let p = pow-suc j in
    let q = one_le_pow j in
    let more : ltb n 10 ≡ false = ground arith in
    let ih = length-decimal_large k (n / 10) j (omega arith) (omega arith) in
    omega (arith, more_digits k n more)

-- The same of `to_text`
pub digits_of_text : (n : ℕ) → All IsDigit (to_text n)
unfolding to_text
digits_of_text n = digits_of_decimal 9 n

pub text_digit : (n : ℕ) → (c : ℕ) × (s : List ℕ) × (to_text n ≡ c ∷ s)
unfolding to_text
text_digit n = some_digit 9 n

pub spelled-to_text : (n : ℕ) → n < 2 ^ 31 → spelled 10 0 (to_text n) ≡ n
unfolding to_text
spelled-to_text n h = spelled-decimal 9 n (omega arith)

pub long_text : (n j : ℕ) → j < 9 → ltb (suc j) (length (to_text n)) ≡ not (ltb n (10 ^ suc j))
unfolding to_text
long_text n j b = elim (Bool-cases (ltb n (10 ^ suc j))) [
  | inl few ↦ let l = length-decimal_small 9 n j (ground arith) in rw few (ground arith)
  | inr many ↦ let l = length-decimal_large 9 n j b (ground arith) in rw many (ground arith)
]
