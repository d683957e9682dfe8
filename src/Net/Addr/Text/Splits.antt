-- ===== src/Net/Addr/Text/Splits.antt =====
-- libs/lib_net/net/IpAddr.cpp and SocketAddr.cpp: texts cut at their colons, and single numbers read.
use project_e.Common.{
  ℕ, ◌+◌, ◌-◌, ◌%◌, ◌^◌, ◌<◌, ◌≤◌, ◌≡◌, refl, ap, subst, ◌∙◌, true, false, none, some, List, [],
  ◌∷◌, ◌++◌, ltb, arith, All, append-nil,
}
use project_e.Net.Addr.{Ipv6Addr}
use project_e.Net.Addr.Text.{
  to_text, more_segments, v6_to_string, skip_blanks, split_sign, skip_prefix, read_number, stoul,
  stoi, split_colon, split_last_colon, has_colon,
}
use project_e.Net.Addr.Text.Digits.{
  IsDigit, NoColon, digits_of_text, text_digit, spelled, spelled-to_text, skip_blanks-digit,
  split_sign-digit, skip_prefix-digits, read_number-digits, NoColon-digits,
}

pub NoColon-text : (n : ℕ) → All NoColon (to_text n)
NoColon-text n = NoColon-digits (to_text n) (digits_of_text n)

pub split_colon-append : (s t : List ℕ) → All NoColon s → split_colon (s ++ 58 ∷ t) ≡ (s, t)
unfolding split_colon
split_colon-append [] t a = refl
split_colon-append (c ∷ s) t (e, a) = rw (e, split_colon-append s t a) refl

pub split_colon-whole : (s : List ℕ) → All NoColon s → split_colon s ≡ (s, [])
unfolding split_colon
split_colon-whole [] a = refl
split_colon-whole (c ∷ s) (e, a) = rw (e, split_colon-whole s a) refl

split_last_colon-none : (t : List ℕ) → All NoColon t → split_last_colon t ≡ none
unfolding split_last_colon
split_last_colon-none [] a = refl
split_last_colon-none (c ∷ t) (e, a) = rw (split_last_colon-none t a, e) refl

pub split_last_colon-append :
    (s t : List ℕ) → All NoColon t → split_last_colon (s ++ 58 ∷ t) ≡ some (s, t)
unfolding split_last_colon
split_last_colon-append [] t a = rw (split_last_colon-none t a) refl
split_last_colon-append (c ∷ s) t a = rw (split_last_colon-append s t a) refl

pub has_colon-none : (s : List ℕ) → All NoColon s → has_colon s ≡ false
unfolding has_colon
has_colon-none [] a = refl
has_colon-none (c ∷ s) (e, a) = rw e (has_colon-none s a)

pub has_colon-append : (s t : List ℕ) → has_colon (s ++ 58 ∷ t) ≡ true
unfolding has_colon
has_colon-append [] t = refl
has_colon-append (c ∷ s) t = let ih = has_colon-append s t in ground arith

-- The first segment of a printed address, and the others
pub split_colon-segments :
    (n : ℕ) (ss : Ipv6Addr)
    → split_colon (to_text n ++ more_segments ss) ≡ (to_text n, v6_to_string ss)
unfolding more_segments v6_to_string
split_colon-segments n [] =
    ap split_colon (append-nil (to_text n)) ∙ split_colon-whole (to_text n) (NoColon-text n)
split_colon-segments n (s ∷ ss) =
    split_colon-append (to_text n) (to_text s ++ more_segments ss) (NoColon-text n)

-- A printed number is read as its digits spell it.
digits_read :
    (base n : ℕ)
    → 10 ≤ base
    → (split_sign (skip_blanks (to_text n)) ≡ (false, to_text n))
      × (skip_prefix (to_text n) ≡ to_text n)
      × (read_number base (to_text n) ≡ some (spelled base 0 (to_text n)))
digits_read base n h =
    let (c, s, e) = text_digit n in
    let d : All IsDigit (c ∷ s) = subst (All IsDigit) e (digits_of_text n) in
    rw e (
      ap split_sign (skip_blanks-digit c s d.0) ∙ split_sign-digit c s d.0,
      skip_prefix-digits (c ∷ s) d,
      read_number-digits base c s h d,
    )

pub stoul-text : (n : ℕ) → stoul (to_text n) ≡ some (spelled 16 0 (to_text n) % 2 ^ 16)
unfolding stoul
stoul-text n = let (a, b, c) = digits_read 16 n (omega arith) in rw (a, b, c) refl

pub stoi-text : (n : ℕ) → n < 2 ^ 31 → stoi (to_text n) ≡ some (false, n)
unfolding stoi
stoi-text n h =
    let (a, b, c) = digits_read 10 n (omega arith) in
    let v = spelled-to_text n h in
    let small : ltb (2 ^ 31 - 1 + 0) n ≡ false = ground arith in rw (a, c, v, small) refl
