-- ===== src/Net/Uuid/Text.antt =====
-- libs/lib_net/uuid/Uuid.hpp and UuidGenerator.hpp: identifiers written and read in base 16, and forgotten.
-- A text is the list of its characters' codes; the streams of the standard library are written out.
use project_e.Common.{
  ℕ, zero, suc, ◌+◌, ◌-◌, ◌/◌, ◌%◌, ◌^◌, Bool, true, false, ◌&&◌, ◌||◌, List, [], ◌∷◌, ◌++◌, ltb,
  ◌==◌, if◌then◌else◌,
}
use project_e.Net.Result.{Result, success, failure}
use project_e.Net.Addr.Text.{starts_digit, read_digits, skip_blanks, split_sign}
use project_e.Net.Uuid.{Generator}

-- `UuidError::Type`
pub data UuidError : Type 0 where
  invalid_byte_string_size invalid_uuid_string : UuidError

-- `oss << std::hex`: the digits of a number, at most `k + 1`; 64 bits have sixteen.
unfoldable pub hex_char : ℕ → ℕ
hex_char d = if ltb d 10 then 48 + d else 87 + d

unfoldable pub hex : ℕ → ℕ → List ℕ
unfolding hex_char
hex zero n = hex_char (n % 16) ∷ []
hex (suc k) n =
    let rest = hex k (n / 16) in
    if ltb n 16 then hex_char n ∷ [] else rest ++ hex_char (n % 16) ∷ []

-- `to_str`
unfoldable pub to_str : ℕ → List ℕ
to_str uuid = hex 15 uuid

-- `iss >> std::hex`: blanks and a sign are skipped, and `0x`, which a digit has to follow. The number read is
-- counted down from 2 ^ 64 behind a minus sign; one that is too large is an error. Beside the error
-- stands what the stream leaves in the variable.
unfoldable pub after_prefix : List ℕ → List ℕ
after_prefix (c ∷ x ∷ s) = if c == 48 && (x == 120 || x == 88) then s else c ∷ x ∷ s
after_prefix s = s

unfoldable pub extracted : Bool → List ℕ → Bool × ℕ
unfolding starts_digit read_digits
extracted negative digits =
    let n = read_digits 16 0 digits in
    if starts_digit 16 digits
    then (if ltb n (2 ^ 64)
        then (true, (if negative then (2 ^ 64 - n) % 2 ^ 64 else n))
        else (false, 2 ^ 64 - 1))
    else (false, 0)

unfoldable pub extract : List ℕ → Bool × ℕ
unfolding skip_blanks split_sign after_prefix extracted
extract s =
    let (negative, digits) = split_sign (skip_blanks s) in extracted negative (after_prefix digits)

-- `new_from_str`, of the text up to its first 0, and `from_str`, with the identifier that it leaves
unfoldable pub c_str : List ℕ → List ℕ
c_str [] = []
c_str (c ∷ s) = let rest = c_str s in if c == 0 then [] else c ∷ rest

unfoldable pub new_from_str : List ℕ → Result ℕ UuidError
unfolding c_str extract
new_from_str s =
    let (good, uuid) = extract (c_str s) in
    if good then success uuid else failure invalid_uuid_string

unfoldable pub from_str : List ℕ → Result (Unit {0}) UuidError × ℕ
unfolding c_str extract
from_str s =
    let (good, uuid) = extract (c_str s) in
    ((if good then success tt else failure invalid_uuid_string), uuid)

-- `generatedUUIDs.erase`, and `UuidGenerator::reset` and `delete_uuid`
unfoldable pub erase : ℕ → List ℕ → List ℕ
erase x [] = []
erase x (y ∷ ys) = let rest = erase x ys in if x == y then rest else y ∷ rest

abbrev pub reset : Generator → Generator
reset g = record g { generated = [] }

unfoldable pub delete_uuid : ℕ → Generator → Generator
unfolding erase
delete_uuid uuid g = record g { generated = erase uuid g.generated }
