-- ===== src/Net/Io/Examples.antt =====
-- A source that gives two bytes at a time, and a sink that takes two, for the theorems on the loops.
use project_e.Common.{ℕ, ap, List, [], ◌∷◌, ◌++◌, length, length-take, take, drop, min, arith}
use project_e.Net.Result.{Result, success, failure}
use project_e.Net.Io.{read_exact, read_to_string, write_all}
use project_e.Net.Io.Exact.{
  IsReader, IsWriter, Exact, read_exact-Exact, Wrote, write_all-Wrote, Unchanged,
  read_to_string-Unchanged,
}

abbrev source : ℕ → List ℕ → Result (List ℕ) ℕ × List ℕ
source room s = (success (take (min room 2) s), drop (min room 2) s)

abbrev sink : List ℕ → List ℕ → Result ℕ ℕ × List ℕ
sink bytes s = (success (length (take 2 bytes)), s ++ take 2 bytes)

abbrev size_of : Result (List ℕ) ℕ → ℕ
size_of (success got) = length got
size_of (failure e) = 0

abbrev number_of : Result ℕ ℕ → ℕ
number_of (success n) = n
number_of (failure e) = 0

source-IsReader : IsReader source
source-IsReader room s s' got e = omega (arith, ap (λ r. size_of r.0) e, length-take (min room 2) s)

sink-IsWriter : IsWriter sink
sink-IsWriter b bs s s' n e =
    let same = ap (λ r. number_of r.0) e in
    let most = length-take 2 (b ∷ bs) in (omega (arith, same, most), omega (arith, same, most))

abbrev greeting : List ℕ
greeting = 104 ∷ 101 ∷ 108 ∷ 108 ∷ 111 ∷ []

read_exact-Exact_example : Exact 3 (read_exact source 3 greeting)
read_exact-Exact_example = read_exact-Exact source 3 greeting source-IsReader

write_all-Wrote_example : Wrote greeting (write_all sink greeting [])
write_all-Wrote_example = write_all-Wrote sink greeting [] sink-IsWriter

read_to_string-Unchanged_example : Unchanged [] (read_to_string source 9 [] greeting)
read_to_string-Unchanged_example = read_to_string-Unchanged source 8 [] greeting source-IsReader
