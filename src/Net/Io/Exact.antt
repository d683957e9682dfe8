-- ===== src/Net/Io/Exact.antt =====
-- libs/lib_net/io/Read.cpp and Write.cpp: the loops end, and move what they should.
use project_e.Common.{
  length-drop, take-append-drop, ℕ, zero, suc, ◌+◌, ◌-◌, ◌≤◌, ◌<◌, ◌≡◌, refl, sym, ◌∙◌, ap, Option,
  none, some, List, [], ◌∷◌, ◌++◌, length, length-append, take, drop, arith,
}
use mathlib.Core.List.{append_assoc, append-nil}
use project_e.Net.Result.{Result, success, failure}
use project_e.Net.Io.{
  end_turn, Done, read_turn, write_turn, read_exact_loop, read_exact, read_to_end_loop, read_to_end,
  read_to_string, appended, write_all_loop, write_all,
}

-- What `recv` documents: it puts no more bytes than there is room for.
abbrev pub IsReader : {S : Type 0} → (ℕ → S → Result (List ℕ) ℕ × S) → Type 0
IsReader {S = S} read =
    (room : ℕ) (s s' : S) (got : List ℕ) → read room s ≡ (success got, s') → length got ≤ room

-- What the callers of `write_all` rely on: a writer that is given bytes takes one at least, and no more than
-- it is given.
abbrev pub IsWriter : {S : Type 0} → (List ℕ → S → Result ℕ ℕ × S) → Type 0
IsWriter {S = S} write =
    (b : ℕ) (bs : List ℕ) (s s' : S) (n : ℕ)
    → write (b ∷ bs) s ≡ (success n, s')
    → (1 ≤ n) × (n ≤ length (b ∷ bs))

-- What `read_exact` of so many bytes comes to
abbrev pub Exact : {S : Type 0} → ℕ → Option (Done ℕ S) → Type 0
Exact size none = ⊥
Exact size (some (success n, got, s)) = (n ≡ size) × (length got ≡ size)
Exact size (some (failure e, got, s)) = length got < size

read_turn-Exact :
    {S : Type 0} (fuel room size : ℕ) (got : List ℕ) (next : ℕ → List ℕ → S → Option (Done ℕ S))
    (r : Result (List ℕ) ℕ × S)
    → ((bytes : List ℕ) (s : S) → r ≡ (success bytes, s) → length bytes ≤ suc room)
    → room ≤ fuel
    → length got + suc room ≡ size
    → ((room' : ℕ) (got' : List ℕ) (s : S)
        → room' ≤ fuel
        → length got' + room' ≡ size
        → Exact size (next room' got' s))
    → Exact size (read_turn (suc room) got next r)
unfolding read_turn
read_turn-Exact fuel room size got next (failure e, s) fits enough total go = omega (arith, total)
read_turn-Exact fuel room size got next (success [], s) fits enough total go = omega (arith, total)
read_turn-Exact fuel room size got next (success (x ∷ xs), s) fits enough total go =
    go (suc room - length (x ∷ xs)) (got ++ (x ∷ xs)) s (omega (arith, enough))
      (omega (arith, length-append got (x ∷ xs), fits (x ∷ xs) s refl, total))

read_exact_loop-Exact :
    {S : Type 0} (read : ℕ → S → Result (List ℕ) ℕ × S)
    → IsReader read
    → (fuel room size : ℕ) (got : List ℕ) (s : S) → room ≤ fuel
    → length got + room ≡ size
    → Exact size (read_exact_loop read fuel room got s)
unfolding read_exact_loop
read_exact_loop-Exact read reads fuel zero size got s enough total =
    (omega (arith, total), omega (arith, total))
read_exact_loop-Exact read reads zero (suc room) size got s enough total =
    absurd (omega (arith, enough))
read_exact_loop-Exact read reads (suc fuel) (suc room) size got s enough total =
    read_turn-Exact fuel room size got (read_exact_loop read fuel) (read (suc room) s)
      (λ bytes s' e. reads (suc room) s s' bytes e) (omega (arith, enough)) total
      (λ room' got' s'. read_exact_loop-Exact read reads fuel room' size got' s')

-- With a reader that puts no more bytes than there is room for, `read_exact` ends: either it has put as many
-- bytes as it was asked for, and says so, or it gives an error and has put fewer.
pub read_exact-Exact :
    {S : Type 0} (read : ℕ → S → Result (List ℕ) ℕ × S) (size : ℕ) (s : S)
    → IsReader read
    → Exact size (read_exact read size s)
unfolding read_exact
read_exact-Exact read size s reads =
    read_exact_loop-Exact read reads size size size [] s (omega arith) (omega arith)

-- What `write_all` of these bytes comes to
abbrev pub Wrote : {S : Type 0} → List ℕ → Option (Done (Unit {0}) S) → Type 0
Wrote buf none = ⊥
Wrote buf (some (success _, sent, s)) = sent ≡ buf
Wrote buf (some (failure e, sent, s)) = (rest : List ℕ) × (sent ++ rest ≡ buf)

write_turn-Wrote :
    {S : Type 0} (fuel : ℕ) (buf : List ℕ) (b : ℕ) (bs sent : List ℕ)
    (next : List ℕ → List ℕ → S → Option (Done (Unit {0}) S)) (r : Result ℕ ℕ × S)
    → ((n : ℕ) (s : S) → r ≡ (success n, s) → (1 ≤ n) × (n ≤ length (b ∷ bs)))
    → length bs ≤ fuel
    → sent ++ b ∷ bs ≡ buf
    → ((left sent' : List ℕ) (s : S)
        → length left ≤ fuel
        → sent' ++ left ≡ buf
        → Wrote buf (next left sent' s))
    → Wrote buf (write_turn (b ∷ bs) sent next r)
unfolding write_turn
write_turn-Wrote fuel buf b bs sent next (failure e, s) takes enough total go = (b ∷ bs, total)
write_turn-Wrote fuel buf b bs sent next (success n, s) takes enough total go =
    go (drop n (b ∷ bs)) (sent ++ take n (b ∷ bs)) s
      (omega (arith, length-drop n (b ∷ bs), (takes n s refl).0, enough))
      (append_assoc sent (take n (b ∷ bs)) (drop n (b ∷ bs))
        ∙ ap (sent ++◌) (take-append-drop n (b ∷ bs))
        ∙ total)

write_all_loop-Wrote :
    {S : Type 0} (write : List ℕ → S → Result ℕ ℕ × S)
    → IsWriter write
    → (fuel : ℕ) (buf left sent : List ℕ) (s : S) → length left ≤ fuel
    → sent ++ left ≡ buf
    → Wrote buf (write_all_loop write fuel left sent s)
unfolding write_all_loop
write_all_loop-Wrote write writes fuel buf [] sent s enough total = sym (append-nil sent) ∙ total
write_all_loop-Wrote write writes zero buf (b ∷ bs) sent s enough total =
    absurd (omega (arith, enough))
write_all_loop-Wrote write writes (suc fuel) buf (b ∷ bs) sent s enough total =
    write_turn-Wrote fuel buf b bs sent (write_all_loop write fuel) (write (b ∷ bs) s)
      (λ n s' e. writes b bs s s' n e) (omega (arith, enough)) total
      (λ left sent' s'. write_all_loop-Wrote write writes fuel buf left sent' s')

-- With a writer that takes one byte at least of those that it is given, `write_all` ends: either all
-- bytes are taken, in their order, and it says so, or it gives an error and the first of them are.
pub write_all-Wrote :
    {S : Type 0} (write : List ℕ → S → Result ℕ ℕ × S) (buf : List ℕ) (s : S)
    → IsWriter write
    → Wrote buf (write_all write buf s)
unfolding write_all
write_all-Wrote write buf s writes =
    write_all_loop-Wrote write writes (length buf) buf buf [] s (omega arith) refl

-- Nothing is added to a text.
abbrev pub Unchanged : {S : Type 0} → List ℕ → Option (Done ℕ S) → Type 0
Unchanged text none = ⊥
Unchanged text (some (success n, kept, s)) = (n ≡ 0) × (kept ≡ text)
Unchanged text (some (failure e, kept, s)) = kept ≡ text

end_turn-Unchanged :
    {S : Type 0} (read : ℕ → S → Result (List ℕ) ℕ × S) (text : List ℕ)
    (next : ℕ → List ℕ → S → Option (Done ℕ S)) (r : Result (List ℕ) ℕ × S)
    → ((bytes : List ℕ) (s : S) → r ≡ (success bytes, s) → length bytes ≤ 0)
    → Unchanged text (appended read text (end_turn 0 [] next r))
unfolding end_turn appended
end_turn-Unchanged read text next (failure e, s) none_fit = refl
end_turn-Unchanged read text next (success [], s) none_fit = (refl, append-nil text)
end_turn-Unchanged read text next (success (x ∷ xs), s) none_fit =
    absurd (omega (arith, none_fit (x ∷ xs) s refl))

-- With a reader that puts no more bytes than there is room for, `read_to_string` ends in its first turn and never
-- reads anything: its buffer is empty, so that the first `read` meets no room, which it takes for the end.
pub read_to_string-Unchanged :
    {S : Type 0} (read : ℕ → S → Result (List ℕ) ℕ × S) (fuel : ℕ) (text : List ℕ) (s : S)
    → IsReader read
    → Unchanged text (read_to_string read (suc fuel) text s)
unfolding read_to_string read_to_end read_to_end_loop
read_to_string-Unchanged read fuel text s reads =
    end_turn-Unchanged read text (read_to_end_loop read fuel 0) (read 0 s)
      (λ bytes s' e. reads 0 s s' bytes e)
