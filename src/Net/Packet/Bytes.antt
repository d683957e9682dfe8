-- ===== src/Net/Packet/Bytes.antt =====
-- Little-endian bytes: the object representation of an unsigned integer, as `memcpy` and
-- `reinterpret_cast` read and write it in libs/lib_net.
use project_e.Common.{
  ℕ, zero, suc, ◌+◌, ◌*◌, ◌/◌, ◌%◌, ◌^◌, ◌<◌, ◌≡◌, refl, ap, List, [], ◌∷◌, ◌++◌, arith, length,
}

-- The `k` low bytes of `n`, least first.
unfoldable pub to_le : ℕ → ℕ → List ℕ
to_le zero n = []
to_le (suc k) n = n % 256 ∷ to_le k (n / 256)

unfoldable pub of_le : List ℕ → ℕ
of_le [] = 0
of_le (b ∷ bs) = b + 256 * of_le bs

abbrev pub IsBytes : List ℕ → Type 0
IsBytes [] = Unit {0}
IsBytes (b ∷ bs) = (b < 256) × IsBytes bs

pub length-to_le : (k n : ℕ) → length (to_le k n) ≡ k
unfolding to_le
length-to_le zero n = refl
length-to_le (suc k) n = ap suc (length-to_le k (n / 256))

pub to_le-IsBytes : (k n : ℕ) → IsBytes (to_le k n)
unfolding to_le
to_le-IsBytes zero n = tt
to_le-IsBytes (suc k) n = (omega arith, to_le-IsBytes k (n / 256))

pub to_le-of_le : (bs : List ℕ) → IsBytes bs → to_le (length bs) (of_le bs) ≡ bs
unfolding to_le of_le
to_le-of_le [] h = refl
to_le-of_le (b ∷ bs) h =
    let low : (b + 256 * of_le bs) % 256 ≡ b = omega arith in
    let high : (b + 256 * of_le bs) / 256 ≡ of_le bs = omega arith in
    rw (low, high, to_le-of_le bs h.1)

pub of_le-to_le_2 : (n : ℕ) → n < 2 ^ 16 → of_le (to_le 2 n) ≡ n
unfolding to_le of_le
of_le-to_le_2 n h = omega arith

pub of_le-to_le_4 : (n : ℕ) → n < 2 ^ 32 → of_le (to_le 4 n) ≡ n
unfolding to_le of_le
of_le-to_le_4 n h = omega arith

pub of_le-to_le_8 : (n : ℕ) → n < 2 ^ 64 → of_le (to_le 8 n) ≡ n
unfolding to_le of_le
of_le-to_le_8 n h = omega arith

pub IsBytes-append : (xs ys : List ℕ) → IsBytes xs → IsBytes ys → IsBytes (xs ++ ys)
IsBytes-append [] ys hx hy = hy
IsBytes-append (x ∷ xs) ys hx hy = (hx.0, IsBytes-append xs ys hx.1 hy)
