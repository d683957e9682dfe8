-- ===== src/Ecs/Manager/Free.antt =====
-- libs/lib_ecs: lists of free positions.
use project_e.Common.{
  ℕ, zero, suc, ◌+◌, ◌≡◌, refl, Bool, true, false, ◌&&◌, ◌||◌, List, [], ◌∷◌, ◌++◌, arith, ltb, leb,
  ◌==◌,
}
use project_e.Ecs.Pos.{Pos, eq_pos, eq_pos_iff, eq_pos_refl}
use project_e.Ecs.Archetypes.{chunk_positions}

abbrev pub mem_pos : Pos → List Pos → Bool
mem_pos p [] = false
mem_pos p (q ∷ qs) = eq_pos p q || mem_pos p qs

-- No position stands in the list twice.
abbrev pub Distinct : List Pos → Type 0
Distinct [] = Unit {0}
Distinct (p ∷ ps) = (mem_pos p ps ≡ false) × Distinct ps

pub mem_pos-append :
    (p : Pos) (xs ys : List Pos) → mem_pos p (xs ++ ys) ≡ (mem_pos p xs || mem_pos p ys)
mem_pos-append p [] ys = refl
mem_pos-append p (x ∷ xs) ys = ground (arith, mem_pos-append p xs ys)

pub mem_pos-chunk_positions :
    (p : Pos) (count n i : ℕ)
    → mem_pos p (chunk_positions count n i)
      ≡ (p.chunk_index == count && (leb i p.elem_index && ltb p.elem_index (i + n)))
unfolding chunk_positions eq_pos
mem_pos-chunk_positions p count zero i = ground arith
mem_pos-chunk_positions p count (suc n) i =
    ground (arith, mem_pos-chunk_positions p count n (i + 1))

pub chunk_positions-Distinct : (count n i : ℕ) → Distinct (chunk_positions count n i)
unfolding chunk_positions
chunk_positions-Distinct count zero i = tt
chunk_positions-Distinct count (suc n) i = (
  ground (
    arith,
    mem_pos-chunk_positions (record { chunk_index = count; elem_index = i }) count n (i + 1),
  ),
  chunk_positions-Distinct count n (i + 1),
)

pub Distinct-snoc :
    (xs : List Pos) (p : Pos) → Distinct xs → mem_pos p xs ≡ false → Distinct (xs ++ p ∷ [])
Distinct-snoc [] p d h = (refl, tt)
Distinct-snoc (x ∷ xs) p d h = (
  ground (arith, mem_pos-append x xs (p ∷ []), eq_pos_iff x p, eq_pos_iff p x),
  Distinct-snoc xs p d.1 (ground arith),
)

pub Distinct-append :
    (xs ys : List Pos)
    → Distinct xs
    → Distinct ys
    → ((p : Pos) → mem_pos p xs ≡ true → mem_pos p ys ≡ false)
    → Distinct (xs ++ ys)
Distinct-append [] ys d e apart = e
Distinct-append (x ∷ xs) ys d e apart = (
  ground (arith, mem_pos-append x xs ys, apart x, eq_pos_refl x),
  Distinct-append xs ys d.1 e λ p h. apart p (ground (arith, h)),
)
