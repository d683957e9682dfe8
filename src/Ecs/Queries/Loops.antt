-- ===== src/Ecs/Queries/Loops.antt =====
-- libs/lib_ecs/Systems/Query.hpp: how often a loop visits a place.
use project_e.Common.{
  ◌<◌, ==_iff, ℕ, zero, suc, ◌+◌, ◌≡◌, refl, ap, Bool, true, false, ◌&&◌, Option, none, some, List,
  [], ◌∷◌, ◌++◌, get_elem?, arith, ltb, ◌==◌, if◌then◌else◌, Bool-cases, inl, inr,
}
use project_e.Ecs.Queries.{PoolRef, for_range, for_arrays}

abbrev pub bit : Bool → ℕ
bit true = 1
bit false = 0

-- The turn `n` of a loop that visits it only at `key`
last_turn :
    (key n : ℕ) (b at_key at_n : Bool)
    → ((key == n) ≡ true → at_key ≡ at_n)
    → bit (b && (ltb key n && at_key)) + bit (b && (key == n && at_n))
      ≡ bit (b && (ltb key (suc n) && at_key))
last_turn key n false at_key at_n e = ground arith
last_turn key n true at_key at_n e = ground arith

abbrev pub on {ℓ} : {A : Type ℓ} → (A → Bool) → Option A → Bool
on here none = false
on here (some a) = here a

abbrev array_from : ℕ → ℕ → List (List PoolRef) → Option (List PoolRef)
array_from key n [] = none
array_from key n (refs ∷ rest) = if key == n then some refs else array_from key (suc n) rest

array_from-past :
    (key n : ℕ) (arrays : List (List PoolRef)) → key < n → array_from key n arrays ≡ none
array_from-past key n [] h = refl
array_from-past key n (refs ∷ rest) h = ground (arith, array_from-past key (suc n) rest)

array_from-get_elem? :
    (key i n : ℕ) (arrays : List (List PoolRef))
    → key ≡ i + n
    → array_from key n arrays ≡ get_elem? arrays i
array_from-get_elem? key i n [] e = refl
array_from-get_elem? key zero n (refs ∷ rest) e = ground arith
array_from-get_elem? key (suc i) n (refs ∷ rest) e =
    ground (arith, array_from-get_elem? key i (suc n) rest (omega (arith, e)))

-- The first of the arrays, and the rest
first_array :
    (key n : ℕ) (b : Bool) (here : List PoolRef → Bool) (refs : List PoolRef)
    (rest : List (List PoolRef))
    → bit (b && (key == n && here refs)) + bit (b && on here (array_from key (suc n) rest))
      ≡ bit (b && on here (array_from key n (refs ∷ rest)))
first_array key n b here refs rest = elim (Bool-cases (key == n)) [
  | inl hit ↦
      rw (hit, array_from-past key (suc n) rest (omega (arith, (==_iff key n).0 hit)))
        (ground arith)
  | inr miss ↦ rw miss (ground arith)
]

module _ {ℓ} {V : Type ℓ} (test : V → Bool) where
  abbrev pub count : List V → ℕ
  count [] = 0
  count (v ∷ vs) = bit (test v) + count vs

  pub count-append : (xs ys : List V) → count (xs ++ ys) ≡ count xs + count ys
  count-append [] ys = omega arith
  count-append (x ∷ xs) ys = omega (arith, count-append xs ys)

  -- A loop whose turns visit it only at `key`
  pub count-for_range :
      (key n : ℕ) (b : Bool) (here : ℕ → Bool) (f : ℕ → List V)
      → ((i : ℕ) → count (f i) ≡ bit (b && (key == i && here i)))
      → count (for_range n f) ≡ bit (b && (ltb key n && here key))
  unfolding for_range
  count-for_range key zero b here f h = ground arith
  count-for_range key (suc n) b here f h = elim (Bool-cases (key == n)) [
    | inl hit ↦
        let e = (==_iff key n).0 hit in
        omega (
          arith,
          count-append (for_range n f) (f n),
          count-for_range key n b here f h,
          h n,
          last_turn key n b (here key) (here n) (λ _. ap here e),
        )
    | inr miss ↦ omega (
      arith,
      count-append (for_range n f) (f n),
      count-for_range key n b here f h,
      h n,
      last_turn key n b (here key) (here n) (λ hit. cc),
    )
  ]

  -- A loop over the arrays whose turns visit it only at `key`
  count-for_arrays_from :
      (key n : ℕ) (b : Bool) (here : List PoolRef → Bool) (arrays : List (List PoolRef))
      (f : ℕ → List PoolRef → List V)
      → ((m : ℕ) (refs : List PoolRef) → count (f m refs) ≡ bit (b && (key == m && here refs)))
      → count (for_arrays n arrays f) ≡ bit (b && on here (array_from key n arrays))
  unfolding for_arrays
  count-for_arrays_from key n true here [] f h = refl
  count-for_arrays_from key n false here [] f h = refl
  count-for_arrays_from key n b here (refs ∷ rest) f h = omega (
    arith,
    count-append (f n refs) (for_arrays (suc n) rest f),
    h n refs,
    count-for_arrays_from key (suc n) b here rest f h,
    first_array key n b here refs rest,
  )

  pub count-for_arrays :
      (key : ℕ) (b : Bool) (here : List PoolRef → Bool) (arrays : List (List PoolRef))
      (f : ℕ → List PoolRef → List V)
      → ((m : ℕ) (refs : List PoolRef) → count (f m refs) ≡ bit (b && (key == m && here refs)))
      → count (for_arrays 0 arrays f) ≡ bit (b && on here (get_elem? arrays key))
  count-for_arrays key b here arrays f h =
      rw⁻¹ (array_from-get_elem? key key 0 arrays (omega arith))
        (count-for_arrays_from key 0 b here arrays f h)
