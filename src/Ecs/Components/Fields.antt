-- ===== src/Ecs/Components/Fields.antt =====
-- libs/lib_ecs/Components/ComponentPool.hpp: the operations that take the fields one after the other, each at
-- all positions, where Ecs/Components takes the positions one after the other, each in all fields.
use mathlib.Core.Option.{some-injective}
use project_e.Common.{
  ℕ, suc, ◌≡◌, refl, ap, ◌∙◌, sym, Option, none, some, List, [], ◌∷◌, length, map, get_elem?, arith,
  ◌>>=◌,
}
use project_e.Ecs.Pos.{Pos}
use project_e.Ecs.Chunks.{
  ChunkPool, get_elem, set_elem, set_value_at_indexes, get_values_at_indexes, reset_at_chunk_pos,
  chunk_set, reset_at_index,
}
use project_e.Ecs.Chunks
use project_e.Ecs.Components.{set_component, set_component_at_indexes, reset_component}

-- `setComponentAtIndexesImpl`, for a vector and for a span of positions
unfoldable pub set_fields : List ChunkPool → List Pos → List ℕ → Option (List ChunkPool)
unfolding set_value_at_indexes
set_fields [] ps [] = some []
set_fields (pool ∷ pools) ps (v ∷ vs) = do
  pool' ← set_value_at_indexes pool ps v
  pools' ← set_fields pools ps vs
  some (pool' ∷ pools')
set_fields _ ps _ = none

-- `getComponentsAtIndexesImpl`: a field of all rows, and then the next field
unfoldable pub put_column : List ℕ → List (List ℕ) → List (List ℕ)
put_column (v ∷ vs) (row ∷ rows) = (v ∷ row) ∷ put_column vs rows
put_column _ _ = []

unfoldable pub get_fields : List ChunkPool → List Pos → Option (List (List ℕ))
unfolding get_values_at_indexes put_column
get_fields [] ps = some (map (λ p. []) ps)
get_fields (pool ∷ pools) ps = do
  vs ← get_values_at_indexes pool ps
  rows ← get_fields pools ps
  some (put_column vs rows)

-- `resetAtChunkPos`
unfoldable pub reset_fields : List ChunkPool → Pos → Option (List ChunkPool)
unfolding reset_at_chunk_pos
reset_fields [] p = some []
reset_fields (pool ∷ pools) p = do
  pool' ← reset_at_chunk_pos pool p
  pools' ← reset_fields pools p
  some (pool' ∷ pools')

-- `deleteEverything`
unfoldable pub delete_everything : List ChunkPool → List ChunkPool
delete_everything pools = map Chunks.delete_everything pools

-- `getRawStdVectors`: the elements of the chunk at an index, of each field
unfoldable pub get_raw_std_vectors : ℕ → List ChunkPool → Option (List (List ℕ))
get_raw_std_vectors i [] = some []
get_raw_std_vectors i (pool ∷ pools) = do
  c ← get_elem? pool i
  rest ← get_raw_std_vectors i pools
  some (c.elems ∷ rest)

none_after {ℓ κ} :
    {A : Type ℓ} {B : Type κ} (x : Option A) → Path (Option B) (x >>= (λ a. none)) none
none_after none = refl
none_after (some a) = refl

bind_cong {ℓ κ} :
    {A : Type ℓ} {B : Type κ} (x : Option A) (f g : A → Option B)
    → ((a : A) → x ≡ some a → f a ≡ g a)
    → (x >>= f) ≡ (x >>= g)
bind_cong none f g h = refl
bind_cong (some a) f g h = h a refl

made {ℓ} :
    {A : Type ℓ} (x : Option A) (y : Option (List A)) {result : List A}
    → (x >>= (λ a. y >>= (λ rest. some (a ∷ rest)))) ≡ some result
    → (rest : List A) × (y ≡ some rest) × (length result ≡ suc (length rest))
made none y e = cc
made (some a) none e = cc
made (some a) (some rest) e = (rest, refl, ap length (sym (some-injective _ _ e)))

length-set_component :
    (pools : List ChunkPool) (p : Pos) (vs : List ℕ) {result : List ChunkPool}
    → set_component pools p vs ≡ some result
    → length result ≡ length pools
unfolding set_component
length-set_component [] p [] e = ap length (sym (some-injective _ _ e))
length-set_component [] p (v ∷ vs) e = cc
length-set_component (pool ∷ pools) p [] e = cc
length-set_component (pool ∷ pools) p (v ∷ vs) e =
    let (rest, found, count) = made (set_elem pool p v) (set_component pools p vs) e in
    count ∙ ap suc (length-set_component pools p vs found)

-- Two computations that do not depend on one another, in either order
interchange {ℓ κ ℓ' κ' μ} :
    {A : Type ℓ} {B : Type κ} {C : Type ℓ'} {D : Type κ'} {E : Type μ} (x : Option A)
    (g : A → Option B) (y : Option C) (h : C → Option D) (k : B → D → Option E)
    → ((x >>= g) >>= (λ b. (y >>= h) >>= (λ d. k b d)))
      ≡ (x >>= (λ a. y >>= (λ c. g a >>= (λ b. h c >>= (λ d. k b d)))))
interchange none g y h k = refl
interchange (some a) g none h k = none_after (g a)
interchange (some a) g (some c) h k = refl

regroup {ℓ κ ℓ' μ} :
    {A : Type ℓ} {B : Type κ} {C : Type ℓ'} {E : Type μ} (x : Option A) (y : Option B)
    (c : A → B → C) (f : C → Option E)
    → (x >>= (λ a. y >>= (λ b. some (c a b))) >>= f) ≡ (x >>= (λ a. y >>= (λ b. f (c a b))))
regroup none y c f = refl
regroup (some a) none c f = refl
regroup (some a) (some b) c f = refl

-- The first position in all fields, and then the others
set_fields-step :
    (pools : List ChunkPool) (p : Pos) (ps : List Pos) (vs : List ℕ)
    → set_fields pools (p ∷ ps) vs
      ≡ (set_component pools p vs >>= (λ pools'. set_fields pools' ps vs))
unfolding set_fields set_component
set_fields-step [] p ps [] = refl
set_fields-step [] p ps (v ∷ vs) = refl
set_fields-step (pool ∷ pools) p ps [] = refl
set_fields-step (pool ∷ pools) p ps (v ∷ vs) =
    let ih = set_fields-step pools p ps vs in
    ap
      (λ t.
        (set_elem pool p v >>= (λ pool'. set_value_at_indexes pool' ps v))
        >>= (λ a. t >>= (λ b. some (a ∷ b))))
      ih
    ∙ (interchange (set_elem pool p v) (λ pool'. set_value_at_indexes pool' ps v)
          (set_component pools p vs) (λ pools'. set_fields pools' ps vs) (λ a b. some (a ∷ b))
        ∙ sym (
            regroup (set_elem pool p v) (set_component pools p vs) (λ a b. a ∷ b)
              (λ q. set_fields q ps (v ∷ vs))))

set_fields_nowhere :
    (pools : List ChunkPool) (vs : List ℕ)
    → length vs ≡ length pools
    → set_fields pools [] vs ≡ some pools
unfolding set_fields set_value_at_indexes
set_fields_nowhere [] [] h = refl
set_fields_nowhere [] (v ∷ vs) h = absurd (omega arith)
set_fields_nowhere (pool ∷ pools) [] h = absurd (omega arith)
set_fields_nowhere (pool ∷ pools) (v ∷ vs) h = rw (set_fields_nowhere pools vs (omega arith)) refl

-- Writing field by field gives what writing position by position gives, for a component with as many
-- values as there are fields: the same pools, or no result in both where a position is out of range.
pub set_fields-set_component_at_indexes :
    (pools : List ChunkPool) (ps : List Pos) (vs : List ℕ)
    → length vs ≡ length pools
    → set_fields pools ps vs ≡ set_component_at_indexes pools ps vs
unfolding set_component_at_indexes
set_fields-set_component_at_indexes pools [] vs h = set_fields_nowhere pools vs h
set_fields-set_component_at_indexes pools (p ∷ ps) vs h =
    set_fields-step pools p ps vs
    ∙ bind_cong (set_component pools p vs) _ _ (λ pools' e.
      set_fields-set_component_at_indexes pools' ps vs
        (h ∙ sym (length-set_component pools p vs e)))

-- Resetting a position field by field is writing zeros to it.
pub reset_fields-reset_component :
    (pools : List ChunkPool) (p : Pos) → reset_fields pools p ≡ reset_component pools p
unfolding reset_fields reset_component set_component reset_at_chunk_pos reset_at_index set_elem
reset_fields-reset_component [] p = refl
reset_fields-reset_component (pool ∷ pools) p =
    ap (λ t. reset_at_chunk_pos pool p >>= (λ a. t >>= (λ b. some (a ∷ b))))
      (reset_fields-reset_component pools p)
