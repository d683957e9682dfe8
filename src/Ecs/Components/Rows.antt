-- ===== src/Ecs/Components/Rows.antt =====
-- libs/lib_ecs/Components/ComponentPool.hpp: reading all rows, field by field and position by position.
use project_e.Common.{ℕ, ◌≡◌, refl, ap, ◌∙◌, Option, none, some, List, [], ◌∷◌, ◌>>=◌}
use project_e.Ecs.Pos.{Pos}
use project_e.Ecs.Chunks.{ChunkPool, get_elem, get_values_at_indexes}
use project_e.Ecs.Components.{get_component, get_components_at_indexes}
use project_e.Ecs.Components.Fields.{put_column, get_fields}

-- A value and the column below it, a row beside them and the rows below that, in both orders
across :
    (x : Option ℕ) (y z : Option (List ℕ)) (w : Option (List (List ℕ)))
    → ((x >>= (λ v. y >>= (λ vs. some (v ∷ vs)))) >>= (λ column.
        (z >>= (λ row. w >>= (λ rows. some (row ∷ rows))))
        >>= (λ rows. some (put_column column rows))))
      ≡ ((x >>= (λ v. z >>= (λ vs. some (v ∷ vs)))) >>= (λ row.
          (y >>= (λ vs. w >>= (λ rows. some (put_column vs rows))))
          >>= (λ rows. some (row ∷ rows))))
unfolding put_column
across none y z w = refl
across (some x) none none w = refl
across (some x) (some y) none w = refl
across (some x) none (some z) w = refl
across (some x) (some y) (some z) none = refl
across (some x) (some y) (some z) (some w) = refl

-- Reading field by field
get_fields-step :
    (pools : List ChunkPool) (p : Pos) (ps : List Pos)
    → get_fields pools (p ∷ ps)
      ≡ (get_component pools p >>= (λ vs. get_fields pools ps >>= (λ rows. some (vs ∷ rows))))
unfolding get_fields get_component put_column get_values_at_indexes
get_fields-step [] p ps = refl
get_fields-step (pool ∷ pools) p ps =
    ap
      (λ t.
        (get_values_at_indexes pool (p ∷ ps)) >>= (λ vs. t >>= (λ rows. some (put_column vs rows))))
      (get_fields-step pools p ps)
    ∙ across (get_elem pool p) (get_values_at_indexes pool ps) (get_component pools p)
        (get_fields pools ps)

get_fields_nowhere : (pools : List ChunkPool) → get_fields pools [] ≡ some []
unfolding get_fields get_values_at_indexes put_column
get_fields_nowhere [] = refl
get_fields_nowhere (pool ∷ pools) = rw (get_fields_nowhere pools) refl

-- Reading field by field gives the rows that reading position by position gives, or no result in both.
pub get_fields-get_components_at_indexes :
    (pools : List ChunkPool) (ps : List Pos)
    → get_fields pools ps ≡ get_components_at_indexes pools ps
unfolding get_components_at_indexes
get_fields-get_components_at_indexes pools [] = get_fields_nowhere pools
get_fields-get_components_at_indexes pools (p ∷ ps) =
    get_fields-step pools p ps
    ∙ ap (λ t. get_component pools p >>= (λ vs. t >>= (λ rows. some (vs ∷ rows))))
        (get_fields-get_components_at_indexes pools ps)
