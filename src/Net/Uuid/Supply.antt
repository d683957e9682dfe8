-- ===== src/Net/Uuid/Supply.antt =====
-- libs/lib_net/uuid/UuidGenerator.hpp: how many identifiers the generator can still give.
use project_e.Common.{
  ℕ, suc, ◌≡◌, refl, Option, none, some, List, [], ◌∷◌, if◌then◌else◌, Bool-cases, inl, inr,
}
use project_e.Net.Uuid.{Generator, contains, draw, new_uuid}

-- How many identifiers the numbers to be drawn give: each counts that was not given out before.
abbrev pub identifiers_in : List ℕ → List ℕ → ℕ
identifiers_in [] generated = 0
identifiers_in (d ∷ draws) generated =
    if contains d generated
    then identifiers_in draws generated
    else suc (identifiers_in draws (d ∷ generated))

-- An identifier is given, and one less is left.
abbrev pub Drew : ℕ → Option (ℕ × Generator) → Type 0
Drew n none = n ≡ 0
Drew n (some (uuid, g)) = n ≡ suc (identifiers_in g.draws g.generated)

draw-Drew :
    (draws generated : List ℕ) → Drew (identifiers_in draws generated) (draw draws generated)
unfolding draw
draw-Drew [] generated = refl
draw-Drew (d ∷ draws) generated = elim (Bool-cases (contains d generated)) [
  | inl old ↦ rw old (draw-Drew draws generated)
  | inr new ↦ rw new refl
]

pub new_uuid-Drew : (g : Generator) → Drew (identifiers_in g.draws g.generated) (new_uuid g)
unfolding new_uuid
new_uuid-Drew g = draw-Drew g.draws g.generated
