-- ===== src/Net/Uuid/Fresh.antt =====
-- libs/lib_net/uuid/UuidGenerator.hpp: what `new_uuid` gives is new.
use project_e.Common.{
  refl, ℕ, ◌≡◌, true, false, Option, none, some, List, ◌∷◌, ◌++◌, All, ap, Bool-cases, inr, [], inl,
}
use project_e.Net.Uuid.{Generator, contains, new_uuid, draw}

-- What drawing a number comes to
abbrev pub Fresh : Generator → Option (ℕ × Generator) → Type 0
Fresh g none = All (λ d. contains d g.generated ≡ true) g.draws
Fresh g (some (uuid, g')) =
    (skipped : List ℕ) × All (λ d. contains d g.generated ≡ true) skipped
    × (g.draws ≡ skipped ++ uuid ∷ g'.draws)
    × (contains uuid g.generated ≡ false)
    × (g'.generated ≡ uuid ∷ g.generated)

skip :
    (d : ℕ) (draws generated : List ℕ)
    → contains d generated ≡ true
    → (r : Option (ℕ × Generator)) → Fresh (record { draws = draws; generated = generated }) r
    → Fresh (record { draws = d ∷ draws; generated = generated }) r
skip d draws generated old none f = (old, f)
skip d draws generated old (some (uuid, g)) (skipped, all, e, new, gen) =
    (d ∷ skipped, (old, all), ap (◌∷◌ d) e, new, gen)

draw-Fresh :
    (draws generated : List ℕ)
    → Fresh (record { draws = draws; generated = generated }) (draw draws generated)
unfolding draw
draw-Fresh [] generated = tt
draw-Fresh (d ∷ draws) generated = elim (Bool-cases (contains d generated)) [
  | inr new ↦ rw new ([], tt, refl, new, refl)
  | inl old ↦
      rw old (skip d draws generated old (draw draws generated) (draw-Fresh draws generated))
]

-- `new_uuid` gives the first number drawn that was not given before, remembers it, and skips only
-- numbers that were; it gives none only where every number to be drawn was given before.
pub new_uuid-Fresh : (g : Generator) → Fresh g (new_uuid g)
unfolding new_uuid
new_uuid-Fresh g = draw-Fresh g.draws g.generated
