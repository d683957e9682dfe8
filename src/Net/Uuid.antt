-- ===== src/Net/Uuid.antt =====
-- libs/lib_net/uuid/Uuid.hpp and UuidGenerator.hpp. A `Uuid` is its number, below 2 ^ 64. The engine
-- `std::mt19937_64` is the list of the numbers that it will give; where a list ends, so does what
-- is known of the run, and the model returns `none`.
pub mod Fresh
pub mod Supply
pub mod Text
pub mod Hex
use project_e.Common.{
  ℕ, ◌≡◌, Bool, true, false, ◌||◌, Option, none, some, List, [], ◌∷◌, ◌==◌, if◌then◌else◌, length,
}
use project_e.Net.Packet.Bytes.{to_le, of_le}

-- `Uuid::to_bytes` and `Uuid::new_from_bytes`
unfoldable pub to_bytes : ℕ → List ℕ
to_bytes uuid = to_le 8 uuid

unfoldable pub new_from_bytes : List ℕ → Option ℕ
new_from_bytes bytes = if length bytes == 8 then some (of_le bytes) else none

-- `generatedUUIDs.find`
abbrev pub contains : ℕ → List ℕ → Bool
contains x [] = false
contains x (y ∷ ys) = x == y || contains x ys

-- `UuidGenerator`
pub record Generator : Type 0 where
  pub draws : List ℕ
  pub generated : List ℕ

-- The loop of `new_uuid`: numbers are drawn until one was not generated before.
draw : List ℕ → List ℕ → Option (ℕ × Generator)
draw [] generated = none
draw (d ∷ draws) generated =
    let again = draw draws generated in
    if contains d generated
    then again
    else some (d, record { draws = draws; generated = d ∷ generated })

unfoldable pub new_uuid : Generator → Option (ℕ × Generator)
unfolding draw
new_uuid g = draw g.draws g.generated

-- One number of the engine that the generator shares
next_of : List ℕ → List ℕ → Option (ℕ × Generator)
next_of [] generated = none
next_of (d ∷ draws) generated = some (d, record { draws = draws; generated = generated })

unfoldable pub next_number : Generator → Option (ℕ × Generator)
unfolding next_of
next_number g = next_of g.draws g.generated
