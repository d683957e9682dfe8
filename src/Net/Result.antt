-- ===== src/Net/Result.antt =====
-- libs/lib_net/result/Result.hpp: `Result<T, E>`, a value or an error. Where the source throws
-- `std::runtime_error`, the model returns `none`.
use project_e.Common.{Bool, true, false, Option, none, some}

pub data Result {ℓ κ} (T : Type ℓ) (E : Type κ) : Type (ℓ ⊔ κ) where
  success : T → Result T E
  failure : E → Result T E

module _ {ℓ κ} {T : Type ℓ} {E : Type κ} where
  unfoldable pub is_error : Result T E → Bool
  is_error (success v) = false
  is_error (failure e) = true

  unfoldable pub is_value : Result T E → Bool
  is_value (success v) = true
  is_value (failure e) = false

  unfoldable pub value : Result T E → Option T
  value (success v) = some v
  value (failure e) = none

  unfoldable pub error : Result T E → Option E
  error (success v) = none
  error (failure e) = some e

abbrev pub map_value {ℓ κ μ} :
    {T : Type ℓ} {E : Type κ} {U : Type μ} → (T → U) → Result T E → Result U E
map_value f (success v) = success (f v)
map_value f (failure e) = failure e

abbrev pub map_error {ℓ κ μ} :
    {T : Type ℓ} {E : Type κ} {F : Type μ} → (E → F) → Result T E → Result T F
map_error f (success v) = success v
map_error f (failure e) = failure (f e)
