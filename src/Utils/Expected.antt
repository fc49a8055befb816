-- ===== src/Utils/Expected.antt =====
-- include/bc/utils/expected.hpp: `expected<T, E>` over distinct types, as a value or an error.
pub mod Chains
use bc.Prelude.{Bool, true, false, Result, ok, err, assertion}

-- `std::variant<T, E>`.
pub data Expected {ℓ κ} (T : Type ℓ) (E : Type κ) : Type (ℓ ⊔ κ) where
  value : T → Expected T E
  error : E → Expected T E

module _ {ℓ κ} {T : Type ℓ} {E : Type κ} where
  -- `operator=` from a value, whatever was held.
  unfoldable pub assign : T → Expected T E → Expected T E
  assign t x = value t

  unfoldable pub has_value : Expected T E → Bool
  has_value (value t) = true
  has_value (error e) = false

  -- `operator*` and `value()`, behind their assertion.
  unfoldable pub deref : Expected T E → Result T
  deref (value t) = ok t
  deref (error e) = err assertion

  -- `error()`, behind its assertion.
  unfoldable pub get_error : Expected T E → Result E
  get_error (value t) = err assertion
  get_error (error e) = ok e

  unfoldable pub value_or : Expected T E → T → T
  value_or (value t) default = t
  value_or (error e) default = default

  unfoldable pub and_then {μ} : {U : Type μ} → Expected T E → (T → Expected U E) → Expected U E
  and_then (value t) f = f t
  and_then (error e) f = error e
