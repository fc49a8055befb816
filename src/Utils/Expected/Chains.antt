-- ===== src/Utils/Expected/Chains.antt =====
-- Chains of `and_then`, and what of them can be read.
use bc.Prelude.{◌≡◌, refl, ok, ◌>>=◌}
use bc.Utils.Expected.{Expected, value, error, deref, get_error, and_then}

deref-and_then {ℓ κ μ} :
    {T : Type ℓ} {E : Type κ} {U : Type μ} (x : Expected T E) (f : T → Expected U E)
    → deref (and_then x f) ≡ (deref x >>= λ t. deref (f t))
unfolding and_then deref
deref-and_then (value t) f = refl
deref-and_then (error e) f = refl

module _ {ℓ κ μ ν} {T : Type ℓ} {E : Type κ} {U : Type μ} {V : Type ν} where
  -- A chain of two calls is one call of a chain, the first error stays, and a value is read of the
  -- chain exactly if it is read after each call in turn.
  and_then-and_then :
      (x : Expected T E) (f : T → Expected U E) (g : U → Expected V E)
      → (and_then (and_then x f) g ≡ and_then x (λ t. and_then (f t) g))
        × (deref (and_then (and_then x f) g) ≡ (deref x >>= λ t. deref (f t) >>= λ u. deref (g u)))
        × ((e : E) → get_error x ≡ ok e → get_error (and_then (and_then x f) g) ≡ ok e)
  unfolding and_then deref get_error
  and_then-and_then (value t) f g = (refl, deref-and_then (f t) g, λ e h. cc)
  and_then-and_then (error d) f g = (refl, refl, λ e h. h)
