-- ===== src/Utils/Overload.antt =====
-- include/bc/utils/overload.hpp and utils/detail/detail.hpp: `overload` of callables. Which of them
-- takes a value of the given type is known to the compiler: `none` stands for one that does not.
pub mod First
use bc.Prelude.{
  ℕ, suc, List, [], ◌∷◌, Option, none, some, ltb, if◌then◌else◌, length, get_elem?, Result, ok, err,
  terminated,
}

module _ {ℓ κ} {A : Type ℓ} {R : Type κ} where
  -- `detail::select<T, F, Fs...>`.
  unfoldable pub select : Option (A → R) → List (Option (A → R)) → ℕ
  select (some f) fs = 0
  select none (f ∷ fs) = suc (select f fs)
  select none [] = 1

  -- `std::get<i>(fs)(value)`.
  unfoldable pub apply_at : List (Option (A → R)) → ℕ → A → Result R
  apply_at fs i a = elim (get_elem? fs i) [ some (some f) ↦ ok (f a) | _ ↦ err terminated ]

  -- `operator()`.
  unfoldable pub overload : Option (A → R) → List (Option (A → R)) → A → Result R
  overload f fs a =
      let i = select f fs in
      if ltb i (suc (length fs)) then apply_at (f ∷ fs) i a else err terminated
