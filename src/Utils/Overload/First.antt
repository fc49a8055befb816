-- ===== src/Utils/Overload/First.antt =====
-- `overload` calls the first callable that takes the value.
use bc.Prelude.{
  suc, ◌≤◌, ◌≡◌, refl, List, [], ◌∷◌, Option, none, some, ltb, length, Result, ok, err, terminated,
  arith, true, ◌⊎◌, inl, inr, Bool-cases,
}
use bc.Utils.Overload.{select, apply_at, overload}

module _ {ℓ κ} {A : Type ℓ} {R : Type κ} where
  -- Resolution by order, as a search.
  abbrev pub first : List (Option (A → R)) → Option (A → R)
  first [] = none
  first (some f ∷ fs) = some f
  first (none ∷ fs) = first fs

  abbrev pub called : Option (A → R) → A → Result R
  called (some f) a = ok (f a)
  called none a = err terminated

  apply_at-first :
      (f : Option (A → R)) (fs : List (Option (A → R))) (a : A)
      → apply_at (f ∷ fs) (select f fs) a ≡ called (first (f ∷ fs)) a
  unfolding apply_at select
  apply_at-first (some f) fs a = refl
  apply_at-first none (f ∷ fs) a = apply_at-first f fs a
  apply_at-first none [] a = refl

  select-le : (f : Option (A → R)) (fs : List (Option (A → R))) → select f fs ≤ suc (length fs)
  unfolding select
  select-le (some f) fs = omega arith
  select-le none (f ∷ fs) = omega (arith, select-le f fs)
  select-le none [] = omega arith

  select-first :
      (f : Option (A → R)) (fs : List (Option (A → R)))
      → (ltb (select f fs) (suc (length fs)) ≡ true) ⊎ (first (f ∷ fs) ≡ none)
  unfolding select
  select-first (some f) fs = inl (ground arith)
  select-first none (f ∷ fs) = ground (arith, select-first f fs)
  select-first none [] = inr refl

  -- A call is the call of the first callable that takes the value, and ends the program exactly if
  -- none does.
  overload-first :
      (f : Option (A → R)) (fs : List (Option (A → R))) (a : A)
      → overload f fs a ≡ called (first (f ∷ fs)) a
  unfolding overload
  overload-first f fs a = elim (Bool-cases (ltb (select f fs) (suc (length fs)))) [
    | inl e ↦ rw e (apply_at-first f fs a)
    | inr e ↦ elim (select-first f fs) [ inl h ↦ cc | inr h ↦ rw (e, h) refl ]
  ]
