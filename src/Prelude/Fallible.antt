-- ===== src/Prelude/Fallible.antt =====
-- Code that may fault or throw: a result or the reason that there is none.
use mathlib.Core.Path.{◌≡◌, refl, subst}
use mathlib.Core.Bool.{Bool, true, false}
use mathlib.Core.Option.{Option, none, some}
use Prim.Native.Nat.{ℕ}

-- A failed `assert`, an index past the end of a vector, an iterator into storage that was moved,
-- `throw` with no exception at hand, a call of `abort`, an exception with its error code, and fuel of
-- the model that ran out.
pub data Fault : Type 0 where
  assertion out_of_bounds dangling terminated aborted out_of_fuel : Fault
  thrown : ℕ → Fault

pub data Result {ℓ} (A : Type ℓ) : Type ℓ where
  err : Fault → Result A
  ok : A → Result A

abbrev pub assert : Bool → Result (Unit {0})
assert false = err assertion
assert true = ok tt

-- A fault skips what follows.
infixl 5 ◌>>=◌
abbrev pub ◌>>=◌ {ℓ κ} : {A : Type ℓ} {B : Type κ} → Result A → (A → Result B) → Result B
err fault >>= next = err fault
ok result >>= next = next result

infixl 5 ◌>>◌
abbrev pub ◌>>◌ {κ} : {B : Type κ} → Result (Unit {0}) → Result B → Result B
checked >> later = checked >>= λ _. later

-- `v[i]`, given the lookup.
abbrev pub in_bounds {ℓ} : {A : Type ℓ} → Option A → Result A
in_bounds none = err out_of_bounds
in_bounds (some a) = ok a

pub >>=-eq-ok {ℓ κ} :
    {A : Type ℓ} {B : Type κ} (first : Result A) (next : A → Result B) {last : B}
    → (first >>= next) ≡ ok last
    → (a : A) × (first ≡ ok a) × (next a ≡ ok last)
>>=-eq-ok (err fault) next h = cc
>>=-eq-ok (ok result) next h = (result, refl, h)

pub in_bounds-eq-ok {ℓ} : {A : Type ℓ} (o : Option A) {a : A} → in_bounds o ≡ ok a → o ≡ some a
in_bounds-eq-ok none h = cc
in_bounds-eq-ok (some b) h = cc

-- The result, where there is one, satisfies `P`.
pub data Gives {ℓ κ} {A : Type ℓ} (P : A → Type κ) : Result A → Type (ℓ ⊔ κ) where
  gives : {a : A} → P a → Gives P (ok a)
  fails : {e : Fault} → Gives P (err e)

pub Gives->>= {ℓ κ μ} :
    {A B : Type ℓ} {P : A → Type κ} {Q : B → Type μ} {m : Result A} {f : A → Result B}
    → Gives P m
    → ((a : A) → P a → Gives Q (f a))
    → Gives Q (m >>= f)
Gives->>= (gives h) step = step _ h
Gives->>= fails step = fails

pub Gives-assert : (b : Bool) → Gives (λ _. b ≡ true) (assert b)
Gives-assert true = gives refl
Gives-assert false = fails

pub Gives-in_bounds {ℓ} : {A : Type ℓ} (o : Option A) → Gives (λ a. o ≡ some a) (in_bounds o)
Gives-in_bounds none = fails
Gives-in_bounds (some a) = gives refl

pub Gives-any {ℓ} : {A : Type ℓ} (m : Result A) → Gives (λ _. Unit {0}) m
Gives-any (ok a) = gives tt
Gives-any (err e) = fails

pub Gives-map {ℓ κ μ} :
    {A : Type ℓ} {P : A → Type κ} {Q : A → Type μ} {m : Result A}
    → Gives P m
    → ((a : A) → P a → Q a)
    → Gives Q m
Gives-map (gives h) f = gives (f _ h)
Gives-map fails f = fails

pub Gives-eq-ok {ℓ κ} :
    {A : Type ℓ} {P : A → Type κ} {m : Result A} {a : A} → Gives P m → m ≡ ok a → P a
Gives-eq-ok {P} (gives {a = b} h) e = subst P (cc) h
Gives-eq-ok fails e = cc
