-- ===== src/Async/BitCeil.antt =====
-- `std::bit_ceil`, with which src/async and include/bc/async/scheduler.hpp size their vectors, and
-- `resize` of a vector.
use native.Mathlib.Nat.{pow-suc, one-le-pow}
use bc.Prelude.{
  ltb, Bool-cases, ℕ, zero, suc, ◌+◌, ◌-◌, ◌*◌, ◌^◌, ◌≤◌, ◌<◌, ◌≡◌, inl, inr, refl, sym, ap, ◌∙◌,
  arith, if◌then◌else◌, leb, List, [], ◌∷◌, ◌++◌, length, length-append, length-replicate,
  replicate, get_elem?, none, some,
}

-- The first of p, 2 p, 4 p, … that is at least `n`.
double_until : ℕ → ℕ → ℕ → ℕ
double_until zero p n = p
double_until (suc fuel) p n = let rest = double_until fuel (2 * p) n in if leb n p then p else rest

-- The smallest power of two that is at least `n`. Doubling `n` times is enough.
unfoldable pub bit_ceil : ℕ → ℕ
unfolding double_until
bit_ceil n = double_until n 1 n

-- `resize` to at least the present size: what is there stays, copies of `d` follow.
unfoldable pub resize {ℓ} : {A : Type ℓ} → List A → ℕ → A → List A
resize xs n d = xs ++ replicate (n - length xs) d

double_until-ge : (fuel p n : ℕ) → n ≤ p + fuel → 0 < p → n ≤ double_until fuel p n
unfolding double_until
double_until-ge zero p n h q = omega arith
double_until-ge (suc fuel) p n h q = ground (arith, double_until-ge fuel (2 * p) n)

pub bit_ceil-ge : (n : ℕ) → n ≤ bit_ceil n
unfolding bit_ceil
bit_ceil-ge n = double_until-ge n 1 n (omega arith) (omega arith)

-- A power of two that is not below `p` is found by the doubling.
double_until-later :
    (fuel p n : ℕ) → p < n → double_until (suc fuel) p n ≡ double_until fuel (2 * p) n
unfolding double_until
double_until-later fuel p n h = ground arith

double_until-now : (fuel p n : ℕ) → n ≡ p → double_until fuel p n ≡ n
unfolding double_until
double_until-now zero p n h = sym h
double_until-now (suc fuel) p n h = ground arith

double_until-pow : (k fuel p n : ℕ) → k ≤ fuel → 0 < p → n ≡ p * 2 ^ k → double_until fuel p n ≡ n
double_until-pow zero fuel p n h q e = double_until-now fuel p n (omega arith)
double_until-pow (suc k) zero p n h q e = absurd (omega arith)
double_until-pow (suc k) (suc fuel) p n h q e =
    let pos : 1 ≤ 2 ^ k = one-le-pow k 2 (omega arith) in
    let twice : n ≡ 2 * p * 2 ^ k = omega (arith, ap (λ (t : ℕ). p * t) (pow-suc 2 k)) in
    let less : p < n = grind arith in
    double_until-later fuel p n less
    ∙ double_until-pow k fuel (2 * p) n (omega arith) (omega arith) twice

exponent-le : (k : ℕ) → k ≤ 2 ^ k
exponent-le zero = omega arith
exponent-le (suc k) = omega (arith, exponent-le k, pow-suc 2 k, one-le-pow k 2 (omega arith))

-- A power of two is its own ceiling.
pub bit_ceil-pow : (k : ℕ) → bit_ceil (2 ^ k) ≡ 2 ^ k
unfolding bit_ceil
bit_ceil-pow k = double_until-pow k (2 ^ k) 1 (2 ^ k) (exponent-le k) (omega arith) (omega arith)

-- The doubling ends at a power of two.
double_until-IsPow : (fuel p n k : ℕ) → p ≡ 2 ^ k → (j : ℕ) × (double_until fuel p n ≡ 2 ^ j)
unfolding double_until
double_until-IsPow zero p n k e = (k, e)
double_until-IsPow (suc fuel) p n k e = elim (Bool-cases (leb n p)) [
  | inl h ↦ (k, rw h e)
  | inr h ↦ rw h (double_until-IsPow fuel (2 * p) n (suc k) (omega (arith, pow-suc 2 k)))
]

pub bit_ceil-IsPow : (n : ℕ) → (j : ℕ) × (bit_ceil n ≡ 2 ^ j)
unfolding bit_ceil
bit_ceil-IsPow n = double_until-IsPow n 1 n 0 refl

pub length-resize {ℓ} :
    {A : Type ℓ} (xs : List A) (n : ℕ) (d : A) → length xs ≤ n → length (resize xs n d) ≡ n
unfolding resize
length-resize xs n d h =
    omega
      (arith, length-append xs (replicate (n - length xs) d), length-replicate (n - length xs) d)

get_elem?-replicate :
    {A : Type 0} (n i : ℕ) (d : A)
    → get_elem? (replicate n d) i ≡ (if ltb i n then some d else none)
get_elem?-replicate zero i d = ground arith
get_elem?-replicate (suc n) zero d = ground arith
get_elem?-replicate (suc n) (suc i) d = ground (arith, get_elem?-replicate n i d)

-- What a vector holds at each index after a resize.
pub get_elem?-resize :
    {A : Type 0} (xs : List A) (n i : ℕ) (d : A)
    → get_elem? (resize xs n d) i
      ≡ (if ltb i (length xs) then get_elem? xs i else if ltb i n then some d else none)
unfolding resize
get_elem?-resize [] n i d = ground (arith, get_elem?-replicate n i d)
get_elem?-resize (x ∷ xs) zero zero d = ground arith
get_elem?-resize (x ∷ xs) zero (suc i) d = ground (arith, get_elem?-resize xs zero i d)
get_elem?-resize (x ∷ xs) (suc n) zero d = ground arith
get_elem?-resize (x ∷ xs) (suc n) (suc i) d = ground (arith, get_elem?-resize xs n i d)
