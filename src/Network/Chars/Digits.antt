-- ===== src/Network/Chars/Digits.antt =====
-- `from_chars` against the value of a numeral.
use bc.Prelude.{
  ℕ, ◌+◌, ◌*◌, ◌<◌, ◌≡◌, ◌≢◌, ltb, if◌then◌else◌, [], ◌∷◌, none, some, Bytes, refl, sym, ◌∙◌, arith,
}
use bc.Network.Chars.{digit_in, read_digits, from_chars}

-- The digits, behind digits of the value `acc`, have the value `v`.
pub data Digits (base : ℕ) : ℕ → Bytes → ℕ → Type 0 where
  stop : {acc : ℕ} → Digits base acc [] acc
  more :
      {acc c d v : ℕ} {cs : Bytes}
      → digit_in base c ≡ some d
      → Digits base (acc * base + d) cs v
      → Digits base acc (c ∷ cs) v

-- A numeral of the value `v`: one digit or more.
pub record IsNumeral (base : ℕ) (s : Bytes) (v : ℕ) : Type 0 where
  pub ne_nil : s ≢ []
  pub digits : Digits base 0 s v

read_digits-Digits : {base acc v : ℕ} {s : Bytes} → Digits base acc s v → read_digits base acc s ≡ v
unfolding read_digits
read_digits-Digits stop = refl
read_digits-Digits (more e r) = rw (e, read_digits) (read_digits-Digits r)

from_chars-cons :
    (base limit c d : ℕ) (cs : Bytes)
    → digit_in base c ≡ some d
    → from_chars base limit (c ∷ cs)
      ≡ (if ltb (read_digits base d cs) limit then some (read_digits base d cs) else none)
unfolding from_chars
from_chars-cons base limit c d cs e = rw (e, from_chars)

from_chars-value :
    (base limit v : ℕ) (s : Bytes)
    → s ≢ []
    → Digits base 0 s v
    → from_chars base limit s ≡ (if ltb v limit then some v else none)
from_chars-value base limit v s n stop = absurd (n refl)
from_chars-value base limit v s n (more {c = c} {d = d} {cs = cs} e r) =
    let first : 0 * base + d ≡ d = omega arith in
    from_chars-cons base limit c d cs e ∙ rw (read_digits-Digits (rw first at r))

-- A numeral is read if its value fits.
pub from_chars-IsNumeral :
    (base limit : ℕ) {s : Bytes} {v : ℕ}
    → IsNumeral base s v
    → from_chars base limit s ≡ (if ltb v limit then some v else none)
from_chars-IsNumeral base limit {s} {v} n = from_chars-value base limit v s n.ne_nil n.digits

-- Every byte is a digit.
abbrev pub AreDigits : ℕ → Bytes → Type 0
AreDigits base [] = Unit
AreDigits base (c ∷ cs) = ((d : ℕ) × (digit_in base c ≡ some d)) × AreDigits base cs

Digits-total : (base acc : ℕ) (s : Bytes) → AreDigits base s → (v : ℕ) × Digits base acc s v
Digits-total base acc [] h = (acc, stop)
Digits-total base acc (c ∷ s) h =
    let (v, r) = Digits-total base (acc * base + h.0.0) s h.1 in (v, more h.0.1 r)

from_chars-nil : (base limit v : ℕ) → from_chars base limit [] ≢ some v
unfolding from_chars
from_chars-nil base limit v e = cc

-- A segment of digits that is read is a numeral of that value, and the value fits.
pub from_chars-eq-some :
    (base limit : ℕ) (s : Bytes) (v : ℕ)
    → AreDigits base s
    → from_chars base limit s ≡ some v
    → IsNumeral base s v × (v < limit)
from_chars-eq-some base limit [] v h e = absurd (from_chars-nil base limit v e)
from_chars-eq-some base limit (c ∷ s) v h e =
    let (u, r) = Digits-total base 0 (c ∷ s) h in
    let n : IsNumeral base (c ∷ s) u = record { ne_nil = λ q. cc; digits = r } in
    let fits : (if ltb u limit then some u else none) ≡ some v =
      sym (from_chars-IsNumeral base limit n) ∙ e in
    let same : u ≡ v = ground arith in (rw same at n, ground arith)
