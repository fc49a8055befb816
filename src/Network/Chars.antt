-- ===== src/Network/Chars.antt =====
-- `std::from_chars` for unsigned integers and `std::views::split` at one character, as
-- include/bc/network/address.hpp uses them.
pub mod Split
pub mod Digits
use bc.Prelude.{
  ℕ, suc, ◌+◌, ◌-◌, ◌*◌, ◌<◌, ◌≡◌, Bool, true, false, ◌&&◌, ◌==◌, leb, ltb, if◌then◌else◌, List, [],
  ◌∷◌, ◌++◌, Option, none, some, Bytes, refl, sym, ap, ◌∙◌, arith, Bool-cases, Option-cases, inl,
  inr,
}

-- The value of a digit, in any base up to 16.
unfoldable pub digit : ℕ → Option ℕ
digit c =
    if leb b'0' c && leb c b'9'
    then some (c - b'0')
    else if leb b'a' c && leb c b'f'
    then some (c - b'a' + 10)
    else if leb b'A' c && leb c b'F'
    then some (c - b'A' + 10)
    else none

-- A digit of the base.
unfoldable pub digit_in : ℕ → ℕ → Option ℕ
unfolding digit
digit_in base c = elim (digit c) [ none ↦ none | some d ↦ if ltb d base then some d else none ]

-- The value of the digits at the front, behind those read already.
unfoldable pub read_digits : ℕ → ℕ → Bytes → ℕ
read_digits base acc [] = acc
read_digits base acc (c ∷ cs) = elim (digit_in base c) [
  | none ↦ acc
  | some d ↦ read_digits base (acc * base + d) cs
]

-- `none` stands for an error code: no digit at the front, or a value that does not fit.
unfoldable pub from_chars : ℕ → ℕ → Bytes → Option ℕ
from_chars base limit [] = none
from_chars base limit (c ∷ cs) = elim (digit_in base c) [
  | none ↦ none
  | some d ↦ let v = read_digits base d cs in if ltb v limit then some v else none
]

-- The segments, the first of which begins with `segment`.
unfoldable pub split_from : ℕ → Bytes → Bytes → List Bytes
split_from b segment [] = segment ∷ []
split_from b segment (c ∷ cs) =
    let here = segment ∷ split_from b [] cs in
    let on = split_from b (segment ++ c ∷ []) cs in if c == b then here else on

-- An empty range has no segment, not an empty one.
unfoldable pub split : ℕ → Bytes → List Bytes
split b [] = []
split b (c ∷ cs) = split_from b [] (c ∷ cs)

-- The segments with the character between them.
abbrev pub join : ℕ → List Bytes → Bytes
join b [] = []
join b (s ∷ []) = s
join b (s ∷ t ∷ ss) = s ++ b ∷ join b (t ∷ ss)

abbrev pub Lacks : ℕ → Bytes → Type 0
Lacks b [] = Unit
Lacks b (c ∷ cs) = ((c == b) ≡ false) × Lacks b cs
