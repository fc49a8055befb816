-- ===== src/Network/Address/Trim.antt =====
-- What `trim_colons` leaves of a name, and the ends of a text of groups.
use mathlib.Core.List.{append-nil}
use bc.Prelude.{
  ℕ, ◌≡◌, ◌≢◌, ◌⊎◌, inl, inr, true, List, [], ◌∷◌, ◌++◌, Bytes, refl, sym, ap, ◌∙◌, arith, all_of,
  Bool-cases,
}
use bc.Network.Chars.{join}
use bc.Network.Address.{
  is_ipv6_char, starts_with_colons, ends_with_colons, drop_first, drop_last, trim_colons,
}
use bc.Network.Address.Ipv6.{Spells, all_of-append, EndsOpen, join-EndsOpen, Digits-chars}
use bc.Network.Address.Compressed.{open-ne_nil}

-- What was left off a name.
abbrev pub Trimmed : Bytes → Bytes → Type 0
Trimmed name t =
    ((x : Bytes) × ((name ≡ b':' ∷ b':' ∷ x) × (t ≡ b':' ∷ x)))
    ⊎ (((x : Bytes) × ((name ≡ x ++ b':' ∷ b':' ∷ []) × (t ≡ x ++ b':' ∷ []))) ⊎ (t ≡ name))

starts-inv :
    (name : Bytes) → starts_with_colons name ≡ true → (x : Bytes) × (name ≡ b':' ∷ b':' ∷ x)
unfolding starts_with_colons
starts-inv [] h = cc
starts-inv (c ∷ []) h = cc
starts-inv (c ∷ d ∷ x) h =
    let p : c ≡ b':' = ground arith in let q : d ≡ b':' = ground arith in (x, rw (p, q) refl)

ends-inv :
    (name : Bytes)
    → ends_with_colons name ≡ true
    → (x : Bytes) × ((name ≡ x ++ b':' ∷ b':' ∷ []) × (drop_last name ≡ x ++ b':' ∷ []))
unfolding ends_with_colons drop_last
ends-inv [] h = cc
ends-inv (c ∷ []) h = cc
ends-inv (c ∷ d ∷ []) h =
    let p : c ≡ b':' = ground arith in
    let q : d ≡ b':' = ground arith in ([], (rw (p, q) refl, rw p refl))
ends-inv (c ∷ d ∷ e ∷ cs) h =
    let (x, (p, q)) = ends-inv (d ∷ e ∷ cs) h in (c ∷ x, (ap (λ y. c ∷ y) p, ap (λ y. c ∷ y) q))

pub trim_colons-Trimmed : (name : Bytes) → Trimmed name (trim_colons name)
unfolding trim_colons
trim_colons-Trimmed name = elim (Bool-cases (starts_with_colons name)) [
  | inl s ↦ let (x, e) = starts-inv name s in rw s (inl (x, (e, ap drop_first e)))
  | inr s ↦ elim (Bool-cases (ends_with_colons name)) [
    | inl f ↦ rw (s, f) (inr (inl (ends-inv name f)))
    | inr f ↦ rw (s, f) (inr (inr refl))
  ]
]

-- No text of groups begins or ends with a colon.
pub join-ne-cons :
    (s : Bytes) (ss : List Bytes) (vs : List ℕ) (more x : Bytes)
    → Spells (s ∷ ss) vs
    → join b':' (s ∷ ss) ++ more ≢ b':' ∷ x
join-ne-cons s ss [] more x p e = p
join-ne-cons [] ss (v ∷ vs) more x p e = ((p.0).numeral).ne_nil refl
join-ne-cons (c ∷ s) [] (v ∷ vs) more x p e =
    let first : c ≡ b':' = cc in let lacks = (Digits-chars ((p.0).numeral).digits).1 in ground arith
join-ne-cons (c ∷ s) (t ∷ ss) (v ∷ vs) more x p e =
    let first : c ≡ b':' = cc in let lacks = (Digits-chars ((p.0).numeral).digits).1 in ground arith

EndsOpen-colon : (x : Bytes) → ¬ EndsOpen (x ++ b':' ∷ [])
EndsOpen-colon [] h = ground arith
EndsOpen-colon (c ∷ []) h = ground arith
EndsOpen-colon (c ∷ d ∷ x) h = EndsOpen-colon (d ∷ x) h

abbrev pub BeginsOpen : Bytes → Type 0
BeginsOpen t = (x : Bytes) → t ≢ b':' ∷ x

abbrev pub ClosesOpen : Bytes → Type 0
ClosesOpen t = (x : Bytes) → t ≢ x ++ b':' ∷ []

pub join-BeginsOpen : (ss : List Bytes) (vs : List ℕ) → Spells ss vs → BeginsOpen (join b':' ss)
join-BeginsOpen [] vs p x e = cc
join-BeginsOpen (s ∷ ss) vs p x e =
    join-ne-cons s ss vs [] x p (append-nil (join b':' (s ∷ ss)) ∙ e)

pub EndsOpen-ClosesOpen : (t : Bytes) → EndsOpen t → ClosesOpen t
EndsOpen-ClosesOpen t h x e = EndsOpen-colon x (rw e at h)

pub join-ClosesOpen : (ss : List Bytes) (vs : List ℕ) → Spells ss vs → ClosesOpen (join b':' ss)
join-ClosesOpen [] vs p x e = open-ne_nil x (sym e)
join-ClosesOpen (s ∷ ss) vs p x e =
    EndsOpen-ClosesOpen (join b':' (s ∷ ss)) (join-EndsOpen s ss vs p) x e

pub untrimmed : (name t : Bytes) → Trimmed name t → BeginsOpen t → ClosesOpen t → name ≡ t
untrimmed name t (inl (x, (_, e))) begins closes = absurd (begins x e)
untrimmed name t (inr (inl (x, (_, e)))) begins closes = absurd (closes x e)
untrimmed name t (inr (inr e)) begins closes = sym e

pub all_of-Trimmed :
    (name t : Bytes)
    → Trimmed name t
    → all_of is_ipv6_char name ≡ true
    → all_of is_ipv6_char t ≡ true
all_of-Trimmed name t (inl (x, (is, e))) h = rw e (rw is at h)
all_of-Trimmed name t (inr (inl (x, (is, e)))) h =
    let both = sym (all_of-append is_ipv6_char x (b':' ∷ b':' ∷ [])) ∙ rw is at h in
    rw (e, all_of-append is_ipv6_char x (b':' ∷ [])) both
all_of-Trimmed name t (inr (inr same)) h = rw same h
