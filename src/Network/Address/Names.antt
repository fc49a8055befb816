-- ===== src/Network/Address/Names.antt =====
-- The names that `parse_ipv6` reads, written out as texts.
use mathlib.Core.List.{append-nil}
use bc.Prelude.{
  ℕ, ◌+◌, ◌-◌, ◌<◌, ◌≤◌, ◌≡◌, ◌⊎◌, inl, inr, true, leb, List, [], ◌∷◌, ◌++◌, some, Bytes, refl, sym,
  ap, ◌∙◌, arith, all_of, All, length, replicate, Bool-cases, Option-cases,
}
use bc.Network.Chars.{join}
use bc.Network.Address.{is_ipv6_char, Front, read_tail, place_tail, fill_front}
use bc.Network.Address.Ipv6.{Spells}
use bc.Network.Address.Segments.{IsClean, HasRead, read_tail-HasTail}

-- What stands for the groups that a name leaves out: a double colon, or one colon at an end.
abbrev pub IsGap : List Bytes → List Bytes → Bytes → Type 0
IsGap ss ts gap = (gap ≡ b':' ∷ b':' ∷ []) ⊎ ((gap ≡ b':' ∷ []) × ((ss ≡ []) ⊎ (ts ≡ [])))

-- `name` stands for the eight groups `groups`. Up to eight groups are filled up with 0; what follows
-- eight groups and a colon does not count; and groups may be left out in one place.
pub data Names (name : Bytes) (groups : List ℕ) : Type 0 where
  filled :
      (ss : List Bytes) (vs : List ℕ)
      → Spells ss vs
      → length vs ≤ 8
      → name ≡ join b':' ss
      → groups ≡ vs ++ replicate (8 - length vs) 0
      → Names name groups
  overlong :
      (ss : List Bytes) (vs : List ℕ) (more : Bytes)
      → Spells ss vs
      → length vs ≡ 8
      → all_of is_ipv6_char more ≡ true
      → name ≡ join b':' ss ++ b':' ∷ more
      → groups ≡ vs
      → Names name groups
  shortened :
      (ss ts : List Bytes) (vs us : List ℕ) (gap : Bytes)
      → Spells ss vs
      → Spells ts us
      → 0 < length vs + length us
      → length vs + length us < 8
      → IsGap ss ts gap
      → name ≡ join b':' ss ++ (gap ++ join b':' ts)
      → groups ≡ vs ++ replicate (8 - (length vs + length us)) 0 ++ us
      → Names name groups

-- The segments of a name that has been read, with its groups.
pub data Layout (segments : List Bytes) (groups : List ℕ) : Type 0 where
  whole :
      (vs : List ℕ)
      → Spells segments vs
      → length vs ≤ 8
      → groups ≡ vs ++ replicate (8 - length vs) 0
      → Layout segments groups
  past :
      (ss rest : List Bytes) (vs : List ℕ)
      → Spells ss vs
      → length vs ≡ 8
      → segments ≡ ss ++ rest
      → groups ≡ vs
      → Layout segments groups
  parted :
      (ss ts : List Bytes) (vs us : List ℕ)
      → Spells ss vs
      → Spells ts us
      → length vs + length us < 8
      → segments ≡ ss ++ [] ∷ ts
      → groups ≡ vs ++ replicate (8 - (length vs + length us)) 0 ++ us
      → Layout segments groups

place_tail-inv :
    (vs us groups : List ℕ)
    → place_tail vs us ≡ some groups
    → (length vs + length us < 8) × (groups ≡ vs ++ replicate (8 - (length vs + length us)) 0 ++ us)
unfolding place_tail
place_tail-inv vs us groups h = elim (Bool-cases (leb 8 (length vs + length us))) [
  | inl q ↦ cc (rw q at h)
  | inr q ↦ let some_is = rw q at h in (ground arith, cc some_is)
]

All-append : (ss ts : List Bytes) → All IsClean (ss ++ ts) → All IsClean ts
All-append [] ts h = h
All-append (s ∷ ss) ts h = All-append ss ts h.1

pub fill_front-Layout :
    (segments : List Bytes) (f : Front) (groups : List ℕ)
    → All IsClean segments
    → HasRead [] segments f
    → fill_front f ≡ some groups
    → Layout segments groups
unfolding fill_front
fill_front-Layout segments f groups clean
      (ss, rest, vs, (p, (cut, (all, (few, inl (at_end, none_behind)))))) h =
    let e = rw (none_behind, all) at h in
    whole vs (rw (cut, at_end, append-nil ss) p) (rw all at few) (cc e)
fill_front-Layout segments f groups clean
      (ss, rest, vs, (p, (cut, (all, (few, inr (inl (eight, none_behind))))))) h =
    let full : length vs ≡ 8 = ap (length {0}) (sym all) ∙ eight in
    let e = rw (none_behind, all, full, append-nil vs) at h in past ss rest vs p full cut (cc e)
fill_front-Layout segments f groups clean
      (ss, rest, vs, (p, (cut, (all, (few, inr (inr (behind, has))))))) h =
    elim (Option-cases (read_tail [] f.rest)) [
      | inl q ↦ cc (rw (has, q) at h)
      | inr (us, q) ↦
          let clean_rest : All IsClean f.rest =
            (All-append ss ([] ∷ f.rest) (rw (cut, behind) at clean)).1 in
          let (ts, last, ws, (pt, (cut', (all', stops)))) =
            read_tail-HasTail [] f.rest us clean_rest q in
          let (less, e) = place_tail-inv f.groups us groups (rw (has, q) at h) in
          elim stops [
            | inr full ↦ absurd (omega arith)
            | inl done ↦
                parted ss ts vs us p (rw all' pt) (rw all at less)
                  (cut ∙ rw (behind, cut', done, append-nil ts) refl) (rw all at e)
          ]
    ]
