-- ===== src/Network/Address/Segments.antt =====
-- What the two loops of `parse_ipv6` have read where they come to an end.
use mathlib.Core.List.{append_assoc, append-nil}
use bc.Prelude.{
  ℕ, ◌<◌, ◌≤◌, ◌≡◌, ◌==◌, ◌⊎◌, inl, inr, true, false, ltb, List, [], ◌∷◌, ◌++◌, some, Bytes, refl,
  sym, ◌∙◌, arith, all_of, All, length, length-append, Bool-cases, Option-cases,
}
use bc.Network.Chars.{digit_in, from_chars, Lacks}
use bc.Network.Chars.Digits.{AreDigits, from_chars-eq-some}
use bc.Network.Address.{is_ipv6_char, Front, read_group, read_front, read_tail}
use bc.Network.Address.Ipv6.{IsGroup, Spells}

-- A segment of a name whose characters have been looked at.
abbrev pub IsClean : Bytes → Type 0
IsClean s = (all_of is_ipv6_char s ≡ true) × Lacks b':' s

is_ipv6_char-digit :
    (c : ℕ) → is_ipv6_char c ≡ true → (c == b':') ≡ false → (d : ℕ) × (digit_in 16 c ≡ some d)
unfolding digit_in
is_ipv6_char-digit c h e = elim (Option-cases (digit_in 16 c)) [
  | inl q ↦ absurd (ground arith)
  | inr found ↦ found
]

AreDigits-IsClean : (s : Bytes) → IsClean s → AreDigits 16 s
AreDigits-IsClean [] h = tt
AreDigits-IsClean (c ∷ s) h =
    (is_ipv6_char-digit c (ground arith) h.1.0, AreDigits-IsClean s (ground arith, h.1.1))

read_group-inv : (s : Bytes) (v : ℕ) → IsClean s → read_group s ≡ some v → IsGroup s v
unfolding read_group
read_group-inv s v clean h = elim (Bool-cases (ltb 4 (length s))) [
  | inl q ↦ absurd (ground arith)
  | inr q ↦
      let read : from_chars 16 65536 s ≡ some v = ground arith in
      record {
        numeral = (from_chars-eq-some 16 65536 s v (AreDigits-IsClean s clean) read).0;
        short = ground arith;
      }
]

-- Where the first loop stops: at the end, with all groups, or behind an empty segment.
abbrev pub Stops : List Bytes → Front → Type 0
Stops rest f =
    ((rest ≡ []) × (f.has_tail ≡ false))
    ⊎ (((length f.groups ≡ 8) × (f.has_tail ≡ false))
        ⊎ ((rest ≡ [] ∷ f.rest) × (f.has_tail ≡ true)))

abbrev pub HasRead : List ℕ → List Bytes → Front → Type 0
HasRead groups segments f =
    (ss rest : List Bytes) × (vs : List ℕ) × (Spells ss vs
      × ((segments ≡ ss ++ rest)
          × ((f.groups ≡ groups ++ vs) × ((length f.groups ≤ 8) × Stops rest f))))

HasRead-more :
    (groups : List ℕ) (s : Bytes) (v : ℕ) (segments : List Bytes) (f : Front)
    → IsGroup s v
    → HasRead (groups ++ v ∷ []) segments f
    → HasRead groups (s ∷ segments) f
HasRead-more groups s v segments f g (ss, rest, vs, (p, (cut, (all, (few, stops))))) =
    (s ∷ ss, rest, v ∷ vs, ((g, p), (rw cut refl, (all ∙ rw append_assoc, (few, stops)))))

HasRead-here :
    (groups : List ℕ) (rest : List Bytes) (f g : Front)
    → some g ≡ some f
    → g.groups ≡ groups
    → length groups ≤ 8
    → Stops rest g
    → HasRead groups rest f
HasRead-here groups rest f g h e few stops =
    let same : g ≡ f = cc in
    rw (← same) ([], rest, [], (tt, (refl, (e ∙ sym (append-nil groups), (rw e few, stops)))))

read_front-step :
    (groups : List ℕ) (s : Bytes) (segments : List Bytes) (f : Front)
    → IsClean s
    → length groups < 8
    → read_front groups (s ∷ segments) ≡ some f
    → ((v : ℕ)
        → read_front (groups ++ v ∷ []) segments ≡ some f
        → HasRead (groups ++ v ∷ []) segments f)
    → HasRead groups (s ∷ segments) f
unfolding read_front
read_front-step groups [] segments f clean less h on =
    let room : (length groups == 8) ≡ false = ground arith in
    HasRead-here groups ([] ∷ segments) f
      (record { groups = groups; has_tail = true; rest = segments }) (rw room at h) refl
      (omega arith) (inr (inr (refl, refl)))
read_front-step groups (c ∷ s) segments f clean less h on =
    let room : (length groups == 8) ≡ false = ground arith in
    elim (Option-cases (read_group (c ∷ s))) [
      | inl q ↦ cc (rw (room, q) at h)
      | inr (v, q) ↦
          HasRead-more groups (c ∷ s) v segments f (read_group-inv (c ∷ s) v clean q)
            (on v (rw (room, q) at h))
    ]

pub read_front-HasRead :
    (groups : List ℕ) (segments : List Bytes) (f : Front)
    → All IsClean segments
    → length groups ≤ 8
    → read_front groups segments ≡ some f
    → HasRead groups segments f
unfolding read_front
read_front-HasRead groups [] f clean few h =
    HasRead-here groups [] f (record { groups = groups; has_tail = false; rest = [] }) h refl few
      (inl (refl, refl))
read_front-HasRead groups (s ∷ segments) f clean few h = elim (Bool-cases (length groups == 8)) [
  | inl full ↦
      let eight : length groups ≡ 8 = ground arith in
      HasRead-here groups (s ∷ segments) f
        (record { groups = groups; has_tail = false; rest = s ∷ segments }) (rw full at h) refl few
        (inr (inl (eight, refl)))
  | inr room ↦
      read_front-step groups s segments f clean.0 (ground arith) (unfold read_front in h) (λ v e.
        read_front-HasRead (groups ++ v ∷ []) segments f clean.1
          (ground (arith, length-append groups (v ∷ []))) e)
]

-- The second loop ends with the segments or with eight groups.
abbrev pub HasTail : List ℕ → List Bytes → List ℕ → Type 0
HasTail tail segments us =
    (ss rest : List Bytes) × (vs : List ℕ) × (Spells ss vs
      × ((segments ≡ ss ++ rest) × ((us ≡ tail ++ vs) × ((rest ≡ []) ⊎ (length us ≡ 8)))))

HasTail-here :
    (tail us : List ℕ) (rest : List Bytes)
    → some tail ≡ some us
    → (rest ≡ []) ⊎ (length tail ≡ 8)
    → HasTail tail rest us
HasTail-here tail us rest h stops =
    let same : tail ≡ us = cc in
    rw (← same) ([], rest, [], (tt, (refl, (sym (append-nil tail), stops))))

pub read_tail-HasTail :
    (tail : List ℕ) (segments : List Bytes) (us : List ℕ)
    → All IsClean segments
    → read_tail tail segments ≡ some us
    → HasTail tail segments us
unfolding read_tail
read_tail-HasTail tail [] us clean h = HasTail-here tail us [] h (inl refl)
read_tail-HasTail tail ([] ∷ segments) us clean h = elim (Bool-cases (length tail == 8)) [
  | inl full ↦ HasTail-here tail us ([] ∷ segments) (rw full at h) (inr (ground arith))
  | inr room ↦ cc (rw room at h)
]
read_tail-HasTail tail ((c ∷ s) ∷ segments) us clean h = elim (Bool-cases (length tail == 8)) [
  | inl full ↦ HasTail-here tail us ((c ∷ s) ∷ segments) (rw full at h) (inr (ground arith))
  | inr room ↦ elim (Option-cases (read_group (c ∷ s))) [
    | inl q ↦ cc (rw (room, q) at h)
    | inr (v, q) ↦
        let (ss, rest, vs, (p, (cut, (all, stops)))) =
          read_tail-HasTail (tail ++ v ∷ []) segments us clean.1 (rw (room, q) at h) in
        (
          (c ∷ s) ∷ ss,
          rest,
          v ∷ vs,
          ((read_group-inv (c ∷ s) v clean.0 q, p), (rw cut refl, (all ∙ rw append_assoc, stops))),
        )
  ]
]
