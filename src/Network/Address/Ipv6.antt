-- ===== src/Network/Address/Ipv6.antt =====
-- `parse_ipv6` on names with no "::".
use mathlib.Core.List.{map, append_assoc, append-nil}
use native.Mathlib.Nat.{pow-suc, pow-le-pow_right}
use bc.Prelude.{
  ℕ, ◌+◌, ◌-◌, ◌*◌, ◌<◌, ◌≤◌, ◌≡◌, ◌≢◌, ◌^◌, Bool, true, false, ◌&&◌, ◌==◌, List, [], ◌∷◌, ◌++◌,
  some, Bytes, refl, ap, ◌∙◌, arith, all_of, All, length, length-append, replicate,
}
use bc.Network.Chars.{digit_in, join, Lacks}
use bc.Network.Chars.Split.{split-join}
use bc.Network.Chars.Digits.{Digits, stop, more, IsNumeral, from_chars-IsNumeral}
use bc.Network.Address.{
  swap16, is_ipv6_char, starts_with_colons, ends_with_colons, trim_colons, read_group, read_front,
  fill_front, to_network, parse_ipv6,
}

-- One to four hexadecimal digits, of the value `v`.
pub record IsGroup (s : Bytes) (v : ℕ) : Type 0 where
  pub numeral : IsNumeral 16 s v
  pub short : length s ≤ 4

-- The segments are the groups.
abbrev pub Spells : List Bytes → List ℕ → Type 0
Spells [] [] = Unit
Spells (s ∷ ss) (v ∷ vs) = IsGroup s v × Spells ss vs
Spells _ _ = ⊥

digit-lt : (c d : ℕ) → digit_in 16 c ≡ some d → d < 16
unfolding digit_in
digit-lt c d e = ground arith

Digits-lt : {acc v : ℕ} {s : Bytes} → Digits 16 acc s v → v < (acc + 1) * 16 ^ length s
Digits-lt stop = omega arith
Digits-lt {acc} {v} (more {c = c} {d = d} {cs = cs} e r) =
    let small = digit-lt c d e in
    let rest = Digits-lt r in
    let bigger : (acc * 16 + d + 1) * 16 ^ length cs ≤ ((acc + 1) * 16) * 16 ^ length cs =
      grind arith in
    omega (arith, ap (λ (t : ℕ). (acc + 1) * t) (pow-suc 16 (length cs)))

IsGroup-lt : {s : Bytes} {v : ℕ} → IsGroup s v → v < 65536
IsGroup-lt {s} {v} g =
    let below = Digits-lt (g.numeral).digits in
    omega (arith, pow-le-pow_right {n = 16} (omega arith) g.short)

pub read_group-IsGroup : {s : Bytes} {v : ℕ} → IsGroup s v → read_group s ≡ some v
unfolding read_group
read_group-IsGroup {s} {v} g =
    ground (arith, from_chars-IsNumeral 16 65536 g.numeral, IsGroup-lt g, g.short)

digit-is_ipv6_char :
    (c d : ℕ) → digit_in 16 c ≡ some d → (is_ipv6_char c ≡ true) × ((c == b':') ≡ false)
unfolding digit_in
digit-is_ipv6_char c d e = ground arith

pub Digits-chars :
    {acc v : ℕ} {s : Bytes} → Digits 16 acc s v → (all_of is_ipv6_char s ≡ true) × Lacks b':' s
Digits-chars stop = (refl, tt)
Digits-chars (more {c = c} {d = d} e r) =
    let (p, q) = digit-is_ipv6_char c d e in let (ps, qs) = Digits-chars r in (rw (p, ps), (q, qs))

read_front-cons :
    (groups : List ℕ) (s : Bytes) (ss : List Bytes) {v : ℕ}
    → length groups < 8
    → IsGroup s v
    → read_front groups (s ∷ ss) ≡ read_front (groups ++ v ∷ []) ss
unfolding read_front
read_front-cons groups [] ss h g = absurd ((g.numeral).ne_nil refl)
read_front-cons groups (c ∷ s) ss h g =
    let room : (length groups == 8) ≡ false = ground arith in
    rw (room, read_group-IsGroup g, read_front)

-- The first loop takes in groups as long as there is room.
pub read_front-Spells :
    (ss : List Bytes) (vs groups : List ℕ) (rest : List Bytes)
    → Spells ss vs
    → length groups + length vs ≤ 8
    → read_front groups (ss ++ rest) ≡ read_front (groups ++ vs) rest
read_front-Spells [] [] groups rest p h = rw append-nil
read_front-Spells [] (v ∷ vs) groups rest p h = absurd p
read_front-Spells (s ∷ ss) [] groups rest p h = absurd p
read_front-Spells (s ∷ ss) (v ∷ vs) groups rest p h =
    read_front-cons groups s (ss ++ rest) (omega arith) p.0
    ∙ read_front-Spells ss vs (groups ++ v ∷ []) rest p.1
        (omega (arith, length-append groups (v ∷ [])))
    ∙ rw append_assoc

-- The text of such segments: its characters, and its two ends.
pub all_of-append :
    (p : ℕ → Bool) (xs ys : Bytes) → all_of p (xs ++ ys) ≡ (all_of p xs && all_of p ys)
all_of-append p [] ys = refl
all_of-append p (x ∷ xs) ys = ground (arith, all_of-append p xs ys)

pub join-chars :
    (ss : List Bytes) (vs : List ℕ) → Spells ss vs → all_of is_ipv6_char (join b':' ss) ≡ true
join-chars [] vs p = refl
join-chars (s ∷ ss) [] p = absurd p
join-chars (s ∷ []) (v ∷ vs) p = (Digits-chars ((p.0).numeral).digits).0
join-chars (s ∷ t ∷ ss) (v ∷ vs) p =
    rw
      (
        all_of-append is_ipv6_char s (b':' ∷ join b':' (t ∷ ss)),
        (Digits-chars ((p.0).numeral).digits).0,
      )
      (join-chars (t ∷ ss) vs p.1)

pub Spells-Lacks : (ss : List Bytes) (vs : List ℕ) → Spells ss vs → All (Lacks b':') ss
Spells-Lacks [] vs p = tt
Spells-Lacks (s ∷ ss) [] p = absurd p
Spells-Lacks (s ∷ ss) (v ∷ vs) p = ((Digits-chars ((p.0).numeral).digits).1, Spells-Lacks ss vs p.1)

abbrev pub EndsOpen : Bytes → Type 0
EndsOpen [] = ⊥
EndsOpen (c ∷ []) = (c == b':') ≡ false
EndsOpen (c ∷ d ∷ cs) = EndsOpen (d ∷ cs)

pub ends-EndsOpen : (t : Bytes) → EndsOpen t → ends_with_colons t ≡ false
unfolding ends_with_colons
ends-EndsOpen [] h = absurd h
ends-EndsOpen (c ∷ []) h = refl
ends-EndsOpen (c ∷ d ∷ []) h = ground arith
ends-EndsOpen (c ∷ d ∷ e ∷ cs) h = ends-EndsOpen (d ∷ e ∷ cs) h

pub EndsOpen-cons : (c : ℕ) (t : Bytes) → EndsOpen t → EndsOpen (c ∷ t)
EndsOpen-cons c [] h = absurd h
EndsOpen-cons c (d ∷ t) h = h

pub EndsOpen-append : (s t : Bytes) → EndsOpen t → EndsOpen (s ++ t)
EndsOpen-append [] t h = h
EndsOpen-append (c ∷ s) t h = EndsOpen-cons c (s ++ t) (EndsOpen-append s t h)

EndsOpen-Lacks : (s : Bytes) → s ≢ [] → Lacks b':' s → EndsOpen s
EndsOpen-Lacks [] n l = absurd (n refl)
EndsOpen-Lacks (c ∷ []) n l = l.0
EndsOpen-Lacks (c ∷ d ∷ s) n l = EndsOpen-Lacks (d ∷ s) (λ e. cc) l.1

IsGroup-EndsOpen : {s : Bytes} {v : ℕ} → IsGroup s v → EndsOpen s
IsGroup-EndsOpen {s} g = EndsOpen-Lacks s (g.numeral).ne_nil (Digits-chars (g.numeral).digits).1

pub join-EndsOpen :
    (s : Bytes) (ss : List Bytes) (vs : List ℕ) → Spells (s ∷ ss) vs → EndsOpen (join b':' (s ∷ ss))
join-EndsOpen s ss [] p = absurd p
join-EndsOpen s [] (v ∷ vs) p = IsGroup-EndsOpen p.0
join-EndsOpen s (t ∷ ss) (v ∷ vs) p =
    EndsOpen-append s (b':' ∷ join b':' (t ∷ ss))
      (EndsOpen-cons b':' (join b':' (t ∷ ss)) (join-EndsOpen t ss vs p.1))

starts-cons : (c : ℕ) (t : Bytes) → (c == b':') ≡ false → starts_with_colons (c ∷ t) ≡ false
unfolding starts_with_colons
starts-cons c [] h = refl
starts-cons c (d ∷ t) h = rw h

pub starts-append : (s t : Bytes) → s ≢ [] → Lacks b':' s → starts_with_colons (s ++ t) ≡ false
starts-append [] t n l = absurd (n refl)
starts-append (c ∷ s) t n l = starts-cons c (s ++ t) l.0

join-head :
    (s : Bytes) (ss : List Bytes) (x : Bytes) → (y : Bytes) × (join b':' (s ∷ ss) ++ x ≡ s ++ y)
join-head s [] x = (x, refl)
join-head s (t ∷ ss) x =
    (b':' ∷ join b':' (t ∷ ss) ++ x, append_assoc s (b':' ∷ join b':' (t ∷ ss)) x)

pub join-starts :
    (s : Bytes) (ss : List Bytes) (vs : List ℕ) (x : Bytes)
    → Spells (s ∷ ss) vs
    → starts_with_colons (join b':' (s ∷ ss) ++ x) ≡ false
join-starts s ss [] x p = absurd p
join-starts s ss (v ∷ vs) x p =
    let (y, e) = join-head s ss x in
    ap starts_with_colons e
    ∙ starts-append s y ((p.0).numeral).ne_nil (Digits-chars ((p.0).numeral).digits).1

trim-join :
    (s : Bytes) (ss : List Bytes) (vs : List ℕ)
    → Spells (s ∷ ss) vs
    → trim_colons (join b':' (s ∷ ss)) ≡ join b':' (s ∷ ss)
unfolding trim_colons
trim-join s ss vs p =
    let starts = rw (append-nil (join b':' (s ∷ ss))) at (join-starts s ss vs [] p) in
    rw (starts, ends-EndsOpen (join b':' (s ∷ ss)) (join-EndsOpen s ss vs p))

pub EndsOpen-ne_nil : (t : Bytes) → EndsOpen t → t ≢ []
EndsOpen-ne_nil [] h e = h
EndsOpen-ne_nil (c ∷ t) h e = cc

read_front-all :
    (ss : List Bytes) (vs : List ℕ)
    → Spells ss vs
    → length vs ≤ 8
    → read_front [] ss ≡ some (record { groups = vs; has_tail = false; rest = [] })
unfolding read_front
read_front-all ss vs p h = rw (append-nil ss) at (read_front-Spells ss vs [] [] p (omega arith))

-- Up to eight groups with a colon between them are read as the first groups of an address, the
-- others being 0.
pub parse_ipv6_groups :
    (s : Bytes) (ss : List Bytes) (vs : List ℕ)
    → Spells (s ∷ ss) vs
    → length vs ≤ 8
    → parse_ipv6 (join b':' (s ∷ ss)) ≡ some (map swap16 (vs ++ replicate (8 - length vs) 0))
unfolding parse_ipv6 fill_front to_network
parse_ipv6_groups s ss vs p h =
    let cut =
      split-join b':' s ss (Spells-Lacks (s ∷ ss) vs p)
        (EndsOpen-ne_nil _ (join-EndsOpen s ss vs p)) in
    rw (join-chars (s ∷ ss) vs p, trim-join s ss vs p, cut, read_front-all (s ∷ ss) vs p h)
