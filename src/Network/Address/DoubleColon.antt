-- ===== src/Network/Address/DoubleColon.antt =====
-- `parse_ipv6` on names with "::" between groups.
use mathlib.Core.List.{map, append_assoc, append-nil}
use bc.Prelude.{
  ℕ, ◌+◌, ◌-◌, ◌<◌, ◌≤◌, ◌≡◌, true, false, ◌==◌, List, [], ◌∷◌, ◌++◌, leb, refl, some, Bytes, ◌∙◌,
  arith, all_of, All, length, length-append, replicate,
}
use bc.Network.Chars.{join, Lacks}
use bc.Network.Chars.Split.{split-join}
use bc.Network.Address.{
  swap16, is_ipv6_char, starts_with_colons, trim_colons, read_front, read_tail, place_tail,
  fill_front, to_network, parse_ipv6,
}
use bc.Network.Address.Ipv6.{
  IsGroup, Spells, read_group-IsGroup, read_front-Spells, all_of-append, Digits-chars, Spells-Lacks,
  EndsOpen, ends-EndsOpen, EndsOpen-cons, EndsOpen-append, join-EndsOpen, starts-append,
  EndsOpen-ne_nil, join-chars,
}

-- The segments of a name: groups, an empty one for the double colon, and at least one group more.
abbrev pub gapped : List Bytes → Bytes → List Bytes → List Bytes
gapped ss t ts = ss ++ [] ∷ t ∷ ts

gapped-Lacks :
    (ss : List Bytes) (t : Bytes) (ts : List Bytes) (vs us : List ℕ)
    → Spells ss vs
    → Spells (t ∷ ts) us
    → All (Lacks b':') (gapped ss t ts)
gapped-Lacks [] t ts vs us p q = (tt, Spells-Lacks (t ∷ ts) us q)
gapped-Lacks (s ∷ ss) t ts [] us p q = absurd p
gapped-Lacks (s ∷ ss) t ts (v ∷ vs) us p q =
    ((Digits-chars ((p.0).numeral).digits).1, gapped-Lacks ss t ts vs us p.1 q)

join-cons :
    (x : Bytes) (ss : List Bytes) (t : Bytes) (ts : List Bytes)
    → join b':' (x ∷ gapped ss t ts) ≡ x ++ b':' ∷ join b':' (gapped ss t ts)
join-cons x [] t ts = refl
join-cons x (s ∷ ss) t ts = refl

gapped-chars :
    (ss : List Bytes) (t : Bytes) (ts : List Bytes) (vs us : List ℕ)
    → Spells ss vs
    → Spells (t ∷ ts) us
    → all_of is_ipv6_char (join b':' (gapped ss t ts)) ≡ true
gapped-chars [] t ts vs us p q = join-chars (t ∷ ts) us q
gapped-chars (s ∷ ss) t ts [] us p q = absurd p
gapped-chars (s ∷ ss) t ts (v ∷ vs) us p q =
    rw
      (
        join-cons s ss t ts,
        all_of-append is_ipv6_char s (b':' ∷ join b':' (gapped ss t ts)),
        (Digits-chars ((p.0).numeral).digits).0,
      )
      (gapped-chars ss t ts vs us p.1 q)

pub gapped-EndsOpen :
    (ss : List Bytes) (t : Bytes) (ts : List Bytes) (us : List ℕ)
    → Spells (t ∷ ts) us
    → EndsOpen (join b':' (gapped ss t ts))
gapped-EndsOpen [] t ts us q = EndsOpen-cons b':' (join b':' (t ∷ ts)) (join-EndsOpen t ts us q)
gapped-EndsOpen (s ∷ ss) t ts us q = rw (join-cons s ss t ts) (
    EndsOpen-append s (b':' ∷ join b':' (gapped ss t ts))
      (EndsOpen-cons b':' (join b':' (gapped ss t ts)) (gapped-EndsOpen ss t ts us q)))

gapped-trim :
    (s : Bytes) (ss : List Bytes) (t : Bytes) (ts : List Bytes) (v : ℕ) (us : List ℕ)
    → IsGroup s v
    → Spells (t ∷ ts) us
    → trim_colons (join b':' (gapped (s ∷ ss) t ts)) ≡ join b':' (gapped (s ∷ ss) t ts)
unfolding trim_colons
gapped-trim s ss t ts v us p q =
    let starts : starts_with_colons (join b':' (gapped (s ∷ ss) t ts)) ≡ false =
      rw (join-cons s ss t ts) (
        starts-append s (b':' ∷ join b':' (gapped ss t ts)) (p.numeral).ne_nil
          (Digits-chars (p.numeral).digits).1) in
    rw (
      starts,
      ends-EndsOpen (join b':' (gapped (s ∷ ss) t ts)) (gapped-EndsOpen (s ∷ ss) t ts us q),
    )

read_tail-cons :
    (tail : List ℕ) (s : Bytes) (ss : List Bytes) {v : ℕ}
    → length tail < 8
    → IsGroup s v
    → read_tail tail (s ∷ ss) ≡ read_tail (tail ++ v ∷ []) ss
unfolding read_tail
read_tail-cons tail [] ss h g = absurd ((g.numeral).ne_nil refl)
read_tail-cons tail (c ∷ s) ss h g =
    let room : (length tail == 8) ≡ false = ground arith in
    rw (room, read_group-IsGroup g, read_tail)

-- The second loop takes in the groups behind the double colon.
pub read_tail-Spells :
    (ss : List Bytes) (vs tail : List ℕ)
    → Spells ss vs
    → length tail + length vs ≤ 8
    → read_tail tail ss ≡ some (tail ++ vs)
unfolding read_tail
read_tail-Spells [] [] tail p h = rw append-nil
read_tail-Spells [] (v ∷ vs) tail p h = absurd p
read_tail-Spells (s ∷ ss) [] tail p h = absurd p
read_tail-Spells (s ∷ ss) (v ∷ vs) tail p h =
    read_tail-cons tail s ss (omega arith) p.0
    ∙ read_tail-Spells ss vs (tail ++ v ∷ []) p.1 (omega (arith, length-append tail (v ∷ [])))
    ∙ rw append_assoc

pub read_front-gapped :
    (ss rest : List Bytes) (vs : List ℕ)
    → Spells ss vs
    → length vs < 8
    → read_front [] (ss ++ [] ∷ rest) ≡ some (record { groups = vs; has_tail = true; rest = rest })
unfolding read_front
read_front-gapped ss rest vs p h =
    let room : (length vs == 8) ≡ false = ground arith in
    read_front-Spells ss vs [] ([] ∷ rest) p (omega arith) ∙ rw room refl

-- Groups on both sides of a double colon, fewer than eight together, are read as the first and the
-- last groups of an address, those between them being 0.
pub parse_ipv6-gapped :
    (s : Bytes) (ss : List Bytes) (t : Bytes) (ts : List Bytes) (vs us : List ℕ)
    → Spells (s ∷ ss) vs
    → Spells (t ∷ ts) us
    → length vs + length us < 8
    → parse_ipv6 (join b':' (gapped (s ∷ ss) t ts))
      ≡ some (map swap16 (vs ++ replicate (8 - (length vs + length us)) 0 ++ us))
unfolding parse_ipv6 fill_front to_network place_tail
parse_ipv6-gapped s ss t ts [] us p q h = absurd p
parse_ipv6-gapped s ss t ts (v ∷ vs) us p q h =
    let name = gapped (s ∷ ss) t ts in
    let cut =
      split-join b':' s (gapped ss t ts) (gapped-Lacks (s ∷ ss) t ts (v ∷ vs) us p q)
        (EndsOpen-ne_nil _ (gapped-EndsOpen (s ∷ ss) t ts us q)) in
    let few : leb 8 (length (v ∷ vs) + length us) ≡ false = ground arith in
    rw
      (
        gapped-chars (s ∷ ss) t ts (v ∷ vs) us p q,
        gapped-trim s ss t ts v us p.0 q,
        cut,
        read_front-gapped (s ∷ ss) (t ∷ ts) (v ∷ vs) p (omega arith),
        read_tail-Spells (t ∷ ts) us [] q (omega arith),
        few,
      )
      refl
