-- ===== src/Network/Address/Compressed.antt =====
-- `parse_ipv6` on names with "::" at either end, and on all names with one "::".
use mathlib.Core.List.{map}
use bc.Prelude.{
  ℕ, ◌+◌, ◌-◌, ◌<◌, ◌≡◌, ◌≢◌, true, false, List, [], ◌∷◌, ◌++◌, leb, refl, some, Bytes, ◌∙◌, sym,
  ap, arith, all_of, All, length, replicate,
}
use bc.Network.Chars.{join, Lacks}
use bc.Network.Chars.Split.{join-append, split-join}
use bc.Network.Address.{
  swap16, is_ipv6_char, starts_with_colons, ends_with_colons, drop_first, drop_last, trim_colons,
  read_tail, place_tail, fill_front, to_network, parse_ipv6,
}
use bc.Network.Address.DoubleColon.{read_front-gapped, read_tail-Spells, parse_ipv6-gapped}
use bc.Network.Address.Ipv6.{
  Spells, all_of-append, Digits-chars, Spells-Lacks, join-starts, join-chars,
}

-- A name that begins with "::".
parse_ipv6-leading :
    (t : Bytes) (ts : List Bytes) (us : List ℕ)
    → Spells (t ∷ ts) us
    → length us < 8
    → parse_ipv6 (b':' ∷ b':' ∷ join b':' (t ∷ ts))
      ≡ some (map swap16 (replicate (8 - (0 + length us)) 0 ++ us))
unfolding parse_ipv6 fill_front to_network place_tail trim_colons starts_with_colons drop_first
parse_ipv6-leading t ts us q h =
    let cut = split-join b':' [] (t ∷ ts) (tt, Spells-Lacks (t ∷ ts) us q) (λ e. cc) in
    let few : leb 8 (0 + length us) ≡ false = ground arith in
    rw
      (
        join-chars (t ∷ ts) us q,
        cut,
        read_front-gapped [] (t ∷ ts) [] tt (omega arith),
        read_tail-Spells (t ∷ ts) us [] q (omega arith),
        few,
      )
      refl

-- The segments of a name that ends with "::", less one colon.
abbrev pub open_ended : List Bytes → List Bytes
open_ended ss = ss ++ [] ∷ []

open_ended-Lacks : (ss : List Bytes) (vs : List ℕ) → Spells ss vs → All (Lacks b':') (open_ended ss)
open_ended-Lacks [] vs p = (tt, tt)
open_ended-Lacks (s ∷ ss) [] p = absurd p
open_ended-Lacks (s ∷ ss) (v ∷ vs) p =
    ((Digits-chars ((p.0).numeral).digits).1, open_ended-Lacks ss vs p.1)

pub open-ne_nil : (x : Bytes) → x ++ b':' ∷ [] ≢ []
open-ne_nil [] e = cc
open-ne_nil (c ∷ x) e = cc

ends-colons : (x : Bytes) → ends_with_colons (x ++ b':' ∷ b':' ∷ []) ≡ true
unfolding ends_with_colons
ends-colons [] = refl
ends-colons (c ∷ []) = refl
ends-colons (c ∷ d ∷ []) = refl
ends-colons (c ∷ d ∷ e ∷ x) = ends-colons (d ∷ e ∷ x)

drop_last-colons : (x : Bytes) → drop_last (x ++ b':' ∷ b':' ∷ []) ≡ x ++ b':' ∷ []
unfolding drop_last
drop_last-colons [] = refl
drop_last-colons (c ∷ []) = refl
drop_last-colons (c ∷ d ∷ x) = ap (λ y. c ∷ y) (drop_last-colons (d ∷ x))

pub trim-trailing :
    (s : Bytes) (ss : List Bytes) (vs : List ℕ)
    → Spells (s ∷ ss) vs
    → trim_colons (join b':' (s ∷ ss) ++ b':' ∷ b':' ∷ []) ≡ join b':' (open_ended (s ∷ ss))
unfolding trim_colons
trim-trailing s ss vs p =
    let x = join b':' (s ∷ ss) in
    rw (join-starts s ss vs (b':' ∷ b':' ∷ []) p, ends-colons x)
      (drop_last-colons x ∙ sym (join-append b':' s ss [] []))

parse_ipv6-trailing :
    (s : Bytes) (ss : List Bytes) (vs : List ℕ)
    → Spells (s ∷ ss) vs
    → length vs < 8
    → parse_ipv6 (join b':' (s ∷ ss) ++ b':' ∷ b':' ∷ [])
      ≡ some (map swap16 (vs ++ replicate (8 - (length vs + 0)) 0 ++ []))
unfolding parse_ipv6 fill_front to_network place_tail read_tail
parse_ipv6-trailing s ss [] p h = absurd p
parse_ipv6-trailing s ss (v ∷ vs) p h =
    let x = join b':' (s ∷ ss) in
    let chars : all_of is_ipv6_char (x ++ b':' ∷ b':' ∷ []) ≡ true =
      rw (all_of-append is_ipv6_char x (b':' ∷ b':' ∷ []), join-chars (s ∷ ss) (v ∷ vs) p) refl in
    let some_left : join b':' (open_ended (s ∷ ss)) ≢ [] =
      λ e. open-ne_nil x (sym (join-append b':' s ss [] []) ∙ e) in
    let cut = split-join b':' s (open_ended ss) (open_ended-Lacks (s ∷ ss) (v ∷ vs) p) some_left in
    let few : leb 8 (length (v ∷ vs) + 0) ≡ false = ground arith in
    rw (chars, trim-trailing s ss (v ∷ vs) p, cut, read_front-gapped (s ∷ ss) [] (v ∷ vs) p h, few)
      refl

-- Groups on one or both sides of a double colon, fewer than eight together, are read as the first
-- and the last groups of an address, those between them being 0.
pub parse_ipv6-compressed :
    (ss ts : List Bytes) (vs us : List ℕ)
    → Spells ss vs
    → Spells ts us
    → 0 < length vs + length us
    → length vs + length us < 8
    → parse_ipv6 (join b':' ss ++ b':' ∷ b':' ∷ join b':' ts)
      ≡ some (map swap16 (vs ++ replicate (8 - (length vs + length us)) 0 ++ us))
parse_ipv6-compressed [] [] [] [] p q some_group few = absurd (omega arith)
parse_ipv6-compressed [] [] [] (u ∷ us) p q some_group few = absurd q
parse_ipv6-compressed [] ts (v ∷ vs) us p q some_group few = absurd p
parse_ipv6-compressed [] (t ∷ ts) [] us p q some_group few =
    parse_ipv6-leading t ts us q (omega arith)
parse_ipv6-compressed (s ∷ ss) [] vs [] p q some_group few =
    parse_ipv6-trailing s ss vs p (omega arith)
parse_ipv6-compressed (s ∷ ss) [] vs (u ∷ us) p q some_group few = absurd q
parse_ipv6-compressed (s ∷ ss) (t ∷ ts) vs us p q some_group few =
    rw (← join-append b':' s ss [] (t ∷ ts)) (parse_ipv6-gapped s ss t ts vs us p q few)
