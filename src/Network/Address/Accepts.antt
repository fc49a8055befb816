-- ===== src/Network/Address/Accepts.antt =====
-- A name is what `parse_ipv6` reads, and the two together.
use mathlib.Core.List.{map, append-nil}
use bc.Prelude.{
  ℕ, ◌+◌, ◌<◌, ◌≡◌, ◌↔◌, ◌==◌, ◌⊎◌, inl, inr, true, false, List, [], ◌∷◌, ◌++◌, some, Bytes, refl,
  sym, ap, ◌∙◌, arith, all_of, length, Bool-cases,
}
use bc.Network.Chars.{join, split, split_from}
use bc.Network.Chars.Split.{join-append, split-join, split-more}
use bc.Network.Address.{
  swap16, is_ipv6_char, starts_with_colons, ends_with_colons, drop_first, drop_last, trim_colons,
  read_front, fill_front, to_network, parse_ipv6,
}
use bc.Network.Address.Ipv6.{
  Spells, all_of-append, EndsOpen, EndsOpen-cons, ends-EndsOpen, EndsOpen-ne_nil, join-chars,
  join-starts, join-EndsOpen, Spells-Lacks, read_front-Spells, parse_ipv6_groups,
}
use bc.Network.Address.Compressed.{trim-trailing, parse_ipv6-compressed}
use bc.Network.Address.Names.{IsGap, Names, filled, overlong, shortened}
use bc.Network.Address.Trim.{BeginsOpen, join-BeginsOpen}
use bc.Network.Address.Reads.{parse_ipv6-Names}

-- Only the characters of a name and what is left of it by `trim_colons` count.
parse_ipv6-trim :
    (name other : Bytes)
    → all_of is_ipv6_char name ≡ all_of is_ipv6_char other
    → trim_colons name ≡ trim_colons other
    → parse_ipv6 name ≡ parse_ipv6 other
unfolding parse_ipv6
parse_ipv6-trim name other chars trim = rw (chars, trim) refl

-- The last character of a text with more behind it is the last of what is behind it.
drop_last-append : (t : Bytes) (c : ℕ) (u : Bytes) → drop_last (t ++ c ∷ u) ≡ t ++ drop_last (c ∷ u)
unfolding drop_last
drop_last-append [] c u = refl
drop_last-append (d ∷ []) c u = refl
drop_last-append (d ∷ e ∷ t) c u = ap (λ x. d ∷ x) (drop_last-append (e ∷ t) c u)

-- What is left of a name behind its groups: nothing, or a colon and more.
abbrev Behind : Bytes → Type 0
Behind rest = (rest ≡ []) ⊎ ((more : Bytes) × (rest ≡ b':' ∷ more))

drop_last-Behind : (more : Bytes) → Behind (drop_last (b':' ∷ more))
unfolding drop_last
drop_last-Behind [] = inl refl
drop_last-Behind (c ∷ more) = inr (drop_last (c ∷ more), refl)

trim-more :
    (s : Bytes) (ss : List Bytes) (vs : List ℕ) (more : Bytes)
    → Spells (s ∷ ss) vs
    → (rest : Bytes) × ((trim_colons (join b':' (s ∷ ss) ++ b':' ∷ more)
          ≡ join b':' (s ∷ ss) ++ rest)
        × Behind rest)
unfolding trim_colons
trim-more s ss vs more p =
    let t = join b':' (s ∷ ss) in
    let starts = join-starts s ss vs (b':' ∷ more) p in
    elim (Bool-cases (ends_with_colons (t ++ b':' ∷ more))) [
      | inl e ↦ (
        drop_last (b':' ∷ more),
        (rw (starts, e) (drop_last-append t b':' more), drop_last-Behind more),
      )
      | inr e ↦ (b':' ∷ more, (rw (starts, e) refl, inr (more, refl)))
    ]

split-Behind :
    (s : Bytes) (ss : List Bytes) (vs : List ℕ) (rest : Bytes)
    → Spells (s ∷ ss) vs
    → Behind rest
    → (segments : List Bytes) × (split b':' (join b':' (s ∷ ss) ++ rest) ≡ (s ∷ ss) ++ segments)
split-Behind s ss vs rest p (inl e) =
    let cut =
      split-join b':' s ss (Spells-Lacks (s ∷ ss) vs p)
        (EndsOpen-ne_nil _ (join-EndsOpen s ss vs p)) in
    ([], rw (e, append-nil (join b':' (s ∷ ss)), append-nil (s ∷ ss)) cut)
split-Behind s ss vs rest p (inr (more, e)) =
    (split_from b':' [] more, rw e (split-more b':' s ss more (Spells-Lacks (s ∷ ss) vs p)))

-- The first loop leaves at eight groups, whatever segments there are behind them.
read_front-full :
    (vs : List ℕ) (segments : List Bytes)
    → length vs ≡ 8
    → (rest : List Bytes) × (read_front vs segments
        ≡ some (record { groups = vs; has_tail = false; rest = rest }))
unfolding read_front
read_front-full vs [] eight = ([], refl)
read_front-full vs (s ∷ ss) eight = (s ∷ ss, rw eight refl)

parse_ipv6-overlong :
    (s : Bytes) (ss : List Bytes) (vs : List ℕ) (more : Bytes)
    → Spells (s ∷ ss) vs
    → length vs ≡ 8
    → all_of is_ipv6_char more ≡ true
    → parse_ipv6 (join b':' (s ∷ ss) ++ b':' ∷ more) ≡ some (map swap16 vs)
unfolding parse_ipv6 fill_front to_network
parse_ipv6-overlong s ss vs more p eight chars =
    let all : all_of is_ipv6_char (join b':' (s ∷ ss) ++ b':' ∷ more) ≡ true =
      rw
        (
          all_of-append is_ipv6_char (join b':' (s ∷ ss)) (b':' ∷ more),
          join-chars (s ∷ ss) vs p,
          chars,
        )
        refl in
    let (rest, (trim, behind)) = trim-more s ss vs more p in
    let (segments, cut) = split-Behind s ss vs rest p behind in
    let (left, full) = read_front-full vs segments eight in
    let read = read_front-Spells (s ∷ ss) vs [] segments p (omega arith) ∙ full in
    rw (all, trim, cut, read, eight, append-nil) refl

starts-colon : (t : Bytes) → BeginsOpen t → starts_with_colons (b':' ∷ t) ≡ false
unfolding starts_with_colons
starts-colon [] begins = refl
starts-colon (c ∷ t) begins = elim (Bool-cases (c == b':')) [
  | inl e ↦ let same : c ≡ b':' = ground arith in absurd (begins t (rw same refl))
  | inr e ↦ rw e refl
]

ends-colon : (t : Bytes) → EndsOpen t → ends_with_colons (t ++ b':' ∷ []) ≡ false
unfolding ends_with_colons
ends-colon [] closed = absurd closed
ends-colon (c ∷ []) closed = rw closed refl
ends-colon (c ∷ d ∷ []) closed = ends-colon (d ∷ []) closed
ends-colon (c ∷ d ∷ e ∷ t) closed = ends-colon (d ∷ e ∷ t) closed

-- One colon at an end is read as two.
parse_ipv6-colon_first :
    (t : Bytes) (ts : List Bytes) (us : List ℕ)
    → Spells (t ∷ ts) us
    → parse_ipv6 (b':' ∷ join b':' (t ∷ ts)) ≡ parse_ipv6 (b':' ∷ b':' ∷ join b':' (t ∷ ts))
unfolding trim_colons starts_with_colons drop_first
parse_ipv6-colon_first t ts us q =
    let text = join b':' (t ∷ ts) in
    let closed : EndsOpen (b':' ∷ text) = EndsOpen-cons b':' text (join-EndsOpen t ts us q) in
    parse_ipv6-trim (b':' ∷ text) (b':' ∷ b':' ∷ text) refl (
      rw (starts-colon text (join-BeginsOpen (t ∷ ts) us q), ends-EndsOpen (b':' ∷ text) closed)
        refl)

parse_ipv6-colon_last :
    (s : Bytes) (ss : List Bytes) (vs : List ℕ)
    → Spells (s ∷ ss) vs
    → parse_ipv6 (join b':' (s ∷ ss) ++ b':' ∷ [])
      ≡ parse_ipv6 (join b':' (s ∷ ss) ++ b':' ∷ b':' ∷ [])
unfolding trim_colons
parse_ipv6-colon_last s ss vs p =
    let text = join b':' (s ∷ ss) in
    let trim : trim_colons (text ++ b':' ∷ []) ≡ text ++ b':' ∷ [] =
      rw (join-starts s ss vs (b':' ∷ []) p, ends-colon text (join-EndsOpen s ss vs p)) refl in
    parse_ipv6-trim (text ++ b':' ∷ []) (text ++ b':' ∷ b':' ∷ [])
      (rw
        (
          all_of-append is_ipv6_char text (b':' ∷ []),
          all_of-append is_ipv6_char text (b':' ∷ b':' ∷ []),
        )
        refl)
      (trim ∙ sym (trim-trailing s ss vs p ∙ join-append b':' s ss [] []))

parse_ipv6-gap :
    (ss ts : List Bytes) (vs us : List ℕ) (gap : Bytes)
    → Spells ss vs
    → Spells ts us
    → 0 < length vs + length us
    → IsGap ss ts gap
    → parse_ipv6 (join b':' ss ++ (gap ++ join b':' ts))
      ≡ parse_ipv6 (join b':' ss ++ b':' ∷ b':' ∷ join b':' ts)
parse_ipv6-gap ss ts vs us gap p q some_group (inl e) = rw e refl
parse_ipv6-gap [] [] [] [] gap p q some_group (inr (e, at_end)) = absurd (omega arith)
parse_ipv6-gap [] [] [] (u ∷ us) gap p q some_group (inr (e, at_end)) = absurd q
parse_ipv6-gap [] ts (v ∷ vs) us gap p q some_group (inr (e, at_end)) = absurd p
parse_ipv6-gap [] (t ∷ ts) [] us gap p q some_group (inr (e, at_end)) =
    rw e (parse_ipv6-colon_first t ts us q)
parse_ipv6-gap (s ∷ ss) [] vs us gap p q some_group (inr (e, at_end)) =
    rw e (parse_ipv6-colon_last s ss vs p)
parse_ipv6-gap (s ∷ ss) (t ∷ ts) vs us gap p q some_group (inr (e, inl at_end)) = cc
parse_ipv6-gap (s ∷ ss) (t ∷ ts) vs us gap p q some_group (inr (e, inr at_end)) = cc

Names-parse_ipv6 :
    (name : Bytes) (groups : List ℕ)
    → Names name groups
    → parse_ipv6 name ≡ some (map swap16 groups)
unfolding parse_ipv6 read_front fill_front to_network split trim_colons starts_with_colons
    ends_with_colons
Names-parse_ipv6 name groups (filled [] [] p few e all) = rw (e, all) refl
Names-parse_ipv6 name groups (filled [] (v ∷ vs) p few e all) = absurd p
Names-parse_ipv6 name groups (filled (s ∷ ss) vs p few e all) =
    rw (e, all) (parse_ipv6_groups s ss vs p few)
Names-parse_ipv6 name groups (overlong [] [] more p eight chars e all) = absurd (omega arith)
Names-parse_ipv6 name groups (overlong [] (v ∷ vs) more p eight chars e all) = absurd p
Names-parse_ipv6 name groups (overlong (s ∷ ss) vs more p eight chars e all) =
    rw (e, all) (parse_ipv6-overlong s ss vs more p eight chars)
Names-parse_ipv6 name groups (shortened ss ts vs us gap p q some_group few is_gap e all) =
    rw (e, all)
      (parse_ipv6-gap ss ts vs us gap p q some_group is_gap
        ∙ parse_ipv6-compressed ss ts vs us p q some_group few)

-- `parse_ipv6` returns an address just for the names of IPv6 addresses in the form of `Names`, with
-- their groups in network order. Those are none to eight groups of one to four hexadecimal digits with
-- a colon between them, the missing groups being 0; eight groups and a colon, with any characters
-- of an address behind them; and one to seven groups of which some stand in front of a double colon
-- and the others behind it, the missing groups between them being 0, where one colon does for two
-- at either end of the name.
pub parse_ipv6_iff :
    (name : Bytes) (addr : List ℕ)
    → (parse_ipv6 name ≡ some addr)
      ↔ ((groups : List ℕ) × (Names name groups × (addr ≡ map swap16 groups)))
parse_ipv6_iff name addr = (
  parse_ipv6-Names name addr,
  λ (groups, (named, e)). Names-parse_ipv6 name groups named ∙ ap some (sym e),
)
