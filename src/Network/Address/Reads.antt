-- ===== src/Network/Address/Reads.antt =====
-- What `parse_ipv6` reads is a name.
use mathlib.Core.List.{map, append_assoc, append-nil}
use bc.Prelude.{
  ℕ, ◌+◌, ◌-◌, ◌<◌, ◌≤◌, ◌≡◌, inl, inr, true, ◌&&◌, List, [], ◌∷◌, ◌++◌, some, Bytes, refl, sym, ap,
  ◌∙◌, arith, all_of, All, length, replicate, Bool-cases, Option-cases,
}
use bc.Network.Chars.{join, Lacks, split}
use bc.Network.Chars.Split.{join-append, join-split, split-Lacks}
use bc.Network.Address.{
  swap16, is_ipv6_char, trim_colons, read_front, fill_front, to_network, parse_ipv6,
}
use bc.Network.Address.Ipv6.{Spells, all_of-append, EndsOpen-cons, join-EndsOpen}
use bc.Network.Address.DoubleColon.{gapped-EndsOpen}
use bc.Network.Address.Segments.{IsClean, read_front-HasRead}
use bc.Network.Address.Names.{
  Names, filled, overlong, shortened, Layout, whole, past, parted, fill_front-Layout,
}
use bc.Network.Address.Trim.{
  Trimmed, trim_colons-Trimmed, all_of-Trimmed, join-ne-cons, EndsOpen-ClosesOpen, join-BeginsOpen,
  join-ClosesOpen, untrimmed,
}

whole-Names :
    (name t : Bytes) (ss : List Bytes) (vs groups : List ℕ)
    → Spells ss vs
    → length vs ≤ 8
    → groups ≡ vs ++ replicate (8 - length vs) 0
    → t ≡ join b':' ss
    → Trimmed name t
    → Names name groups
whole-Names name t ss vs groups p few all e trim =
    filled ss vs p few
      (untrimmed name (join b':' ss) (rw e at trim) (join-BeginsOpen ss vs p)
        (join-ClosesOpen ss vs p))
      all

-- A name that goes on behind its eight groups.
overlong-Names :
    (name : Bytes) (s : Bytes) (ss : List Bytes) (vs groups : List ℕ) (more : Bytes)
    → all_of is_ipv6_char name ≡ true
    → Spells (s ∷ ss) vs
    → length vs ≡ 8
    → groups ≡ vs
    → name ≡ join b':' (s ∷ ss) ++ b':' ∷ more
    → Names name groups
overlong-Names name s ss vs groups more chars p eight all e =
    let both : (all_of is_ipv6_char (join b':' (s ∷ ss)) && all_of is_ipv6_char more) ≡ true =
      sym (all_of-append is_ipv6_char (join b':' (s ∷ ss)) (b':' ∷ more)) ∙ rw e at chars in
    overlong (s ∷ ss) vs more p eight (ground arith) e all

past-Names :
    (name t : Bytes) (ss rest : List Bytes) (vs groups : List ℕ)
    → all_of is_ipv6_char name ≡ true
    → Spells ss vs
    → length vs ≡ 8
    → groups ≡ vs
    → t ≡ join b':' (ss ++ rest)
    → Trimmed name t
    → Names name groups
past-Names name t [] rest [] groups chars p eight all e trim = absurd (omega arith)
past-Names name t [] rest (v ∷ vs) groups chars p eight all e trim = absurd p
past-Names name t (s ∷ ss) [] vs groups chars p eight all e trim =
    whole-Names name t (s ∷ ss) vs groups p (omega arith) (all ∙ rw (eight, append-nil vs) refl)
      (e ∙ ap (join b':') (append-nil (s ∷ ss))) trim
past-Names name t (s ∷ ss) (r ∷ rest) vs groups chars p eight all e (inl (x, (_, e'))) = absurd (
    join-ne-cons s ss vs (b':' ∷ join b':' (r ∷ rest)) x p
      (sym (join-append b':' s ss r rest) ∙ sym e ∙ e'))
past-Names name t (s ∷ ss) (r ∷ rest) vs groups chars p eight all e (inr (inl (x, (is, e')))) =
    let text = join b':' (s ∷ ss) in
    let more = join b':' (r ∷ rest) in
    let long : x ++ b':' ∷ [] ≡ text ++ b':' ∷ more = sym e' ∙ e ∙ join-append b':' s ss r rest in
    overlong-Names name s ss vs groups (more ++ b':' ∷ []) chars p eight all (
      is
      ∙ sym (append_assoc x (b':' ∷ []) (b':' ∷ []))
      ∙ ap (λ y. y ++ b':' ∷ []) long
      ∙ append_assoc text (b':' ∷ more) (b':' ∷ []))
past-Names name t (s ∷ ss) (r ∷ rest) vs groups chars p eight all e (inr (inr same)) =
    overlong-Names name s ss vs groups (join b':' (r ∷ rest)) chars p eight all
      (sym same ∙ e ∙ join-append b':' s ss r rest)

parted-Names :
    (name t : Bytes) (ss ts : List Bytes) (vs us groups : List ℕ)
    → Spells ss vs
    → Spells ts us
    → 0 < length vs + length us
    → length vs + length us < 8
    → groups ≡ vs ++ replicate (8 - (length vs + length us)) 0 ++ us
    → t ≡ join b':' (ss ++ [] ∷ ts)
    → Trimmed name t
    → Names name groups
parted-Names name t [] [] [] [] groups p q some_group few all e trim = absurd (omega arith)
parted-Names name t [] [] [] (u ∷ us) groups p q some_group few all e trim = absurd q
parted-Names name t [] ts (v ∷ vs) us groups p q some_group few all e trim = absurd p
parted-Names name t [] (r ∷ ts) [] us groups p q some_group few all e (inl (x, (is, e'))) =
    let same : b':' ∷ x ≡ b':' ∷ join b':' (r ∷ ts) = sym e' ∙ e in
    shortened [] (r ∷ ts) [] us (b':' ∷ b':' ∷ []) p q some_group few (inl refl)
      (is ∙ ap (λ y. b':' ∷ y) same) all
parted-Names name t [] (r ∷ ts) [] us groups p q some_group few all e (inr (inl (x, (is, e')))) =
    absurd (
      EndsOpen-ClosesOpen (b':' ∷ join b':' (r ∷ ts))
        (EndsOpen-cons b':' (join b':' (r ∷ ts)) (join-EndsOpen r ts us q)) x (sym e ∙ e'))
parted-Names name t [] (r ∷ ts) [] us groups p q some_group few all e (inr (inr same)) =
    shortened [] (r ∷ ts) [] us (b':' ∷ []) p q some_group few (inr (refl, inl refl)) (sym same ∙ e)
      all
parted-Names name t (s ∷ ss) [] vs (u ∷ us) groups p q some_group few all e trim = absurd q
parted-Names name t (s ∷ ss) [] vs [] groups p q some_group few all e (inl (x, (is, e'))) =
    absurd (join-ne-cons s ss vs (b':' ∷ []) x p (sym (join-append b':' s ss [] []) ∙ sym e ∙ e'))
parted-Names name t (s ∷ ss) [] vs [] groups p q some_group few all e (inr (inl (x, (is, e')))) =
    let text = join b':' (s ∷ ss) in
    let short : x ++ b':' ∷ [] ≡ text ++ b':' ∷ [] = sym e' ∙ e ∙ join-append b':' s ss [] [] in
    shortened (s ∷ ss) [] vs [] (b':' ∷ b':' ∷ []) p q some_group few (inl refl)
      (is
        ∙ sym (append_assoc x (b':' ∷ []) (b':' ∷ []))
        ∙ ap (λ y. y ++ b':' ∷ []) short
        ∙ append_assoc text (b':' ∷ []) (b':' ∷ []))
      all
parted-Names name t (s ∷ ss) [] vs [] groups p q some_group few all e (inr (inr same)) =
    shortened (s ∷ ss) [] vs [] (b':' ∷ []) p q some_group few (inr (refl, inr refl))
      (sym same ∙ e ∙ join-append b':' s ss [] []) all
parted-Names name t (s ∷ ss) (r ∷ ts) vs us groups p q some_group few all e trim =
    let whole_text = join-append b':' s ss [] (r ∷ ts) in
    shortened (s ∷ ss) (r ∷ ts) vs us (b':' ∷ b':' ∷ []) p q some_group few (inl refl)
      (untrimmed name t trim
          (λ x e'.
            join-ne-cons s ss vs (b':' ∷ b':' ∷ join b':' (r ∷ ts)) x p
              (sym whole_text ∙ sym e ∙ e'))
          (λ x e'. EndsOpen-ClosesOpen _ (gapped-EndsOpen (s ∷ ss) r ts us q) x (sym e ∙ e'))
        ∙ e
        ∙ whole_text)
      all

-- One empty segment is not what a text is cut into.
some_left :
    (t : Bytes) (ss ts : List Bytes) (vs us : List ℕ)
    → Spells ss vs
    → Spells ts us
    → split b':' t ≡ ss ++ [] ∷ ts
    → 0 < length vs + length us
unfolding split
some_left [] [] ts vs us p q cut = cc
some_left (c ∷ t) [] [] [] [] p q cut = cc (sym (join-split b':' (c ∷ t)) ∙ ap (join b':') cut)
some_left t [] [] [] (u ∷ us) p q cut = absurd q
some_left t [] (r ∷ ts) [] [] p q cut = absurd q
some_left t [] (r ∷ ts) [] (u ∷ us) p q cut = omega arith
some_left t [] ts (v ∷ vs) us p q cut = absurd p
some_left t (s ∷ ss) ts [] us p q cut = absurd p
some_left t (s ∷ ss) ts (v ∷ vs) us p q cut = omega arith

Layout-Names :
    (name t : Bytes) (groups : List ℕ)
    → all_of is_ipv6_char name ≡ true
    → Trimmed name t
    → Layout (split b':' t) groups
    → Names name groups
Layout-Names name t groups chars trim (whole vs p few all) =
    whole-Names name t (split b':' t) vs groups p few all (sym (join-split b':' t)) trim
Layout-Names name t groups chars trim (past ss rest vs p eight cut all) =
    past-Names name t ss rest vs groups chars p eight all
      (sym (join-split b':' t) ∙ ap (join b':') cut) trim
Layout-Names name t groups chars trim (parted ss ts vs us p q few cut all) =
    parted-Names name t ss ts vs us groups p q (some_left t ss ts vs us p q cut) few all
      (sym (join-split b':' t) ∙ ap (join b':') cut) trim

join-IsClean :
    (ss : List Bytes)
    → all_of is_ipv6_char (join b':' ss) ≡ true
    → All (Lacks b':') ss
    → All IsClean ss
join-IsClean [] h l = tt
join-IsClean (s ∷ []) h l = ((h, l.0), tt)
join-IsClean (s ∷ t ∷ ss) h l =
    let both = sym (all_of-append is_ipv6_char s (b':' ∷ join b':' (t ∷ ss))) ∙ h in
    ((ground arith, l.0), join-IsClean (t ∷ ss) (ground arith) l.1)

pub parse_ipv6-Names :
    (name : Bytes) (addr : List ℕ)
    → parse_ipv6 name ≡ some addr
    → (groups : List ℕ) × (Names name groups × (addr ≡ map swap16 groups))
unfolding parse_ipv6 to_network
parse_ipv6-Names name addr h = elim (Bool-cases (all_of is_ipv6_char name)) [
  | inr q ↦ cc (rw q at h)
  | inl chars ↦
      let t = trim_colons name in
      let trim = trim_colons-Trimmed name in
      let clean : All IsClean (split b':' t) =
        join-IsClean (split b':' t) (rw (join-split b':' t) (all_of-Trimmed name t trim chars))
          (split-Lacks b':' t) in
      elim (Option-cases (read_front [] (split b':' t))) [
        | inl q ↦ cc (rw (chars, q) at h)
        | inr (f, q) ↦
            let read = read_front-HasRead [] (split b':' t) f clean (omega arith) q in
            elim (Option-cases (fill_front f)) [
              | inl e ↦ cc (rw (chars, q, e) at h)
              | inr (groups, e) ↦ (
                groups,
                (
                  Layout-Names name t groups chars trim
                      (fill_front-Layout (split b':' t) f groups clean read e),
                  cc (rw (chars, q, e) at h),
                ),
              )
            ]
      ]
]
