-- ===== src/Network/Chars/Split.antt =====
-- `split` and `join` are inverses.
use mathlib.Core.List.{append_assoc, append-nil}
use bc.Prelude.{
  ℕ, ◌≡◌, ◌≢◌, true, false, ◌==◌, ==_iff, List, [], ◌∷◌, ◌++◌, Bytes, refl, sym, ap, ◌∙◌, arith,
  Bool-cases, inl, inr, All,
}
use bc.Network.Chars.{split_from, split, join, Lacks}

split_from-end :
    (b : ℕ) (s segment : Bytes) → Lacks b s → split_from b segment s ≡ (segment ++ s) ∷ []
unfolding split_from
split_from-end b [] segment h = rw append-nil
split_from-end b (c ∷ s) segment h =
    rw h.0 (split_from-end b s (segment ++ c ∷ []) h.1 ∙ rw append_assoc)

split_from-cut :
    (b : ℕ) (s segment rest : Bytes)
    → Lacks b s
    → split_from b segment (s ++ b ∷ rest) ≡ (segment ++ s) ∷ split_from b [] rest
unfolding split_from
split_from-cut b [] segment rest h =
    let same : (b == b) ≡ true = ground arith in rw (same, append-nil)
split_from-cut b (c ∷ s) segment rest h =
    rw h.0 (split_from-cut b s (segment ++ c ∷ []) rest h.1 ∙ rw append_assoc)

split_from-join_segments :
    (b : ℕ) (s : Bytes) (ss : List Bytes)
    → All (Lacks b) (s ∷ ss)
    → split_from b [] (join b (s ∷ ss)) ≡ s ∷ ss
split_from-join_segments b s [] h = split_from-end b s [] h.0
split_from-join_segments b s (t ∷ ss) h =
    split_from-cut b s [] (join b (t ∷ ss)) h.0 ∙ ap (◌∷◌ s) (split_from-join_segments b t ss h.1)

split-split_from : (b : ℕ) (h : Bytes) → h ≢ [] → split b h ≡ split_from b [] h
unfolding split
split-split_from b [] n = absurd (n refl)
split-split_from b (c ∷ h) n = refl

-- Segments without the character are found again, unless all there is is one empty segment.
pub split-join :
    (b : ℕ) (s : Bytes) (ss : List Bytes)
    → All (Lacks b) (s ∷ ss)
    → join b (s ∷ ss) ≢ []
    → split b (join b (s ∷ ss)) ≡ s ∷ ss
split-join b s ss h n = split-split_from b _ n ∙ split_from-join_segments b s ss h

append-ne_nil : (t : Bytes) (c : ℕ) (u : Bytes) → t ++ c ∷ u ≢ []
append-ne_nil [] c u e = cc
append-ne_nil (d ∷ t) c u e = cc

split_from-more :
    (b : ℕ) (s : Bytes) (ss : List Bytes) (more : Bytes)
    → All (Lacks b) (s ∷ ss)
    → split_from b [] (join b (s ∷ ss) ++ b ∷ more) ≡ (s ∷ ss) ++ split_from b [] more
split_from-more b s [] more h = split_from-cut b s [] more h.0
split_from-more b s (t ∷ ss) more h =
    ap (split_from b []) (append_assoc s (b ∷ join b (t ∷ ss)) (b ∷ more))
    ∙ split_from-cut b s [] (join b (t ∷ ss) ++ b ∷ more) h.0
    ∙ ap (◌∷◌ s) (split_from-more b t ss more h.1)

pub join-append :
    (b : ℕ) (s : Bytes) (ss : List Bytes) (t : Bytes) (ts : List Bytes)
    → join b ((s ∷ ss) ++ t ∷ ts) ≡ join b (s ∷ ss) ++ b ∷ join b (t ∷ ts)
join-append b s [] t ts = refl
join-append b s (x ∷ ss) t ts =
    ap (λ y. s ++ b ∷ y) (join-append b x ss t ts)
    ∙ sym (append_assoc s (b ∷ join b (x ∷ ss)) (b ∷ join b (t ∷ ts)))

-- Segments at the front are found whatever goes on behind them.
pub split-more :
    (b : ℕ) (s : Bytes) (ss : List Bytes) (more : Bytes)
    → All (Lacks b) (s ∷ ss)
    → split b (join b (s ∷ ss) ++ b ∷ more) ≡ (s ∷ ss) ++ split_from b [] more
split-more b s ss more h =
    split-split_from b _ (append-ne_nil (join b (s ∷ ss)) b more) ∙ split_from-more b s ss more h

-- The first segment and the others.
abbrev NonNil : List Bytes → Type 0
NonNil [] = ⊥
NonNil (s ∷ ss) = Unit

split_from-NonNil : (b : ℕ) (cs segment : Bytes) → NonNil (split_from b segment cs)
unfolding split_from
split_from-NonNil b [] segment = tt
split_from-NonNil b (c ∷ cs) segment = elim (Bool-cases (c == b)) [
  | inl e ↦ rw e tt
  | inr e ↦ rw e (split_from-NonNil b cs (segment ++ c ∷ []))
]

join-cons : (b : ℕ) (s : Bytes) (ss : List Bytes) → NonNil ss → join b (s ∷ ss) ≡ s ++ b ∷ join b ss
join-cons b s [] h = absurd h
join-cons b s (t ∷ ss) h = refl

join-split_from : (b : ℕ) (cs segment : Bytes) → join b (split_from b segment cs) ≡ segment ++ cs
unfolding split_from
join-split_from b [] segment = sym (append-nil segment)
join-split_from b (c ∷ cs) segment = elim (Bool-cases (c == b)) [
  | inl e ↦
      let here : c ≡ b = (==_iff c b).0 e in
      rw e (
        join-cons b segment (split_from b [] cs) (split_from-NonNil b cs [])
        ∙ rw (join-split_from b cs [], here))
  | inr e ↦ rw e (join-split_from b cs (segment ++ c ∷ []) ∙ rw append_assoc)
]

-- The segments give back what was split.
pub join-split : (b : ℕ) (h : Bytes) → join b (split b h) ≡ h
unfolding split
join-split b [] = refl
join-split b (c ∷ h) = join-split_from b (c ∷ h) []

Lacks-concat : (b c : ℕ) (s : Bytes) → Lacks b s → (c == b) ≡ false → Lacks b (s ++ c ∷ [])
Lacks-concat b c [] h e = (e, tt)
Lacks-concat b c (d ∷ s) h e = (h.0, Lacks-concat b c s h.1 e)

split_from-Lacks :
    (b : ℕ) (cs segment : Bytes) → Lacks b segment → All (Lacks b) (split_from b segment cs)
unfolding split_from
split_from-Lacks b [] segment h = (h, tt)
split_from-Lacks b (c ∷ cs) segment h = elim (Bool-cases (c == b)) [
  | inl e ↦ rw e (h, split_from-Lacks b cs [] tt)
  | inr e ↦ rw e (split_from-Lacks b cs (segment ++ c ∷ []) (Lacks-concat b c segment h e))
]

pub split-Lacks : (b : ℕ) (h : Bytes) → All (Lacks b) (split b h)
unfolding split
split-Lacks b [] = tt
split-Lacks b (c ∷ h) = split_from-Lacks b (c ∷ h) [] tt
