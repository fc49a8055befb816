-- ===== src/Log/Formatter/RoundTrip.antt =====
-- The constructor of `formatter` and `repr` as inverses.
use mathlib.Core.List.{append_assoc, append-nil}
use bc.Prelude.{
  ◌≡◌, ◌≢◌, ◌↔◌, refl, sym, ap, ◌∙◌, List, [], ◌∷◌, ◌++◌, some, Bytes, codes, equal, equal_iff,
  arith,
}
use bc.Log.Formatter.{
  MetaType, Segment, text, field, datetime, level, topic, thread, location, message, name_of,
  Formatter, formatter, segment_repr, meta_repr, repr_onto, repr,
}
use bc.Log.Formatter.Grammar.{
  Reads, done, literal, known, unknown, unterminated, StopsText, at_end, at_open, HasNoOpen,
  Reads-scan, scan-Reads,
}

-- The constructor finds the segments that the grammar gives, and no others.
pub formatter_iff : (f : Bytes) (ss : List Segment) → (Reads f ss) ↔ ((formatter f).segments_ ≡ ss)
unfolding formatter
formatter_iff f ss = (λ r. Reads-scan r, λ e. rw (← e) (scan-Reads f))

-- The segments one behind the other.
abbrev pub concat : List Segment → Bytes
concat [] = []
concat (s ∷ ss) = segment_repr s ++ concat ss

repr_onto-concat : (ss : List Segment) (out : Bytes) → repr_onto out ss ≡ out ++ concat ss
unfolding repr_onto
repr_onto-concat [] out = sym (append-nil out)
repr_onto-concat (s ∷ ss) out = repr_onto-concat ss (out ++ segment_repr s) ∙ append_assoc out _ _

pub repr-concat : (f : Formatter) → repr f ≡ concat f.segments_
unfolding repr
repr-concat f = repr_onto-concat f.segments_ []

-- No directive of the format is unknown or left open.
abbrev pub IsLossless : {f : Bytes} {ss : List Segment} → Reads f ss → Type 0
IsLossless done = Unit
IsLossless (literal c t f h s r) = IsLossless r
IsLossless (known n f h e r) = IsLossless r
IsLossless (unknown n f h e r) = ⊥
IsLossless (unterminated n h) = ⊥

meta_repr_lem :
    (n : Bytes) (m : MetaType) → name_of n ≡ some m → meta_repr m ≡ b'%' ∷ b'{' ∷ (n ++ b'}' ∷ [])
unfolding name_of
meta_repr_lem n m e = ground (
  arith,
  equal_iff n (codes "datetime"),
  equal_iff n (codes "level"),
  equal_iff n (codes "topic"),
  equal_iff n (codes "thread"),
  equal_iff n (codes "location"),
  equal_iff n (codes "message"),
)

concat-Reads : {f : Bytes} {ss : List Segment} (r : Reads f ss) → IsLossless r → concat ss ≡ f
concat-Reads done h = refl
concat-Reads (literal c t f g s r) h = ap (◌++◌ (c ∷ t)) (concat-Reads r h)
concat-Reads (known n f {m = m} g e r) h = rw (meta_repr_lem n m e, append_assoc, concat-Reads r h)
concat-Reads (unknown n f g e r) h = absurd h
concat-Reads (unterminated n g) h = absurd h

-- `repr` gives back a format whose directives are all known and closed.
pub repr-formatter :
    {f : Bytes} {ss : List Segment} (r : Reads f ss) → IsLossless r → repr (formatter f) ≡ f
repr-formatter {f} {ss} r h =
    repr-concat (formatter f) ∙ rw ((formatter_iff f ss).0 r) (concat-Reads r h)

-- No text stands first.
abbrev pub StartsWithField : List Segment → Type 0
StartsWithField [] = Unit
StartsWithField (field m ∷ ss) = Unit
StartsWithField (text t ∷ ss) = ⊥

-- Texts are not empty, open no directive, and are as long as they can be.
abbrev pub IsCanonical : List Segment → Type 0
IsCanonical [] = Unit
IsCanonical (field m ∷ ss) = IsCanonical ss
IsCanonical (text t ∷ ss) = (t ≢ []) × HasNoOpen t × StartsWithField ss × IsCanonical ss

concat-StopsText : (ss : List Segment) → StartsWithField ss → StopsText (concat ss)
concat-StopsText [] h = at_end
concat-StopsText (text t ∷ ss) h = absurd h
concat-StopsText (field datetime ∷ ss) h = at_open _
concat-StopsText (field level ∷ ss) h = at_open _
concat-StopsText (field topic ∷ ss) h = at_open _
concat-StopsText (field thread ∷ ss) h = at_open _
concat-StopsText (field location ∷ ss) h = at_open _
concat-StopsText (field message ∷ ss) h = at_open _

Reads-field :
    (m : MetaType) {f : Bytes} {ss : List Segment}
    → Reads f ss
    → Reads (meta_repr m ++ f) (field m ∷ ss)
unfolding name_of equal
Reads-field datetime r = known (codes "datetime") _ (ground arith) refl r
Reads-field level r = known (codes "level") _ (ground arith) refl r
Reads-field topic r = known (codes "topic") _ (ground arith) refl r
Reads-field thread r = known (codes "thread") _ (ground arith) refl r
Reads-field location r = known (codes "location") _ (ground arith) refl r
Reads-field message r = known (codes "message") _ (ground arith) refl r

concat-IsCanonical : (ss : List Segment) → IsCanonical ss → Reads (concat ss) ss
concat-IsCanonical [] h = done
concat-IsCanonical (field m ∷ ss) h = Reads-field m (concat-IsCanonical ss h)
concat-IsCanonical (text [] ∷ ss) h = absurd (h.0 refl)
concat-IsCanonical (text (c ∷ t) ∷ ss) h =
    literal c t (concat ss) h.1 (concat-StopsText ss h.2) (concat-IsCanonical ss h.3)

-- A canonical list of segments is read back from what `repr` prints for it.
formatter-repr :
    (f : Formatter) → IsCanonical f.segments_ → (formatter (repr f)).segments_ ≡ f.segments_
formatter-repr f h =
    rw repr-concat
      ((formatter_iff (concat f.segments_) f.segments_).0 (concat-IsCanonical f.segments_ h))
