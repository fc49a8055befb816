-- ===== src/Log/Formatter/Grammar.antt =====
-- The language of formats that the constructor of `formatter` reads, as a grammar over all byte
-- strings, and the proof that the constructor parses exactly by it.
use mathlib.Core.List.{append_assoc, append-nil}
use bc.Prelude.{
  ℕ, ◌≡◌, refl, ap, ◌∙◌, inl, inr, List, [], ◌∷◌, ◌++◌, none, some, Bytes, true, false, ◌&&◌, ◌==◌,
  Bool-cases, Option-cases, arith,
}
use bc.Log.Formatter.{MetaType, Segment, text, field, raw, in_meta, name_of, push_named, scan}

-- What may follow a text: the end, or an opening "%{".
pub data StopsText : Bytes → Type 0 where
  at_end : StopsText []
  at_open : (f : Bytes) → StopsText (b'%' ∷ b'{' ∷ f)

-- No "%{" begins in the first part of the two put together.
abbrev pub HasNoOpen : Bytes → Type 0
HasNoOpen [] = Unit
HasNoOpen (c ∷ []) = Unit
HasNoOpen (c ∷ d ∷ cs) = ((c == b'%' && d == b'{') ≡ false) × HasNoOpen (d ∷ cs)

abbrev pub HasNoClose : Bytes → Type 0
HasNoClose [] = Unit
HasNoClose (c ∷ cs) = ((c == b'}') ≡ false) × HasNoClose cs

-- `Reads f ss`: the format `f` spells the segments `ss`.
pub data Reads : Bytes → List Segment → Type 0 where
  done : Reads [] []
  literal :
      (c : ℕ) (t f : Bytes) {ss : List Segment}
      → HasNoOpen (c ∷ t)
      → StopsText f
      → Reads f ss
      → Reads ((c ∷ t) ++ f) (text (c ∷ t) ∷ ss)
  known :
      (n f : Bytes) {m : MetaType} {ss : List Segment}
      → HasNoClose n
      → name_of n ≡ some m
      → Reads f ss
      → Reads (b'%' ∷ b'{' ∷ (n ++ b'}' ∷ f)) (field m ∷ ss)
  unknown :
      (n f : Bytes) {ss : List Segment}
      → HasNoClose n
      → name_of n ≡ none
      → Reads f ss
      → Reads (b'%' ∷ b'{' ∷ (n ++ b'}' ∷ f)) ss
  unterminated : (n : Bytes) → HasNoClose n → Reads (b'%' ∷ b'{' ∷ n) []

scan-more :
    (c d : ℕ) (cs buf : Bytes)
    → (c == b'%' && d == b'{') ≡ false
    → scan raw buf (c ∷ d ∷ cs) ≡ scan raw (buf ++ c ∷ []) (d ∷ cs)
unfolding scan
scan-more c d cs buf h = ground arith

scan-name :
    (c : ℕ) (cs buf : Bytes)
    → (c == b'}') ≡ false
    → scan in_meta buf (c ∷ cs) ≡ scan in_meta (buf ++ c ∷ []) cs
unfolding scan
scan-name c cs buf h = ground arith

-- The scan of a directive's name, closed or not.
scan-in_meta :
    (n f buf : Bytes)
    → HasNoClose n
    → scan in_meta buf (n ++ b'}' ∷ f) ≡ push_named (name_of (buf ++ n)) (scan raw [] f)
scan-in_meta [] f buf h = rw append-nil (unfold scan in refl)
scan-in_meta (c ∷ n) f buf h =
    scan-name c (n ++ b'}' ∷ f) buf h.0 ∙ scan-in_meta n f (buf ++ c ∷ []) h.1 ∙ rw append_assoc

scan-unterminated : (n buf : Bytes) → HasNoClose n → scan in_meta buf n ≡ []
scan-unterminated [] buf h = unfold scan in refl
scan-unterminated (c ∷ n) buf h = scan-name c n buf h.0 ∙ scan-unterminated n (buf ++ c ∷ []) h.1

-- The scan of a text, up to the place where it stops.
scan-raw :
    (t f buf : Bytes) → HasNoOpen t → StopsText f → scan raw buf (t ++ f) ≡ scan raw (buf ++ t) f
scan-raw [] f buf h s = rw append-nil
scan-raw (c ∷ []) f buf h at_end = unfold scan in refl
scan-raw (c ∷ []) f buf h (at_open g) = scan-more c b'%' (b'{' ∷ g) buf (ground arith)
scan-raw (c ∷ d ∷ t) f buf h s =
    scan-more c d (t ++ f) buf h.0 ∙ scan-raw (d ∷ t) f (buf ++ c ∷ []) h.1 s ∙ rw append_assoc

scan-StopsText :
    (c : ℕ) (t : Bytes) {f : Bytes}
    → StopsText f
    → scan raw (c ∷ t) f ≡ text (c ∷ t) ∷ scan raw [] f
unfolding scan
scan-StopsText c t at_end = refl
scan-StopsText c t (at_open g) = refl

scan-open : (f : Bytes) → scan raw [] (b'%' ∷ b'{' ∷ f) ≡ scan in_meta [] f
unfolding scan
scan-open f = refl

-- A format spells no segments but those that the scan finds.
pub Reads-scan : {f : Bytes} {ss : List Segment} → Reads f ss → scan raw [] f ≡ ss
Reads-scan done = unfold scan in refl
Reads-scan (literal c t f h s r) =
    scan-raw (c ∷ t) f [] h s ∙ scan-StopsText c t s ∙ ap (◌∷◌ (text (c ∷ t))) (Reads-scan r)
Reads-scan (known n f {m = m} h e r) =
    scan-open _ ∙ scan-in_meta n f [] h ∙ rw e (ap (◌∷◌ (field m)) (Reads-scan r))
Reads-scan (unknown n f h e r) = scan-open _ ∙ scan-in_meta n f [] h ∙ rw e (Reads-scan r)
Reads-scan (unterminated n h) = scan-open n ∙ scan-unterminated n [] h

abbrev NotOpen : ℕ → Bytes → Type 0
NotOpen c [] = Unit
NotOpen c (d ∷ cs) = (c == b'%' && d == b'{') ≡ false

-- A byte that opens nothing joins the text behind it, or begins a text.
prepend :
    (c : ℕ) {f : Bytes} {ss : List Segment}
    → NotOpen c f
    → Reads f ss
    → (ss' : List Segment) × Reads (c ∷ f) ss'
prepend c h done = (text (c ∷ []) ∷ [], literal c [] [] tt at_end done)
prepend c h (literal d t f g s r) = (text (c ∷ d ∷ t) ∷ _, literal c (d ∷ t) f (h, g) s r)
prepend c h (known n f g e r) = (text (c ∷ []) ∷ _, literal c [] _ tt (at_open _) (known n f g e r))
prepend c h (unknown n f g e r) =
    (text (c ∷ []) ∷ _, literal c [] _ tt (at_open _) (unknown n f g e r))
prepend c h (unterminated n g) =
    (text (c ∷ []) ∷ _, literal c [] _ tt (at_open _) (unterminated n g))

-- Behind "%{": a name and what the rest spells, or a name that no brace closes.
data Directive : Bytes → Type 0 where
  closed : (n f : Bytes) {ss : List Segment} → HasNoClose n → Reads f ss → Directive (n ++ b'}' ∷ f)
  open_ended : (n : Bytes) → HasNoClose n → Directive n

Directive-cons : (c : ℕ) {f : Bytes} → (c == b'}') ≡ false → Directive f → Directive (c ∷ f)
Directive-cons c h (closed n f g r) = closed (c ∷ n) f (h, g) r
Directive-cons c h (open_ended n g) = open_ended (c ∷ n) (h, g)

Directive-Reads : {f : Bytes} → Directive f → (ss : List Segment) × Reads (b'%' ∷ b'{' ∷ f) ss
Directive-Reads (closed n f g r) = elim (Option-cases (name_of n)) [
  | inl e ↦ (_, unknown n f g e r)
  | inr (m, e) ↦ (field m ∷ _, known n f g e r)
]
Directive-Reads (open_ended n g) = ([], unterminated n g)

-- What the grammar says of a format that begins with these two bytes.
Spelling : Bytes → Type 0
Spelling f = (ss : List Segment) × Reads f ss

opening :
    (c d : ℕ) (f : Bytes)
    → (c == b'%' && d == b'{') ≡ true
    → Spelling (b'%' ∷ b'{' ∷ f)
    → Spelling (c ∷ d ∷ f)
opening c d f h s =
    let p : c ≡ b'%' = ground arith in let q : d ≡ b'{' = ground arith in rw (p, q) s

mutual
  unfolding Spelling

  spelling : (f : Bytes) → Spelling f
  spelling [] = ([], done)
  spelling (c ∷ []) = (text (c ∷ []) ∷ [], literal c [] [] tt at_end done)
  spelling (c ∷ d ∷ cs) =
      let rest = spelling (d ∷ cs) in
      elim (Bool-cases (c == b'%' && d == b'{')) [
        | inl e ↦ opening c d cs e (Directive-Reads (directive cs))
        | inr e ↦ prepend c e rest.1
      ]

  directive : (cs : Bytes) → Directive cs
  directive [] = open_ended [] tt
  directive (c ∷ cs) = elim (Bool-cases (c == b'}')) [
    | inl e ↦ let here : c ≡ b'}' = ground arith in rw here (closed [] cs tt (spelling cs).1)
    | inr e ↦ Directive-cons c e (directive cs)
  ]

-- Every byte string is a format, and the scan finds what it spells.
pub scan-Reads : (f : Bytes) → Reads f (scan raw [] f)
unfolding Spelling
scan-Reads f = let (ss, r) = spelling f in rw (Reads-scan r) r
