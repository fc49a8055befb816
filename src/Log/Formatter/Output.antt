-- ===== src/Log/Formatter/Output.antt =====
-- `formatter::format` against the text that its segments stand for.
use mathlib.Core.List.{
  append_assoc, append-nil, reverse, reverse-reverse, reverse-append, reverse-cons,
}
use bc.Prelude.{
  ℕ, suc, zero, ◌≡◌, ◌≢◌, ◌↔◌, refl, sym, ap, ◌∙◌, ◌⊎◌, inl, inr, List, [], ◌∷◌, ◌++◌, Option, none,
  some, Bytes, codes, arith, ◌==◌, replicate, All, Bool-cases,
}
use bc.Log.Record.{Level, Record, level_string}
use bc.Log.Formatter.{
  Fmt, Segment, text, field, datetime, level, topic, thread, location, message, Formatter, render,
  render_onto, pop_newlines, strip, format,
}

abbrev pub level_name : Level → Bytes
level_name Level.debug = codes "DEBUG"
level_name Level.info = codes "INFO"
level_name Level.warning = codes "WARNING"
level_name Level.error = codes "ERROR"
level_name Level.fatal = codes "FATAL"

-- What a segment stands for in the line for a record.
abbrev pub piece : Fmt → Record → Segment → Bytes
piece fmt r (text t) = t
piece fmt r (field datetime) = fmt.datetime_text r.timestamp
piece fmt r (field level) = level_name r.lv
piece fmt r (field topic) = r.topic
piece fmt r (field thread) = fmt.number r.tid
piece fmt r (field location) = r.location.file_name ++ b':' ∷ fmt.number r.location.line
piece fmt r (field message) = r.message

abbrev pub body : Fmt → Record → List Segment → Bytes
body fmt r [] = []
body fmt r (s ∷ ss) = piece fmt r s ++ body fmt r ss

abbrev IsNewline : ℕ → Type 0
IsNewline c = c ≡ b'\n'

-- The array of level names is read inside its bounds.
level_string_total : (l : Level) → level_string l ≡ some (level_name l)
unfolding level_string
level_string_total Level.debug = refl
level_string_total Level.info = refl
level_string_total Level.warning = refl
level_string_total Level.error = refl
level_string_total Level.fatal = refl

render-piece : (fmt : Fmt) (r : Record) (s : Segment) → render fmt r s ≡ some (piece fmt r s)
render-piece fmt r (text t) = refl
render-piece fmt r (field level) = level_string_total r.lv
render-piece fmt r (field datetime) = refl
render-piece fmt r (field topic) = refl
render-piece fmt r (field thread) = refl
render-piece fmt r (field location) = refl
render-piece fmt r (field message) = refl

render_onto-body :
    (fmt : Fmt) (r : Record) (ss : List Segment) (log : Bytes)
    → render_onto fmt r log ss ≡ some (log ++ body fmt r ss)
unfolding render_onto
render_onto-body fmt r [] log = rw append-nil
render_onto-body fmt r (s ∷ ss) log =
    rw (render-piece fmt r s, render_onto)
      (render_onto-body fmt r ss (log ++ piece fmt r s) ∙ rw append_assoc)

pub format-body :
    (fmt : Fmt) (f : Formatter) (r : Record) → format fmt f r ≡ strip (body fmt r f.segments_)
unfolding format
format-body fmt f r = rw (render_onto-body fmt r f.segments_ [], format)

-- `IsStripped log r`: the strip of `log` may give `r`. A kept text ends in another byte than a
-- newline, and only newlines are taken off; a blank text has no result.
pub data IsStripped (log : Bytes) : Option Bytes → Type 0 where
  blank : All IsNewline log → IsStripped log none
  kept :
      (n c : ℕ) (xs : Bytes)
      → c ≢ b'\n'
      → log ≡ (xs ++ c ∷ []) ++ replicate n b'\n'
      → IsStripped log (some (xs ++ c ∷ []))

-- The same of the loop, on a reversed string.
data Pops (log : Bytes) : Option Bytes → Type 0 where
  empties : All IsNewline log → Pops log none
  stops :
      (n c : ℕ) (xs : Bytes)
      → c ≢ b'\n'
      → log ≡ replicate n b'\n' ++ (c ∷ xs)
      → Pops log (some (c ∷ xs))

Pops-cons : {xs : Bytes} {r : Option Bytes} → Pops xs r → Pops (b'\n' ∷ xs) r
Pops-cons (empties h) = empties (refl, h)
Pops-cons (stops n c xs h e) = stops (suc n) c xs h (ap (◌∷◌ b'\n') e)

pop_newlines-Pops : (xs : Bytes) → Pops xs (pop_newlines xs)
unfolding pop_newlines
pop_newlines-Pops [] = empties tt
pop_newlines-Pops (c ∷ cs) = elim (Bool-cases (c == b'\n')) [
  | inl e ↦ let here : c ≡ b'\n' = ground arith in rw here (Pops-cons (pop_newlines-Pops cs))
  | inr e ↦ rw e (stops zero c cs (ground arith) refl)
]

replicate-concat : (n c : ℕ) → replicate n c ++ c ∷ [] ≡ c ∷ replicate n c
replicate-concat zero c = refl
replicate-concat (suc n) c = ap (◌∷◌ c) (replicate-concat n c)

reverse-replicate : (n c : ℕ) → reverse (replicate n c) ≡ replicate n c
reverse-replicate zero c = refl
reverse-replicate (suc n) c =
    reverse-cons c (replicate n c) ∙ rw (reverse-replicate n c) (replicate-concat n c)

All-append : (xs ys : Bytes) → All IsNewline xs → All IsNewline ys → All IsNewline (xs ++ ys)
All-append [] ys hx hy = hy
All-append (x ∷ xs) ys hx hy = (hx.0, All-append xs ys hx.1 hy)

All-reverse : (xs : Bytes) → All IsNewline xs → All IsNewline (reverse xs)
All-reverse [] h = tt
All-reverse (x ∷ xs) h =
    rw (reverse-cons x xs) (All-append (reverse xs) (x ∷ []) (All-reverse xs h.1) (h.0, tt))

reverse-stops :
    (log : Bytes) (n c : ℕ) (xs : Bytes)
    → reverse log ≡ replicate n b'\n' ++ (c ∷ xs)
    → log ≡ (reverse xs ++ c ∷ []) ++ replicate n b'\n'
reverse-stops log n c xs e =
    sym (reverse-reverse log)
    ∙ ap reverse e
    ∙ reverse-append (replicate n b'\n') (c ∷ xs)
    ∙ rw (reverse-replicate n b'\n', reverse-cons c xs)

strip-lift :
    (log : Bytes) {r : Option Bytes}
    → Pops (reverse log) r
    → IsStripped log (elim r [ none ↦ none | some k ↦ some (reverse k) ])
strip-lift log (empties h) = blank (rw reverse-reverse at (All-reverse (reverse log) h))
strip-lift log (stops n c xs h e) =
    rw (reverse-cons c xs) (kept n c (reverse xs) h (reverse-stops log n c xs e))

strip-IsStripped : (log : Bytes) → IsStripped log (strip log)
unfolding strip
strip-IsStripped log = strip-lift log (pop_newlines-Pops (reverse log))

-- A line is the pieces of its segments, one behind the other, less the newlines at the end; a
-- line with nothing but newlines is the one that faults.
pub format-IsStripped :
    (fmt : Fmt) (f : Formatter) (r : Record) → IsStripped (body fmt r f.segments_) (format fmt f r)
format-IsStripped fmt f r = rw format-body (strip-IsStripped (body fmt r f.segments_))

-- Some text of the format holds a byte that is no newline.
abbrev pub HasInk : List Segment → Type 0
HasInk [] = ⊥
HasInk (text t ∷ ss) = (¬ All IsNewline t) ⊎ HasInk ss
HasInk (field m ∷ ss) = HasInk ss

All-append_left : (xs ys : Bytes) → All IsNewline (xs ++ ys) → All IsNewline xs
All-append_left [] ys h = tt
All-append_left (x ∷ xs) ys h = (h.0, All-append_left xs ys h.1)

All-append_right : (xs ys : Bytes) → All IsNewline (xs ++ ys) → All IsNewline ys
All-append_right [] ys h = h
All-append_right (x ∷ xs) ys h = All-append_right xs ys h.1

body-HasInk :
    (fmt : Fmt) (r : Record) (ss : List Segment) → HasInk ss → ¬ All IsNewline (body fmt r ss)
body-HasInk fmt r [] h a = h
body-HasInk fmt r (text t ∷ ss) (inl h) a = h (All-append_left t (body fmt r ss) a)
body-HasInk fmt r (text t ∷ ss) (inr h) a =
    body-HasInk fmt r ss h (All-append_right t (body fmt r ss) a)
body-HasInk fmt r (field m ∷ ss) h a =
    body-HasInk fmt r ss h (All-append_right (piece fmt r (field m)) (body fmt r ss) a)

IsStripped-some :
    {log : Bytes} {r : Option Bytes}
    → IsStripped log r
    → ¬ All IsNewline log
    → (out : Bytes) × (r ≡ some out)
IsStripped-some (blank h) n = absurd (n h)
IsStripped-some (kept n c xs h e) m = (xs ++ c ∷ [], refl)

IsStripped-none : {log : Bytes} {r : Option Bytes} → IsStripped log r → r ≡ none → All IsNewline log
IsStripped-none (blank h) e = h
IsStripped-none (kept n c xs h e) d = cc

not-newlines :
    (n c : ℕ) (xs : Bytes) → c ≢ b'\n' → ¬ All IsNewline ((xs ++ c ∷ []) ++ replicate n b'\n')
not-newlines n c xs h a =
    h (All-append_right xs (c ∷ []) (All-append_left (xs ++ c ∷ []) (replicate n b'\n') a)).0

IsStripped-blank :
    {log : Bytes} {r : Option Bytes} → IsStripped log r → All IsNewline log → r ≡ none
IsStripped-blank (blank h) a = refl
IsStripped-blank (kept n c xs h e) a = absurd (not-newlines n c xs h (rw e at a))

-- A format with a visible byte of its own never faults, whatever the record.
pub format_total :
    (fmt : Fmt) (f : Formatter) (r : Record)
    → HasInk f.segments_
    → (out : Bytes) × (format fmt f r ≡ some out)
format_total fmt f r h =
    IsStripped-some (format-IsStripped fmt f r) (body-HasInk fmt r f.segments_ h)

-- The fault is reached exactly by the records whose pieces hold nothing but newlines.
format-none_iff :
    (fmt : Fmt) (f : Formatter) (r : Record)
    → (format fmt f r ≡ none) ↔ All IsNewline (body fmt r f.segments_)
format-none_iff fmt f r =
    let s = format-IsStripped fmt f r in (IsStripped-none s, IsStripped-blank s)
