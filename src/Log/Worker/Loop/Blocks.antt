-- ===== src/Log/Worker/Loop/Blocks.antt =====
-- What a run of rounds writes: the blocks of each, one after the other.
use mathlib.Core.List.{append_assoc, append-nil}
use bc.Prelude.{
  ℕ, ◌<◌, ◌≡◌, ◌==◌, if◌then◌else◌, [], ◌∷◌, refl, sym, ◌++◌, Bytes, length, arith, Bool-cases, inl,
  inr, ◌+◌,
}
use bc.Log.Formatter.{Fmt, Formatter}
use bc.Log.Formatter.Output.{HasInk}
use bc.Log.Worker.{Logs, Buffers}
use bc.Log.Worker.Buffers.{text_at, IsAbove, IsAscending}
use bc.Log.Worker.Texts.{line_of, lines_of, written, AllInk}

-- All that is written for a logger, in blocks.
abbrev pub texts_of : ℕ → Buffers → Bytes
texts_of l [] = []
texts_of l ((k, t) ∷ bs) = if k == l then t ++ texts_of l bs else texts_of l bs

pub texts_of-append :
    (l : ℕ) (bs cs : Buffers) → texts_of l (bs ++ cs) ≡ texts_of l bs ++ texts_of l cs
texts_of-append l [] cs = refl
texts_of-append l ((k, t) ∷ bs) cs = elim (Bool-cases (k == l)) [
  | inl e ↦ rw (e, texts_of-append l bs cs) (sym (append_assoc t (texts_of l bs) (texts_of l cs)))
  | inr e ↦ rw e (texts_of-append l bs cs)
]

texts_of-above : (n l : ℕ) (bs : Buffers) → IsAbove n bs → l < n + 1 → texts_of l bs ≡ []
texts_of-above n l [] a h = refl
texts_of-above n l ((k, t) ∷ bs) a h = ground (arith, texts_of-above n l bs a.1 h, a.0)

pub texts_of-text_at : (l : ℕ) (bs : Buffers) → IsAscending bs → texts_of l bs ≡ text_at l bs
texts_of-text_at l [] a = refl
texts_of-text_at l ((k, t) ∷ bs) a = elim (Bool-cases (k == l)) [
  | inl e ↦ rw (e, texts_of-above k l bs a.0 (ground arith)) (append-nil t)
  | inr e ↦ rw e (texts_of-text_at l bs a.1)
]

pub written-append :
    (files : ℕ → Bytes) (bs cs : Buffers)
    → written files (bs ++ cs) ≡ written files bs ++ written files cs
written-append files [] cs = refl
written-append files ((k, t) ∷ bs) cs = elim (Bool-cases (length (files k) == 0)) [
  | inl e ↦
      rw (e, written-append files bs cs)
        (sym (append_assoc t (written files bs) (written files cs)))
  | inr e ↦ rw e (written-append files bs cs)
]

pub lines_of-append :
    (fmt : Fmt) (fs : ℕ → Formatter) (l : ℕ) (xs ys : Logs)
    → lines_of fmt fs l (xs ++ ys) ≡ lines_of fmt fs l xs ++ lines_of fmt fs l ys
lines_of-append fmt fs l [] ys = refl
lines_of-append fmt fs l ((k, r) ∷ xs) ys = elim (Bool-cases (k == l)) [
  | inl e ↦
      rw (e, lines_of-append fmt fs l xs ys)
        (sym (append_assoc (line_of fmt (fs k) r) (lines_of fmt fs l xs) (lines_of fmt fs l ys)))
  | inr e ↦ rw e (lines_of-append fmt fs l xs ys)
]

pub all_ink :
    (fs : ℕ → Formatter) → ((l : ℕ) → HasInk (fs l).segments_) → (xs : Logs) → AllInk fs xs
all_ink fs ink [] = tt
all_ink fs ink ((l, r) ∷ xs) = (ink l, all_ink fs ink xs)
