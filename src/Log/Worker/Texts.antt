-- ===== src/Log/Worker/Texts.antt =====
-- What a round of the worker writes.
use mathlib.Core.List.{append_assoc, append-nil}
use bc.Prelude.{
  ℕ, ◌≡◌, Bool, true, false, ◌==◌, if◌then◌else◌, List, [], ◌∷◌, refl, sym, ap, ◌∙◌, ◌++◌, Option,
  none, some, Bytes, length, ok, arith, Bool-cases, inl, inr,
}
use bc.Log.Record.{Record}
use bc.Log.Formatter.{Fmt, Formatter, format}
use bc.Log.Formatter.Output.{HasInk, format_total}
use bc.Log.Worker.{
  Loggers, reference, unreference, Logs, Worker, Buffers, contains, gather, write_all,
  backend_write, set_flags, drain, round,
}
use bc.Log.Worker.Buffers.{text_at, IsAscending, add_line, add_line-text_at, add_line-IsAscending}

-- A record's line, and the lines of the records of one logger in their order.
abbrev pub ended : Option Bytes → Bytes
ended none = []
ended (some line) = line ++ b'\n' ∷ []

abbrev pub line_of : Fmt → Formatter → Record → Bytes
line_of fmt f r = ended (format fmt f r)

abbrev pub lines_of : Fmt → (ℕ → Formatter) → ℕ → Logs → Bytes
lines_of fmt fs l [] = []
lines_of fmt fs l ((k, r) ∷ logs) =
    if k == l then line_of fmt (fs k) r ++ lines_of fmt fs l logs else lines_of fmt fs l logs

-- What the code never changes of the loggers.
abbrev Like : (ℕ → Formatter) → (ℕ → Bytes) → Loggers → Type 0
Like fs files ls = (l : ℕ) → ((ls l).formatter_ ≡ fs l) × ((ls l).file_ ≡ files l)

reference-Like :
    {fs : ℕ → Formatter} {files : ℕ → Bytes} (l : ℕ) (ls : Loggers)
    → Like fs files ls
    → Like fs files (reference l ls)
unfolding reference
reference-Like l ls h j = elim (Bool-cases (j == l)) [
  | inl e ↦ let same : j ≡ l = ground arith in rw (e, same) (h l)
  | inr e ↦ rw e (h j)
]

unreference-Like :
    {fs : ℕ → Formatter} {files : ℕ → Bytes} (l : ℕ) (ls : Loggers)
    → Like fs files ls
    → Like fs files (unreference l ls)
unfolding unreference
unreference-Like l ls h j = elim (Bool-cases (j == l)) [
  | inl e ↦ let same : j ≡ l = ground arith in rw (e, same) (h l)
  | inr e ↦ rw e (h j)
]

-- What the buffers of loggers without a file hold, in the order of the addresses.
abbrev pub written : (ℕ → Bytes) → Buffers → Bytes
written files [] = []
written files ((l, t) ∷ bs) =
    if length (files l) == 0 then t ++ written files bs else written files bs

backend_write-append :
    (f g t console later : Bytes)
    → f ≡ g
    → backend_write f t console ++ later ≡ console ++ (if length g == 0 then t ++ later else later)
unfolding backend_write
backend_write-append f g t console later h = elim (Bool-cases (length g == 0)) [
  | inl e ↦ rw (h, e) (append_assoc console t later)
  | inr e ↦ rw (h, e) refl
]

write_all-written :
    {fs : ℕ → Formatter} {files : ℕ → Bytes} (bs : Buffers) (ls : Loggers) (console : Bytes)
    → Like fs files ls
    → (write_all bs ls console).1 ≡ console ++ written files bs
unfolding write_all
write_all-written [] ls console h = sym (append-nil console)
write_all-written {fs} {files} ((l, t) ∷ bs) ls console h =
    write_all-written bs (unreference l ls) (backend_write (ls l).file_ t console)
      (unreference-Like l ls h)
    ∙ backend_write-append (ls l).file_ (files l) t console (written files bs) (h l).1

-- Each logger that has a record here has a format with a text that is not all newlines.
abbrev pub AllInk : (ℕ → Formatter) → Logs → Type 0
AllInk fs [] = Unit
AllInk fs ((l, r) ∷ logs) = HasInk (fs l).segments_ × AllInk fs logs

abbrev hold : ℕ → Buffers → Loggers → Loggers
hold l bs ls = if contains l bs then ls else reference l ls

hold-Like :
    {fs : ℕ → Formatter} {files : ℕ → Bytes} (l : ℕ) (bs : Buffers) (ls : Loggers)
    → Like fs files ls
    → Like fs files (hold l bs ls)
hold-Like l bs ls h = elim (Bool-cases (contains l bs)) [
  | inl e ↦ rw e h
  | inr e ↦ rw e (reference-Like l ls h)
]

gather-step :
    (fmt : Fmt) (l : ℕ) (r : Record) (logs : Logs) (bs : Buffers) (ls : Loggers) (line : Bytes)
    → format fmt (ls l).formatter_ r ≡ some line
    → gather fmt ((l, r) ∷ logs) bs ls
      ≡ gather fmt logs (add_line l (line ++ b'\n' ∷ []) bs) (unreference l (hold l bs ls))
unfolding gather
gather-step fmt l r logs bs ls line h = rw h refl

-- What the first loop comes to.
abbrev Gathered : Fmt → (ℕ → Formatter) → (ℕ → Bytes) → Logs → Buffers → Buffers × Loggers → Type 0
Gathered fmt fs files logs bs r =
    IsAscending r.0
    × (Like fs files r.1 × ((l : ℕ) → text_at l r.0 ≡ text_at l bs ++ lines_of fmt fs l logs))

text_at-line :
    (fmt : Fmt) (fs : ℕ → Formatter) (j l : ℕ) (r : Record) (logs : Logs) (line : Bytes)
    (bs : Buffers)
    → format fmt (fs l) r ≡ some line
    → text_at j (add_line l (line ++ b'\n' ∷ []) bs) ++ lines_of fmt fs j logs
      ≡ text_at j bs ++ lines_of fmt fs j ((l, r) ∷ logs)
text_at-line fmt fs j l r logs line bs h = elim (Bool-cases (l == j)) [
  | inl e ↦
      let same : line_of fmt (fs l) r ≡ line ++ b'\n' ∷ [] = ap ended h in
      rw (add_line-text_at j l (line ++ b'\n' ∷ []) bs, e, same)
        (append_assoc (text_at j bs) (line ++ b'\n' ∷ []) (lines_of fmt fs j logs))
  | inr e ↦ rw (add_line-text_at j l (line ++ b'\n' ∷ []) bs, e) refl
]

gather-Gathered :
    (fmt : Fmt) (fs : ℕ → Formatter) (files : ℕ → Bytes) (logs : Logs) (bs : Buffers) (ls : Loggers)
    → AllInk fs logs
    → IsAscending bs
    → Like fs files ls
    → (r : Buffers × Loggers) × ((gather fmt logs bs ls ≡ ok r) × Gathered fmt fs files logs bs r)
unfolding gather
gather-Gathered fmt fs files [] bs ls i a h =
    ((bs, ls), (refl, (a, (h, λ l. sym (append-nil (text_at l bs))))))
gather-Gathered fmt fs files ((l, r) ∷ logs) bs ls i a h =
    let out = format_total fmt (fs l) r i.0 in
    let text = out.0 ++ b'\n' ∷ [] in
    let same : format fmt (ls l).formatter_ r ≡ some out.0 =
      ap (λ f. format fmt f r) (h l).0 ∙ out.1 in
    let ih =
      gather-Gathered fmt fs files logs (add_line l text bs) (unreference l (hold l bs ls)) i.1
        (add_line-IsAscending l text bs a)
        (unreference-Like l (hold l bs ls) (hold-Like l bs ls h)) in
    let (res, (done, (asc, (like, texts)))) = ih in
    (
      res,
      (
        gather-step fmt l r logs bs ls out.0 same ∙ done,
        (asc, (like, λ j. texts j ∙ text_at-line fmt fs j l r logs out.0 bs out.1)),
      ),
    )

-- The flags that are among the waiters'.
abbrev pub is_waiter : ℕ → List ℕ → Bool
is_waiter j [] = false
is_waiter j (flag ∷ flags) = if j == flag then true else is_waiter j flags

set_flags-is_waiter :
    (flags : List ℕ) (flushed : ℕ → Bool) (j : ℕ)
    → set_flags flags flushed j ≡ (if is_waiter j flags then true else flushed j)
unfolding set_flags
set_flags-is_waiter [] flushed j = refl
set_flags-is_waiter (flag ∷ flags) flushed j =
    let ih = set_flags-is_waiter flags (λ i. if i == flag then true else flushed i) j in
    ground (arith, ih)

-- The console behind a round: a run of lines for each logger without a file.
abbrev pub Written : Fmt → Worker → Bytes → Type 0
Written fmt w console =
    (bs : Buffers) × (IsAscending bs
      × (((l : ℕ) → text_at l bs ≡ lines_of fmt (λ k. (w.loggers k).formatter_) l w.logs_)
          × (console ≡ w.console ++ written (λ k. (w.loggers k).file_) bs)))

-- Where each logger with a waiting record has a format with a text that is not all newlines, a
-- round succeeds. It takes all records and waiters and sets the flags of exactly these waiters. It
-- appends to the console the lines of each logger without a file, in the order of its records,
-- logger after logger in ascending order of their addresses.
pub round_writes :
    (fmt : Fmt) (w : Worker)
    → AllInk (λ k. (w.loggers k).formatter_) w.logs_
    → (w' : Worker) × ((round fmt w ≡ ok w')
        × ((w'.logs_ ≡ [])
            × ((w'.waiters_ ≡ [])
                × (((j : ℕ) → w'.flushed j ≡ (if is_waiter j w.waiters_ then true else w.flushed j))
                    × Written fmt w w'.console))))
unfolding round drain
round_writes fmt w ink =
    let fs : ℕ → Formatter = λ k. (w.loggers k).formatter_ in
    let files : ℕ → Bytes = λ k. (w.loggers k).file_ in
    let (res, (done, (asc, (like, texts)))) =
      gather-Gathered fmt fs files w.logs_ [] w.loggers ink tt (λ l. (refl, refl)) in
    let w' : Worker = record w {
      logs_ = [];
      waiters_ = [];
      loggers = (write_all res.0 res.1 w.console).0;
      console = (write_all res.0 res.1 w.console).1;
      flushed = set_flags w.waiters_ w.flushed;
    } in
    (
      w',
      (
        rw done refl,
        (
          refl,
          (
            refl,
            (
              set_flags-is_waiter w.waiters_ w.flushed,
              (res.0, (asc, (texts, write_all-written res.0 res.1 w.console like))),
            ),
          ),
        ),
      ),
    )
