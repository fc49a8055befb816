-- ===== src/Log/Worker/Loop/Settings.antt =====
-- What the worker never changes of a logger: all but its reference count and its notifications.
use bc.Prelude.{
  ℕ, ◌≡◌, ◌==◌, refl, ok, Result, Result, [], ◌∷◌, ◌∙◌, Bytes, arith, ap, ◌>>=◌, Gives, gives,
  Gives->>=, Gives-map, >>=-eq-ok, Gives-in_bounds, Bool-cases, inl, inr,
}
use bc.Log.Formatter.{Fmt, format}
use bc.Log.Worker.{
  Logger, Loggers, reference, unreference, Logs, Worker, Buffers, contains, gather, write_all,
  backend_write, drain, round,
}

abbrev pub settings : Loggers → ℕ → Logger
settings ls l = record (ls l) { ref_ = 0; wakes = 0 }

settings-reference_at : (l : ℕ) (ls : Loggers) (j : ℕ) → settings (reference l ls) j ≡ settings ls j
unfolding reference
settings-reference_at l ls j = elim (Bool-cases (j == l)) [
  | inl e ↦ let same : j ≡ l = ground arith in rw (e, same) refl
  | inr e ↦ rw e refl
]

pub settings-reference : (l : ℕ) (ls : Loggers) → settings (reference l ls) ≡ settings ls
settings-reference l ls i j = settings-reference_at l ls j i

settings-unreference_at :
    (l : ℕ) (ls : Loggers) (j : ℕ) → settings (unreference l ls) j ≡ settings ls j
unfolding unreference
settings-unreference_at l ls j = elim (Bool-cases (j == l)) [
  | inl e ↦ let same : j ≡ l = ground arith in rw (e, same) refl
  | inr e ↦ rw e refl
]

settings-unreference : (l : ℕ) (ls : Loggers) → settings (unreference l ls) ≡ settings ls
settings-unreference l ls i j = settings-unreference_at l ls j i

settings-gather :
    (fmt : Fmt) (logs : Logs) (bs : Buffers) (ls : Loggers)
    → Gives (λ r. settings r.1 ≡ settings ls) (gather fmt logs bs ls)
unfolding gather
settings-gather fmt [] bs ls = gives refl
settings-gather fmt ((l, r) ∷ logs) bs ls =
    Gives->>= (Gives-in_bounds (format fmt (ls l).formatter_ r)) (λ line _.
      elim (Bool-cases (contains l bs)) [
        | inl e ↦ rw e (
            Gives-map (settings-gather fmt logs _ (unreference l ls))
              (λ r h. h ∙ settings-unreference l ls))
        | inr e ↦ rw e (
            Gives-map (settings-gather fmt logs _ (unreference l (reference l ls)))
              (λ r h. h ∙ settings-unreference l (reference l ls) ∙ settings-reference l ls))
      ])

settings-write_all :
    (bs : Buffers) (ls : Loggers) (console : Bytes)
    → settings (write_all bs ls console).0 ≡ settings ls
unfolding write_all
settings-write_all [] ls console = refl
settings-write_all ((l, t) ∷ bs) ls console =
    settings-write_all bs (unreference l ls) (backend_write (ls l).file_ t console)
    ∙ settings-unreference l ls

-- A round keeps the settings, and does not stop.
abbrev pub Keeps : Worker → Worker → Type 0
Keeps w w' = (settings w'.loggers ≡ settings w.loggers) × (w'.stop_ ≡ w.stop_)

pub round-Keeps : (fmt : Fmt) (w : Worker) → Gives (Keeps w) (round fmt w)
unfolding round drain
round-Keeps fmt w =
    Gives->>= (settings-gather fmt w.logs_ [] w.loggers)
      (λ r h. gives (settings-write_all r.0 r.1 w.console ∙ h, refl))

-- The last drain is a round that does not empty the members.
pub drain-round :
    (fmt : Fmt) (w w' : Worker)
    → round fmt w ≡ ok w'
    → drain fmt w.logs_ w.waiters_ w ≡ ok (record w' { logs_ = w.logs_; waiters_ = w.waiters_ })
unfolding round drain
drain-round fmt w w' h =
    let (r, e, last) = >>=-eq-ok (gather fmt w.logs_ [] w.loggers) _ h in
    let emptied : Worker → Result Worker =
      λ v. ok (record v { logs_ = w.logs_; waiters_ = w.waiters_ }) in
    rw e (ap (λ x. x >>= emptied) last)
