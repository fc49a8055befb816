-- ===== src/Log/Worker/Loop/Served.antt =====
-- What the thread of the worker has done, at each of its requests.
use mathlib.Core.Path.{subst}
use bc.Prelude.{
  ℕ, ◌+◌, ◌≡◌, Bool, true, false, ◌==◌, ◌||◌, ltb, if◌then◌else◌, List, [], ◌∷◌, refl, ap, ◌∙◌,
  ◌++◌, length, append_laws, Result, ok, arith, Gives-eq-ok, Bool-cases, inl, inr, ◌⊎◌,
}
use bc.Log.Record.{Record, level_lt}
use bc.Log.Formatter.{Fmt}
use bc.Log.Worker.{Loggers, reference, Logs, Worker, Buffers, append, log, flush}
use bc.Log.Worker.Texts.{lines_of, written, is_waiter}
use bc.Log.Worker.References.{Counts, log-Counts}
use bc.Log.Worker.Loop.{Request, logs, flushes, stops, stop, serve, serve_all}
use bc.Log.Worker.Loop.Settings.{settings, settings-reference}
use bc.Log.Worker.Loop.Blocks.{texts_of}

-- The records that a request hands to the worker.
abbrev pub passed : Loggers → Request → Logs
passed ls (logs l r) =
    if level_lt r.lv (ls l).level_ then [] else (l, record r { topic = (ls l).topic_ }) ∷ []
passed ls (flushes flag) = []
passed ls stops = []

abbrev pub passed_all : Loggers → List Request → Logs
passed_all ls [] = []
passed_all ls (r ∷ rs) = passed ls r ++ passed_all ls rs

-- Whether a flush asks for the flag.
abbrev pub asks : ℕ → Request → Bool
asks j (logs l r) = false
asks j (flushes flag) = j == flag
asks j stops = false

abbrev pub any_asks : ℕ → List Request → Bool
any_asks j [] = false
any_asks j (r ∷ rs) = if asks j r then true else any_asks j rs

-- The program ends by its last request, and by no other.
abbrev pub StopsLast : List Request → Type 0
StopsLast [] = ⊥
StopsLast (stops ∷ rs) = rs ≡ []
StopsLast (logs l r ∷ rs) = StopsLast rs
StopsLast (flushes flag ∷ rs) = StopsLast rs

-- The requests that are still to come fit the worker's state.
abbrev pub Fits : Worker → List Request → Type 0
Fits w rs = ((w.stop_ ≡ false) × StopsLast rs) ⊎ ((w.stop_ ≡ true) × (rs ≡ []))

-- The worker behind a record that is handed to it.
abbrev handed : ℕ → Record → Worker → Worker
handed l r w =
    let logs = w.logs_ ++ (l, record r { topic = (w.loggers l).topic_ }) ∷ [] in
    record w {
      logs_ = logs;
      loggers = reference l w.loggers;
      wakes = if ltb 20 (length logs) then w.wakes + 1 else w.wakes;
    }

log_low :
    (l : ℕ) (r : Record) (w : Worker) → level_lt r.lv (w.loggers l).level_ ≡ true → log l r w ≡ ok w
unfolding log
log_low l r w low = rw low refl

log_high :
    (l : ℕ) (r : Record) (w : Worker)
    → w.stop_ ≡ false
    → level_lt r.lv (w.loggers l).level_ ≡ false
    → log l r w ≡ ok (handed l r w)
unfolding log append
log_high l r w running high = rw (high, running) refl

one_more :
    (xs ys : Logs) (x : ℕ × Record) (zs : Logs) → xs ++ ys ++ x ∷ zs ≡ xs ++ (ys ++ x ∷ []) ++ zs
one_more xs ys x zs = simp append_laws

is_waiter-append :
    (j flag : ℕ) (flags : List ℕ)
    → is_waiter j (flags ++ flag ∷ []) ≡ (if j == flag then true else is_waiter j flags)
is_waiter-append j flag [] = refl
is_waiter-append j flag (f ∷ flags) = ground (arith, is_waiter-append j flag flags)

module _ (fmt : Fmt) (start : Worker) (all : List Request) where
  -- The worker before the last of all requests, `rs`: what has been drained is written, in `blocks`.
  pub record Served (rs : List Request) (w : Worker) : Type 0 where
    pub kept : settings w.loggers ≡ settings start.loggers
    pub counted : Counts w
    pub fits : Fits w rs
    pub answered :
        (j : ℕ)
        → any_asks j all ≡ true
        → (any_asks j rs || is_waiter j w.waiters_ || w.flushed j) ≡ true
    pub drained : Logs
    pub blocks : Buffers
    pub split : passed_all start.loggers all ≡ drained ++ w.logs_ ++ passed_all start.loggers rs
    pub texts :
        (l : ℕ) → texts_of l blocks ≡ lines_of fmt (λ k. (start.loggers k).formatter_) l drained
    pub shown : w.console ≡ start.console ++ written (λ k. (start.loggers k).file_) blocks

  abbrev pub Reaches : List Request → Result Worker → Type 0
  Reaches rs out = (w : Worker) × ((out ≡ ok w) × Served rs w)

  log-Reaches :
      (l : ℕ) (r : Record) (rs : List Request) (w : Worker)
      → w.stop_ ≡ false
      → StopsLast rs
      → Served (logs l r ∷ rs) w
      → Reaches rs (log l r w)
  log-Reaches l r rs w running f s =
      let level : (w.loggers l).level_ ≡ (start.loggers l).level_ = ap (λ g. (g l).level_) s.kept in
      elim (Bool-cases (level_lt r.lv (start.loggers l).level_)) [
        | inl e ↦ (
          w,
          (
            log_low l r w (rw level e),
            record {
              kept = s.kept;
              counted = s.counted;
              fits = inl (running, f);
              answered = s.answered;
              drained = s.drained;
              blocks = s.blocks;
              split = s.split ∙ rw e refl;
              texts = s.texts;
              shown = s.shown;
            },
          ),
        )
        | inr e ↦
            let done = log_high l r w running (rw level e) in
            let topic : (w.loggers l).topic_ ≡ (start.loggers l).topic_ =
              ap (λ g. (g l).topic_) s.kept in
            (
              handed l r w,
              (
                done,
                record {
                  kept = settings-reference l w.loggers ∙ s.kept;
                  counted = Gives-eq-ok (log-Counts l r w s.counted) done;
                  fits = inl (running, f);
                  answered = s.answered;
                  drained = s.drained;
                  blocks = s.blocks;
                  split = s.split ∙ rw (e, topic) (one_more s.drained w.logs_ _ _);
                  texts = s.texts;
                  shown = s.shown;
                },
              ),
            )
      ]

  flush-Reaches :
      (flag : ℕ) (rs : List Request) (w : Worker)
      → w.stop_ ≡ false
      → StopsLast rs
      → Served (flushes flag ∷ rs) w
      → Reaches rs (flush flag w)
  unfolding flush
  flush-Reaches flag rs w running f s =
      let w' : Worker = record w {
        waiters_ = w.waiters_ ++ flag ∷ [];
        wakes = w.wakes + 1;
        flushed = λ j. if j == flag then false else w.flushed j;
      } in
      (
        w',
        (
          rw running refl,
          record {
            kept = s.kept;
            counted = s.counted;
            fits = inl (running, f);
            answered = λ j h. ground (arith, is_waiter-append j flag w.waiters_, s.answered j h);
            drained = s.drained;
            blocks = s.blocks;
            split = s.split;
            texts = s.texts;
            shown = s.shown;
          },
        ),
      )

  stop-Reaches : (w : Worker) → w.stop_ ≡ false → Served (stops ∷ []) w → Reaches [] (ok (stop w))
  unfolding stop
  stop-Reaches w running s =
      let w' : Worker = record w { stop_ = true; wakes = w.wakes + 1 } in
      (
        w',
        (
          rw running refl,
          record {
            kept = s.kept;
            counted = s.counted;
            fits = inr (refl, refl);
            answered = s.answered;
            drained = s.drained;
            blocks = s.blocks;
            split = s.split;
            texts = s.texts;
            shown = s.shown;
          },
        ),
      )

  serve-Reaches :
      (r : Request) (rs : List Request) (w : Worker) → Served (r ∷ rs) w → Reaches rs (serve r w)
  unfolding serve
  serve-Reaches (logs l r) rs w s = elim s.fits [
    | inl (running, f) ↦ log-Reaches l r rs w running f s
    | inr (stopped, f) ↦ absurd (cc f)
  ]
  serve-Reaches (flushes flag) rs w s = elim s.fits [
    | inl (running, f) ↦ flush-Reaches flag rs w running f s
    | inr (stopped, f) ↦ absurd (cc f)
  ]
  serve-Reaches stops rs w s = elim s.fits [
    | inl (running, f) ↦ rw f (stop-Reaches w running (subst (λ x. Served (stops ∷ x) w) f s))
    | inr (stopped, f) ↦ absurd (cc f)
  ]

  pub serve_all-Reaches :
      (rs more : List Request) (w : Worker) → Served (rs ++ more) w → Reaches more (serve_all rs w)
  unfolding serve_all
  serve_all-Reaches [] more w s = (w, (refl, s))
  serve_all-Reaches (r ∷ rs) more w s =
      let (w', (e, s')) = serve-Reaches r (rs ++ more) w s in rw e (serve_all-Reaches rs more w' s')
