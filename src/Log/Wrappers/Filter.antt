-- ===== src/Log/Wrappers/Filter.antt =====
-- Which calls reach the worker.
use bc.Prelude.{
  ℕ, ◌≡◌, refl, false, Option, Result, ok, [], ◌∷◌, ◌++◌, ltb, length, if◌then◌else◌, ◌+◌,
}
use bc.Log.Record.{Level, Record, level_lt}
use bc.Log.Worker.{Worker, log, append, reference, new_logger}
use bc.Log.Wrappers.{logger_of, debug, info, warning, error, fatal}

-- The call succeeds, and its record is the last one that waits.
abbrev pub Reaches : ℕ → Record → Worker → Result Worker → Type 0
Reaches l r w out =
    (w' : Worker) × ((out ≡ ok w')
      × (w'.logs_ ≡ w.logs_ ++ (l, record r { topic = (w.loggers l).topic_ }) ∷ []))

log-Reaches :
    (l : ℕ) (r : Record) (w : Worker)
    → w.stop_ ≡ false
    → level_lt r.lv (w.loggers l).level_ ≡ false
    → Reaches l r w (log l r w)
unfolding log append
log-Reaches l r w running high =
    let logs = w.logs_ ++ (l, record r { topic = (w.loggers l).topic_ }) ∷ [] in
    (
      record w {
        logs_ = logs;
        loggers = reference l w.loggers;
        wakes = if ltb 20 (length logs) then w.wakes + 1 else w.wakes;
      },
      (rw (high, running) refl, refl),
    )

module _ (default_logger : ℕ) where
  -- While the worker has not stopped, a logger with the level of a new one drops what is logged as
  -- debug or info, and passes on warnings, errors and fatal records with its topic.
  wrappers-log :
      (who : Option ℕ) (r : Record) (w : Worker)
      → w.stop_ ≡ false
      → (w.loggers (logger_of default_logger who)).level_ ≡ (new_logger [] []).level_
      → (debug default_logger who r w ≡ ok w)
        × ((info default_logger who r w ≡ ok w)
            × (Reaches
                  (logger_of default_logger who)
                  (record r { lv = Level.warning })
                  w
                  (warning default_logger who r w)
                × (Reaches
                      (logger_of default_logger who)
                      (record r { lv = Level.error })
                      w
                      (error default_logger who r w)
                    × Reaches
                        (logger_of default_logger who)
                        (record r { lv = Level.fatal })
                        w
                        (fatal default_logger who r w))))
  unfolding debug info warning error fatal log
  wrappers-log who r w running level =
      let l = logger_of default_logger who in
      (
        rw level refl,
        (
          rw level refl,
          (
            log-Reaches l (record r { lv = Level.warning }) w running (rw level refl),
            (
              log-Reaches l (record r { lv = Level.error }) w running (rw level refl),
              log-Reaches l (record r { lv = Level.fatal }) w running (rw level refl),
            ),
          ),
        ),
      )
