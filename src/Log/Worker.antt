-- ===== src/Log/Worker.antt =====
-- src/log/worker.cpp and the classes `logger` and `backend`: loggers hand records to one worker,
-- which formats and writes them in batches. A logger is known by its address. Each function is one
-- critical section, or code that one thread runs between two of them.
pub mod References
pub mod Buffers
pub mod Texts
pub mod Loop
use bc.Prelude.{
  ℕ, suc, ◌+◌, ◌-◌, ◌%◌, ◌^◌, Bool, true, false, not, ◌==◌, ltb, if◌then◌else◌, List, [], ◌∷◌, ◌++◌,
  Option, none, some, Bytes, codes, length, Result, ok, err, ◌>>=◌, ◌>>◌, assert, in_bounds,
}
use bc.Log.Record.{Level, Record, level_lt}
use bc.Log.Formatter.{Fmt, Formatter, formatter, format}

-- `file_` is the backend's; `wakes` counts the notifications of the logger's `cv_`.
pub record Logger : Type 0 where
  pub topic_ : Bytes
  pub level_ : Level
  pub formatter_ : Formatter
  pub file_ : Bytes
  pub ref_ : ℕ
  pub wakes : ℕ

abbrev pub default_format : Bytes
default_format = codes "[%{datetime}] [%{level}] [%{thread}] [%{location}] %{message}"

-- The constructor of `logger`, and `set_level`.
abbrev pub new_logger : Bytes → Bytes → Logger
new_logger format topic = record {
  topic_ = topic;
  level_ = Level.warning;
  formatter_ = formatter format;
  file_ = [];
  ref_ = 0;
  wakes = 0;
}

abbrev pub set_level : Level → Logger → Logger
set_level level g = record g { level_ = level }

abbrev pub Loggers : Type 0
Loggers = ℕ → Logger

abbrev pub update : Loggers → ℕ → Logger → Loggers
update ls l g j = if j == l then g else ls j

-- `reference_` and `unreference_`, on an atomic 64-bit counter.
unfoldable pub reference : ℕ → Loggers → Loggers
reference l ls = update ls l (record (ls l) { ref_ = ((ls l).ref_ + 1) % 2 ^ 64 })

unfoldable pub unreference : ℕ → Loggers → Loggers
unreference l ls =
    let left = ((ls l).ref_ + 2 ^ 64 - 1) % 2 ^ 64 in
    update ls l
      (record (ls l) { ref_ = left; wakes = if left == 0 then (ls l).wakes + 1 else (ls l).wakes })

abbrev pub Logs : Type 0
Logs = List (ℕ × Record)

-- The worker, with what its code shares: the loggers, the flags of the waiting flushes, and the
-- console. `wakes` counts the notifications of its `cv_`.
pub record Worker : Type 0 where
  pub logs_ : Logs
  pub waiters_ : List ℕ
  pub stop_ : Bool
  pub wakes : ℕ
  pub loggers : Loggers
  pub flushed : ℕ → Bool
  pub console : Bytes

unfoldable pub append : ℕ → Record → Worker → Result Worker
append l r w = do
  assert (not w.stop_)
  let logs = w.logs_ ++ (l, r) ∷ []
  let need_flush = ltb 20 (length logs)
  ok (record w { logs_ = logs; wakes = if need_flush then w.wakes + 1 else w.wakes })

-- `logger::log`, on what the record is made of: its topic is the logger's.
unfoldable pub log : ℕ → Record → Worker → Result Worker
log l r w =
    if level_lt r.lv (w.loggers l).level_
    then ok w
    else append l (record r { topic = (w.loggers l).topic_ })
        (record w { loggers = reference l w.loggers })

-- The first part of `flush`, up to its wait for the flag.
unfoldable pub flush : ℕ → Worker → Result Worker
flush flag w = do
  assert (not w.stop_)
  ok (record w {
    waiters_ = w.waiters_ ++ flag ∷ [];
    wakes = w.wakes + 1;
    flushed = λ j. if j == flag then false else w.flushed j;
  })

-- `std::map<logger const *, std::string>`, in the order of the addresses.
abbrev pub Buffers : Type 0
Buffers = List (ℕ × Bytes)

unfoldable pub contains : ℕ → Buffers → Bool
contains l [] = false
contains l ((k, t) ∷ bs) = if k == l then true else contains l bs

-- `buffers[l] += s` for a key that is there, and for a new one.
unfoldable pub add_to : ℕ → Bytes → Buffers → Buffers
add_to l s [] = []
add_to l s ((k, t) ∷ bs) = if k == l then (k, t ++ s) ∷ bs else (k, t) ∷ add_to l s bs

unfoldable pub emplace : ℕ → Bytes → Buffers → Buffers
emplace l s [] = (l, s) ∷ []
emplace l s ((k, t) ∷ bs) = if ltb l k then (l, s) ∷ (k, t) ∷ bs else (k, t) ∷ emplace l s bs

-- The first loop of `drain_`.
unfoldable pub gather : Fmt → Logs → Buffers → Loggers → Result (Buffers × Loggers)
gather fmt [] bs ls = ok (bs, ls)
gather fmt ((l, r) ∷ logs) bs ls = do
  let known = contains l bs
  let held = if known then ls else reference l ls
  line ← in_bounds (format fmt (ls l).formatter_ r)
  let text = line ++ b'\n' ∷ []
  let bs' = if known then add_to l text bs else emplace l text bs
  gather fmt logs bs' (unreference l held)

-- `backend::write`: a backend with a file writes nothing.
unfoldable pub backend_write : Bytes → Bytes → Bytes → Bytes
backend_write file text console = if length file == 0 then console ++ text else console

-- The second loop.
unfoldable pub write_all : Buffers → Loggers → Bytes → Loggers × Bytes
write_all [] ls console = (ls, console)
write_all ((l, t) ∷ bs) ls console =
    write_all bs (unreference l ls) (backend_write (ls l).file_ t console)

-- The third loop.
unfoldable pub set_flags : List ℕ → (ℕ → Bool) → ℕ → Bool
set_flags [] flushed = flushed
set_flags (flag ∷ flags) flushed = set_flags flags (λ j. if j == flag then true else flushed j)

unfoldable pub drain : Fmt → Logs → List ℕ → Worker → Result Worker
drain fmt logs waiters w = do
  r ← gather fmt logs [] w.loggers
  let (ls, console) = write_all r.0 r.1 w.console
  ok (record w { loggers = ls; console = console; flushed = set_flags waiters w.flushed })

-- One round of `loop_`, behind its wait: what has come is swapped out and drained.
unfoldable pub round : Fmt → Worker → Result Worker
round fmt w = drain fmt w.logs_ w.waiters_ (record w { logs_ = []; waiters_ = [] })

-- The predicate of the wait in `loop_`.
unfoldable pub has_work : Worker → Bool
has_work w = if length w.logs_ == 0 then w.stop_ else true
