-- ===== src/Log/Tests.antt =====
-- The formatter at the default format of the logger, and at others.
use bc.Prelude.{
  ℕ, false, if◌then◌else◌, ◌==◌, ◌++◌, Result, ok, err, ◌+◌, ◌%◌, ◌≡◌, ◌↔◌, refl, List, [], ◌∷◌,
  none, some, Bytes, codes, inl, All, equal, arith,
}
use bc.Log.Record.{Level, Record, level_string}
use bc.Log.Formatter.{
  Fmt, Segment, text, field, datetime, level, topic, thread, location, message, name_of, Formatter,
  formatter, repr, format,
}
use bc.Log.Formatter.Grammar.{Reads, done, literal, known, at_open}
use bc.Log.Formatter.RoundTrip.{formatter_iff, repr-formatter}
use bc.Log.Formatter.Output.{IsStripped, body, format-IsStripped}
use bc.Log.Destructor.{Reach, start, System, Step}
use bc.Log.Destructor.Races.{Reach-stuck, stuck}
use bc.Log.Worker.{
  Worker, default_format, backend_write, gather, contains, add_to, emplace, write_all, set_flags,
  drain, round, reference, unreference,
}
use bc.Log.Worker.Loop.{Turn, logs, flushes, stops, loop, requests_of}
use bc.Log.Worker.Loop.Ends.{Finishes, loop_writes}

abbrev default_segments : List Segment
default_segments =
    text (codes "[")
    ∷ field datetime
    ∷ text (codes "] [")
    ∷ field level
    ∷ text (codes "] [")
    ∷ field thread
    ∷ text (codes "] [")
    ∷ field location
    ∷ text (codes "] ")
    ∷ field message
    ∷ []

default_parsed : (formatter default_format).segments_ ≡ default_segments
unfolding formatter equal
default_parsed = refl

-- An unknown name adds no segment, and an open one hides the rest.
odd_parsed :
    ((formatter (codes "%%{level}%")).segments_
      ≡ text (codes "%") ∷ field level ∷ text (codes "%") ∷ [])
    × ((formatter (codes "a%{b}c")).segments_ ≡ text (codes "a") ∷ text (codes "c") ∷ [])
    × ((formatter (codes "a%{message")).segments_ ≡ text (codes "a") ∷ [])
unfolding formatter equal
odd_parsed = (refl, refl, refl)

-- A printer for one moment and for numbers of one digit.
abbrev printer : Fmt
printer = record {
  datetime_text = λ t. codes "2024-02-29 12:00:00.000";
  number = λ n. (b'0' + n % 10) ∷ [];
}

abbrev sample : Record
sample = record {
  timestamp = 0;
  lv = Level.warning;
  topic = [];
  tid = 7;
  location = record { file_name = codes "main.cpp"; line = 9 };
  message = codes "low\n\n";
}

formatted :
    format printer (formatter default_format) sample
    ≡ some (codes "[2024-02-29 12:00:00.000] [WARNING] [7] [main.cpp:9] low")
unfolding format formatter equal level_string
formatted = refl

-- The topic of the default logger is empty: a format of the topic alone faults.
abbrev bare : Formatter
bare = record { format_ = codes "%{topic}"; segments_ = field topic ∷ [] }

faulted : format printer bare sample ≡ none
unfolding format
faulted = refl

level_named : name_of (codes "level") ≡ some level
unfolding name_of equal
level_named = refl

abbrev level_only : Reads (codes "x%{level}") (text (codes "x") ∷ field level ∷ [])
level_only =
    literal b'x' [] (codes "%{level}") tt (at_open (codes "level}"))
      (known (codes "level") [] (refl, (refl, (refl, (refl, (refl, tt))))) level_named done)

formatter_iff_example :
    (Reads default_format default_segments)
    ↔ ((formatter default_format).segments_ ≡ default_segments)
formatter_iff_example = formatter_iff default_format default_segments

repr-formatter_example : repr (formatter (codes "x%{level}")) ≡ codes "x%{level}"
repr-formatter_example = repr-formatter level_only tt

abbrev short : Formatter
short = record { format_ = []; segments_ = text (codes "x") ∷ field level ∷ [] }

nonempty : {A : Type 0} → codes "x" ≡ [] → A
nonempty e = cc

format-IsStripped_example :
    IsStripped
      (body printer sample default_segments)
      (format printer (record { format_ = default_format; segments_ = default_segments }) sample)
format-IsStripped_example =
    format-IsStripped printer (record { format_ = default_format; segments_ = default_segments })
      sample

bracket : All (λ c. c ≡ b'\n') (codes "[") → ⊥
bracket h = absurd (omega (arith, h.0))

-- The logger at the address 3 has one record in the worker's list, and a flush waits for it.
abbrev busy : Worker
busy = record {
  logs_ = (3, sample) ∷ [];
  waiters_ = 5 ∷ [];
  stop_ = false;
  wakes = 0;
  loggers = λ j. record {
    topic_ = [];
    level_ = Level.info;
    formatter_ = record { format_ = []; segments_ = text (codes "m: ") ∷ field message ∷ [] };
    file_ = [];
    ref_ = if j == 3 then 1 else 0;
    wakes = 0;
  };
  flushed = λ j. false;
  console = [];
}

abbrev console_of : Result Worker → Bytes
console_of (ok w) = w.console
console_of (err e) = []

abbrev wakes_of : ℕ → Result Worker → ℕ
wakes_of l (ok w) = (w.loggers l).wakes
wakes_of l (err e) = 0

busy_drained :
    (console_of (round printer busy) ≡ codes "m: low" ++ b'\n' ∷ [])
    × (wakes_of 3 (round printer busy) ≡ 1)
unfolding round drain gather contains add_to emplace write_all backend_write set_flags reference
    unreference format level_string
busy_drained = (refl, refl)

inked : All (λ c. c ≡ b'\n') (codes "m: ") → ⊥
inked h = absurd (omega (arith, h.0))

-- A worker at its start, and what other threads ask of it: a record and a flush before its wait is
-- over, a record while it drains, and the end of the program before the next round.
abbrev started : Worker
started = record {
  logs_ = [];
  waiters_ = [];
  stop_ = false;
  wakes = 0;
  loggers = λ j. record (busy.loggers j) { ref_ = 0 };
  flushed = λ j. false;
  console = [];
}

abbrev day : List Turn
day =
    record { waiting = logs 3 sample ∷ flushes 5 ∷ []; draining = logs 4 sample ∷ [] }
    ∷ record { waiting = stops ∷ []; draining = [] }
    ∷ []

loop_writes_example : Finishes printer started (requests_of day) (loop printer day started)
loop_writes_example = loop_writes printer day started refl refl (λ l. refl) (λ l. inl inked) refl

Reach-stuck_example : Reach (start 3) stuck × ((t : System) → Step stuck t → ⊥)
Reach-stuck_example = Reach-stuck 2
