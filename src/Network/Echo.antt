-- ===== src/Network/Echo.antt =====
-- main.cpp: the session that the program's server starts for each client: it sends back what it
-- reads.
pub mod Course
pub mod Lossless
pub mod Scheduled
use bc.Prelude.{ℕ, Bool, true, false, List, [], ◌∷◌, Bytes, Result, ok, err, ◌>>◌}
use bc.Async.Poller.{Event}
use bc.Network.Socket.SystemCalls.{Sys}
use bc.Network.Socket.{Socket}
use bc.Network.Awaiters.{resume_read, resume_write}
use bc.Utils.Error.{report}
use bc.Utils.Expected.{Expected, value, error}

abbrev pub buffer_size : ℕ
buffer_size = 1024

-- The error is logged, and the loop left.
abbrev pub give_up : ℕ → Result Bool
give_up e = report e >> ok true

module _ (sys : Sys) where
  open sys use {World}

  -- Whether the session is over, or why it has failed.
  abbrev pub Output : Type 0
  Output = Result Bool × World

  -- What follows the write, and what follows the read, up to the next read.
  unfoldable pub on_written : (World → Output) → Result (Expected ℕ ℕ) × Socket × World → Output
  on_written next (ok (value n), s, w) = next w
  on_written next (ok (error e), s, w) = (give_up e, w)
  on_written next (err fault, s, w) = (err fault, w)

  unfoldable pub on_read :
      Event → (World → Output) → Result (Expected Bytes ℕ) × Socket × World → Output
  on_read we next (ok (value bytes), s, w) = on_written next (resume_write sys we bytes s w)
  on_read we next (ok (error e), s, w) = (give_up e, w)
  on_read we next (err fault, s, w) = (err fault, w)

  -- The loop, with the events that wake each of its reads and the write behind it.
  unfoldable pub session : List (Event × Event) → Socket → World → Output
  session [] s w = (ok false, w)
  session ((re, we) ∷ events) s w =
      on_read we (λ w'. session events s w') (resume_read sys re buffer_size s w)
