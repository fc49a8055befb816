-- ===== src/Examples/Sessions.antt =====
-- The coroutines of examples/async-server.cxx, examples/one-time-server.cxx and examples/client.cxx
-- that talk over a connection.
pub mod Echoes
pub mod Replies
use bc.Prelude.{
  ℕ, ◌==◌, ltb, Bool, true, false, if◌then◌else◌, List, [], ◌∷◌, ◌++◌, Bytes, length, Result, ok,
  err, ◌>>=◌, out_of_bounds,
}
use bc.Async.Poller.{Event}
use bc.Network.Awaiters.{resume_read, resume_write}
use bc.Network.Echo.{Output, buffer_size, give_up}
use bc.Network.Socket.{Socket}
use bc.Network.Socket.SystemCalls.{Sys}
use bc.Utils.Error.{report}
use bc.Utils.Expected.{Expected, value, error, get_error}

module _ (sys : Sys) where
  open sys use {World}

  -- `async_session` of async-server.cxx, which reports a failed write by the error of the read.
  unfoldable pub on_answer :
      (World → Output sys) → Expected Bytes ℕ → Result (Expected ℕ ℕ) × Socket × World → Output sys
  on_answer next read_res (ok (value n), s, w) = next w
  on_answer next read_res (ok (error e), s, w) = (get_error read_res >>= give_up, w)
  on_answer next read_res (err fault, s, w) = (err fault, w)

  unfoldable pub on_request :
      Event → (World → Output sys) → Result (Expected Bytes ℕ) × Socket × World → Output sys
  on_request we next (ok (value bytes), s, w) =
      on_answer next (value bytes) (resume_write sys we bytes s w)
  on_request we next (ok (error e), s, w) = (give_up e, w)
  on_request we next (err fault, s, w) = (err fault, w)

  unfoldable pub example_session : List (Event × Event) → Socket → World → Output sys
  example_session [] s w = (ok false, w)
  example_session ((re, we) ∷ events) s w =
      on_request we (λ w'. example_session events s w') (resume_read sys re buffer_size s w)

  -- The loop of one-time-server.cxx, which does not look at what its writes give.
  unfoldable pub on_wrote :
      (World → Output sys) → Result (Expected ℕ ℕ) × Socket × World → Output sys
  on_wrote next (ok write_res, s, w) = next w
  on_wrote next (err fault, s, w) = (err fault, w)

  unfoldable pub on_got :
      Event → (World → Output sys) → Result (Expected Bytes ℕ) × Socket × World → Output sys
  on_got we next (ok (value bytes), s, w) = on_wrote next (resume_write sys we bytes s w)
  on_got we next (ok (error e), s, w) = (ok true, w)
  on_got we next (err fault, s, w) = (err fault, w)

  unfoldable pub once_session : List (Event × Event) → Socket → World → Output sys
  once_session [] s w = (ok false, w)
  once_session ((re, we) ∷ events) s w =
      on_got we (λ w'. once_session events s w') (resume_read sys re buffer_size s w)

-- `cout << buffer.data()`: the bytes before the first zero.
unfoldable pub c_string : Bytes → Bytes
c_string [] = []
c_string (c ∷ bytes) = if c == 0 then [] else c ∷ c_string bytes

-- A line of the console with the events that wake its write and the read behind it.
pub record Line : Type 0 where
  pub text : Bytes
  pub write_event : Event
  pub read_event : Event

module _ (sys : Sys) where
  open sys use {World}

  -- What the handler of client.cxx has printed, and whether it has returned.
  abbrev pub Talk : Type 0
  Talk = List Bytes × Result (Unit {0}) × World

  -- `buffer[*read_res] = 0`, and the line that is printed.
  unfoldable pub on_reply :
      List Bytes → (List Bytes → World → Talk) → Result (Expected Bytes ℕ) × Socket × World → Talk
  on_reply shown next (ok (value bytes), s, w) =
      if ltb (length bytes) buffer_size
      then next (shown ++ c_string bytes ∷ []) w
      else (shown, err out_of_bounds, w)
  on_reply shown next (ok (error e), s, w) = (shown, report e, w)
  on_reply shown next (err fault, s, w) = (shown, err fault, w)

  unfoldable pub on_sent :
      Event
      → List Bytes
      → (List Bytes → World → Talk)
      → Result (Expected ℕ ℕ) × Socket × World
      → Talk
  on_sent re shown next (ok (value n), s, w) =
      on_reply shown next (resume_read sys re buffer_size s w)
  on_sent re shown next (ok (error e), s, w) = (shown, report e, w)
  on_sent re shown next (err fault, s, w) = (shown, err fault, w)

  -- The handler, for the lines up to the end of the input.
  unfoldable pub client_session : List Line → List Bytes → Socket → World → Talk
  client_session [] shown s w = (shown, ok tt, w)
  client_session (line ∷ lines) shown s w =
      on_sent line.read_event shown (λ shown' w'. client_session lines shown' s w')
        (resume_write sys line.write_event line.text s w)
