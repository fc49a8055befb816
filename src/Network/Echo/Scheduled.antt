-- ===== src/Network/Echo/Scheduled.antt =====
-- main.cpp: the session's coroutine over the scheduler. It suspends at its two `co_await`s, with one
-- cell for the `revent_` of the awaiter that it waits with.
pub mod Posted
pub mod Turns
pub mod Refines
pub mod Echoes
use bc.Prelude.{ℕ, Bool, true, false, List, [], ◌∷◌, Bytes, Result, ok, err, ℤ, pos, negsuc}
use bc.Async.Poller.{Event, EpollEvent, Outcome, no_event}
use bc.Async.Scheduler.{Host, Post}
use bc.Network.Awaiters.{resume_read, resume_write, suspend_read, suspend_write}
use bc.Network.Echo.{buffer_size, give_up}
use bc.Network.Socket.{Socket}
use bc.Network.Socket.SystemCalls.{Sys}
use bc.Utils.Expected.{Expected, value, error}

-- What the scheduler asks of the machine beside the coroutines.
pub record Machine (Kernel World : Type 0) : Type 0 where
  pub now : World → ℕ × World
  pub sleep_for : ℤ → World → World
  pub wait : Kernel → ℕ → ℕ → World → World × Outcome (List EpollEvent)

-- The `co_await` that the session waits at, or how it has ended.
pub data Stage : Type 0 where
  reading : Stage
  writing : Bytes → Stage
  over : Result Bool → Stage

abbrev pub has_ended : Stage → Bool
has_ended (over _) = true
has_ended _ = false

pub record Coroutine (World : Type 0) : Type 0 where
  pub stage : Stage
  pub revent : Event
  pub outside : World

-- The descriptor to post at: at -1, as at 0, `post_coro` fails its assertion.
abbrev pub post_fd : ℤ → ℕ
post_fd (pos fd) = fd
post_fd (negsuc _) = 0

module _ (sys : Sys) (s : Socket) where
  open sys use {World}

  abbrev pub at : Stage → World → Coroutine World
  at stage w = record { stage = stage; revent = no_event; outside = w }

  -- Up to the first `co_await`, and from it to the next.
  unfoldable pub begin : World → Coroutine World × List Post
  begin w = (at reading w, suspend_read (post_fd s.fd_) 0 0 ∷ [])

  unfoldable pub after_write : Result (Expected ℕ ℕ) × Socket × World → Coroutine World × List Post
  after_write (ok (value n), _, w) = begin w
  after_write (ok (error e), _, w) = (at (over (give_up e)) w, [])
  after_write (err fault, _, w) = (at (over (err fault)) w, [])

  unfoldable pub after_read :
      Result (Expected Bytes ℕ) × Socket × World → Coroutine World × List Post
  after_read (ok (value bytes), _, w) =
      (at (writing bytes) w, suspend_write (post_fd s.fd_) 0 0 ∷ [])
  after_read (ok (error e), _, w) = (at (over (give_up e)) w, [])
  after_read (err fault, _, w) = (at (over (err fault)) w, [])

  -- `handle.resume()`.
  unfoldable pub continue : Stage → Event → World → Coroutine World × List Post
  continue reading revent w = after_read (resume_read sys revent buffer_size s w)
  continue (writing bytes) revent w = after_write (resume_write sys revent bytes s w)
  continue (over r) revent w = (record { stage = over r; revent = revent; outside = w }, [])

  module _ {Kernel : Type 0} (machine : Machine Kernel World) where
    -- The session is the one coroutine that waits at its descriptor.
    abbrev pub host : Host Kernel
    host = record {
      World = Coroutine World;
      now = λ c. ((machine.now c.outside).0, record c { outside = (machine.now c.outside).1 });
      sleep_for = λ r c. record c { outside = machine.sleep_for r c.outside };
      wait = λ k size timeout c.
          let (w, o) = machine.wait k size timeout c.outside in (record c { outside = w }, o);
      is_done = λ h c. has_ended c.stage;
      set_revent = λ cell e c. record c { revent = e };
      resume = λ h c. continue c.stage c.revent c.outside;
      call = λ p c. (c, [], true);
    }
