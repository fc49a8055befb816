-- ===== src/Network/Echo/Scheduled/Echoes.antt =====
-- What the session's coroutine sends back, over the scheduler.
use bc.Prelude.{ℕ, suc, ◌<◌, ◌≡◌, List, [], Result, some, get_elem?, pos}
use bc.Async.Poller.{Epoll, Event}
use bc.Async.Scheduler.Posts.{Accepts, IsTuned}
use bc.Network.Socket.{Socket}
use bc.Network.Socket.SystemCalls.{Sys}
use bc.Network.Echo.{Output, session}
use bc.Network.Echo.Lossless.{Connection, Echoes, IsComplete, IsFirm, session-Echoes}
use bc.Network.Echo.Scheduled.{Machine}
use bc.Network.Echo.Scheduled.Posted.{S}
use bc.Network.Echo.Scheduled.Refines.{in_turn, AreAwaited, Carries, attend, attend-session}

module _ (sys : Sys) (s : Socket) (fd : ℕ) (at_fd : s.fd_ ≡ pos fd)
    (conn : Connection sys s.fd_) where
  open sys use {World}

  module _ (complete : IsComplete sys s conn) (firm : IsFirm sys s conn) (epoll : Epoll)
      (machine : Machine epoll.Kernel World) where
    -- What becomes of the scheduler is what an output of the session says that has such a course.
    abbrev pub SendsBack :
        List (Event × Event) → World → Result (S sys s fd at_fd epoll machine) → Type 0
    SendsBack pairs w r =
        (out : Output sys) × (Carries sys s fd at_fd epoll machine r out
          × Echoes sys s conn pairs w out)

    -- Over a scheduler without a node at its descriptor, with room for that in a poller that mirrors
    -- the kernel, with a kernel that accepts what fits its state, and where every write that succeeds
    -- is complete and none fails in passing: the session's coroutine, called by the handler for one
    -- event that it waits for after the other, reads and writes in turn up to the end of the events, a
    -- read that fails or faults, or a write that fails. What it has read and then written is what has
    -- come and gone, in order; only the bytes whose write has failed have come and not gone. Where it
    -- does not fault, no call of the handler fails; its fault ends the program.
    pub attend-SendsBack :
        0 < fd
        → Accepts epoll fd
        → (fuel : ℕ) (pairs : List (Event × Event)) (w : World) (t : S sys s fd at_fd epoll machine)
        → AreAwaited pairs
        → get_elem? t.descriptor_nodes fd ≡ some []
        → IsTuned epoll fd t.poller t.kernel
        → SendsBack pairs w
            (attend sys s fd at_fd epoll machine (suc (suc fuel)) (in_turn pairs) w t)
    attend-SendsBack positive accepts fuel pairs w t awaited empty tuned = (
      session sys pairs s w,
      (
        attend-session sys s fd at_fd epoll machine positive accepts fuel pairs w t awaited empty
            tuned,
        session-Echoes sys s conn complete firm pairs w,
      ),
    )
