-- ===== src/Network/Client.antt =====
-- include/bc/network/client.hpp. The handler is a parameter: `start` runs its coroutine until it first
-- waits, and gives the task. So is the wait for the connection: `woken` gives the events that end it.
pub mod Connects
use bc.Prelude.{
  ℕ, Bool, true, false, Bytes, Option, none, some, Result, ok, err, ◌>>=◌, Fault, assertion,
  out_of_bounds, dangling, terminated, out_of_fuel, thrown, ℤ,
}
use bc.Async.Poller.{Event, no_event}
use bc.Async.Task.{Task, move_assign}
use bc.Network.Address.{Address, address}
use bc.Network.Socket.SystemCalls.{Sys, Protocol}
use bc.Network.Socket.{Socket, async_connect}
use bc.Network.Awaiters.{connect_ready, resume_connect}

pub record Client : Type 0 where
  pub sock_ : Socket
  pub task_ : Task

-- An exception that leaves a coroutine ends the program (`unhandled_exception`).
abbrev pub unhandled {ℓ} : {A : Type ℓ} → Result A → Result A
unhandled (ok a) = ok a
unhandled (err (thrown errno)) = err terminated
unhandled (err fault) = err fault

module _ (sys : Sys) (proto : Protocol) (start : Socket → sys.World → ℕ × sys.World)
    (woken : sys.World → Event × sys.World) where
  open sys use {World}

  abbrev pub resumed : ℤ → Address → Event × World → Result Bool × World
  resumed fd addr (revent, w) = let (b, w') = resume_connect sys revent fd addr w in (ok b, w')

  -- `co_await`: a connection that stands at once is resumed without events.
  abbrev pub awaited : ℤ → Address → Result Bool × World → Result Bool × World
  awaited fd addr (ok true, w) = resumed fd addr (no_event, w)
  awaited fd addr (ok false, w) = resumed fd addr (woken w)
  awaited fd addr (err fault, w) = (err fault, w)

  unfoldable pub handle : Client → Result Bool × World → Result Client × World
  handle c (ok b, w) =
      let (t, w') = start c.sock_ w in
      (move_assign c.task_ (some t) >>= λ r. ok (record c { task_ = r.0 }), w')
  handle c (err fault, w) = (err fault, w)

  unfoldable pub connect :
      ℕ → Address → Task → Result (Unit {0}) × Socket × World → Result Client × World
  connect fuel addr task_ (ok tt, s, w) =
      handle (record { sock_ = s; task_ = task_ })
        (awaited s.fd_ addr (connect_ready sys fuel s.fd_ addr w))
  connect fuel addr task_ (err fault, s, w) = (unhandled (err fault), w)

  unfoldable pub connect_to : ℕ → Client → World → Result Address → Result Client × World
  connect_to fuel c w (ok addr) = connect fuel addr c.task_ (async_connect sys proto addr c.sock_ w)
  connect_to fuel c w (err fault) = (unhandled (err fault), w)

  -- `async_connect`.
  unfoldable pub client_connect : ℕ → Bytes → ℕ → Client → World → Result Client × World
  client_connect fuel hostname port c w = connect_to fuel c w (address hostname port)
