-- ===== src/Network/Awaiters.antt =====
-- The awaiters of include/bc/network/socket.hpp: what they ask of the scheduler, and what they do when
-- their coroutine or proxy is called with the events that have come.
pub mod Resume
use Prim.Native.Nat.{bit_and, bit_or}
use bc.Prelude.{
  ℕ, zero, suc, Bool, true, false, not, ◌==◌, if◌then◌else◌, List, [], Bytes, Option, none, some,
  Result, ok, err, out_of_fuel, terminated, assertion, ℤ,
}
use bc.Async.Poller.{
  Event, Outcome, done, failed, no_event, read_event, write_event, error_event, hangup_event,
  rdhangup_event,
}
use bc.Async.Scheduler.{DescriptorNode, Next, coro, proxy, Post, at_descriptor}
use bc.Network.Address.{Domain, Address}
use bc.Network.Socket.SystemCalls.{Sys, Role, peer, eintr, einprogress}
use bc.Network.Socket.{Socket, wrap, is_transient, received, sent, Method}
use bc.Utils.Error.{Errc, number}
use bc.Utils.Expected.{Expected, value, error}

-- What `await_suspend` posts, for the cell of `revent_` and the coroutine or proxy.
abbrev pub read_mask : Event
read_mask = bit_or (bit_or (bit_or read_event error_event) hangup_event) rdhangup_event

abbrev pub write_mask : Event
write_mask = bit_or (bit_or write_event error_event) hangup_event

unfoldable pub suspend_read : ℕ → ℕ → ℕ → Post
suspend_read fd revent handle =
    at_descriptor fd (record { ev = read_mask; revent = revent; next = coro handle })

-- The awaiters of a write and of a connect post alike.
unfoldable pub suspend_write : ℕ → ℕ → ℕ → Post
suspend_write fd revent handle =
    at_descriptor fd (record { ev = write_mask; revent = revent; next = coro handle })

unfoldable pub suspend_accept : ℕ → ℕ → ℕ → Post
suspend_accept fd revent p =
    at_descriptor fd (record { ev = read_event; revent = revent; next = proxy p })

abbrev pub has_error : Event → Bool
has_error revent = not (bit_and revent error_event == 0)

abbrev pub has_hangup : Event → Bool
has_hangup revent = not (bit_and revent (bit_or hangup_event rdhangup_event) == 0)

-- The proxy of an accept gives `none` where it is to be called again, and else what it stores in
-- `res_` before it resumes the coroutine.
abbrev pub accepted : Domain → Outcome ℕ → Option (Expected Socket ℕ)
accepted d (done fd) = some (value (wrap fd d peer))
accepted d (failed errno) = if is_transient errno then none else some (error errno)

abbrev pub is_done : {A : Type 0} → Outcome A → Bool
is_done (done a) = true
is_done (failed errno) = false

module _ (sys : Sys) where
  open sys use {World}

  unfoldable pub accept_proxy : Method World (Option (Expected Socket ℕ))
  accept_proxy s w = let (w', o) = sys.accept s.fd_ w in (ok (accepted s.domain_ o), s, w')

  -- `await_resume` of a read.
  unfoldable pub resume_read : Event → ℕ → Method World (Expected Bytes ℕ)
  resume_read revent size s w =
      if revent == no_event
      then (err assertion, s, w)
      else if has_error revent
      then (ok (error (number Errc.epoll_error)), s, w)
      else if has_hangup revent
      then (ok (error (number Errc.closed_by_peer)), s, w)
      else (let (w', o) = sys.read s.fd_ size w in (ok (received o), s, w'))

  -- `await_resume` of a write.
  unfoldable pub resume_write : Event → Bytes → Method World (Expected ℕ ℕ)
  resume_write revent bytes s w =
      if has_error revent
      then (ok (error (number Errc.epoll_error)), s, w)
      else if has_hangup revent
      then (ok (error (number Errc.closed_by_peer)), s, w)
      else (let (w', o) = sys.write s.fd_ bytes w in (ok (sent o), s, w'))

  -- `await_ready` of a connect: whether the connection stands. `throw;` ends the program.
  unfoldable pub connect_ready : ℕ → ℤ → Address → World → Result Bool × World
  connect_ready zero fd addr w = (err out_of_fuel, w)
  connect_ready (suc fuel) fd addr w =
      let (w', o) = sys.connect fd addr w in
      let retry = connect_ready fuel fd addr w' in
      elim o [
        | done _ ↦ (ok true, w')
        | failed errno ↦
            if errno == eintr
            then retry
            else if errno == einprogress
            then (ok false, w')
            else (err terminated, w')
      ]

  -- `await_resume` of a connect.
  unfoldable pub resume_connect : Event → ℤ → Address → World → Bool × World
  resume_connect revent fd addr w =
      if has_error revent
      then (false, w)
      else if has_hangup revent
      then (false, w)
      else (let (w', o) = sys.connect fd addr w in (is_done o, w'))
