-- ===== src/Examples/OneTime.antt =====
-- examples/one-time-server.cxx: the server of one client. Between the wait for the client and its
-- coming, the world is as the accept's proxy finds it.
pub mod Serves
use bc.Prelude.{
  ℕ, zero, suc, Bool, true, false, List, Option, none, some, Result, ok, err, out_of_fuel,
}
use bc.Async.Poller.{Event}
use bc.Network.Address.{Address, Domain}
use bc.Network.Awaiters.{accept_proxy}
use bc.Network.Echo.{Output, give_up}
use bc.Network.Socket.{Socket, new_socket, listen_at}
use bc.Network.Socket.SystemCalls.{Sys, tcp}
use bc.Utils.Expected.{Expected, value, error}
use bc.Examples.Sessions.{once_session}

abbrev pub once_backlog : ℕ
once_backlog = 10

module _ (sys : Sys) where
  open sys use {World}

  -- `co_await async_accept(sock)`: the proxy, called until it has an answer.
  abbrev pub Answer : Type 0
  Answer = Result (Expected Socket ℕ) × World

  unfoldable pub on_accept :
      (Socket → World → Answer) → Result (Option (Expected Socket ℕ)) × Socket × World → Answer
  on_accept again (ok (some res), s, w) = (ok res, w)
  on_accept again (ok none, s, w) = again s w
  on_accept again (err fault, s, w) = (err fault, w)

  unfoldable pub accept_until : ℕ → Socket → World → Answer
  accept_until zero s w = (err out_of_fuel, w)
  accept_until (suc fuel) s w = on_accept (accept_until fuel) (accept_proxy sys s w)

  unfoldable pub on_client : List (Event × Event) → Result (Expected Socket ℕ) × World → Output sys
  on_client events (ok (value client), w) = once_session sys events client w
  on_client events (ok (error e), w) = (give_up e, w)
  on_client events (err fault, w) = (err fault, w)

  unfoldable pub on_listening :
      ℕ → List (Event × Event) → Result (Unit {0}) × Socket × World → Output sys
  on_listening fuel events (ok _, sock, w) = on_client events (accept_until fuel sock w)
  on_listening fuel events (err fault, sock, w) = (err fault, w)

  -- `async_one_time_server`, for the address that its name is read as.
  unfoldable pub one_time_server : ℕ → List (Event × Event) → Address → Domain → World → Output sys
  one_time_server fuel events address found w =
      on_listening fuel events (listen_at sys tcp address once_backlog (new_socket found) w)
