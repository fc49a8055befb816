-- ===== src/Examples/OneTime/Serves.antt =====
-- The server of one client from its start to its session.
use bc.Prelude.{ℕ, zero, suc, ◌<◌, ◌≡◌, refl, ap, ◌∙◌, true, List, ok, none, arith}
use bc.Async.Poller.{Event, Outcome, done, failed}
use bc.Network.Address.{Address, Domain}
use bc.Network.Awaiters.{accept_proxy, accepted}
use bc.Network.Echo.{session}
use bc.Network.Socket.{Socket, new_socket, listen_at, wrap, is_transient}
use bc.Network.Socket.SystemCalls.{Sys, tcp, peer}
use bc.Utils.Expected.{value}
use bc.Examples.OneTime.{
  once_backlog, on_accept, accept_until, on_client, on_listening, one_time_server,
}
use bc.Examples.Sessions.Echoes.{Follows, once_session-Follows}

module _ (sys : Sys) where
  open sys use {World}

  -- The call of accept behind so many that fail in passing gives a client.
  pub data Comes (s : Socket) : ℕ → World → Socket → World → Type 0 where
    comes :
        {w w' : World} {fd : ℕ}
        → sys.accept s.fd_ w ≡ (w', done fd)
        → Comes s 0 w (wrap fd s.domain_ peer) w'
    waits :
        {n errno : ℕ} {w w' w'' : World} {client : Socket}
        → sys.accept s.fd_ w ≡ (w', failed errno)
        → is_transient errno ≡ true
        → Comes s n w' client w''
        → Comes s (suc n) w client w''

  accept_proxy-accept :
      (s : Socket) {w w' : World} {o : Outcome ℕ}
      → sys.accept s.fd_ w ≡ (w', o)
      → accept_proxy sys s w ≡ (ok (accepted s.domain_ o), s, w')
  unfolding accept_proxy
  accept_proxy-accept s a = rw a refl

  accept_until-Comes :
      (fuel : ℕ) {n : ℕ} (s : Socket) {client : Socket} {w w' : World}
      → n < fuel
      → Comes s n w client w'
      → accept_until sys fuel s w ≡ (ok (value client), w')
  unfolding accept_until on_accept
  accept_until-Comes zero s h c = absurd (omega arith)
  accept_until-Comes (suc fuel) s h (comes a) =
      ap (on_accept sys (accept_until sys fuel)) (accept_proxy-accept s a)
  accept_until-Comes (suc fuel) s {client} {w} {w'} h (waits {errno = errno} {w' = w1} a t c) =
      let none_yet : accepted s.domain_ (failed errno) ≡ none = rw t refl in
      ap (on_accept sys (accept_until sys fuel)) (accept_proxy-accept s a)
      ∙ rw none_yet (accept_until-Comes fuel s (omega arith) c)

  -- Where the server comes to listen, and a client comes behind calls of accept that fail in passing,
  -- fewer than the fuel, it ends in the world and with the result of the session of main.cpp for that
  -- client, if that session goes on with the events.
  pub one_time_server-Follows :
      (fuel n : ℕ) (events : List (Event × Event)) (address : Address) (found : Domain)
      (sock client : Socket) (w w1 w2 : World)
      → listen_at sys tcp address once_backlog (new_socket found) w ≡ (ok tt, sock, w1)
      → Comes sock n w1 client w2
      → n < fuel
      → Follows sys (one_time_server sys fuel events address found w) (session sys events client w2)
  unfolding one_time_server on_listening on_client
  one_time_server-Follows fuel n events address found sock client w w1 w2 listens c h goes =
      rw (listens, accept_until-Comes fuel sock h c)
        (once_session-Follows sys events client w2 goes)
