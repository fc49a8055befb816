-- ===== src/Examples/Tests/OneClient.antt =====
-- The server of one-time-server.cxx over the simulated descriptors: it listens at 3 and serves 4.
use bc.Prelude.{◌≡◌, refl, ok, false, pos, arith}
use bc.Network.Address
use bc.Network.Address.{ipv4}
use bc.Network.Echo.{session, on_read, on_written}
use bc.Network.Socket.{Socket, new_socket, use_domain, bind, listen, listen_at, wrap}
use bc.Network.Socket.SystemCalls.{tcp, server, peer}
use bc.Network.Awaiters.{resume_read, resume_write}
use bc.Network.Tests.Echo.{wakes}
use bc.Network.Tests.Sockets.{Descriptors, simulated, started, fresh, any_address}
use bc.Examples.OneTime.{once_backlog, one_time_server}
use bc.Examples.OneTime.Serves.{Comes, comes, one_time_server-Follows}

abbrev at_three : Descriptors
at_three = (fresh started).0

abbrev listener : Socket
listener = record { fd_ = pos 3; domain_ = ipv4; role_ = server }

came : Comes simulated listener 0 at_three (wrap 4 ipv4 peer) (fresh at_three).0
came = comes refl

listened :
    listen_at simulated tcp any_address once_backlog (new_socket ipv4) started
    ≡ (ok tt, listener, at_three)
unfolding listen_at bind listen use_domain Address.domain
listened = refl

goes_on : (session simulated wakes (wrap 4 ipv4 peer) (fresh at_three).0).0 ≡ ok false
unfolding session on_read on_written resume_read resume_write
goes_on = refl

one_time_server-Follows_example :
    one_time_server simulated 1 wakes any_address ipv4 started
    ≡ session simulated wakes (wrap 4 ipv4 peer) (fresh at_three).0
one_time_server-Follows_example =
    one_time_server-Follows simulated 1 0 wakes any_address ipv4 listener (wrap 4 ipv4 peer) started
      at_three (fresh at_three).0 listened came (omega arith) goes_on
