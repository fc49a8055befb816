-- ===== src/Network/Tests/Clients.antt =====
-- A client whose connection is in progress and breaks.
use bc.Prelude.{ℕ, ◌≡◌, refl, false, Bytes, codes, ok, err, assertion, pos}
use bc.Async.Poller.{Event, error_event}
use bc.Network.Address.{ipv4, in4, Address, address, parse_ipv4, from, read_parts}
use bc.Network.Chars.{digit_in, from_chars, split, read_digits, split_from}
use bc.Utils.Expected.{deref}
use bc.Network.Awaiters.{connect_ready, resume_connect}
use bc.Network.Client.{client_connect}
use bc.Network.Client.Connects.{new_client, connected, connect-handler}
use bc.Network.Socket.{Socket}
use bc.Network.Socket.SystemCalls.{tcp}
use bc.Network.Tests.Sockets.{Descriptors, simulated, started, fresh}

abbrev begin : Socket → Descriptors → ℕ × Descriptors
begin s w = (7, w)

abbrev broken : Descriptors → Event × Descriptors
broken w = (error_event, w)

abbrev local : Address
local = in4 (record { sin_family = ipv4; sin_port = 14640; s_addr = 16777343 })

local_parsed : address (codes "127.0.0.1") 12345 ≡ ok local
unfolding digit_in from_chars split split_from read_digits from parse_ipv4 address deref read_parts
local_parsed = refl

in_progress :
    connect_ready simulated 1 (pos 3) local (fresh started).0 ≡ (ok false, (fresh started).0)
unfolding connect_ready
in_progress = refl

connect-handler_example :
    (client_connect simulated tcp begin broken 1 (codes "127.0.0.1") 12345 (new_client ipv4) started
      ≡ (ok (connected simulated tcp begin broken 3 local (fresh started).0), (fresh started).0))
    × ((fuel : ℕ) (hostname : Bytes) (port : ℕ) (w : Descriptors)
        → client_connect simulated tcp begin broken fuel hostname port
            (connected simulated tcp begin broken 3 local (fresh started).0)
            w
          ≡ (err assertion, w))
unfolding resume_connect
connect-handler_example =
    connect-handler simulated tcp begin broken 1 (codes "127.0.0.1") 12345 ipv4 local started
      (fresh started).0 (fresh started).0 3 false local_parsed refl refl in_progress
