-- ===== src/Examples/Tests/Serving.antt =====
-- The server of async-server.cxx with the clients of the test of the class `server`.
use bc.Prelude.{ℕ, ◌≡◌, refl, [], ◌∷◌}
use bc.Network.Server.{add_client, serve}
use bc.Network.Tests.Sessions.{start, is_done, fresh_server, coming}
use bc.Examples.Servers.{removed, has_clients, tidy, accept_round, async_server}
use bc.Examples.Servers.Prints.{Prints, async_server-Prints}

async_server-Prints_example :
    Prints ℕ start is_done fresh_server
      (async_server ℕ start is_done coming fresh_server)
      (serve ℕ start is_done coming fresh_server)
async_server-Prints_example = async_server-Prints ℕ start is_done coming fresh_server

-- The first client is there, and then the second in its place.
printed :
    (async_server ℕ start is_done coming fresh_server).1
    ≡ has_clients 1 ∷ removed ∷ has_clients 1 ∷ []
unfolding async_server accept_round add_client tidy
printed = refl
