-- ===== src/Examples/Servers.antt =====
-- The server of examples/async-server.cxx, which keeps its clients as the class `server` does and
-- prints what becomes of them. The coroutines of the sessions are parameters, as they are there.
pub mod Prints
use bc.Prelude.{ℕ, ◌-◌, Bool, false, if◌then◌else◌, List, [], ◌∷◌, ◌++◌, length, Result}
use bc.Network.Address.{Address, Domain}
use bc.Network.Server.{Client, Server, add_client}
use bc.Network.Socket.{Socket, new_socket, listen_at}
use bc.Network.Socket.SystemCalls.{Sys, Protocol, tcp}
use bc.Utils.Error.{report}
use bc.Utils.Expected.{Expected, value, error}

-- What the loop over the clients prints.
pub data Notice : Type 0 where
  removed : Notice
  has_clients : ℕ → Notice

-- The loop over `clients`, whose size is given: what stays, what is erased, and what is printed.
unfoldable pub tidy : (ℕ → Bool) → ℕ → List Client → List Client × List Client × List Notice
tidy is_done size [] = ([], [], [])
tidy is_done size (c ∷ cs) =
    let erase = tidy is_done (size - 1) cs in
    let keep = tidy is_done size cs in
    if is_done c.task
    then (erase.0, c ∷ erase.1, removed ∷ erase.2)
    else (c ∷ keep.0, keep.1, has_clients size ∷ keep.2)

module _ (World : Type 0) (start : Socket → World → ℕ × World) (is_done : World → ℕ → Bool) where
  -- An iteration of `async_server`, with what `async_accept` has given.
  unfoldable pub accept_round : Expected Socket ℕ → World → Server → Server × List Notice
  accept_round (value sock) w s =
      let (s', w') = add_client World start is_done sock w s in
      let (kept, gone, notices) = tidy (is_done w') (length s'.clients) s'.clients in
      (record s' { clients = kept; erased = s'.erased ++ gone }, notices)
  accept_round (error e) w s = (record s { running = false; outcome = report e }, [])

  -- `async_server` from its loop on, over what comes, each with the world as it then is.
  unfoldable pub async_server : List (Expected Socket ℕ × World) → Server → Server × List Notice
  async_server [] s = (s, [])
  async_server ((res, w) ∷ events) s =
      let (s', notices) = accept_round res w s in
      let rest = async_server events s' in
      if s.running then (rest.0, notices ++ rest.1) else (s, [])

abbrev pub backlog : ℕ
backlog = 10

-- `async_server` up to its loop.
unfoldable pub listening :
    (sys : Sys) → Address → Domain → sys.World → Result (Unit {0}) × Socket × sys.World
listening sys address found w = listen_at sys tcp address backlog (new_socket found) w
