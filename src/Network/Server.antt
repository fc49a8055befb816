-- ===== src/Network/Server.antt =====
-- include/bc/network/server.hpp. The coroutines of the sessions are parameters: `start` runs a
-- session until it first waits, and gives its task; `is_done` says which tasks have finished.
pub mod Sessions
pub mod Waits
use bc.Prelude.{ℕ, Bool, true, false, if◌then◌else◌, List, [], ◌∷◌, ◌++◌, some, Result, ok, ◌>>=◌}
use bc.Async.Task.{Task, Frames, done, handle_of, await, move_assign}
use bc.Network.Address.{Address, Domain}
use bc.Network.Socket.SystemCalls.{Sys, Protocol}
use bc.Network.Socket.{Socket, new_socket, listen_at}
use bc.Utils.Error.{report}
use bc.Utils.Expected.{Expected, value, error}

pub record Client : Type 0 where
  pub sock : Socket
  pub task : ℕ

-- `clients_`, and what has been erased from it; `running` is false once `run_` has left its loop, and
-- `outcome` then says whether its error had a message.
pub record Server : Type 0 where
  pub clients : List Client
  pub erased : List Client
  pub running : Bool
  pub outcome : Result (Unit {0})

abbrev pub s_backlog : ℕ
s_backlog = 100

-- The loop over `clients_`: what stays, and what is erased.
unfoldable pub sweep : (ℕ → Bool) → List Client → List Client × List Client
sweep is_done [] = ([], [])
sweep is_done (c ∷ cs) =
    let (kept, gone) = sweep is_done cs in
    if is_done c.task then (kept, c ∷ gone) else (c ∷ kept, gone)

module _ (World : Type 0) (start : Socket → World → ℕ × World) (is_done : World → ℕ → Bool) where
  -- `add_client_`: the session starts at once.
  unfoldable pub add_client : Socket → World → Server → Server × World
  add_client sock w s =
      let (t, w') = start sock w in
      (record s { clients = s.clients ++ record { sock = sock; task = t } ∷ [] }, w')

  -- One iteration of `run_`, with what `async_accept` has given.
  unfoldable pub round : Expected Socket ℕ → World → Server → Server
  round (value sock) w s =
      let (s', w') = add_client sock w s in
      let (kept, gone) = sweep (is_done w') s'.clients in
      record s' { clients = kept; erased = s'.erased ++ gone }
  round (error e) w s = record s { running = false; outcome = report e }

  -- `run_`, over what comes, each with the world as it then is.
  unfoldable pub serve : List (Expected Socket ℕ × World) → Server → Server
  serve [] s = s
  serve ((res, w) ∷ events) s =
      let rest = serve events (round res w s) in if s.running then rest else s

-- `start` keeps the task of `run_`, given as its frame.
unfoldable pub keep_task : Task → ℕ → Result (Task × Task)
keep_task task_ run = move_assign task_ (some run)

module _ (sys : Sys) (proto : Protocol) where
  -- `run_` up to its loop, for the address that the constructor has read.
  unfoldable pub open_at : Address → Domain → sys.World → Result (Unit {0}) × Socket × sys.World
  open_at address_ found w = listen_at sys proto address_ s_backlog (new_socket found) w

-- An iteration of `async_session_`, the coroutine `self` that awaits the handler's session: whether it
-- waits.
unfoldable pub async_session : Task → ℕ → Frames → Result (Bool × Frames)
async_session session self fs = do
  over ← done session fs
  f ← handle_of session
  if over then ok (false, fs) else await f self fs
