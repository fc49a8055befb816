-- ===== src/Network/Tests/Sessions.antt =====
-- A server that gets two clients, and then an error. Each session is a task of the number of its
-- descriptor, and the first has finished when the second comes.
use mathlib.Core.List.{Perm}
use bc.Prelude.{
  ℕ, ◌≡◌, refl, none, some, ok, err, aborted, Bool, true, false, ltb, if◌then◌else◌, List, [], ◌∷◌,
}
use bc.Network.Address.{ipv4}
use bc.Network.Socket.{Socket, wrap}
use bc.Network.Socket.SystemCalls.{peer}
use bc.Utils.Error.{report, message, find_case, number}
use bc.Network.Server.{Server, async_session, sweep, add_client, round, serve}
use bc.Network.Server.Waits.{async_session-finish}
use bc.Async.Task.{Frames, Act, creates, finishes, update, acts, act, create, finish}
use bc.Async.Task.Await.{pending}
use bc.Network.Server.Sessions.{sockets, round-chosen, serve-Perm}
use bc.Utils.Expected.{Expected, value, error}

abbrev pub first_sock : Socket
first_sock = wrap 4 ipv4 peer

abbrev pub second_sock : Socket
second_sock = wrap 5 ipv4 peer

-- The world is the number of the next task.
abbrev pub start : Socket → ℕ → ℕ × ℕ
start sock w = (w, w)

abbrev pub is_done : ℕ → ℕ → Bool
is_done w task = if ltb task w then true else false

abbrev pub fresh_server : Server
fresh_server = record { clients = []; erased = []; running = true; outcome = ok tt }

abbrev pub coming : List (Expected Socket ℕ × ℕ)
coming =
    (value first_sock, 0) ∷ (value second_sock, 1) ∷ (error 103, 2) ∷ (value first_sock, 3) ∷ []

served : serve ℕ start is_done coming fresh_server ≡ record {
  clients = record { sock = second_sock; task = 1 } ∷ [];
  erased = record { sock = first_sock; task = 0 } ∷ [];
  running = false;
  outcome = err aborted;
}
unfolding serve round add_client sweep report message find_case number
served = refl

serve-Perm_example :
    Perm (sockets (serve ℕ start is_done coming fresh_server)) (first_sock ∷ second_sock ∷ [])
serve-Perm_example = serve-Perm ℕ start is_done coming fresh_server refl

-- The second socket comes to a server with a client whose session has then finished.
abbrev one_client : Server
one_client = record fresh_server { clients = record { sock = first_sock; task = 0 } ∷ [] }

round-chosen_example :
    let t = round ℕ start is_done (value second_sock) 1 one_client in
    (t.clients ≡ record { sock = second_sock; task = 1 } ∷ [])
    × (t.erased ≡ record { sock = first_sock; task = 0 } ∷ [])
round-chosen_example = round-chosen ℕ start is_done second_sock 1 one_client

-- The session of the frame 1 has begun; another coroutine comes and goes while the frame 8 waits.
abbrev begun : Frames
begun = update 1 (pending none) (λ j. none)

abbrev meanwhile : List Act
meanwhile = creates 2 ∷ finishes 2 ∷ []

abbrev waited : Frames
waited = update 1 (pending (some 8)) begun

abbrev later : Frames
later = update 2 (some (record { is_done = true; prev = none })) (update 2 (pending none) waited)

passed : acts meanwhile waited ≡ ok later
unfolding acts act create finish
passed = refl

async_session-finish_example :
    (async_session (some 1) 8 begun ≡ ok (true, waited))
    × ((ended : Frames) × ((finish 1 later ≡ ok (some 8, ended))
          × (async_session (some 1) 8 ended ≡ ok (false, ended))))
async_session-finish_example =
    async_session-finish 1 8 none meanwhile begun later refl (refl, (refl, tt)) refl passed
