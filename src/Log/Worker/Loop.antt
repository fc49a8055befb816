-- ===== src/Log/Worker/Loop.antt =====
-- src/log/worker.cpp: the thread of the worker, with what other threads ask of it meanwhile, up to
-- the end of the program, and the destructor of `worker`.
pub mod Settings
pub mod Blocks
pub mod Served
pub mod Ends
use bc.Prelude.{
  ℕ, ◌+◌, Bool, true, false, if◌then◌else◌, List, [], ◌∷◌, ◌++◌, Result, ok, err, ◌>>=◌,
  out_of_fuel,
}
use bc.Log.Record.{Record}
use bc.Log.Formatter.{Fmt}
use bc.Log.Worker.{Worker, log, flush, drain, round}

-- What another thread does: it logs a record, flushes by a flag, or ends the program.
pub data Request : Type 0 where
  logs : ℕ → Record → Request
  flushes : ℕ → Request
  stops : Request

-- The destructor, up to the join of the thread.
unfoldable pub stop : Worker → Worker
stop w = if w.stop_ then w else record w { stop_ = true; wakes = w.wakes + 1 }

unfoldable pub serve : Request → Worker → Result Worker
serve (logs l r) w = log l r w
serve (flushes flag) w = flush flag w
serve stops w = ok (stop w)

unfoldable pub serve_all : List Request → Worker → Result Worker
serve_all [] w = ok w
serve_all (r ∷ rs) w = serve r w >>= λ w'. serve_all rs w'

-- An iteration of `loop_`: what comes before its wait is over, and what comes while it drains, which
-- goes to the members that the drain has left empty.
pub record Turn : Type 0 where
  pub waiting : List Request
  pub draining : List Request

unfoldable pub turn : Fmt → Turn → Worker → Result Worker
turn fmt t w = serve_all t.waiting w >>= λ w1. round fmt w1 >>= λ w2. serve_all t.draining w2

-- `loop_`; the turns are the fuel.
unfoldable pub loop : Fmt → List Turn → Worker → Result Worker
loop fmt [] w = if w.stop_ then drain fmt w.logs_ w.waiters_ w else err out_of_fuel
loop fmt (t ∷ ts) w =
    let rest = turn fmt t w >>= λ w'. loop fmt ts w' in
    if w.stop_ then drain fmt w.logs_ w.waiters_ w else rest

-- All requests, in the order of their effects.
abbrev pub requests_of : List Turn → List Request
requests_of [] = []
requests_of (t ∷ ts) = t.waiting ++ (t.draining ++ requests_of ts)
