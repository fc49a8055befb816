-- ===== src/Examples/Tests.antt =====
-- The example programs on a machine whose clock ticks when it is read.
mod Conversations
mod Serving
mod OneClient
use bc.Prelude.{
  ℕ, ◌+◌, ◌≡◌, ◌≤◌, refl, List, [], ◌∷◌, Bytes, none, Result, ok, err, ℤ, pos, negsuc, arith,
}
use bc.Async.Poller.{done}
use bc.Async.Scheduler.{
  Sched, Scheduler, run, handle_expired, expire, expire_round, idle, idle_unless, period,
  resume_coro, post_all, post, post_at_time, emplace,
}
use bc.Async.Sleep.{async_sleep, sleep_ready, suspend_sleep}
use bc.Async.Task.{create, await, finish, destroy}
use bc.Async.Tests.Kernel.{Table, table, no_interest, empty_poller}
use bc.Examples.Sleep.{
  Machine, over, Program, host, main, async_run, first_loop, second_loop, loop_ends, run_rest,
}
use bc.Examples.Sleep.Runs.{all_lines, Ends, main-Ends}

abbrev slept : ℤ → ℕ → ℕ
slept (pos d) e = e + d
slept (negsuc d) e = e

slept-clock : (r : ℤ) (e : ℕ) → e ≤ slept r e
slept-clock (pos d) e = omega arith
slept-clock (negsuc d) e = omega arith

tick : (e : ℕ) → (e ≤ e) × (e ≤ e + 1)
tick e = (omega arith, omega arith)

slept-pos : (d e : ℕ) → e + d ≤ slept (pos d) e
slept-pos d e = omega arith

abbrev ticking : Machine Table
ticking = record {
  Env = ℕ;
  clock = λ e. e;
  now = λ e. (e, e + 1);
  sleep_for = slept;
  wait = λ k size timeout e. (e, done []);
  clock_now = tick;
  clock_sleep = slept-clock;
  clock_sleep_pos = slept-pos;
}

abbrev fresh : Sched table (host ticking)
fresh = record {
  coro_count = 0;
  time_nodes = [];
  descriptor_nodes = [];
  poller = empty_poller;
  kernel = no_interest;
  world = record { stage = over; frames = λ j. none; printed = []; fault = none; env = 7 };
}

main-Ends_example : Ends table ticking 11 fresh
main-Ends_example = main-Ends table ticking 11 fresh refl refl (omega arith)

abbrev printed_by : Result (Sched table (host ticking)) → List Bytes
printed_by (ok s) = s.world.printed
printed_by (err e) = []

printed_lines : printed_by (main table ticking 30 11 fresh) ≡ all_lines
unfolding main async_run first_loop second_loop loop_ends run_rest async_sleep sleep_ready
    suspend_sleep create await finish destroy run handle_expired expire expire_round idle
    idle_unless period resume_coro post_all post post_at_time emplace
printed_lines = refl
