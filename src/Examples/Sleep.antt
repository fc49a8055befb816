-- ===== src/Examples/Sleep.antt =====
-- examples/sleep.cxx: two coroutines over the scheduler. Coroutine 0 is `async_run`, and awaits
-- coroutine 1, `async_sleep_loop`. What the program asks of the machine is the parameter `Machine`.
pub mod Lines
pub mod Runs
use bc.Prelude.{
  ℕ, zero, suc, ◌+◌, ◌≤◌, ◌==◌, Bool, true, false, if◌then◌else◌, List, [], ◌∷◌, ◌++◌, Option, none,
  some, Bytes, codes, Result, Fault, ok, err, ◌>>=◌, ℤ, pos,
}
use bc.Async.Poller.{Epoll, EpollEvent, Outcome}
use bc.Async.Scheduler.{Host, Post, Sched, post_all, run}
use bc.Async.Sleep.{async_sleep, sleep_ready, suspend_sleep}
use bc.Async.Task.{Frame, Frames, create, await, finish, destroy}

-- `steady_clock::now`, `sleep_for` and `epoll_wait`. The clock does not run back, and `sleep_for`
-- sleeps for the duration at least.
pub record Machine (Kernel : Type 0) : Type 1 where
  pub Env : Type 0
  pub clock : Env → ℕ
  pub now : Env → ℕ × Env
  pub sleep_for : ℤ → Env → Env
  pub wait : Kernel → ℕ → ℕ → Env → Env × Outcome (List EpollEvent)
  pub clock_now : (e : Env) → (clock e ≤ (now e).0) × ((now e).0 ≤ clock (now e).1)
  pub clock_sleep : (r : ℤ) (e : Env) → clock e ≤ clock (sleep_for r e)
  pub clock_sleep_pos : (d : ℕ) (e : Env) → clock e + d ≤ clock (sleep_for (pos d) e)

-- Where `async_sleep_loop` sleeps: in its first or its second loop, with so many rounds behind this
-- one.
pub data Stage : Type 0 where
  first second : ℕ → Stage
  over : Stage

-- `fault` is what the frames have run into, if they have: what the program does then is undefined, and
-- here nothing more becomes of its frames.
pub record Program (Env : Type 0) : Type 0 where
  pub stage : Stage
  pub frames : Frames
  pub printed : List Bytes
  pub fault : Option Fault
  pub env : Env

abbrev pub one_second : ℕ
one_second = 1_000_000_000

abbrev pub woke : Bytes
woke = codes "waked loop"

abbrev pub woke_again : Bytes
woke_again = codes "waked loop 2"

module _ {Kernel : Type 0} (m : Machine Kernel) where
  abbrev pub World : Type 0
  World = Program m.Env

  abbrev pub print : Bytes → World → World
  print line w = record w { printed = w.printed ++ line ∷ [] }

  -- What the awaiter of a sleep asks of the scheduler's machine.
  abbrev pub host_with : (ℕ → World → World × List Post) → Host Kernel
  host_with resume = record {
    World = World;
    now = λ w. ((m.now w.env).0, record w { env = (m.now w.env).1 });
    sleep_for = λ r w. record w { env = m.sleep_for r w.env };
    wait = λ k size timeout w.
        (record w { env = (m.wait k size timeout w.env).0 }, (m.wait k size timeout w.env).1);
    is_done = λ h w. elim (w.frames h) [ none ↦ true | some fr ↦ fr.is_done ];
    set_revent = λ cell e w. w;
    resume = resume;
    call = λ p w. (w, [], false);
  }

  abbrev pub timer : Host Kernel
  timer = host_with (λ h w. (w, []))

  -- The rest of `async_run`, behind its `co_await`: the task `t` goes before the end.
  abbrev pub keep : Result Frames → World → World
  keep (ok fs) w = record w { frames = fs }
  keep (err e) w = record w { fault = some e }

  unfoldable pub run_rest : World → World
  run_rest w =
      keep (destroy 1 w.frames >>= λ fs. finish 0 fs >>= λ r. ok r.1)
        (print (codes "async run finished") w)

  -- The end of `async_sleep_loop`, which resumes who awaits it.
  abbrev pub continue : Result (Option ℕ × Frames) → World → World
  continue (ok (some h, fs)) w = run_rest (record w { frames = fs })
  continue (ok (none, fs)) w = record w { frames = fs }
  continue (err e) w = record w { fault = some e }

  unfoldable pub loop_ends : World → World × List Post
  loop_ends w = (continue (finish 1 w.frames) (record w { stage = over }), [])

  -- The loops, with so many rounds to go. A sleep that is over at once does not suspend.
  unfoldable pub second_loop : ℕ → World → World × List Post
  second_loop zero w = loop_ends w
  second_loop (suc n) w =
      let (tp, w1) = async_sleep timer one_second w in
      let (ready, w2) = sleep_ready timer tp w1 in
      let rest = second_loop n (print woke_again w2) in
      if ready then rest else (record w2 { stage = second n }, suspend_sleep tp 1 ∷ [])

  unfoldable pub first_loop : ℕ → World → World × List Post
  first_loop zero w = second_loop 5 (print (codes "loop finished") w)
  first_loop (suc n) w =
      let (tp, w1) = async_sleep timer one_second w in
      let (ready, w2) = sleep_ready timer tp w1 in
      let rest = first_loop n (print woke w2) in
      if ready then rest else (record w2 { stage = first n }, suspend_sleep tp 1 ∷ [])

  abbrev pub resume_at : Stage → World → World × List Post
  resume_at (first n) w = first_loop n (print woke w)
  resume_at (second n) w = second_loop n (print woke_again w)
  resume_at over w = (w, [])

  abbrev pub host : Host Kernel
  host = host_with (λ h w. resume_at w.stage w)

  -- `async_run` up to its `co_await`, and that.
  abbrev pub awaiting : Result (Bool × Frames) → World → World
  awaiting (ok (true, fs)) w = record w { frames = fs }
  awaiting (ok (false, fs)) w = run_rest (record w { frames = fs })
  awaiting (err e) w = record w { fault = some e }

  unfoldable pub async_run : World → World × List Post
  async_run w =
      let (w', posts) = first_loop 5 (
        print (codes "async run")
          (record w { frames = create 1 (create 0 w.frames); fault = none })) in
      (awaiting (await 1 0 w'.frames) w', posts)

-- `main`.
unfoldable pub main :
    (epoll : Epoll) (m : Machine epoll.Kernel)
    → ℕ
    → ℕ
    → Sched epoll (host m)
    → Result (Sched epoll (host m))
main epoll m fuel inner s =
    let (w, posts) = async_run m s.world in
    post_all epoll (host m) posts (record s { world = w }) >>= λ s'.
    run epoll (host m) fuel inner s'
