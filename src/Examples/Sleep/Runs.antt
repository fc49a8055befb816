-- ===== src/Examples/Sleep/Runs.antt =====
-- The whole program of examples/sleep.cxx, from `main` to its end.
use bc.Prelude.{
  ℕ, ◌+◌, ◌*◌, ◌≤◌, ◌<◌, ◌≡◌, inl, inr, refl, sym, ap, ◌∙◌, true, false, List, [], ◌∷◌, ◌++◌, Bytes,
  codes, none, ok, ◌>>=◌, arith, length, ℤ,
}
use mathlib.Core.List.{append_assoc}
use native.Mathlib.Nat.{le_refl}
use bc.Async.Poller.{Epoll}
use bc.Async.Scheduler.{Sched, Post, TimeNode, run, emplace}
use bc.Async.Scheduler.Sleepers.{Sleepers, AreTimes, queue, length-queue, post_all-queue}
use bc.Async.Scheduler.Ends.{run-Returns}
use bc.Examples.Sleep.{Machine, World, one_second, host, main, async_run, resume_at}
use bc.Examples.Sleep.Lines.{
  todo, sleeps_left, IsLoop, AreRunning, Ended, Goes, woken_lines, resume_at-Goes, async_run-Goes,
}

module _ {Kernel : Type 0} (m : Machine Kernel) (total : List Bytes) (deadline : ℕ) where
  -- Either the loop's coroutine waits for one time, or all has ended.
  abbrev pub Waits : World m → List TimeNode → Type 0
  Waits w [] = Ended m total deadline true w []
  Waits w (n ∷ []) =
      (n.next ≡ 1)
      × (IsLoop w.stage
          × (AreRunning true w
              × ((w.printed ++ todo w.stage ≡ total)
                  × (deadline ≤ n.time + sleeps_left w.stage * one_second))))
  Waits w (n ∷ _ ∷ _) = ⊥

  pub Goes-AreTimes :
      (k : ℕ) (w : World m) (ps : List Post) → Goes m total deadline true k (w, ps) → AreTimes ps
  Goes-AreTimes k w ps (inl (tp, (p, _))) = rw p tt
  Goes-AreTimes k w ps (inr (p, _)) = rw p tt

  pub Goes-left :
      (k : ℕ) (w : World m) (ps : List Post)
      → Goes m total deadline true k (w, ps)
      → length ps + sleeps_left w.stage ≤ k
  Goes-left k w ps (inl (tp, (p, (i, (fr, (all, late, less)))))) = rw p (omega arith)
  Goes-left k w ps (inr (p, (o, _))) = rw (p, o) (omega arith)

  pub Goes-Waits :
      (k : ℕ) (w : World m) (ps : List Post)
      → Goes m total deadline true k (w, ps)
      → Waits w (queue ps [])
  unfolding emplace
  Goes-Waits k w ps (inl (tp, (p, (i, (fr, (all, late, less)))))) =
      rw p (refl, (i, (fr, (all, late))))
  Goes-Waits k w ps (inr (p, rest)) = rw p (refl, rest)

  -- The resumption of the coroutine whose time has come.
  pub resumed :
      (w : World m) (n : TimeNode) (ns : List TimeNode)
      → Waits w (n ∷ ns)
      → n.time ≤ m.clock w.env
      → (ns ≡ []) × Goes m total deadline true (sleeps_left w.stage) (resume_at m w.stage w)
  resumed w n [] (h, (i, (fr, (all, late)))) past =
      (refl, resume_at-Goes m total deadline w.stage w i fr all (omega arith))
  resumed w n (_ ∷ _) h past = absurd h

  pub now-Waits : (w : World m) (ns : List TimeNode) → Waits w ns → Waits ((host m).now w).1 ns
  now-Waits w [] (p, (o, (all, late, sound))) =
      let clocks = m.clock_now w.env in (p, (o, (all, omega arith, sound)))
  now-Waits w (n ∷ []) h = h
  now-Waits w (_ ∷ _ ∷ _) h = h

  pub sleep_for-Waits :
      (r : ℤ) (w : World m) (ns : List TimeNode) → Waits w ns → Waits ((host m).sleep_for r w) ns
  sleep_for-Waits r w [] (p, (o, (all, late, sound))) =
      let clocks = m.clock_sleep r w.env in (p, (o, (all, omega arith, sound)))
  sleep_for-Waits r w (n ∷ []) h = h
  sleep_for-Waits r w (_ ∷ _ ∷ _) h = h

  pub is_done-Waits :
      (w : World m) (n : TimeNode) (ns : List TimeNode)
      → Waits w (n ∷ ns)
      → (host m).is_done n.next w ≡ false
  is_done-Waits w n [] (next, (i, (fr, _))) = rw (next, fr.1) refl
  is_done-Waits w n (_ ∷ _) h = absurd h

  pub resume-Waits :
      (w : World m) (n : TimeNode) (ns : List TimeNode)
      → Waits w (n ∷ ns)
      → n.time ≤ m.clock w.env
      → Waits (resume_at m w.stage w).0 (queue (resume_at m w.stage w).1 ns)
  resume-Waits w n ns h past =
      let (alone, goes) = resumed w n ns h past in
      rw alone
        (Goes-Waits (sleeps_left w.stage) (resume_at m w.stage w).0 (resume_at m w.stage w).1 goes)

  abbrev pub sleepers : Sleepers (host m)
  sleepers = record {
    clock = λ w. m.clock w.env;
    left = λ w. sleeps_left w.stage;
    Suspended = Waits;
    clock_now = λ w. m.clock_now w.env;
    clock_sleep = λ r w. m.clock_sleep r w.env;
    clock_sleep_pos = λ d w. m.clock_sleep_pos d w.env;
    left_now = λ w. le_refl (sleeps_left w.stage);
    left_sleep = λ r w. le_refl (sleeps_left w.stage);
    now_Suspended = now-Waits;
    sleep_Suspended = sleep_for-Waits;
    is_done_Suspended = is_done-Waits;
    resume_times = λ w n ns h past.
        Goes-AreTimes (sleeps_left w.stage) (resume_at m w.stage w).0 (resume_at m w.stage w).1
          (resumed w n ns h past).1;
    resume_left = λ w n ns h past.
        Goes-left (sleeps_left w.stage) (resume_at m w.stage w).0 (resume_at m w.stage w).1
          (resumed w n ns h past).1;
    resume_Suspended = resume-Waits;
  }

abbrev pub all_lines : List Bytes
all_lines =
    codes "async run"
    ∷ codes "waked loop"
    ∷ codes "waked loop"
    ∷ codes "waked loop"
    ∷ codes "waked loop"
    ∷ codes "waked loop"
    ∷ codes "loop finished"
    ∷ codes "waked loop 2"
    ∷ codes "waked loop 2"
    ∷ codes "waked loop 2"
    ∷ codes "waked loop 2"
    ∷ codes "waked loop 2"
    ∷ codes "async run finished"
    ∷ []

module _ (epoll : Epoll) (m : Machine epoll.Kernel) where
  -- A run that begins with what a coroutine has posted.
  run-Ended :
      (total : List Bytes) (deadline inner : ℕ) (u : Sched epoll (host m)) (w : World m)
      (ps : List Post)
      → Goes m total deadline true 10 (w, ps)
      → u.time_nodes ≡ queue ps []
      → u.coro_count ≡ length ps
      → u.world ≡ w
      → 10 < inner
      → (fuel : ℕ) × (t : Sched epoll (host m)) × ((run epoll (host m) fuel inner u ≡ ok t)
          × Ended m total deadline true t.world [])
  run-Ended total deadline inner u w ps goes nodes count world enough =
      let few = Goes-left m total deadline 10 w ps goes in
      let times = Goes-AreTimes m total deadline 10 w ps goes in
      let size : length u.time_nodes ≡ length ps =
        ap (length {0}) nodes ∙ length-queue ps [] times ∙ omega arith in
      let left : sleeps_left u.world.stage ≡ sleeps_left w.stage =
        ap (λ v. sleeps_left v.stage) world in
      let waits : Waits m total deadline u.world u.time_nodes =
        rw (world, nodes) (Goes-Waits m total deadline 10 w ps goes) in
      let (fuel, t, (ran, (none_left, ended))) =
        run-Returns epoll (host m) (sleepers m total deadline) inner u (waits, count ∙ sym size)
          (omega arith) (omega arith) in
      (fuel, t, (ran, ended))

  -- With some number of iterations, the program ends, behind all its lines and ten seconds, without a fault.
  abbrev pub Ends : ℕ → Sched epoll (host m) → Type 0
  Ends inner s =
      (fuel : ℕ) × (t : Sched epoll (host m)) × ((main epoll m fuel inner s ≡ ok t)
        × ((t.world.printed ≡ s.world.printed ++ all_lines)
            × (m.clock s.world.env + 10 * one_second ≤ m.clock t.world.env)
            × (t.world.fault ≡ none)))

  -- From a scheduler with no sleeper and a `coro_count_` of 0, on any machine whose clock does not run
  -- back and whose sleeps last as long as asked, the program of examples/sleep.cxx, with fuel for more
  -- than ten rounds of its inner loop, ends after some number of iterations, having printed exactly
  -- its lines in order, at least ten seconds after it began, and with no fault of its frames.
  pub main-Ends :
      (inner : ℕ) (s : Sched epoll (host m))
      → s.time_nodes ≡ []
      → s.coro_count ≡ 0
      → 10 < inner
      → Ends inner s
  unfolding main
  main-Ends inner s empty none_counted enough =
      let total = s.world.printed ++ codes "async run" ∷ woken_lines 5 in
      let deadline = m.clock s.world.env + 10 * one_second in
      let out = async_run m s.world in
      let goes = async_run-Goes m total deadline s.world refl (omega arith) in
      let times = Goes-AreTimes m total deadline 10 out.0 out.1 goes in
      let few = Goes-left m total deadline 10 out.0 out.1 goes in
      let (u, (posted, (nodes, (count, world)))) =
        post_all-queue epoll (host m) out.1 (record s { world = out.0 }) times (omega arith) in
      let (fuel, t, (ran, (p, (o, (all, late, sound))))) =
        run-Ended total deadline inner u out.0 out.1 goes (nodes ∙ ap (queue out.1) empty)
          (count ∙ omega (arith, none_counted)) world enough in
      (
        fuel,
        t,
        (
          ap (λ r. r >>= λ v. run epoll (host m) fuel inner v) posted ∙ ran,
          (all ∙ append_assoc s.world.printed _ _, late, sound),
        ),
      )
