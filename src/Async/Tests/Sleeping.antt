-- ===== src/Async/Tests/Sleeping.antt =====
-- A run of a coroutine that sleeps a number of times.
use bc.Prelude.{
  ok, ◌≡◌, ℕ, zero, suc, ◌+◌, ◌≤◌, false, [], ◌∷◌, List, length, ℤ, pos, negsuc, arith, refl,
}
use bc.Async.Poller.{done}
use bc.Async.Scheduler.Times.{AreFrom, period-AreFrom}
use bc.Async.Scheduler.{TimeNode, expire, period, s_period, Scheduler, Post, at_time, Host}
use bc.Async.Scheduler.Sleepers.{Sleepers, AreTimes}
use bc.Async.Scheduler.Ends.{Returns, run-Returns}
use bc.Async.Sleep.{async_sleep, sleep_ready, suspend_sleep}
use bc.Async.Sleep.Late.{expire-async_sleep}
use bc.Async.Scheduler.{post, post_at_time, emplace}
use bc.Async.Tests.Kernel.{Table, table, no_interest, empty_poller}

-- The time, and how often a coroutine will go to sleep again.
abbrev Nights : Type 0
Nights = ℕ × ℕ

abbrev slept : ℤ → Nights → Nights
slept (pos d) w = (w.0 + d, w.1)
slept (negsuc d) w = w

abbrev resumed : ℕ → Nights → Nights × List Post
resumed h (c, zero) = ((c, 0), [])
resumed h (c, suc n) = ((c, n), at_time (c + 10) h ∷ [])

abbrev sleeping : Host Table
sleeping = record {
  World = Nights;
  now = λ w. (w.0, (w.0 + 1, w.1));
  sleep_for = slept;
  wait = λ k size timeout w. (w, done []);
  is_done = λ h w. false;
  set_revent = λ cell e w. w;
  resume = resumed;
  call = λ p w. (w, [], false);
}

slept-clock : (r : ℤ) (w : Nights) → w.0 ≤ (slept r w).0
slept-clock (pos d) w = omega arith
slept-clock (negsuc d) w = omega arith

slept-left : (r : ℤ) (w : Nights) → (slept r w).1 ≤ w.1
slept-left (pos d) w = omega arith
slept-left (negsuc d) w = omega arith

resumed-AreTimes : (h : ℕ) (w : Nights) → AreTimes (resumed h w).1
resumed-AreTimes h (c, zero) = tt
resumed-AreTimes h (c, suc n) = tt

resumed-left : (h : ℕ) (w : Nights) → length (resumed h w).1 + (resumed h w).0.1 ≤ w.1
resumed-left h (c, zero) = omega arith
resumed-left h (c, suc n) = omega arith

abbrev sleepers : Sleepers sleeping
sleepers = record {
  clock = λ w. w.0;
  left = λ w. w.1;
  Suspended = λ w ns. Unit;
  clock_now = λ w. (omega arith, omega arith);
  clock_sleep = slept-clock;
  clock_sleep_pos = λ d w. omega arith;
  left_now = λ w. omega arith;
  left_sleep = slept-left;
  now_Suspended = λ w ns h. tt;
  sleep_Suspended = λ r w ns h. tt;
  is_done_Suspended = λ w n ns h. refl;
  resume_times = λ w n ns h past. resumed-AreTimes n.next w;
  resume_left = λ w n ns h past. resumed-left n.next w;
  resume_Suspended = λ w n ns h past. tt;
}

-- Coroutine 2 waits for time 5, and will sleep three times more.
abbrev three_nights : Scheduler Table Nights
three_nights = record {
  coro_count = 1;
  time_nodes = record { time = 5; next = 2 } ∷ [];
  descriptor_nodes = [];
  poller = empty_poller;
  kernel = no_interest;
  world = (0, 3);
}

run-Returns_example : Returns table sleeping sleepers 5 three_nights
run-Returns_example =
    run-Returns table sleeping sleepers 5 three_nights (tt, refl) (omega arith) (omega arith)

abbrev two_times : List TimeNode
two_times = record { time = 5; next = 2 } ∷ record { time = 8; next = 3 } ∷ []

period_two : period table sleeping two_times 3 ≡ pos 2
unfolding period
period_two = refl

period-AreFrom_example : (2 ≤ s_period) × AreFrom 5 two_times
period-AreFrom_example =
    period-AreFrom table sleeping two_times 3 2 ((omega arith, tt), (tt, tt)) period_two

-- Coroutine 4 goes to sleep for 9 at the time 0, beside coroutine 2.
abbrev two_sleepers : Scheduler Table Nights
two_sleepers = record three_nights {
  coro_count = 2;
  time_nodes = record { time = 5; next = 2 } ∷ record { time = 9; next = 4 } ∷ [];
}

posted_sleep :
    post table sleeping (suspend_sleep (async_sleep sleeping 9 (0, 3)).0 4) three_nights
    ≡ ok two_sleepers
unfolding post post_at_time emplace suspend_sleep async_sleep
posted_sleep = refl

expire-async_sleep_example :
    ((sleep_ready sleeping (async_sleep sleeping 9 (0, 3)).0 (0, 3)).0 ≡ false)
    × (expire table sleeping 2 0 two_sleepers ≡ ok (false, record two_sleepers { world = (1, 3) }))
expire-async_sleep_example =
    expire-async_sleep table sleeping 1 9 4 (0, 3) three_nights two_sleepers posted_sleep
      (omega arith) (omega arith)
