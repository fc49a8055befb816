-- ===== src/Async/Sleep.antt =====
-- include/bc/async/sleep.hpp: the awaiter of `async_sleep`, as the time `tp_` that it waits for.
pub mod Late
use bc.Prelude.{ℕ, ◌+◌, Bool, leb}
use bc.Async.Scheduler.{Host, Post, at_time}

module _ {Kernel : Type 0} (host : Host Kernel) where
  open host use {World, now}

  -- The constructor, for a period that is not negative.
  unfoldable pub async_sleep : ℕ → World → ℕ × World
  async_sleep period w = let (t, w') = now w in (t + period, w')

  -- `await_ready`.
  unfoldable pub sleep_ready : ℕ → World → Bool × World
  sleep_ready tp w = let (t, w') = now w in (leb tp t, w')

-- `await_suspend`.
unfoldable pub suspend_sleep : ℕ → ℕ → Post
suspend_sleep tp handle = at_time tp handle
