-- ===== src/Async/Sleep/Late.antt =====
-- No coroutine wakes before its time.
use bc.Prelude.{
  ℕ, suc, ◌+◌, ◌<◌, ◌≡◌, refl, Bool, false, leb, ltb, List, [], ◌∷◌, Result, ok, arith, Bool-cases,
  inl, inr, All,
}
use bc.Async.Poller.{Epoll}
use bc.Async.Scheduler.{TimeNode, Host, Sched, emplace, post, post_at_time, expire_round, expire}
use bc.Async.Sleep.{async_sleep, sleep_ready, suspend_sleep}

-- All times are later than `t`.
abbrev pub AreLater : ℕ → List TimeNode → Type 0
AreLater t ns = All (λ n. t < n.time) ns

module _ (epoll : Epoll) (host : Host epoll.Kernel) where
  late_round :
      (again : ℕ → Sched epoll host → Result (Bool × Sched epoll host)) (n : TimeNode)
      (ns : List TimeNode) (s : Sched epoll host)
      → AreLater (host.now s.world).0 ns
      → (host.now s.world).0 < n.time
      → expire_round epoll host again (emplace n ns) 0 s
        ≡ ok (false, record s { world = (host.now s.world).1 })
  unfolding expire_round emplace
  late_round again n [] s later h =
      let late : leb n.time (host.now s.world).0 ≡ false = ground arith in rw late refl
  late_round again n (m ∷ ms) s later h =
      let late : leb n.time (host.now s.world).0 ≡ false = ground arith in
      let late' : leb m.time (host.now s.world).0 ≡ false = ground (arith, later.0) in
      elim (Bool-cases (ltb n.time m.time)) [
        | inl e ↦ rw (e, late) refl
        | inr e ↦ rw (e, late') refl
      ]

  -- A coroutine that begins to sleep for a period at the time `t`, where all others wait for later
  -- times too, is posted for `t + period`; while the clock shows less, it is not ready, and the
  -- scheduler resumes nobody and leaves the queue as it is.
  pub expire-async_sleep :
      (fuel period handle : ℕ) (w : host.World) (s s' : Sched epoll host)
      → post epoll host (suspend_sleep (async_sleep host period w).0 handle) s ≡ ok s'
      → AreLater (host.now s.world).0 s.time_nodes
      → (host.now s.world).0 < (host.now w).0 + period
      → ((sleep_ready host (async_sleep host period w).0 s.world).0 ≡ false)
        × (expire epoll host (suc fuel) 0 s'
            ≡ ok (false, record s' { world = (host.now s.world).1 }))
  unfolding post post_at_time suspend_sleep async_sleep sleep_ready expire
  expire-async_sleep fuel period handle w s s' e later h =
      let t = (host.now w).0 + period in
      let n : TimeNode = record { time = t; next = handle } in
      let same : post_at_time epoll host n s ≡ s' = cc in
      (
        ground arith,
        rw (← same) (
            late_round (expire epoll host fuel) n s.time_nodes (post_at_time epoll host n s) later
              h),
      )
