-- ===== src/Async/Scheduler/Loops.antt =====
-- `coro_count_` through the loops of the scheduler, up to `run`.
use bc.Prelude.{
  ℕ, zero, suc, ◌+◌, ◌^◌, ◌≡◌, ◌<◌, refl, ap, Bool, true, false, not, ◌==◌, ltb, leb, if◌then◌else◌,
  List, [], ◌∷◌, length, Result, ok, err, thrown, ℤ, pos, negsuc, quot, arith, Bool-cases, ==_iff,
  inl, inr, Gives, Gives->>=, gives, fails, Gives-in_bounds, Gives-assert, Gives-eq-ok, Gives-any,
}
use bc.Async.Poller.{Epoll, EpollEvent, Outcome, done, failed}
use bc.Async.Scheduler.{
  TimeNode, Host, eintr, overwrite, take, Sched, same_storage, handle_events, poll_for,
  handle_triggered, expire_round, expire, handle_expired, idle, idle_unless, run,
}
use bc.Async.Scheduler.Count.{total, Counts, handler-Counts, resume_coro-Counts, finished}

length-nil : (ts : List TimeNode) → length ts ≡ 0 → ts ≡ []
length-nil [] e = refl
length-nil (t ∷ ts) e = absurd (omega arith)

module _ (epoll : Epoll) (host : Host epoll.Kernel) where
  handle_events-Counts :
      (k fuel : ℕ) (xs : List EpollEvent) (s : Sched epoll host)
      → Counts epoll host k s
      → Gives (Counts epoll host k) (handle_events epoll host fuel xs s)
  unfolding handle_events
  handle_events-Counts k fuel [] s c = gives c
  handle_events-Counts k fuel (x ∷ xs) s c = Gives->>= (Gives-in_bounds x.descriptor) (λ fd _.
      Gives->>= (handler-Counts epoll host k fuel fd x.events s c) (λ t d.
        Gives->>= (Gives-any (same_storage epoll host xs s t))
          (λ _ _. handle_events-Counts k fuel xs t d)))

  poll_for-Counts :
      (k fuel timeout : ℕ) (s : Sched epoll host)
      → Counts epoll host k s
      → Gives (Counts epoll host k) (poll_for epoll host fuel timeout s)
  unfolding poll_for
  poll_for-Counts k fuel timeout s c =
      outcome-cases (host.wait s.kernel (length s.poller.evs_) timeout s.world).1
    where
      w : host.World
      w = (host.wait s.kernel (length s.poller.evs_) timeout s.world).0

      outcome-cases :
          (o : Outcome (List EpollEvent))
          → Gives (Counts epoll host k) (elim o [
            | failed errno ↦
                if errno == eintr then ok (record s { world = w }) else err (thrown errno)
            | done written ↦
                let evs = overwrite written s.poller.evs_ in
                handle_events epoll host fuel
                  (take written evs)
                  (record s { world = w; poller = record (s.poller) { evs_ = evs } })
          ])
      outcome-cases (failed errno) = elim (Bool-cases (errno == eintr)) [
        | inl q ↦ rw q (gives c)
        | inr q ↦ rw q fails
      ]
      outcome-cases (done written) = handle_events-Counts k fuel _ _ c

  handle_triggered-Counts :
      (k fuel : ℕ) (rtime : ℤ) (s : Sched epoll host)
      → Counts epoll host k s
      → Gives (Counts epoll host k) (handle_triggered epoll host fuel rtime s)
  unfolding handle_triggered
  handle_triggered-Counts k fuel rtime s c = quotient-cases (quot rtime 1_000_000)
    where
      quotient-cases :
          (q : ℤ)
          → Gives
              (Counts epoll host k)
              (elim q [ pos timeout ↦ poll_for epoll host fuel timeout s | negsuc _ ↦ ok s ])
      quotient-cases (pos timeout) = poll_for-Counts k fuel timeout s c
      quotient-cases (negsuc n) = gives c

  expire_round-Counts :
      (k : ℕ) (again : ℕ → Sched epoll host → Result (Bool × Sched epoll host)) (ts : List TimeNode)
      (expired : ℕ) (s : Sched epoll host)
      → ((e : ℕ) (u : Sched epoll host)
          → Counts epoll host k u
          → Gives (λ r. Counts epoll host k r.1) (again e u))
      → s.time_nodes ≡ ts
      → Counts epoll host k s
      → Gives (λ r. Counts epoll host k r.1) (expire_round epoll host again ts expired s)
  unfolding expire_round
  expire_round-Counts k again [] expired s loop q c = gives c
  expire_round-Counts k again (top ∷ rest) expired s loop q c =
      elim (Bool-cases (leb top.time (host.now s.world).0)) [
        | inr late ↦ rw late (gives c)
        | inl due ↦ rw due (
            Gives->>= (Gives-assert (not (host.is_done top.next (host.now s.world).1))) (λ _ _.
              Gives->>=
                (resume_coro-Counts epoll host (suc k) top.next _
                  (omega (arith, ap (length {0}) q)))
                (λ u d. loop (expired + 1) _ (finished epoll host k u d))))
      ]

  expire-Counts :
      (k fuel expired : ℕ) (s : Sched epoll host)
      → Counts epoll host k s
      → Gives (λ r. Counts epoll host k r.1) (expire epoll host fuel expired s)
  unfolding expire
  expire-Counts k zero expired s c = fails
  expire-Counts k (suc fuel) expired s c =
      expire_round-Counts k (expire epoll host fuel) s.time_nodes expired s
        (λ e u d. expire-Counts k fuel e u d) refl c

  idle-Counts :
      (k fuel : ℕ) (s : Sched epoll host)
      → Counts epoll host k s
      → Gives (Counts epoll host k) (idle epoll host fuel s)
  unfolding idle
  idle-Counts k fuel s c = elim (Bool-cases (ltb (length s.time_nodes) s.coro_count)) [
    | inl q ↦ rw q (handle_triggered-Counts k fuel _ _ c)
    | inr q ↦ rw q (gives c)
  ]

  idle_unless-Counts :
      (k fuel : ℕ) (b : Bool) (s : Sched epoll host)
      → Counts epoll host k s
      → Gives (Counts epoll host k) (idle_unless epoll host fuel b s)
  unfolding idle_unless
  idle_unless-Counts k fuel true s c = gives c
  idle_unless-Counts k fuel false s c = idle-Counts k fuel s c

  run-Gives :
      (k fuel inner : ℕ) (s : Sched epoll host)
      → Counts epoll host k s
      → Gives (λ t. Counts epoll host k t × (t.coro_count ≡ 0)) (run epoll host fuel inner s)
  unfolding run handle_expired
  run-Gives k zero inner s c = fails
  run-Gives k (suc fuel) inner s c = elim (Bool-cases (s.coro_count == 0)) [
    | inl q ↦ rw q (gives (c, (==_iff _ _).0 q))
    | inr q ↦ rw q (
        Gives->>= (expire-Counts k inner 0 s c) (λ r d.
          Gives->>= (idle_unless-Counts k inner r.0 r.1 d) (λ t g. run-Gives k fuel inner t g)))
  ]

  -- A run from a state whose `coro_count_` counts its nodes, if it returns, returns with no coroutine
  -- that waits for a time or for a descriptor, unless 2 ^ 64 or more of them wait.
  pub run_drained :
      (fuel inner : ℕ) (s t : Sched epoll host)
      → Counts epoll host 0 s
      → run epoll host fuel inner s ≡ ok t
      → length t.time_nodes + total t.descriptor_nodes < 2 ^ 64
      → (t.time_nodes ≡ []) × (total t.descriptor_nodes ≡ 0)
  run_drained fuel inner s t c e b =
      let (d, z) = Gives-eq-ok (run-Gives 0 fuel inner s c) e in
      (length-nil t.time_nodes (omega arith), omega arith)
