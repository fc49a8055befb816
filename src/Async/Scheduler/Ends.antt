-- ===== src/Async/Scheduler/Ends.antt =====
-- The runs of `scheduler::run` in programs of sleeping coroutines.
use bc.Prelude.{
  ℕ, zero, suc, ◌+◌, ◌-◌, ◌^◌, ◌≡◌, ◌<◌, ◌≤◌, refl, ap, ◌∙◌, Bool, true, false, ◌==◌, leb, ltb,
  List, [], ◌∷◌, length, ok, arith, Bool-cases, inl, inr, negsuc,
}
use bc.Async.Poller.{Epoll}
use bc.Async.Scheduler.{
  TimeNode, Host, expire, handle_expired, period, s_period, idle, idle_unless, run,
}
use bc.Async.Scheduler.Sleepers.{
  List-cases, Sleepers, S, IsAsleep, remaining, expire_round-due, expire_round-late, now-IsAsleep,
  expire-some,
}

module _ (epoll : Epoll) (host : Host epoll.Kernel) (sleepers : Sleepers host) where
  open sleepers use {clock, left, Suspended}

  -- Where nothing has expired, the sleep brings the clock nearer to the first time.
  sleep_for-period :
      (c t : ℕ) (top : TimeNode) (rest : List TimeNode) (w : host.World)
      → c < top.time
      → c ≤ t
      → t ≤ clock w
      → top.time - clock (host.sleep_for (period epoll host (top ∷ rest) t) w) < top.time - c
  unfolding period
  sleep_for-period c t top rest w early past now = elim (Bool-cases (leb top.time (t + s_period))) [
    | inl near ↦ elim (Bool-cases (leb t top.time)) [
      | inl later ↦
          let slept = sleepers.clock_sleep_pos (top.time - t) w in
          let order : t ≤ top.time = ground arith in rw (near, later) (omega arith)
      | inr over ↦
          let slept = sleepers.clock_sleep (negsuc (t - top.time - 1)) w in
          let order : top.time < t = ground arith in rw (near, over) (omega arith)
    ]
    | inr far ↦ let slept = sleepers.clock_sleep_pos s_period w in rw far (omega arith)
  ]

  -- An iteration of `run` without an expiry.
  idle-IsAsleep :
      (c fuel : ℕ) (top : TimeNode) (rest : List TimeNode) (s : S epoll host)
      → IsAsleep epoll host sleepers s
      → s.time_nodes ≡ top ∷ rest
      → c < top.time
      → c ≤ clock s.world
      → (u : S epoll host) × ((idle epoll host fuel s ≡ ok u)
          × (IsAsleep epoll host sleepers u
              × ((u.time_nodes ≡ top ∷ rest)
                  × ((left u.world ≤ left s.world) × (top.time - clock u.world < top.time - c)))))
  unfolding idle
  idle-IsAsleep c fuel top rest s a q early past =
      let t = (host.now s.world).0 in
      let w = (host.now s.world).1 in
      let r = period epoll host s.time_nodes t in
      let only : ltb (length s.time_nodes) s.coro_count ≡ false = ground (arith, a.1) in
      let clocks = sleepers.clock_now s.world in
      let less = sleepers.left_now s.world in
      let less' = sleepers.left_sleep r w in
      let kept =
        sleepers.sleep_Suspended r w s.time_nodes
          (sleepers.now_Suspended s.world s.time_nodes a.0) in
      let near : top.time - clock (host.sleep_for r w) < top.time - c =
        rw q (sleep_for-period c t top rest w early (omega arith) clocks.1) in
      (
        record s { world = host.sleep_for r w },
        (rw only refl, ((kept, a.1), (q, (omega arith, near)))),
      )

  -- How far the first time is ahead of the clock.
  abbrev ahead : List TimeNode → host.World → ℕ
  ahead [] w = 0
  ahead (top ∷ rest) w = top.time - clock w

  -- With some number of iterations, `run` returns, with no sleeper left, in a world in which no
  -- coroutine is suspended.
  abbrev pub Returns : ℕ → S epoll host → Type 0
  Returns inner s =
      (fuel : ℕ) × (t : S epoll host) × ((run epoll host fuel inner s ≡ ok t)
        × ((t.time_nodes ≡ []) × Suspended t.world []))

  run-step :
      (inner : ℕ) (b : Bool) (s u v : S epoll host)
      → (s.coro_count == 0) ≡ false
      → handle_expired epoll host inner s ≡ ok (b, u)
      → idle_unless epoll host inner b u ≡ ok v
      → Returns inner v
      → Returns inner s
  unfolding run
  run-step inner b s u v some first second (fuel, t, (done, q)) =
      (suc fuel, t, (rw (some, first, second) done, q))

  run-late :
      (i : ℕ) (top : TimeNode) (rest : List TimeNode) (s : S epoll host)
      → IsAsleep epoll host sleepers s
      → s.time_nodes ≡ top ∷ rest
      → leb top.time (host.now s.world).0 ≡ false
      → ((v : S epoll host)
          → IsAsleep epoll host sleepers v
          → remaining epoll host sleepers v ≤ remaining epoll host sleepers s
          → ahead v.time_nodes v.world < ahead s.time_nodes s.world
          → Returns (suc i) v)
      → Returns (suc i) s
  unfolding handle_expired expire idle_unless
  run-late i top rest s a q late nearer =
      let s' : S epoll host = record s { world = (host.now s.world).1 } in
      let clocks = sleepers.clock_now s.world in
      let less = sleepers.left_now s.world in
      let early : (host.now s.world).0 < top.time = ground arith in
      let size : length s.time_nodes ≡ suc (length rest) = ap (length {0}) q in
      let some : (s.coro_count == 0) ≡ false = ground (arith, a.1) in
      let (u, (done, (asleep, (nodes, (fewer, near))))) =
        idle-IsAsleep (clock s.world) (suc i) top rest s' (now-IsAsleep epoll host sleepers s a) q
          (omega arith) (omega arith) in
      let size' : length u.time_nodes ≡ suc (length rest) = ap (length {0}) nodes in
      let near' : ahead u.time_nodes u.world < ahead s.time_nodes s.world = rw (nodes, q) near in
      run-step (suc i) false s s' u some
        (expire_round-late epoll host sleepers (expire epoll host i) top rest 0 s q late) done
        (nearer u asleep (omega arith) near')

  run-due :
      (i : ℕ) (top : TimeNode) (rest : List TimeNode) (s : S epoll host)
      → IsAsleep epoll host sleepers s
      → remaining epoll host sleepers s < 2 ^ 64
      → remaining epoll host sleepers s ≤ i
      → s.time_nodes ≡ top ∷ rest
      → leb top.time (host.now s.world).0 ≡ true
      → ((v : S epoll host)
          → IsAsleep epoll host sleepers v
          → remaining epoll host sleepers v < remaining epoll host sleepers s
          → Returns (suc i) v)
      → Returns (suc i) s
  unfolding handle_expired expire idle_unless
  run-due i top rest s a b f q due fewer =
      let size : length s.time_nodes ≡ suc (length rest) = ap (length {0}) q in
      let some : (s.coro_count == 0) ≡ false = ground (arith, a.1) in
      let (v, (step, (asleep, less))) =
        expire_round-due epoll host sleepers (expire epoll host i) top rest 0 s q a b due in
      let (u, (done, (asleep', less'))) =
        expire-some epoll host sleepers i 1 v asleep (omega arith) (omega arith) (omega arith) in
      run-step (suc i) true s u u some (step ∙ done) refl (fewer u asleep' (omega arith))

  run-nearer :
      (i n gap : ℕ) (s : S epoll host)
      → ((v : S epoll host)
          → IsAsleep epoll host sleepers v
          → remaining epoll host sleepers v < n
          → Returns (suc i) v)
      → IsAsleep epoll host sleepers s
      → n < 2 ^ 64
      → n ≤ i
      → remaining epoll host sleepers s ≤ n
      → ahead s.time_nodes s.world < gap
      → Returns (suc i) s
  unfolding run
  run-nearer i n zero s fewer a b f r g = absurd (omega arith)
  run-nearer i n (suc gap) s fewer a b f r g = elim (List-cases s.time_nodes) [
    | inl q ↦
        let count : s.coro_count ≡ 0 = a.1 ∙ ap (length {0}) q in
        (1, s, (rw count refl, (q, rw (← q) a.0)))
    | inr (top, rest, q) ↦ elim (Bool-cases (leb top.time (host.now s.world).0)) [
      | inl due ↦
          run-due i top rest s a (omega arith) (omega arith) q due
            (λ v c l. fewer v c (omega arith))
      | inr late ↦
          run-late i top rest s a q late
            (λ v c l near. run-nearer i n gap v fewer c b f (omega arith) (omega arith))
    ]
  ]

  run-fewer :
      (i n : ℕ) (s : S epoll host)
      → IsAsleep epoll host sleepers s
      → n < 2 ^ 64
      → n ≤ i
      → remaining epoll host sleepers s < n
      → Returns (suc i) s
  run-fewer i zero s a b f r = absurd (omega arith)
  run-fewer i (suc n) s a b f r =
      run-nearer i n (suc (ahead s.time_nodes s.world)) s
        (λ v c l. run-fewer i n v c (omega arith) (omega arith) l) a (omega arith) (omega arith)
        (omega arith) (omega arith)

  -- Where all coroutines sleep, are counted, and together sleep a bounded number of times more, those
  -- that wait now included fewer than 2 ^ 64, `run` returns after some number of iterations, with no sleeper left, in a world in which no
  -- coroutine is suspended; the loop inside needs no more fuel than one round for each of these
  -- sleeps and one more.
  pub run-Returns :
      (inner : ℕ) (s : S epoll host)
      → IsAsleep epoll host sleepers s
      → remaining epoll host sleepers s < 2 ^ 64
      → remaining epoll host sleepers s < inner
      → Returns inner s
  run-Returns zero s a b f = absurd (omega arith)
  run-Returns (suc i) s a b f =
      run-nearer i (remaining epoll host sleepers s) (suc (ahead s.time_nodes s.world)) s
        (λ v c l. run-fewer i (remaining epoll host sleepers s) v c b (omega arith) l) a b
        (omega arith) (omega arith) (omega arith)
