-- ===== src/Async/Scheduler/Sleepers.antt =====
-- Programs of sleeping coroutines, and the loop over the times in them.
use bc.Prelude.{
  ℕ, zero, suc, ◌+◌, ◌^◌, ◌≡◌, ◌<◌, ◌≤◌, refl, ap, ◌∙◌, Bool, true, false, leb, ltb, List, [], ◌∷◌,
  length, Result, ok, arith, Bool-cases, inl, inr, ◌⊎◌, ℤ, pos,
}
use bc.Async.Poller.{Epoll}
use bc.Async.Scheduler.{
  TimeNode, Host, Sched, Post, at_time, at_descriptor, drop, decrement, emplace, post, post_all,
  post_at_time, resume_coro, expire_round, expire,
}
use bc.Async.Scheduler.Count.{length-emplace}

pub List-cases {ℓ} :
    {A : Type ℓ} (xs : List A) → (xs ≡ []) ⊎ ((x : A) × (ys : List A) × (xs ≡ x ∷ ys))
List-cases [] = inl refl
List-cases (x ∷ xs) = inr (x, xs, refl)

-- Posts for times only, and the queue behind them.
abbrev pub AreTimes : List Post → Type 0
AreTimes [] = Unit
AreTimes (at_time t h ∷ ps) = AreTimes ps
AreTimes (_ ∷ ps) = ⊥

abbrev pub queue : List Post → List TimeNode → List TimeNode
queue [] ns = ns
queue (at_time t h ∷ ps) ns = queue ps (emplace (record { time = t; next = h }) ns)
queue (_ ∷ ps) ns = queue ps ns

-- A program whose coroutines only sleep and that sleeps a bounded number of times more: `left`
-- of a world. `Suspended` says which coroutines may be resumed. The clock does not run back, and
-- `sleep_for` sleeps for the duration at least.
pub record Sleepers {Kernel : Type 0} (host : Host Kernel) : Type 1 where
  pub clock : host.World → ℕ
  pub left : host.World → ℕ
  pub Suspended : host.World → List TimeNode → Type 0
  pub clock_now :
      (w : host.World) → (clock w ≤ (host.now w).0) × ((host.now w).0 ≤ clock (host.now w).1)
  pub clock_sleep : (r : ℤ) (w : host.World) → clock w ≤ clock (host.sleep_for r w)
  pub clock_sleep_pos : (d : ℕ) (w : host.World) → clock w + d ≤ clock (host.sleep_for (pos d) w)
  pub left_now : (w : host.World) → left (host.now w).1 ≤ left w
  pub left_sleep : (r : ℤ) (w : host.World) → left (host.sleep_for r w) ≤ left w
  pub now_Suspended :
      (w : host.World) (ns : List TimeNode) → Suspended w ns → Suspended (host.now w).1 ns
  pub sleep_Suspended :
      (r : ℤ) (w : host.World) (ns : List TimeNode)
      → Suspended w ns
      → Suspended (host.sleep_for r w) ns
  pub is_done_Suspended :
      (w : host.World) (n : TimeNode) (ns : List TimeNode)
      → Suspended w (n ∷ ns)
      → host.is_done n.next w ≡ false
  pub resume_times :
      (w : host.World) (n : TimeNode) (ns : List TimeNode)
      → Suspended w (n ∷ ns)
      → n.time ≤ clock w
      → AreTimes (host.resume n.next w).1
  pub resume_left :
      (w : host.World) (n : TimeNode) (ns : List TimeNode)
      → Suspended w (n ∷ ns)
      → n.time ≤ clock w
      → length (host.resume n.next w).1 + left (host.resume n.next w).0 ≤ left w
  pub resume_Suspended :
      (w : host.World) (n : TimeNode) (ns : List TimeNode)
      → Suspended w (n ∷ ns)
      → n.time ≤ clock w
      → Suspended (host.resume n.next w).0 (queue (host.resume n.next w).1 ns)

pub length-queue :
    (ps : List Post) (ns : List TimeNode)
    → AreTimes ps
    → length (queue ps ns) ≡ length ps + length ns
length-queue [] ns h = omega arith
length-queue (at_time t k ∷ ps) ns h = omega (
  arith,
  length-queue ps (emplace (record { time = t; next = k }) ns) h,
  length-emplace (record { time = t; next = k }) ns,
)
length-queue (at_descriptor _ _ ∷ ps) ns h = elim h [ ]
length-queue (drop _ ∷ ps) ns h = elim h [ ]

module _ (epoll : Epoll) (host : Host epoll.Kernel) where
  abbrev pub S : Type 0
  S = Sched epoll host

  pub post_all-queue :
      (ps : List Post) (s : S)
      → AreTimes ps
      → length ps + s.coro_count < 2 ^ 64
      → (u : S) × ((post_all epoll host ps s ≡ ok u)
          × ((u.time_nodes ≡ queue ps s.time_nodes)
              × ((u.coro_count ≡ length ps + s.coro_count) × (u.world ≡ s.world))))
  unfolding post_all post post_at_time
  post_all-queue [] s h b = (s, (refl, (refl, (omega arith, refl))))
  post_all-queue (at_time t k ∷ ps) s h b =
      let (u, (done, (nodes, (count, world)))) =
        post_all-queue ps (post_at_time epoll host (record { time = t; next = k }) s) h
          (omega arith) in
      (u, (done, (nodes, (omega arith, world))))
  post_all-queue (at_descriptor _ _ ∷ ps) s h b = elim h [ ]
  post_all-queue (drop _ ∷ ps) s h b = elim h [ ]

module _ (epoll : Epoll) (host : Host epoll.Kernel) (sleepers : Sleepers host) where
  open sleepers use {clock, left, Suspended}

  -- Each coroutine that waits is suspended, waits for a time, and is counted.
  abbrev pub IsAsleep : S epoll host → Type 0
  IsAsleep s = Suspended s.world s.time_nodes × (s.coro_count ≡ length s.time_nodes)

  -- How often a coroutine will be resumed, at most.
  abbrev pub remaining : S epoll host → ℕ
  remaining s = length s.time_nodes + left s.world

  abbrev finished : S epoll host → S epoll host
  finished u = record u { coro_count = decrement u.coro_count }

  -- The queue's first coroutine runs.
  resume_coro-IsAsleep :
      (n : TimeNode) (ns : List TimeNode) (s : S epoll host)
      → Suspended s.world (n ∷ ns)
      → n.time ≤ clock s.world
      → s.time_nodes ≡ ns
      → s.coro_count ≡ suc (length ns)
      → suc (length ns) + left s.world < 2 ^ 64
      → (u : S epoll host) × ((resume_coro epoll host n.next s ≡ ok u)
          × (IsAsleep (finished u) × (remaining u < suc (length ns) + left s.world)))
  unfolding resume_coro
  resume_coro-IsAsleep n ns s h past q c b =
      let w = (host.resume n.next s.world).0 in
      let ps = (host.resume n.next s.world).1 in
      let times = sleepers.resume_times s.world n ns h past in
      let fewer = sleepers.resume_left s.world n ns h past in
      let (u, (done, (nodes, (count, world)))) =
        post_all-queue epoll host ps (record s { world = w }) times (omega arith) in
      let nodes' : u.time_nodes ≡ queue ps ns = nodes ∙ ap (queue ps) q in
      let size : length u.time_nodes ≡ length ps + length ns =
        ap (length {0}) nodes' ∙ length-queue ps ns times in
      let kept : Suspended u.world u.time_nodes =
        rw (world, nodes') (sleepers.resume_Suspended s.world n ns h past) in
      let same : left u.world ≡ left w = ap left world in
      (u, (done, ((kept, omega arith), omega arith)))

  due_round :
      (again : ℕ → S epoll host → Result (Bool × S epoll host)) (top : TimeNode)
      (rest : List TimeNode) (expired : ℕ) (s u : S epoll host)
      → s.time_nodes ≡ top ∷ rest
      → leb top.time (host.now s.world).0 ≡ true
      → host.is_done top.next (host.now s.world).1 ≡ false
      → resume_coro epoll host top.next
          (record s { world = (host.now s.world).1; time_nodes = rest })
        ≡ ok u
      → expire_round epoll host again s.time_nodes expired s ≡ again (expired + 1) (finished u)
  unfolding expire_round
  due_round again top rest expired s u q due running done = rw (q, due, running, done) refl

  -- A round of the loop over the times with a coroutine whose time has come.
  pub expire_round-due :
      (again : ℕ → S epoll host → Result (Bool × S epoll host)) (top : TimeNode)
      (rest : List TimeNode) (expired : ℕ) (s : S epoll host)
      → s.time_nodes ≡ top ∷ rest
      → IsAsleep s
      → remaining s < 2 ^ 64
      → leb top.time (host.now s.world).0 ≡ true
      → (v : S epoll host) × ((expire_round epoll host again s.time_nodes expired s
            ≡ again (expired + 1) v)
          × (IsAsleep v × (remaining v < remaining s)))
  expire_round-due again top rest expired s q a b due =
      let w = (host.now s.world).1 in
      let size : length s.time_nodes ≡ suc (length rest) = ap (length {0}) q in
      let less = sleepers.left_now s.world in
      let clocks = sleepers.clock_now s.world in
      let order : top.time ≤ (host.now s.world).0 = ground arith in
      let past : top.time ≤ clock w = omega arith in
      let kept : Suspended s.world (top ∷ rest) = rw (← q) a.0 in
      let kept' = sleepers.now_Suspended s.world (top ∷ rest) kept in
      let (u, (done, (asleep, fewer))) =
        resume_coro-IsAsleep top rest (record s { world = w; time_nodes = rest }) kept' past refl
          (a.1 ∙ size) (omega arith) in
      let running = sleepers.is_done_Suspended w top rest kept' in
      (finished u, (due_round again top rest expired s u q due running done, (asleep, omega arith)))

  pub expire_round-late :
      (again : ℕ → S epoll host → Result (Bool × S epoll host)) (top : TimeNode)
      (rest : List TimeNode) (expired : ℕ) (s : S epoll host)
      → s.time_nodes ≡ top ∷ rest
      → leb top.time (host.now s.world).0 ≡ false
      → expire_round epoll host again s.time_nodes expired s
        ≡ ok (ltb 0 expired, record s { world = (host.now s.world).1 })
  unfolding expire_round
  expire_round-late again top rest expired s q late = rw (q, late) refl

  expire_round-none :
      (again : ℕ → S epoll host → Result (Bool × S epoll host)) (expired : ℕ) (s : S epoll host)
      → s.time_nodes ≡ []
      → expire_round epoll host again s.time_nodes expired s ≡ ok (ltb 0 expired, s)
  unfolding expire_round
  expire_round-none again expired s q = rw q refl

  pub now-IsAsleep :
      (s : S epoll host) → IsAsleep s → IsAsleep (record s { world = (host.now s.world).1 })
  now-IsAsleep s a = (sleepers.now_Suspended s.world s.time_nodes a.0, a.1)

  -- Once something has expired, the loop ends with one round for each coroutine that is left.
  pub expire-some :
      (fuel expired : ℕ) (s : S epoll host)
      → IsAsleep s
      → remaining s < 2 ^ 64
      → remaining s < fuel
      → 0 < expired
      → (u : S epoll host) × ((expire epoll host fuel expired s ≡ ok (true, u))
          × (IsAsleep u × (remaining u ≤ remaining s)))
  unfolding expire
  expire-some zero expired s a b f p = absurd (omega arith)
  expire-some (suc fuel) expired s a b f p =
      let some : ltb 0 expired ≡ true = ground arith in
      elim (List-cases s.time_nodes) [
        | inl q ↦ (
          s,
          (expire_round-none (expire epoll host fuel) expired s q ∙ rw some refl, (a, omega arith)),
        )
        | inr (top, rest, q) ↦ elim (Bool-cases (leb top.time (host.now s.world).0)) [
          | inl due ↦
              let (v, (step, (asleep, fewer))) =
                expire_round-due (expire epoll host fuel) top rest expired s q a b due in
              let (u, (done, (asleep', fewer'))) =
                expire-some fuel (expired + 1) v asleep (omega arith) (omega arith) (omega arith) in
              (u, (step ∙ done, (asleep', omega arith)))
          | inr late ↦
              let less = sleepers.left_now s.world in
              (
                record s { world = (host.now s.world).1 },
                (
                  expire_round-late (expire epoll host fuel) top rest expired s q late
                      ∙ rw some refl,
                  (now-IsAsleep s a, omega arith),
                ),
              )
        ]
      ]
