-- ===== src/Async/Scheduler/Times.antt =====
-- The order of `time_nodes_`, and how long `run` may block.
use bc.Prelude.{
  ℕ, zero, suc, ◌+◌, ◌-◌, ◌≡◌, ◌≤◌, ◌<◌, Bool, not, leb, ltb, List, [], ◌∷◌, Result, pos, arith,
  Bool-cases, inl, inr, Gives, Gives->>=, gives, fails, Gives-in_bounds, Gives-assert, Gives-any,
  get_elem?,
}
use bc.Async.Poller.{Epoll, Event, subscribe}
use bc.Async.Scheduler.{
  TimeNode, Host, Sched, Post, at_time, at_descriptor, drop, emplace, adjust_size, post, post_all,
  post_at_time, post_at_descriptor, poller_subscribe, update_descriptor, resume_coro, expire_round,
  expire, period, s_period,
}

-- No time is before `t`; each time is no later than those behind it.
abbrev pub AreFrom : ℕ → List TimeNode → Type 0
AreFrom t [] = Unit
AreFrom t (n ∷ ns) = (t ≤ n.time) × AreFrom t ns

abbrev pub IsSorted : List TimeNode → Type 0
IsSorted [] = Unit
IsSorted (n ∷ ns) = AreFrom n.time ns × IsSorted ns

AreFrom-le : (t u : ℕ) (ns : List TimeNode) → t ≤ u → AreFrom u ns → AreFrom t ns
AreFrom-le t u [] h a = tt
AreFrom-le t u (n ∷ ns) h a = (omega arith, AreFrom-le t u ns h a.1)

emplace-AreFrom :
    (t : ℕ) (n : TimeNode) (ns : List TimeNode)
    → t ≤ n.time
    → AreFrom t ns
    → AreFrom t (emplace n ns)
unfolding emplace
emplace-AreFrom t n [] h a = (h, tt)
emplace-AreFrom t n (m ∷ ms) h a = elim (Bool-cases (ltb n.time m.time)) [
  | inl e ↦ rw e (h, a)
  | inr e ↦ rw e (a.0, emplace-AreFrom t n ms h a.1)
]

emplace-IsSorted : (n : TimeNode) (ns : List TimeNode) → IsSorted ns → IsSorted (emplace n ns)
unfolding emplace
emplace-IsSorted n [] s = (tt, tt)
emplace-IsSorted n (m ∷ ms) s = elim (Bool-cases (ltb n.time m.time)) [
  | inl e ↦
      let less : n.time < m.time = ground arith in
      rw e ((omega arith, AreFrom-le n.time m.time ms (omega arith) s.0), s)
  | inr e ↦
      let more : m.time ≤ n.time = ground arith in
      rw e (emplace-AreFrom m.time n ms more s.0, emplace-IsSorted n ms s.1)
]

module _ (epoll : Epoll) (host : Host epoll.Kernel) where
  abbrev HasOrder : Sched epoll host → Type 0
  HasOrder s = IsSorted s.time_nodes

  poller_subscribe-HasOrder :
      (fd : ℕ) (e : Event) (s : Sched epoll host)
      → HasOrder s
      → Gives HasOrder (poller_subscribe epoll host fd e s)
  unfolding poller_subscribe
  poller_subscribe-HasOrder fd e s o =
      Gives->>= (Gives-any (subscribe epoll fd e s.poller s.kernel)) (λ r _. gives o)

  update_descriptor-HasOrder :
      (fd : ℕ) (s : Sched epoll host)
      → HasOrder s
      → Gives HasOrder (update_descriptor epoll host fd s)
  unfolding update_descriptor
  update_descriptor-HasOrder fd s o =
      Gives->>= (Gives-in_bounds (get_elem? s.descriptor_nodes fd))
        (λ l _. poller_subscribe-HasOrder fd _ s o)

  post-HasOrder :
      (p : Post) (s : Sched epoll host) → HasOrder s → Gives HasOrder (post epoll host p s)
  unfolding post post_at_time post_at_descriptor
  post-HasOrder (at_time t h) s o =
      gives (emplace-IsSorted (record { time = t; next = h }) s.time_nodes o)
  post-HasOrder (at_descriptor fd n) s o = Gives->>= (Gives-assert (ltb 0 fd)) (λ _ _.
      Gives->>= (Gives-in_bounds (get_elem? (adjust_size s.descriptor_nodes fd) fd))
        (λ l _. Gives->>= (update_descriptor-HasOrder fd _ o) (λ t q. gives q)))
  post-HasOrder (drop fd) s o = poller_subscribe-HasOrder fd 0 s o

  post_all-HasOrder :
      (ps : List Post) (s : Sched epoll host)
      → HasOrder s
      → Gives HasOrder (post_all epoll host ps s)
  unfolding post_all
  post_all-HasOrder [] s o = gives o
  post_all-HasOrder (p ∷ ps) s o = Gives->>= (post-HasOrder p s o) (λ t q. post_all-HasOrder ps t q)

  resume_coro-HasOrder :
      (h : ℕ) (s : Sched epoll host) → HasOrder s → Gives HasOrder (resume_coro epoll host h s)
  unfolding resume_coro
  resume_coro-HasOrder h s o = post_all-HasOrder _ _ o

  expire_round-HasOrder :
      (again : ℕ → Sched epoll host → Result (Bool × Sched epoll host)) (ns : List TimeNode)
      (expired : ℕ) (s : Sched epoll host)
      → ((e : ℕ) (u : Sched epoll host) → HasOrder u → Gives (λ r. HasOrder r.1) (again e u))
      → IsSorted ns
      → HasOrder s
      → Gives (λ r. HasOrder r.1) (expire_round epoll host again ns expired s)
  unfolding expire_round
  expire_round-HasOrder again [] expired s loop q o = gives o
  expire_round-HasOrder again (top ∷ rest) expired s loop q o =
      elim (Bool-cases (leb top.time (host.now s.world).0)) [
        | inr late ↦ rw late (gives o)
        | inl due ↦ rw due (
            Gives->>= (Gives-assert (not (host.is_done top.next (host.now s.world).1))) (λ _ _.
              Gives->>= (resume_coro-HasOrder top.next _ q.1) (λ u d. loop (expired + 1) _ d)))
      ]

  -- The loop over the times keeps the queue sorted, whatever the resumed coroutines post.
  expire-IsSorted :
      (fuel expired : ℕ) (s : Sched epoll host)
      → IsSorted s.time_nodes
      → Gives (λ r. IsSorted (r.1).time_nodes) (expire epoll host fuel expired s)
  unfolding expire
  expire-IsSorted zero expired s o = fails
  expire-IsSorted (suc fuel) expired s o =
      expire_round-HasOrder (expire epoll host fuel) s.time_nodes expired s
        (λ e u d. expire-IsSorted fuel e u d) o o

  -- Where the queue is sorted and the period is not negative, it is one second at most, and what
  -- starts now and takes that long ends no later than any time of the queue.
  pub period-AreFrom :
      (ns : List TimeNode) (t d : ℕ)
      → IsSorted ns
      → period epoll host ns t ≡ pos d
      → (d ≤ s_period) × AreFrom (t + d) ns
  unfolding period
  period-AreFrom [] t d o e = let same : d ≡ s_period = cc in (omega arith, tt)
  period-AreFrom (top ∷ rest) t d o e = elim (Bool-cases (leb top.time (t + s_period))) [
    | inr far ↦
        let same : d ≡ s_period = ground arith in
        let later : t + s_period < top.time = ground arith in
        (omega arith, (omega arith, AreFrom-le (t + d) top.time rest (omega arith) o.0))
    | inl near ↦
        let order : t ≤ top.time = ground arith in
        let same : d ≡ top.time - t = ground arith in
        let bound : top.time ≤ t + s_period = ground arith in
        (omega arith, (omega arith, AreFrom-le (t + d) top.time rest (omega arith) o.0))
  ]
