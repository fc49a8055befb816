-- ===== src/Async/Scheduler/Count.antt =====
-- `coro_count_` is the number of the nodes that wait.
use Prim.Native.Nat.{bit_and}
use bc.Prelude.{
  ℕ, zero, suc, ◌+◌, ◌-◌, ◌%◌, ◌^◌, ◌≡◌, refl, ap, ◌∙◌, Bool, true, false, ◌==◌, ltb, if◌then◌else◌,
  List, [], ◌∷◌, ◌++◌, some, length, length-append, get_elem?, set, replicate, arith, Bool-cases,
  inl, inr, Gives, Gives->>=, gives, fails, Gives-in_bounds, Gives-assert, Gives-map, Gives-any,
}
use bc.Async.BitCeil.{bit_ceil, resize}
use bc.Async.Poller.{Epoll, Event, subscribe, no_event}
use bc.Async.Scheduler.{
  DescriptorNode, TimeNode, Scheduler, Post, at_time, at_descriptor, drop, Next, coro, proxy, Host,
  increment, decrement, emplace, adjust_size, poller_subscribe, update_descriptor, post_at_time,
  post_at_descriptor, post, post_all, resume_coro, visit, walk, handler,
}

-- The nodes in all lists.
abbrev pub total : List (List DescriptorNode) → ℕ
total [] = 0
total (l ∷ ls) = length l + total ls

total-append : (xs ys : List (List DescriptorNode)) → total (xs ++ ys) ≡ total xs + total ys
total-append [] ys = omega arith
total-append (x ∷ xs) ys = omega (arith, total-append xs ys)

total-replicate : (n : ℕ) → total (replicate n []) ≡ 0
total-replicate zero = refl
total-replicate (suc n) = omega (arith, total-replicate n)

total-adjust_size :
    (nodes : List (List DescriptorNode)) (index : ℕ) → total (adjust_size nodes index) ≡ total nodes
unfolding adjust_size resize
total-adjust_size nodes index = elim (Bool-cases (ltb index (length nodes))) [
  | inl e ↦ rw e
  | inr e ↦
      rw e
        (total-append nodes _ ∙ rw (total-replicate (bit_ceil index - length nodes)) (omega arith))
]

total-set :
    (nodes : List (List DescriptorNode)) (fd : ℕ) {old : List DescriptorNode}
    (new : List DescriptorNode)
    → get_elem? nodes fd ≡ some old
    → total (set nodes fd new) + length old ≡ total nodes + length new
total-set [] fd new h = cc
total-set (l ∷ ls) zero new h = ground arith
total-set (l ∷ ls) (suc fd) new h = omega (arith, total-set ls fd new h)

pub length-emplace : (n : TimeNode) (ms : List TimeNode) → length (emplace n ms) ≡ suc (length ms)
unfolding emplace
length-emplace n [] = refl
length-emplace n (m ∷ ms) = ground (arith, length-emplace n ms)

module _ (epoll : Epoll) (host : Host epoll.Kernel) where
  abbrev pub S : Type 0
  S = Scheduler epoll.Kernel host.World

  -- The count is right up to `k` nodes that a loop holds in a list of its own.
  abbrev pub Counts : ℕ → S → Type 0
  Counts k s = s.coro_count ≡ (length s.time_nodes + total s.descriptor_nodes + k) % 2 ^ 64

  -- Both states count the same, and have the same nodes.
  record Same (s s' : S) : Type 0 where
    count_is : s'.coro_count ≡ s.coro_count
    times_are : s'.time_nodes ≡ s.time_nodes
    nodes_are : s'.descriptor_nodes ≡ s.descriptor_nodes

  Counts-Same : (k : ℕ) (s t : S) → Same s t → Counts k s → Counts k t
  Counts-Same k s t m c =
      omega (arith, ap total m.nodes_are, ap (length {0}) m.times_are, m.count_is)

  poller_subscribe-Same :
      (fd : ℕ) (e : Event) (s : S) → Gives (Same s) (poller_subscribe epoll host fd e s)
  unfolding poller_subscribe
  poller_subscribe-Same fd e s =
      Gives->>= (Gives-any (subscribe epoll fd e s.poller s.kernel))
        (λ r _. gives (record { count_is = refl; times_are = refl; nodes_are = refl }))

  update_descriptor-Same : (fd : ℕ) (s : S) → Gives (Same s) (update_descriptor epoll host fd s)
  unfolding update_descriptor
  update_descriptor-Same fd s =
      Gives->>= (Gives-in_bounds (get_elem? s.descriptor_nodes fd))
        (λ l _. poller_subscribe-Same fd _ s)

  posted :
      (k fd : ℕ) (n : DescriptorNode) (nodes : List (List DescriptorNode)) (l : List DescriptorNode)
      (s t : S)
      → total nodes ≡ total s.descriptor_nodes
      → get_elem? nodes fd ≡ some l
      → Same (record s { descriptor_nodes = set nodes fd (l ++ n ∷ []) }) t
      → Counts k s
      → Counts k (record t { coro_count = increment t.coro_count })
  posted k fd n nodes l s t e found m c = omega (
    arith,
    total-set nodes fd (l ++ n ∷ []) found,
    length-append l (n ∷ []),
    ap total m.nodes_are,
    ap (length {0}) m.times_are,
    m.count_is,
  )

  post_at_descriptor-Counts :
      (k fd : ℕ) (n : DescriptorNode) (s : S)
      → Counts k s
      → Gives (Counts k) (post_at_descriptor epoll host fd n s)
  unfolding post_at_descriptor
  post_at_descriptor-Counts k fd n s c =
      let nodes = adjust_size s.descriptor_nodes fd in
      Gives->>= (Gives-assert (ltb 0 fd)) (λ _ _.
        Gives->>= (Gives-in_bounds (get_elem? nodes fd)) (λ l found.
          Gives->>= (update_descriptor-Same fd _) (λ t m.
            gives (posted k fd n nodes l s t (total-adjust_size s.descriptor_nodes fd) found m c))))

  post-Counts : (k : ℕ) (p : Post) (s : S) → Counts k s → Gives (Counts k) (post epoll host p s)
  unfolding post post_at_time
  post-Counts k (at_time t h) s c =
      gives (omega (arith, length-emplace (record { time = t; next = h }) s.time_nodes))
  post-Counts k (at_descriptor fd n) s c = post_at_descriptor-Counts k fd n s c
  post-Counts k (drop fd) s c =
      Gives-map (poller_subscribe-Same fd no_event s) (λ t m. Counts-Same k s t m c)

  post_all-Counts :
      (k : ℕ) (ps : List Post) (s : S) → Counts k s → Gives (Counts k) (post_all epoll host ps s)
  unfolding post_all
  post_all-Counts k [] s c = gives c
  post_all-Counts k (p ∷ ps) s c = Gives->>= (post-Counts k p s c) (λ t d. post_all-Counts k ps t d)

  pub resume_coro-Counts :
      (k h : ℕ) (s : S) → Counts k s → Gives (Counts k) (resume_coro epoll host h s)
  unfolding resume_coro
  resume_coro-Counts k h s c = post_all-Counts k _ _ c

  visit-Counts :
      (k : ℕ) (n : Next) (s : S) → Counts k s → Gives (λ r. Counts k r.1) (visit epoll host n s)
  unfolding visit
  visit-Counts k (coro h) s c = Gives->>= (resume_coro-Counts k h s c) (λ t d. gives d)
  visit-Counts k (proxy p) s c = Gives->>= (post_all-Counts k _ _ c) (λ t d. gives d)

  -- A node that is taken out and counted off.
  pub finished :
      (k : ℕ) (s : S)
      → Counts (suc k) s
      → Counts k (record s { coro_count = decrement s.coro_count })
  finished k s c = omega arith

  -- What the walk does with a node that was called.
  walk-visited :
      (k fuel : ℕ) (e : Event) (n : DescriptorNode) (ns : List DescriptorNode) (ready : Bool)
      (t : S)
      → Counts (length (n ∷ ns) + k) t
      → ((u : S)
          → Counts (length ns + k) u
          → Gives (λ r. Counts (length r.0 + k) r.1) (walk epoll host fuel e ns u))
      → ((u : S)
          → Counts (length (n ∷ ns) + k) u
          → Gives (λ r. Counts (length r.0 + k) r.1) (walk epoll host fuel e (n ∷ ns) u))
      → Gives
          (λ (r : List DescriptorNode × S). Counts (length r.0 + k) r.1)
          (if ready
            then walk epoll host fuel e ns (record t { coro_count = decrement t.coro_count })
            else walk epoll host fuel e (n ∷ ns) t)
  walk-visited k fuel e n ns true t c on again = on _ (finished (length ns + k) t (omega arith))
  walk-visited k fuel e n ns false t c on again = again t c

  walk-Counts :
      (k fuel : ℕ) (e : Event) (ns : List DescriptorNode) (s : S)
      → Counts (length ns + k) s
      → Gives (λ r. Counts (length r.0 + k) r.1) (walk epoll host fuel e ns s)
  unfolding walk
  walk-Counts k zero e ns s c = fails
  walk-Counts k (suc fuel) e [] s c = gives c
  walk-Counts k (suc fuel) e (n ∷ ns) s c = elim (Bool-cases (bit_and n.ev e == 0)) [
    | inl q ↦
        rw q
          (Gives->>= (walk-Counts (suc k) fuel e ns s (omega arith)) (λ r d. gives (omega arith)))
    | inr q ↦ rw q (
        Gives->>= (visit-Counts (length (n ∷ ns) + k) n.next _ c) (λ r d.
          walk-visited k fuel e n ns r.0 r.1 d (λ t g. walk-Counts k fuel e ns t g)
            (λ t g. walk-Counts k fuel e (n ∷ ns) t g)))
  ]

  taken :
      (k fd : ℕ) (list : List DescriptorNode) (s : S)
      → get_elem? s.descriptor_nodes fd ≡ some list
      → Counts k s
      → Counts (length list + k) (record s { descriptor_nodes = set s.descriptor_nodes fd [] })
  taken k fd list s found c = omega (arith, total-set s.descriptor_nodes fd [] found)

  put_back :
      (k fd : ℕ) (kept later : List DescriptorNode) (s t : S)
      → get_elem? s.descriptor_nodes fd ≡ some later
      → Counts (length kept + k) s
      → Same (record s { descriptor_nodes = set s.descriptor_nodes fd (kept ++ later) }) t
      → Counts k t
  put_back k fd kept later s t found c m = Counts-Same k _ t m (
      omega
        (arith, total-set s.descriptor_nodes fd (kept ++ later) found, length-append kept later))

  -- If the handler of a descriptor's events returns, `coro_count_` counts the nodes that wait, and `k`
  -- more, modulo 2 ^ 64, if it did so before, whatever the resumed coroutines and proxies post.
  pub handler-Counts :
      (k fuel fd : ℕ) (e : Event) (s : S)
      → Counts k s
      → Gives (Counts k) (handler epoll host fuel fd e s)
  unfolding handler
  handler-Counts k fuel fd e s c =
      Gives->>= (Gives-in_bounds (get_elem? s.descriptor_nodes fd)) (λ list found.
        Gives->>= (walk-Counts k fuel e list _ (taken k fd list s found c)) (λ r d.
          Gives->>= (Gives-in_bounds (get_elem? (r.1).descriptor_nodes fd)) (λ later again.
            Gives-map (update_descriptor-Same fd _)
              (λ t m. put_back k fd r.0 later r.1 t again d m))))
