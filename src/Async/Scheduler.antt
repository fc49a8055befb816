-- ===== src/Async/Scheduler.antt =====
-- The class `scheduler` of include/bc/async/scheduler.hpp and src/async/scheduler.cpp. A coroutine
-- or a proxy is a number, and what runs when it is called is the parameter `Host`: a call
-- changes the world and posts to the scheduler or unsubscribes descriptors. The awaiter's field
-- that `revent` refers to is a cell of the world.
pub mod Count
pub mod Walk
pub mod Loops
pub mod Sleepers
pub mod Ends
pub mod Times
pub mod Posts
use Prim.Native.Nat.{bit_and, bit_or}
use bc.Prelude.{
  ℕ, zero, suc, ◌+◌, ◌-◌, ◌%◌, ◌^◌, Bool, true, false, not, ◌==◌, ltb, leb, if◌then◌else◌, List, [],
  ◌∷◌, ◌++◌, Option, none, some, length, get_elem?, set, Result, ok, err, ◌>>=◌, ◌>>◌, assert,
  in_bounds, thrown, out_of_fuel, dangling, ℤ, pos, negsuc, sub_ℕ, quot,
}
use bc.Async.BitCeil.{bit_ceil, resize}
use bc.Async.Poller.{Event, no_event, Epoll, EpollEvent, Poller, Outcome, done, failed, subscribe}

-- `std::variant<std::coroutine_handle<>, std::function<auto () -> bool>>`.
pub data Next : Type 0 where
  coro : ℕ → Next
  proxy : ℕ → Next

pub record DescriptorNode : Type 0 where
  pub ev : Event
  pub revent : ℕ
  pub next : Next

pub record TimeNode : Type 0 where
  pub time : ℕ
  pub next : ℕ

-- `time_nodes_` is kept as a list, the earliest time first.
pub record Scheduler (Kernel World : Type 0) : Type 0 where
  pub coro_count : ℕ
  pub time_nodes : List TimeNode
  pub descriptor_nodes : List (List DescriptorNode)
  pub poller : Poller
  pub kernel : Kernel
  pub world : World

-- What code that runs asks of the scheduler: `post_coro`, in its three forms, and `unsubscribe`.
pub data Post : Type 0 where
  at_time : ℕ → ℕ → Post
  at_descriptor : ℕ → DescriptorNode → Post
  drop : ℕ → Post

-- Times are in nanoseconds. `wait` is `epoll_wait`, with the entries that it has written.
pub record Host (Kernel : Type 0) : Type 1 where
  pub World : Type 0
  pub now : World → ℕ × World
  pub sleep_for : ℤ → World → World
  pub wait : Kernel → ℕ → ℕ → World → World × Outcome (List EpollEvent)
  pub is_done : ℕ → World → Bool
  pub set_revent : ℕ → Event → World → World
  pub resume : ℕ → World → World × List Post
  pub call : ℕ → World → World × List Post × Bool

abbrev pub eintr : ℕ
eintr = 4

-- `++` and `--` of a `size_t`.
abbrev pub increment : ℕ → ℕ
increment n = (n + 1) % 2 ^ 64

abbrev pub decrement : ℕ → ℕ
decrement n = (n + 2 ^ 64 - 1) % 2 ^ 64

-- `priority_queue::emplace`. Equal times leave in the order of their insertion, which the
-- library does not promise.
unfoldable pub emplace : TimeNode → List TimeNode → List TimeNode
emplace n [] = n ∷ []
emplace n (m ∷ ms) = if ltb n.time m.time then n ∷ m ∷ ms else m ∷ emplace n ms

unfoldable pub adjust_size : List (List DescriptorNode) → ℕ → List (List DescriptorNode)
adjust_size nodes index =
    if ltb index (length nodes) then nodes else resize nodes (bit_ceil index) []

-- `e |= node.ev` for each node.
unfoldable pub or_events : Event → List DescriptorNode → Event
or_events e [] = e
or_events e (n ∷ ns) = or_events (bit_or e n.ev) ns

-- One second.
abbrev pub s_period : ℕ
s_period = 1_000_000_000

-- `EpollEvent`s that the kernel writes over the front of `evs_`, and `views::take`.
unfoldable pub overwrite : List EpollEvent → List EpollEvent → List EpollEvent
overwrite [] old = old
overwrite (x ∷ xs) [] = []
overwrite (x ∷ xs) (o ∷ os) = x ∷ overwrite xs os

unfoldable pub take : List EpollEvent → List EpollEvent → List EpollEvent
take [] old = []
take (x ∷ xs) [] = []
take (x ∷ xs) (o ∷ os) = o ∷ take xs os

module _ (epoll : Epoll) (host : Host epoll.Kernel) where
  open epoll use {Kernel}
  open host use {World, now, sleep_for, wait, is_done, set_revent, resume, call}

  abbrev pub Sched : Type 0
  Sched = Scheduler Kernel World

  unfoldable pub poller_subscribe : ℕ → Event → Sched → Result Sched
  poller_subscribe fd e s = do
    r ← subscribe epoll fd e s.poller s.kernel
    ok (record s { poller = r.0; kernel = r.1 })

  unfoldable pub update_descriptor : ℕ → Sched → Result Sched
  update_descriptor fd s = do
    nodes ← in_bounds (get_elem? s.descriptor_nodes fd)
    poller_subscribe fd (or_events no_event nodes) s

  unfoldable pub post_at_time : TimeNode → Sched → Sched
  post_at_time n s = record s {
    time_nodes = emplace n s.time_nodes;
    coro_count = increment s.coro_count;
  }

  -- The two forms of `post_coro` for a descriptor.
  unfoldable pub post_at_descriptor : ℕ → DescriptorNode → Sched → Result Sched
  post_at_descriptor fd n s = do
    assert (ltb 0 fd)
    let nodes = adjust_size s.descriptor_nodes fd
    list ← in_bounds (get_elem? nodes fd)
    s' ← update_descriptor fd (record s { descriptor_nodes = set nodes fd (list ++ n ∷ []) })
    ok (record s' { coro_count = increment s'.coro_count })

  unfoldable pub post : Post → Sched → Result Sched
  post (at_time t h) s = ok (post_at_time (record { time = t; next = h }) s)
  post (at_descriptor fd n) s = post_at_descriptor fd n s
  post (drop fd) s = poller_subscribe fd no_event s

  unfoldable pub post_all : List Post → Sched → Result Sched
  post_all [] s = ok s
  post_all (p ∷ ps) s = do s' ← post p s; post_all ps s'

  -- `handle.resume()`.
  unfoldable pub resume_coro : ℕ → Sched → Result Sched
  resume_coro h s = let (w, posts) = resume h s.world in post_all posts (record s { world = w })

  -- `std::visit(…, it->next)`: whether the node is finished with.
  unfoldable pub visit : Next → Sched → Result (Bool × Sched)
  visit (coro h) s = do s' ← resume_coro h s; ok (true, s')
  visit (proxy p) s =
      let (w, posts, ready) = call p s.world in
      do s' ← post_all posts (record s { world = w }); ok (ready, s')

  -- The loop of the handler, from `it` on: the nodes that stay in `list`. A proxy that is not
  -- ready is called again at once, since `it` does not move.
  unfoldable pub walk :
      ℕ → Event → List DescriptorNode → Sched → Result (List DescriptorNode × Sched)
  walk zero e nodes s = err out_of_fuel
  walk (suc fuel) e [] s = ok ([], s)
  walk (suc fuel) e (n ∷ ns) s =
      let pass = (do r ← walk fuel e ns s; ok (n ∷ r.0, r.1)) in
      let called =
        (visit n.next (record s { world = set_revent n.revent e s.world }) >>= λ r.
        let erase = walk fuel e ns (record (r.1) { coro_count = decrement (r.1).coro_count }) in
        let repeat = walk fuel e (n ∷ ns) r.1 in if r.0 then erase else repeat) in
      if bit_and n.ev e == 0 then pass else called

  unfoldable pub handler : ℕ → ℕ → Event → Sched → Result Sched
  handler fuel fd e s = do
    list ← in_bounds (get_elem? s.descriptor_nodes fd)
    r ← walk fuel e list (record s { descriptor_nodes = set s.descriptor_nodes fd [] })
    later ← in_bounds (get_elem? (r.1).descriptor_nodes fd)
    update_descriptor fd
        (record (r.1) { descriptor_nodes = set (r.1).descriptor_nodes fd (r.0 ++ later) })

  -- Going on to further entries of `evs_` after a handler that has resized it: the loop's
  -- iterators may point into storage that is gone.
  unfoldable pub same_storage : List EpollEvent → Sched → Sched → Result (Unit {0})
  same_storage [] s s' = ok tt
  same_storage (x ∷ xs) s s' =
      if length s.poller.evs_ == length s'.poller.evs_ then ok tt else err dangling

  unfoldable pub handle_events : ℕ → List EpollEvent → Sched → Result Sched
  handle_events fuel [] s = ok s
  handle_events fuel (x ∷ xs) s = do
    fd ← in_bounds x.descriptor
    s' ← handler fuel fd x.events s
    same_storage xs s s'
    handle_events fuel xs s'

  -- `poller::poll`, behind its test for a negative timeout.
  unfoldable pub poll_for : ℕ → ℕ → Sched → Result Sched
  poll_for fuel timeout s =
      let (w, outcome) = wait s.kernel (length s.poller.evs_) timeout s.world in
      elim outcome [
        | failed errno ↦ if errno == eintr then ok (record s { world = w }) else err (thrown errno)
        | done written ↦
            let evs = overwrite written s.poller.evs_ in
            handle_events fuel (take written evs)
              (record s { world = w; poller = record (s.poller) { evs_ = evs } })
      ]

  -- `handle_triggered_descriptor_nodes_`.
  unfoldable pub handle_triggered : ℕ → ℤ → Sched → Result Sched
  handle_triggered fuel rtime s = elim (quot rtime 1_000_000) [
    | pos timeout ↦ poll_for fuel timeout s
    | negsuc _ ↦ ok s
  ]

  -- One round of the loop of `handle_expired_time_nodes_` on the nodes `time_nodes_`, with the
  -- count of what has expired so far; `again` is the loop.
  unfoldable pub expire_round :
      (ℕ → Sched → Result (Bool × Sched)) → List TimeNode → ℕ → Sched → Result (Bool × Sched)
  expire_round again [] expired s = ok (ltb 0 expired, s)
  expire_round again (top ∷ rest) expired s =
      let (t, w) = now s.world in
      if leb top.time t
      then (assert (not (is_done top.next w))
          >> (resume_coro top.next (record s { world = w; time_nodes = rest }) >>= λ s'.
              again (expired + 1) (record s' { coro_count = decrement s'.coro_count })))
      else ok (ltb 0 expired, record s { world = w })

  unfoldable pub expire : ℕ → ℕ → Sched → Result (Bool × Sched)
  expire zero expired s = err out_of_fuel
  expire (suc fuel) expired s = expire_round (expire fuel) s.time_nodes expired s

  unfoldable pub handle_expired : ℕ → Sched → Result (Bool × Sched)
  handle_expired fuel s = expire fuel 0 s

  -- How long `run` may block: until the earliest time, and at most for one period.
  unfoldable pub period : List TimeNode → ℕ → ℤ
  period [] t = pos s_period
  period (top ∷ rest) t = if leb top.time (t + s_period) then sub_ℕ top.time t else pos s_period

  -- The rest of an iteration of `run`, where nothing has expired.
  unfoldable pub idle : ℕ → Sched → Result Sched
  idle fuel s =
      let (t, w) = now s.world in
      let s' = record s { world = w } in
      let rtime = period s.time_nodes t in
      if ltb (length s.time_nodes) s.coro_count
      then handle_triggered fuel rtime s'
      else ok (record s' { world = sleep_for rtime w })

  -- The `continue` of `run`, after a round in which something has expired.
  unfoldable pub idle_unless : ℕ → Bool → Sched → Result Sched
  idle_unless fuel true s = ok s
  idle_unless fuel false s = idle fuel s

  -- `run`, for at most so many iterations; `inner` is the fuel of the loops inside.
  unfoldable pub run : ℕ → ℕ → Sched → Result Sched
  run zero inner s = err out_of_fuel
  run (suc fuel) inner s =
      let rest = (do
        r ← handle_expired inner s
        s' ← idle_unless inner r.0 r.1
        run fuel inner s') in
      if s.coro_count == 0 then ok s else rest
