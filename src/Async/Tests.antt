-- ===== src/Async/Tests.antt =====
-- Runs of the poller and the scheduler over a simulated kernel and coroutines, and the theorems
-- about them at these.
pub mod Kernel
mod Sleeping
mod Tasks
use bc.Prelude.{
  ℕ, ◌+◌, ◌^◌, ◌≡◌, ◌≢◌, ◌<◌, true, false, ◌==◌, if◌then◌else◌, List, [], ◌∷◌, Option, none, some,
  Result, ok, err, out_of_fuel, out_of_bounds, thrown, arith, refl, inl, inr, ◌⊎◌, ◌↔◌, length,
  Gives,
}
use bc.Async.BitCeil.{bit_ceil, resize}
use bc.Async.Poller.{
  Event, Op, add, modify, delete, Outcome, done, failed, eexist, enoent, Epoll, EpollEvent, Poller,
  blank_event, subscribe, choose_op, control,
}
use bc.Async.Poller
use bc.Async.Poller.Mirror.{Mirrors, view, subscribe-Mirrors}
use bc.Async.Poller.Room.{adjust_size_room_iff}
use bc.Async.Poller.Errors.{subscribe_keeps_track, subscribe_total, Fits}
use bc.Async.Scheduler.{
  DescriptorNode, TimeNode, Scheduler, Post, at_time, at_descriptor, Next, coro, proxy, Host, Sched,
  walk, visit, resume_coro, post_all, post, post_at_descriptor, update_descriptor, or_events,
  poller_subscribe, emplace, handler, expire, expire_round, handle_expired, idle, idle_unless, run,
}
use bc.Async.Scheduler
use bc.Async.Scheduler.Count.{Counts, total, handler-Counts}
use bc.Async.Scheduler.Loops.{run_drained}
use bc.Async.Tests.Kernel.{
  Table, update, ctl_in, table_ctl, table, no_interest, empty_poller, update_self, update_other,
}
use bc.Async.Scheduler.Walk.{walk_total, walk_spins}

-- The world is a clock that goes by one at each reading. Coroutine 2 posts itself for descriptor
-- 3; the others post nothing. A proxy is never ready.
abbrev reader : DescriptorNode
reader = record { ev = 1; revent = 0; next = coro 1 }

abbrev acceptor : DescriptorNode
acceptor = record { ev = 1; revent = 0; next = proxy 7 }

abbrev posts_of : ℕ → List Post
posts_of h = if h == 2 then at_descriptor 3 reader ∷ [] else []

abbrev clocked : Host Table
clocked = record {
  World = ℕ;
  now = λ w. (w, w + 1);
  sleep_for = λ d w. w + 1000;
  wait = λ k size timeout w. (w, done (record { events = 1; descriptor = some 3 } ∷ []));
  is_done = λ h w. false;
  set_revent = λ cell e w. w;
  resume = λ h w. (w, posts_of h);
  call = λ p w. (w, [], false);
}

-- What a run computes with, for the `unfolding` lines below.
running : Unit {0}
unfolding run handle_expired expire expire_round idle_unless idle ctl_in subscribe
    Poller.adjust_size bit_ceil resize walk visit resume_coro post_all post post_at_descriptor
    update_descriptor or_events poller_subscribe Scheduler.adjust_size handler choose_op control
    Scheduler.period Scheduler.handle_triggered Scheduler.poll_for Scheduler.handle_events
    Scheduler.same_storage Scheduler.overwrite Scheduler.take
running = tt

abbrev State : Type 0
State = Scheduler Table ℕ

-- Coroutine 2 waits for time 0: then it waits for descriptor 3, and then it is done.
false_eq_true : {A : Type 0} → (true ≡ false) → A
false_eq_true h = cc

abbrev one_sleeper : State
one_sleeper = record {
  coro_count = 1;
  time_nodes = record { time = 0; next = 2 } ∷ [];
  descriptor_nodes = [];
  poller = empty_poller;
  kernel = no_interest;
  world = 0;
}

abbrev finished_run : Result State
finished_run = run table clocked 4 4 one_sleeper

abbrev final : Result State → State
final (ok s) = s
final (err e) = one_sleeper

ran : run table clocked 4 4 one_sleeper ≡ ok (final finished_run)
unfolding running
ran = refl

run_drained_example :
    ((final finished_run).time_nodes ≡ []) × (total (final finished_run).descriptor_nodes ≡ 0)
unfolding running
run_drained_example =
    run_drained table clocked 4 4 one_sleeper (final finished_run) refl ran (omega arith)

-- One coroutine waits to read from descriptor 3, and one to write to it.
abbrev writer : DescriptorNode
writer = record { ev = 4; revent = 0; next = coro 5 }

abbrev two_waiters : State
two_waiters = record {
  coro_count = 2;
  time_nodes = [];
  descriptor_nodes = [] ∷ [] ∷ [] ∷ (reader ∷ writer ∷ []) ∷ [];
  poller = record {
    focus_ = 0 ∷ 0 ∷ 0 ∷ 5 ∷ [];
    evs_ = blank_event ∷ blank_event ∷ blank_event ∷ blank_event ∷ [];
  };
  kernel = update no_interest 3 (some 5);
  world = 0;
}

handler-Counts_example : Gives (Counts table clocked 0) (handler table clocked 3 3 1 two_waiters)
handler-Counts_example = handler-Counts table clocked 0 3 3 1 two_waiters refl

-- The reader has run, and the writer still waits.
handled :
    handler table clocked 3 3 1 two_waiters
    ≡ ok (record two_waiters {
      coro_count = 1;
      descriptor_nodes = [] ∷ [] ∷ [] ∷ (writer ∷ []) ∷ [];
      poller = record (two_waiters.poller) { focus_ = 0 ∷ 0 ∷ 0 ∷ 4 ∷ [] };
      kernel = update (two_waiters.kernel) 3 (some 4);
    })
unfolding running
handled = refl

resumes_at_once : (s : State) → (t : State) × (visit table clocked (coro 1) s ≡ ok (true, t))
unfolding visit resume_coro post_all
resumes_at_once s = (record s { world = s.world }, refl)

walk_total_example :
    (t : State) × (walk table clocked 3 1 (reader ∷ writer ∷ []) two_waiters ≡ ok (writer ∷ [], t))
walk_total_example =
    walk_total table clocked 3 1 (reader ∷ writer ∷ []) two_waiters (omega arith)
      ((λ _. resumes_at_once), ((λ h. false_eq_true h), tt))

not_ready : (s : State) → (t : State) × (visit table clocked (proxy 7) s ≡ ok (false, t))
unfolding visit post_all
not_ready s = (record s { world = s.world }, refl)

walk_spins_example : walk table clocked 1000 1 (acceptor ∷ []) two_waiters ≡ err out_of_fuel
walk_spins_example = walk_spins table clocked 1000 1 acceptor [] two_waiters refl not_ready

empty-Mirrors : Mirrors table empty_poller no_interest
empty-Mirrors fd = refl

abbrev subscribed : Poller × Table
subscribed = (
  record {
    focus_ = 0 ∷ 0 ∷ 0 ∷ 1 ∷ [];
    evs_ = blank_event ∷ blank_event ∷ blank_event ∷ blank_event ∷ [];
  },
  update no_interest 3 (some 1),
)

subscribed_lem : subscribe table 3 1 empty_poller no_interest ≡ ok subscribed
unfolding running
subscribed_lem = refl

subscribe-Mirrors_example :
    Mirrors table subscribed.0 subscribed.1
    × (view subscribed.0 3 ≡ some 1)
    × ((j : ℕ) → j ≢ 3 → subscribed.1 j ≡ no_interest j)
subscribe-Mirrors_example =
    subscribe-Mirrors table 3 1 empty_poller subscribed.0 no_interest subscribed.1 empty-Mirrors
      subscribed_lem

adjust_size_room_iff_example :
    (4 < length (Poller.adjust_size empty_poller 4).focus_) ↔ ((4 < 0) ⊎ ((k : ℕ) → 4 ≢ 2 ^ k))
adjust_size_room_iff_example = adjust_size_room_iff empty_poller 4

-- A kernel that has no memory left refuses every call with ENOMEM.
abbrev refusal : Outcome Table
refusal = failed 12

refused : (k k' : Table) → refusal ≡ done k' → ⊥
refused k k' h = cc

other_code : {A : Type 0} → refusal ≡ failed eexist → A
other_code h = absurd (ground arith)

other_missing : {A : Type 0} → refusal ≡ failed enoent → A
other_missing h = absurd (ground arith)

abbrev exhausted : Epoll
exhausted = record {
  Kernel = Table;
  interest = λ k fd. k fd;
  ctl = λ k op fd e. refusal;
  ctl_add = λ k k' fd e h. absurd (refused k k' h);
  ctl_modify = λ k k' fd e h. absurd (refused k k' h);
  ctl_delete = λ k k' fd e h. absurd (refused k k' h);
  ctl_others = λ k k' op fd j e h n. absurd (refused k k' h);
  ctl_exists = λ k op fd e h. other_code h;
  ctl_missing = λ k op fd e h. other_missing h;
}

no_memory : subscribe exhausted 3 1 empty_poller no_interest ≡ err (thrown 12)
unfolding running
no_memory = refl

subscribe_keeps_track_example : (12 ≢ eexist) × (12 ≢ enoent)
subscribe_keeps_track_example =
    subscribe_keeps_track exhausted 3 1 empty_poller no_interest 12 (λ fd. refl) no_memory

room_for_three : length (Poller.adjust_size empty_poller 3).focus_ ≡ 4
unfolding running
room_for_three = refl

fitting :
    (op : Op)
    → Fits table op 3 no_interest
    → (k' : Table) × (table_ctl no_interest op 3 1 ≡ done k')
unfolding ctl_in
fitting add f = (update no_interest 3 (some 1), refl)
fitting modify (inl (h, _)) = cc
fitting modify (inr (_, h)) = absurd (h refl)
fitting delete (inl (h, _)) = cc
fitting delete (inr (_, h)) = absurd (h refl)

subscribe_total_example :
    (p' : Poller) × (k' : Table) × (subscribe table 3 1 empty_poller no_interest ≡ ok (p', k'))
subscribe_total_example =
    subscribe_total table 3 1 empty_poller no_interest (omega arith)
      (rw room_for_three (omega arith)) (λ fd. refl) fitting
