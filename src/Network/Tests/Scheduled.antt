-- ===== src/Network/Tests/Scheduled.antt =====
-- The session of the test of the program's session, over a scheduler with a table for its kernel.
use bc.Prelude.{
  ℕ, zero, suc, ◌≡◌, ◌≢◌, ◌⊎◌, inl, inr, refl, [], some, none, Option, arith, replicate, get_elem?,
}
use bc.Async.Poller.{Op, add, modify, delete, done}
use bc.Async.Poller.Mirror.{registered}
use bc.Async.Scheduler.Posts.{Accepts}
use bc.Async.Tests.Kernel.{Table, ctl_in, table, no_interest}
use bc.Network.Echo.{session}
use bc.Network.Echo.Scheduled.{Machine, reading, at}
use bc.Network.Echo.Scheduled.Posted.{S}
use bc.Network.Echo.Scheduled.Refines.{in_turn, attend, Carries, attend-session}
use bc.Network.Echo.Scheduled.Echoes.{SendsBack, attend-SendsBack}
use bc.Network.Tests.Echo.{Line, wire, sock, line, complete, firm, talk, wakes}

accepting : Accepts table 4
unfolding ctl_in
accepting k e o h = fits o (k 4) h
  where
    fits :
        (o : Op) (v : Option ℕ)
        → ((o ≡ add) × (v ≡ none)) ⊎ ((o ≢ add) × (v ≢ none))
        → (k' : Table) × (ctl_in o v k 4 e ≡ done k')
    fits add none h = (_, refl)
    fits add (some x) (inl h) = cc (h.1)
    fits add (some x) (inr h) = absurd (h.0 refl)
    fits modify none (inl h) = cc
    fits modify none (inr h) = absurd (h.1 refl)
    fits modify (some x) h = (_, refl)
    fits delete none (inl h) = cc
    fits delete none (inr h) = absurd (h.1 refl)
    fits delete (some x) h = (_, refl)

abbrev machine : Machine Table Line
machine = record {
  now = λ w. (0, w);
  sleep_for = λ r w. w;
  wait = λ k size timeout w. (w, done []);
}

abbrev quiet : S wire sock 4 refl table machine
quiet = record {
  coro_count = 0;
  time_nodes = [];
  descriptor_nodes = replicate 8 [];
  poller = record { focus_ = replicate 8 0; evs_ = [] };
  kernel = no_interest;
  world = at wire sock reading talk;
}

mirrored : (n fd : ℕ) → none ≡ registered (get_elem? (replicate n 0) fd)
mirrored zero fd = refl
mirrored (suc n) zero = refl
mirrored (suc n) (suc fd) = mirrored n fd

attend-session_example :
    Carries wire sock 4 refl table machine
      (attend wire sock 4 refl table machine 2 (in_turn wakes) talk quiet)
      (session wire wakes sock talk)
attend-session_example =
    attend-session wire sock 4 refl table machine (omega arith) accepting 0 wakes talk quiet
      (refl, (refl, (refl, (refl, tt)))) refl (omega arith, mirrored 8)

attend-SendsBack_example :
    SendsBack wire sock 4 refl line complete firm table machine wakes talk
      (attend wire sock 4 refl table machine 2 (in_turn wakes) talk quiet)
attend-SendsBack_example =
    attend-SendsBack wire sock 4 refl line complete firm table machine (omega arith) accepting 0
      wakes talk quiet (refl, (refl, (refl, (refl, tt)))) refl (omega arith, mirrored 8)
