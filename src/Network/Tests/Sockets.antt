-- ===== src/Network/Tests/Sockets.antt =====
-- Sockets over a simulated table of descriptors, which gives out the numbers in order.
use bc.Prelude.{
  List, Bytes, ◌<◌, length, ℕ, ◌+◌, ◌≡◌, refl, Bool, true, false, ◌==◌, if◌then◌else◌, [], ◌∷◌, ok,
  err, thrown, assertion, ℤ, pos, negsuc, arith,
}
use bc.Async.Poller.{Outcome, done, failed, subscribe, unsubscribe}
use bc.Async.Tests.Kernel.{table, no_interest, empty_poller}
use bc.Network.Address.{Domain, Address, ipv4, in4}
use bc.Network.Address
use bc.Network.Socket.SystemCalls.{tcp, Sys, eintr, einprogress}
use bc.Network.Socket.Ownership.{bit}
use bc.Network.Socket.{Socket, new_socket, use_domain, bind, listen, listen_at, move_from, destroy}
use bc.Network.Socket.Reach.{holders, construct, uses, moves, listens_at, Reach, here, next, used}
use bc.Network.Socket.Owned.{Reach-holders}
use bc.Network.Awaiters.{connect_ready}
use bc.Network.Awaiters.Resume.{Connects, connect_ready-Connects}
use bc.Network.Tests.Echo.{Line, wire, talk}

pub record Descriptors : Type 0 where
  pub coming : ℕ
  pub is_used : ℕ → Bool

abbrev mark : Descriptors → ℕ → Bool → Descriptors
mark w fd b = record w { is_used = λ j. if j == fd then b else w.is_used j }

-- EMFILE where the next number is in use.
abbrev fresh_at : Bool → Descriptors → Descriptors × Outcome ℕ
fresh_at true w = (w, failed 24)
fresh_at false w = (record (mark w w.coming true) { coming = w.coming + 1 }, done w.coming)

abbrev pub fresh : Descriptors → Descriptors × Outcome ℕ
fresh w = fresh_at (w.is_used w.coming) w

abbrev close_at : ℤ → Descriptors → Descriptors × Outcome (Unit {0})
close_at (pos fd) w = (mark w fd false, done tt)
close_at (negsuc n) w = (w, failed 9)

pub fresh_at-fresh :
    (b : Bool) (w : Descriptors) (fd : ℕ)
    → w.is_used w.coming ≡ b
    → (fresh_at b w).1 ≡ done fd
    → w.is_used fd ≡ false
fresh_at-fresh true w fd e h = cc
fresh_at-fresh false w fd e h = let same : w.coming ≡ fd = cc in rw (← same) e

pub fresh_at-opens :
    (b : Bool) (w : Descriptors) (fd j : ℕ)
    → (fresh_at b w).1 ≡ done fd
    → (fresh_at b w).0.is_used j ≡ (if j == fd then true else w.is_used j)
fresh_at-opens true w fd j h = cc
fresh_at-opens false w fd j h = let same : w.coming ≡ fd = cc in rw (← same) refl

pub fresh_at-fails :
    (b : Bool) (w : Descriptors) (errno j : ℕ)
    → (fresh_at b w).1 ≡ failed errno
    → (fresh_at b w).0.is_used j ≡ w.is_used j
fresh_at-fails true w errno j h = refl
fresh_at-fails false w errno j h = cc

abbrev pub simulated : Sys
simulated = record {
  World = Descriptors;
  is_open = λ w fd. w.is_used fd;
  socket = λ d p w. fresh w;
  setsockopt = λ s w. (w, done tt);
  bind = λ s a w. (w, done tt);
  listen = λ s n w. (w, done tt);
  connect = λ s a w. (w, failed einprogress);
  accept = λ s w. fresh w;
  read = λ s n w. (w, done []);
  write = λ s b w. (w, done 0);
  close = close_at;
  socket_fresh = λ d p w fd. fresh_at-fresh (w.is_used w.coming) w fd refl;
  socket_opens = λ d p w. fresh_at-opens (w.is_used w.coming) w;
  socket_fails = λ d p w. fresh_at-fails (w.is_used w.coming) w;
  accept_fresh = λ s w fd. fresh_at-fresh (w.is_used w.coming) w fd refl;
  accept_opens = λ s w. fresh_at-opens (w.is_used w.coming) w;
  accept_fails = λ s w. fresh_at-fails (w.is_used w.coming) w;
  close_closes = λ fd j w. refl;
  setsockopt_keeps = λ s w j. refl;
  bind_keeps = λ s a w j. refl;
  listen_keeps = λ s n w j. refl;
  connect_keeps = λ s a w j. refl;
  read_keeps = λ s n w j. refl;
  write_keeps = λ s b w j. refl;
}

-- The three standard streams are open.
abbrev pub started : Descriptors
started = record { coming = 3; is_used = λ j. if j == 0 then true else j == 1 }

abbrev pub any_address : Address
any_address = in4 (record { sin_family = ipv4; sin_port = 0; s_addr = 0 })

abbrev listening : Socket × Descriptors
listening = used simulated tcp (listens_at any_address 100) (new_socket ipv4) started

listening_at : listening.0.fd_ ≡ pos 3
unfolding listen_at bind listen use_domain Address.domain
listening_at = refl

-- A socket is made, listens, and is moved.
served :
    Reach simulated tcp
      (record { sockets = []; world = started })
      (record {
        sockets = (move_from listening.0).0 ∷ (move_from listening.0).1 ∷ [];
        world = listening.1;
      })
served =
    next
      (next (next here (construct ipv4))
        (uses (listens_at any_address 100) [] (new_socket ipv4) [] refl))
      (moves [] listening.0 [] refl)

-- One of the two holds descriptor 3.
Reach-holders_example :
    holders 3 ((move_from listening.0).0 ∷ (move_from listening.0).1 ∷ []) + bit (started.is_used 3)
    ≡ bit (listening.1.is_used 3)
Reach-holders_example =
    Reach-holders simulated tcp started
      (record {
        sockets = (move_from listening.0).0 ∷ (move_from listening.0).1 ∷ [];
        world = listening.1;
      })
      refl served 3

-- No descriptor is left.
abbrev full : Descriptors
full = record { coming = 3; is_used = λ j. true }

-- Where `listen` finds none, it throws, and the destruction of the object then fails an assertion.
none_left :
    let (r, s, w) = listen_at simulated tcp any_address 100 (new_socket ipv4) full in
    (r ≡ err (thrown 24)) × (destroy simulated table s w empty_poller no_interest ≡ err assertion)
unfolding listen_at bind use_domain destroy Address.domain unsubscribe subscribe
none_left = (refl, refl)

-- A connection behind so many signals that interrupt the calls.
abbrev call : List Bytes → Line → Line × Outcome (Unit {0})
call [] w = (w, failed einprogress)
call (b ∷ bs) w = (record w { coming = bs }, failed eintr)

abbrev noisy : Sys
noisy = record wire { connect = λ s a w. call w.coming w }

fewer_signals :
    (bs : List Bytes) (w w' : Line)
    → w.coming ≡ bs
    → call bs w ≡ (w', failed eintr)
    → length w'.coming < length w.coming
fewer_signals [] w w' h e = cc
fewer_signals (b ∷ bs) w w' h e = let rest : bs ≡ w'.coming = cc in rw (h, ← rest) (omega arith)

connect_ready-Connects_example :
    Connects noisy (pos 3) any_address talk (connect_ready noisy 3 (pos 3) any_address talk)
connect_ready-Connects_example =
    connect_ready-Connects noisy (pos 3) any_address (λ w. length w.coming)
      (λ w w' e. fewer_signals w.coming w w' refl e) 3 talk (omega arith)

-- Two signals, and then the connection is under way.
retried : connect_ready noisy 3 (pos 3) any_address talk ≡ (ok false, record talk { coming = [] })
unfolding connect_ready
retried = refl
