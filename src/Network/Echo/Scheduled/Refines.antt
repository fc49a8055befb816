-- ===== src/Network/Echo/Scheduled/Refines.antt =====
-- The session over the scheduler does what the session of Network/Echo does.
use Prim.Native.Nat.{bit_and}
use bc.Prelude.{
  ℕ, suc, ◌<◌, ◌≡◌, ◌==◌, refl, ap, Bool, true, false, List, [], ◌∷◌, Bytes, Result, ok, err, Fault,
  ◌>>=◌, ◌>>◌, ◌⊎◌, inl, inr, sym, some, get_elem?, pos, arith, ◌∙◌,
}
use bc.Async.Poller.{Epoll, Event, no_event}
use bc.Async.Scheduler.{post_all, handler}
use bc.Async.Scheduler.Posts.{Accepts, IsTuned}
use bc.Network.Awaiters.{read_mask, write_mask, resume_read, resume_write}
use bc.Utils.Error.{report}
use bc.Network.Echo.{Output, buffer_size, give_up, session, on_read, on_written}
use bc.Network.Socket.{Socket}
use bc.Network.Socket.SystemCalls.{Sys}
use bc.Utils.Expected.{Expected, value, error}
use bc.Network.Echo.Scheduled.{
  Machine, Stage, reading, writing, over, Coroutine, begin, after_read, after_write, continue, host,
  at,
}
use bc.Network.Echo.Scheduled.Posted.{posts_of, S, IsAt, woken, post_all-IsAt}
use bc.Network.Echo.Scheduled.Turns.{handler-IsAt}

-- The events one behind the other.
abbrev pub in_turn : List (Event × Event) → List Event
in_turn [] = []
in_turn ((re, we) ∷ pairs) = re ∷ we ∷ in_turn pairs

-- Every event is one that the awaiter waits for.
abbrev pub AreAwaited : List (Event × Event) → Type 0
AreAwaited [] = Unit
AreAwaited ((re, we) ∷ pairs) =
    ((bit_and read_mask re == 0) ≡ false)
    × (((bit_and write_mask we == 0) ≡ false) × AreAwaited pairs)

-- Where a session with a result is: one that is not over waits to read.
abbrev pub stage_of : Result Bool → Stage
stage_of (ok false) = reading
stage_of (ok true) = over (ok true)
stage_of (err fault) = over (err fault)

stage_of-ends : (r : Result (Unit {0})) → stage_of (r >> ok true) ≡ over (r >> ok true)
stage_of-ends (ok _) = refl
stage_of-ends (err fault) = refl

-- A fault of the coroutine is the end of the program.
abbrev pub survives : Stage → Result (Unit {0})
survives (over (err fault)) = err fault
survives _ = ok tt

survives-cases :
    (stage : Stage) → (survives stage ≡ ok tt) ⊎ ((fault : Fault) × (stage ≡ over (err fault)))
survives-cases reading = inl refl
survives-cases (writing bytes) = inl refl
survives-cases (over (ok b)) = inl refl
survives-cases (over (err fault)) = inr (fault, refl)

module _ (sys : Sys) (s : Socket) (fd : ℕ) (at_fd : s.fd_ ≡ pos fd) where
  open sys use {World}

  abbrev Agrees : Coroutine World → Output sys → Type 0
  Agrees c out = (c.outside ≡ out.1) × (c.stage ≡ stage_of out.0)

  abbrev woken_all : List Event → Coroutine World → Coroutine World
  woken_all [] c = c
  woken_all (e ∷ es) c = woken_all es (woken sys s fd at_fd e c)

  woken_all-over :
      (es : List Event) (r : Result Bool) (revent : Event) (w : World)
      → woken_all es (record { stage = over r; revent = revent; outside = w })
        ≡ record { stage = over r; revent = revent; outside = w }
  woken_all-over [] r revent w = refl
  woken_all-over (e ∷ es) r revent w = woken_all-over es r revent w

  woken_all-stage :
      (es : List Event) (c : Coroutine World) (r : Result Bool)
      → c.stage ≡ over r
      → woken_all es c ≡ c
  woken_all-stage [] c r h = refl
  woken_all-stage (e ∷ es) c r h =
      let same : woken sys s fd at_fd e c ≡ c = rw h refl in
      ap (woken_all es) same ∙ woken_all-stage es c r h

  begin-is : (w : World) → begin sys s w ≡ (at sys s reading w, posts_of fd reading)
  unfolding begin
  begin-is w = rw at_fd refl

  written-Agrees :
      (next : World → Output sys) (es : List Event)
      → ((w : World) → Agrees (woken_all es (at sys s reading w)) (next w))
      → (r : Result (Expected ℕ ℕ) × Socket × World)
      → Agrees (woken_all es (after_write sys s r).0) (on_written sys next r)
  unfolding after_write on_written begin
  written-Agrees next es rest (ok (value n), s', w) = rest w
  written-Agrees next es rest (ok (error e), s', w) =
      rw (woken_all-over es (give_up e) no_event w) (refl, sym (stage_of-ends (report e)))
  written-Agrees next es rest (err fault, s', w) =
      rw (woken_all-over es (err fault) no_event w) (refl, refl)

  got-Agrees :
      (next : World → Output sys) (es : List Event)
      → ((w : World) → Agrees (woken_all es (at sys s reading w)) (next w))
      → (we : Event) → (bit_and write_mask we == 0) ≡ false
      → (r : Result (Expected Bytes ℕ) × Socket × World) → r.1 ≡ s
      → Agrees (woken_all (we ∷ es) (after_read sys s r).0) (on_read sys we next r)
  unfolding after_read on_read continue
  got-Agrees next es rest we awaited (ok (value bytes), s', w) same =
      rw (awaited, woken_all, same) (written-Agrees next es rest (resume_write sys we bytes s w))
  got-Agrees next es rest we awaited (ok (error e), s', w) same =
      rw (woken_all-over es (give_up e) no_event w) (refl, sym (stage_of-ends (report e)))
  got-Agrees next es rest we awaited (err fault, s', w) same =
      rw (woken_all-over es (err fault) no_event w) (refl, refl)

  resume_read-socket : (e : Event) (size : ℕ) (w : World) → (resume_read sys e size s w).1 ≡ s
  unfolding resume_read
  resume_read-socket e size w = ground arith

  session-Agrees :
      (pairs : List (Event × Event)) (w : World)
      → AreAwaited pairs
      → Agrees (woken_all (in_turn pairs) (at sys s reading w)) (session sys pairs s w)
  unfolding session continue
  session-Agrees [] w h = (refl, refl)
  session-Agrees ((re, we) ∷ pairs) w (r, (q, h)) =
      rw (r, woken_all)
        (got-Agrees (λ w'. session sys pairs s w') (in_turn pairs) (λ w'. session-Agrees pairs w' h)
          we q (resume_read sys re buffer_size s w) (resume_read-socket re buffer_size w))

  module _ (epoll : Epoll) (machine : Machine epoll.Kernel World) where
    -- One call of the handler for each event, up to a fault of the coroutine.
    abbrev pub handlers :
        ℕ → List Event → S sys s fd at_fd epoll machine → Result (S sys s fd at_fd epoll machine)
    handlers fuel [] t = ok t
    handlers fuel (e ∷ es) t = handler epoll (host sys s machine) fuel fd e t >>= λ u.
        survives u.world.stage >> handlers fuel es u

    -- The session begins, and then the events come.
    abbrev pub attend :
        ℕ
        → List Event
        → World
        → S sys s fd at_fd epoll machine
        → Result (S sys s fd at_fd epoll machine)
    attend fuel es w t =
        let (c, posts) = begin sys s w in
        post_all epoll (host sys s machine) posts (record t { world = c }) >>= λ u.
        handlers fuel es u

    -- What becomes of the scheduler, for what the session leaves.
    abbrev pub Carries : Result (S sys s fd at_fd epoll machine) → Output sys → Type 0
    Carries r (ok b, w) =
        (u : S sys s fd at_fd epoll machine) × ((r ≡ ok u)
          × ((u.world.outside ≡ w) × (u.world.stage ≡ stage_of (ok b))))
    Carries r (err fault, w) = r ≡ err fault

    -- The coroutine is at `c`, or it has faulted.
    abbrev Comes : Result (S sys s fd at_fd epoll machine) → Coroutine World → Type 0
    Comes r c =
        ((survives c.stage ≡ ok tt)
          × ((u : S sys s fd at_fd epoll machine) × ((r ≡ ok u)
                × IsAt sys s fd at_fd epoll machine c u)))
        ⊎ ((fault : Fault) × ((c.stage ≡ over (err fault)) × (r ≡ err fault)))

    Comes-Carries :
        (r : Result (S sys s fd at_fd epoll machine)) (c : Coroutine World) (out : Output sys)
        → Comes r c
        → Agrees c out
        → Carries r out
    Comes-Carries r c (ok b, w) (inl (alive, (u, (e, (world, _))))) (at_w, stage) =
        (u, (e, rw world (at_w, stage)))
    Comes-Carries r c (err fault, w) (inl (alive, _)) (at_w, stage) = cc (rw stage at alive)
    Comes-Carries r c (ok false, w) (inr (fault, (faulted, e))) (at_w, stage) =
        cc (sym faulted ∙ stage)
    Comes-Carries r c (ok true, w) (inr (fault, (faulted, e))) (at_w, stage) =
        cc (sym faulted ∙ stage)
    Comes-Carries r c (err fault', w) (inr (fault, (faulted, e))) (at_w, stage) =
        let same : over (err fault) ≡ over (err fault') = sym faulted ∙ stage in cc

    module _ (positive : 0 < fd) (accepts : Accepts epoll fd) where
      handlers-Comes :
          (fuel : ℕ) (es : List Event) (c : Coroutine World) (t : S sys s fd at_fd epoll machine)
          → survives c.stage ≡ ok tt
          → IsAt sys s fd at_fd epoll machine c t
          → Comes (handlers (suc (suc fuel)) es t) (woken_all es c)
      handlers-Comes fuel [] c t alive at_c = inl (alive, (t, (refl, at_c)))
      handlers-Comes fuel (e ∷ es) c t alive at_c =
          let (u, (ran, at_d)) =
            handler-IsAt sys s fd at_fd epoll machine positive accepts fuel e c.stage c.revent
              c.outside t at_c in
          let d = woken sys s fd at_fd e c in
          elim (survives-cases d.stage) [
            | inl goes ↦ rw (ran, at_d.0, goes) (handlers-Comes fuel es d u goes at_d)
            | inr (fault, stops) ↦
                rw (woken_all-stage es d (err fault) stops)
                  (inr (fault, (stops, rw (ran, at_d.0, stops) refl)))
          ]

      -- Without a node at its descriptor, with room for that in a poller that mirrors the kernel, and
      -- with a kernel that accepts what fits its state, the session's coroutine is called by the handler
      -- for one event that it waits for after the other. Where the loop of the session does not fault,
      -- no call of the handler fails, the coroutine leaves the world that the loop leaves, and it waits
      -- to read again or is over exactly as that ends; where the loop faults, which is also a failed
      -- assertion or an error without a message, that fault and no other ends the program.
      pub attend-session :
          (fuel : ℕ) (pairs : List (Event × Event)) (w : World) (t : S sys s fd at_fd epoll machine)
          → AreAwaited pairs
          → get_elem? t.descriptor_nodes fd ≡ some []
          → IsTuned epoll fd t.poller t.kernel
          → Carries (attend (suc (suc fuel)) (in_turn pairs) w t) (session sys pairs s w)
      attend-session fuel pairs w t awaited empty tuned =
          let (u, (posted, at_begin)) =
            post_all-IsAt sys s fd at_fd epoll machine positive accepts reading (at sys s reading w)
              (record t { world = at sys s reading w }) refl refl empty tuned in
          rw (begin-is w, posted)
            (Comes-Carries (handlers (suc (suc fuel)) (in_turn pairs) u)
              (woken_all (in_turn pairs) (at sys s reading w)) (session sys pairs s w)
              (handlers-Comes fuel (in_turn pairs) (at sys s reading w) u refl at_begin)
              (session-Agrees pairs w awaited))
