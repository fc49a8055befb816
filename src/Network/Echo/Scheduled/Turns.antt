-- ===== src/Network/Echo/Scheduled/Turns.antt =====
-- One call of the scheduler's handler for the descriptor that the session waits at.
use Prim.Native.Nat.{bit_and}
use bc.Prelude.{
  ℕ, suc, ◌<◌, ◌≡◌, ◌==◌, inl, inr, refl, sym, ap, ◌∙◌, true, false, List, [], ◌∷◌, ◌++◌, ok, some,
  get_elem?, set, get_elem?-set_self, get_elem?-lt, pos, Bool-cases,
}
use bc.Async.Poller.{Epoll, Event}
use bc.Async.Scheduler.{DescriptorNode, coro, decrement, resume_coro, visit, walk, handler}
use bc.Async.Scheduler.Posts.{Accepts, IsTuned, handler-IsTuned}
use bc.Network.Awaiters.{read_mask, write_mask}
use bc.Network.Socket.{Socket}
use bc.Network.Socket.SystemCalls.{Sys}
use bc.Network.Echo.Scheduled.{Machine, Stage, reading, writing, over, Coroutine, continue, host}
use bc.Network.Echo.Scheduled.Posted.{nodes_of, passes, woken, S, IsAt, resumed}

module _ (sys : Sys) (s : Socket) (fd : ℕ) (at_fd : s.fd_ ≡ pos fd) (epoll : Epoll)
    (machine : Machine epoll.Kernel sys.World) (positive : 0 < fd)
    (accepts : Accepts epoll fd) where
  open sys use {World}

  abbrev Sessions : Type 0
  Sessions = S sys s fd at_fd epoll machine

  abbrev At : Coroutine World → Sessions → Type 0
  At c t = IsAt sys s fd at_fd epoll machine c t

  walk_called :
      (fuel m : ℕ) (e : Event) (t u : Sessions)
      → (bit_and m e == 0) ≡ false
      → resume_coro epoll
          (host sys s machine)
          0
          (record t { world = record (t.world) { revent = e } })
        ≡ ok u
      → walk epoll
          (host sys s machine)
          (suc (suc fuel))
          e
          (record { ev = m; revent = 0; next = coro 0 } ∷ [])
          t
        ≡ ok ([], record u { coro_count = decrement u.coro_count })
  unfolding walk visit
  walk_called fuel m e t u q h = rw (q, h) refl

  walk_passed :
      (fuel m : ℕ) (e : Event) (t : Sessions)
      → (bit_and m e == 0) ≡ true
      → walk epoll
          (host sys s machine)
          (suc (suc fuel))
          e
          (record { ev = m; revent = 0; next = coro 0 } ∷ [])
          t
        ≡ ok (record { ev = m; revent = 0; next = coro 0 } ∷ [], t)
  unfolding walk
  walk_passed fuel m e t q = rw q refl

  -- The handler, from a walk that leaves the session at `d`.
  walked :
      (fuel : ℕ) (e : Event) (c d : Coroutine World) (t u : Sessions)
      (kept later : List DescriptorNode)
      → At c t
      → walk epoll
          (host sys s machine)
          fuel
          e
          (nodes_of c.stage)
          (record t { descriptor_nodes = set t.descriptor_nodes fd [] })
        ≡ ok (kept, u)
      → u.world ≡ d
      → get_elem? u.descriptor_nodes fd ≡ some later
      → IsTuned epoll fd u.poller u.kernel
      → nodes_of d.stage ≡ kept ++ later
      → (v : Sessions) × ((handler epoll (host sys s machine) fuel fd e t ≡ ok v) × At d v)
  walked fuel e c d t u kept later (_, (found, _)) ran world found' tuned all =
      let (p', k', (h, tuned')) =
        handler-IsTuned epoll fd (host sys s machine) positive accepts fuel e t u (nodes_of c.stage)
          kept later found ran found' tuned in
      (
        record u {
          descriptor_nodes = set u.descriptor_nodes fd (kept ++ later);
          poller = p';
          kernel = k';
        },
        (
          h,
          (
            world,
            (
              get_elem?-set_self _ fd _ (get_elem?-lt u.descriptor_nodes fd found')
                  ∙ ap some (sym all),
              tuned',
            ),
          ),
        ),
      )

  waits-IsAt :
      (fuel m : ℕ) (e : Event) (c : Coroutine World) (t : Sessions)
      → nodes_of c.stage ≡ record { ev = m; revent = 0; next = coro 0 } ∷ []
      → passes c.stage e ≡ (bit_and m e == 0)
      → At c t
      → (u : Sessions) × ((handler epoll (host sys s machine) (suc (suc fuel)) fd e t ≡ ok u)
          × At (woken sys s fd at_fd e c) u)
  waits-IsAt fuel m e c t one pass at =
      let t0 = record t { descriptor_nodes = set t.descriptor_nodes fd [] } in
      let empty =
        get_elem?-set_self t.descriptor_nodes fd [] (get_elem?-lt t.descriptor_nodes fd at.1.0) in
      elim (Bool-cases (bit_and m e == 0)) [
        | inl q ↦
            rw (pass, q)
              (walked (suc (suc fuel)) e c c t t0 (nodes_of c.stage) [] at
                (rw one (walk_passed fuel m e t0 q)) at.0 empty at.1.1 (rw one refl))
        | inr q ↦
            let marked = record t0 { world = record (t.world) { revent = e } } in
            let (u, (ran, (world, (found, tuned)))) =
              resumed sys s fd at_fd epoll machine positive accepts e c marked
                (ap {A = Coroutine World} (λ v. record v { revent = e }) at.0) empty at.1.1 in
            let d = (continue sys s c.stage e c.outside).0 in
            rw (pass, q)
              (walked (suc (suc fuel)) e c d t (record u { coro_count = decrement u.coro_count }) []
                (nodes_of d.stage) at (rw one (walk_called fuel m e t0 u q ran)) world found tuned
                refl)
      ]

  -- The handler calls the session once if it waits for one of the events, and else leaves it.
  pub handler-IsAt :
      (fuel : ℕ) (e : Event) (stage : Stage) (revent : Event) (w : World) (t : Sessions)
      → let c : Coroutine World = record { stage = stage; revent = revent; outside = w } in
        At c t
        → (u : Sessions) × ((handler epoll (host sys s machine) (suc (suc fuel)) fd e t ≡ ok u)
            × At (woken sys s fd at_fd e c) u)
  handler-IsAt fuel e reading revent w t at =
      waits-IsAt fuel read_mask e (record { stage = reading; revent = revent; outside = w }) t refl
        refl at
  handler-IsAt fuel e (writing bytes) revent w t at =
      waits-IsAt fuel write_mask e (record { stage = writing bytes; revent = revent; outside = w })
        t refl refl at
  handler-IsAt fuel e (over r) revent w t at =
      let c : Coroutine World = record { stage = over r; revent = revent; outside = w } in
      let t0 = record t { descriptor_nodes = set t.descriptor_nodes fd [] } in
      walked (suc (suc fuel)) e c c t t0 [] [] at (unfold walk in refl) at.0
        (get_elem?-set_self t.descriptor_nodes fd [] (get_elem?-lt t.descriptor_nodes fd at.1.0))
        at.1.1 refl
