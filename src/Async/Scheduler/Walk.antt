-- ===== src/Async/Scheduler/Walk.antt =====
-- The walk of the handler over the nodes of a descriptor that has events.
use Prim.Native.Nat.{bit_and}
use bc.Prelude.{
  ℕ, zero, suc, ◌≡◌, ◌<◌, refl, true, false, ◌==◌, List, [], ◌∷◌, length, ok, err, out_of_fuel,
  if◌then◌else◌, arith, Bool-cases, inl, inr,
}
use bc.Async.Poller.{Epoll, Event}
use bc.Async.Scheduler.{DescriptorNode, Host, Sched, decrement, visit, walk}

-- The nodes that wait for none of the events.
abbrev pub waiting : Event → List DescriptorNode → List DescriptorNode
waiting e [] = []
waiting e (n ∷ ns) = let rest = waiting e ns in if bit_and n.ev e == 0 then n ∷ rest else rest

module _ (epoll : Epoll) (host : Host epoll.Kernel) where
  -- Whatever the state, a call of the node succeeds and is done with it.
  abbrev pub IsReady : DescriptorNode → Type 0
  IsReady n =
      (s : Sched epoll host) → (t : Sched epoll host) × (visit epoll host n.next s ≡ ok (true, t))

  abbrev pub AllReady : Event → List DescriptorNode → Type 0
  AllReady e [] = Unit
  AllReady e (n ∷ ns) = ((bit_and n.ev e == 0) ≡ false → IsReady n) × AllReady e ns

  -- Where each node that the events concern is ready, the walk ends with one round for each node,
  -- and keeps exactly the other nodes, in their order.
  pub walk_total :
      (fuel : ℕ) (e : Event) (ns : List DescriptorNode) (s : Sched epoll host)
      → length ns < fuel
      → AllReady e ns
      → (t : Sched epoll host) × (walk epoll host fuel e ns s ≡ ok (waiting e ns, t))
  unfolding walk
  walk_total zero e ns s h r = absurd (omega arith)
  walk_total (suc fuel) e [] s h r = (s, refl)
  walk_total (suc fuel) e (n ∷ ns) s h r = elim (Bool-cases (bit_and n.ev e == 0)) [
    | inl q ↦ let (t, ih) = walk_total fuel e ns s (omega arith) r.1 in (t, rw (q, ih))
    | inr q ↦
        let marked = record s { world = host.set_revent n.revent e s.world } in
        let (u, called) = r.0 q marked in
        let (t, ih) =
          walk_total fuel e ns (record u { coro_count = decrement u.coro_count }) (omega arith)
            r.1 in
        (t, rw (q, called) ih)
  ]

  -- A proxy that the events concern and that is never ready holds the walk for ever.
  pub walk_spins :
      (fuel : ℕ) (e : Event) (n : DescriptorNode) (ns : List DescriptorNode) (s : Sched epoll host)
      → (bit_and n.ev e == 0) ≡ false
      → ((u : Sched epoll host)
          → (t : Sched epoll host) × (visit epoll host n.next u ≡ ok (false, t)))
      → walk epoll host fuel e (n ∷ ns) s ≡ err out_of_fuel
  unfolding walk
  walk_spins zero e n ns s q never = refl
  walk_spins (suc fuel) e n ns s q never =
      let (t, called) = never (record s { world = host.set_revent n.revent e s.world }) in
      rw (q, called) (walk_spins fuel e n ns t q never)
