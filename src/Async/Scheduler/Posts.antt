-- ===== src/Async/Scheduler/Posts.antt =====
-- Posts and updates at a descriptor that succeed.
use bc.Prelude.{
  ℕ, ◌<◌, ◌≡◌, refl, ap, ◌∙◌, ltb, lt→ltb, List, [], ◌∷◌, ◌++◌, some, length, get_elem?, set, ok,
  assert, in_bounds, length-set, get_elem?-set_self, get_elem?-lt, >>=-eq-ok, arith,
}
use bc.Async.Poller.{
  Epoll, Event, Poller, Op, no_event, done, adjust_size, choose_op, control, subscribe,
}
use bc.Async.Poller.Errors.{Fits, subscribe_total}
use bc.Async.Poller.Mirror.{Mirrors, subscribe-Mirrors}
use bc.Async.Scheduler
use bc.Async.Scheduler.{
  DescriptorNode, Host, Sched, increment, or_events, poller_subscribe, update_descriptor,
  post_at_descriptor, walk, handler,
}

module _ (epoll : Epoll) (fd : ℕ) where
  open epoll use {Kernel, ctl}

  -- The kernel accepts every add of the descriptor while it is not registered, and every change
  -- while it is.
  abbrev pub Accepts : Type 0
  Accepts =
      (k : Kernel) (e : Event) (o : Op)
      → Fits epoll o fd k
      → (k' : Kernel) × (ctl k o fd e ≡ done k')

  -- The poller has room for the descriptor, and mirrors the kernel.
  abbrev pub IsTuned : Poller → Kernel → Type 0
  IsTuned p k = (fd < length p.focus_) × Mirrors epoll p k

  adjust_size-room : (p : Poller) → fd < length p.focus_ → adjust_size p fd ≡ p
  unfolding adjust_size
  adjust_size-room p h = rw (lt→ltb fd (length p.focus_) h) refl

  subscribe-length :
      (e : Event) (p p' : Poller) (k k' : Kernel)
      → fd < length p.focus_
      → subscribe epoll fd e p k ≡ ok (p', k')
      → length p'.focus_ ≡ length p.focus_
  unfolding subscribe
  subscribe-length e p p' k k' room h =
      let (_, _, h₁) = >>=-eq-ok (assert (ltb 0 fd)) _ h in
      let (now, found, h₂) = >>=-eq-ok (in_bounds (get_elem? (adjust_size p fd).focus_ fd)) _ h₁ in
      let (k₁, told, h₃) = >>=-eq-ok (control epoll (choose_op now e) fd e k) _ h₂ in
      let q : p'.focus_ ≡ set (adjust_size p fd).focus_ fd e = ground arith in
      ap (length {0}) q ∙ length-set _ fd e ∙ ap (λ x. length x.focus_) (adjust_size-room p room)

  subscribe-IsTuned :
      (e : Event) (p : Poller) (k : Kernel)
      → 0 < fd
      → Accepts
      → IsTuned p k
      → (p' : Poller) × (k' : Kernel) × ((subscribe epoll fd e p k ≡ ok (p', k')) × IsTuned p' k')
  subscribe-IsTuned e p k positive accepts (room, m) =
      let room' : fd < length (adjust_size p fd).focus_ = rw (adjust_size-room p room) room in
      let (p', k', h) = subscribe_total epoll fd e p k positive room' m (accepts k e) in
      (
        p',
        k',
        (
          h,
          (
            rw (subscribe-length e p p' k k' room h) room,
            (subscribe-Mirrors epoll fd e p p' k k' m h).0,
          ),
        ),
      )

  module _ (host : Host Kernel) (positive : 0 < fd) (accepts : Accepts) where
    pub update_descriptor-IsTuned :
        (s : Sched epoll host) (l : List DescriptorNode)
        → get_elem? s.descriptor_nodes fd ≡ some l
        → IsTuned s.poller s.kernel
        → (p' : Poller) × (k' : Kernel) × ((update_descriptor epoll host fd s
              ≡ ok (record s { poller = p'; kernel = k' }))
            × IsTuned p' k')
    unfolding update_descriptor poller_subscribe
    update_descriptor-IsTuned s l found tuned =
        let (p', k', (h, tuned')) =
          subscribe-IsTuned (or_events no_event l) s.poller s.kernel positive accepts tuned in
        (p', k', (rw (found, h) refl, tuned'))

    pub post_at_descriptor-IsTuned :
        (n : DescriptorNode) (s : Sched epoll host) (l : List DescriptorNode)
        → get_elem? s.descriptor_nodes fd ≡ some l
        → IsTuned s.poller s.kernel
        → (p' : Poller) × (k' : Kernel) × ((post_at_descriptor epoll host fd n s
              ≡ ok (record s {
                coro_count = increment s.coro_count;
                descriptor_nodes = set s.descriptor_nodes fd (l ++ n ∷ []);
                poller = p';
                kernel = k';
              }))
            × IsTuned p' k')
    unfolding post_at_descriptor Scheduler.adjust_size
    post_at_descriptor-IsTuned n s l found tuned =
        let room = get_elem?-lt s.descriptor_nodes fd found in
        let nodes = set s.descriptor_nodes fd (l ++ n ∷ []) in
        let (p', k', (h, tuned')) =
          update_descriptor-IsTuned (record s { descriptor_nodes = nodes }) (l ++ n ∷ [])
            (get_elem?-set_self s.descriptor_nodes fd (l ++ n ∷ []) room) tuned in
        (p', k', (rw (lt→ltb 0 fd positive, lt→ltb fd _ room, found, h) refl, tuned'))

    pub handler-IsTuned :
        (fuel : ℕ) (e : Event) (s t : Sched epoll host) (list kept later : List DescriptorNode)
        → get_elem? s.descriptor_nodes fd ≡ some list
        → walk epoll host fuel e list (record s { descriptor_nodes = set s.descriptor_nodes fd [] })
          ≡ ok (kept, t)
        → get_elem? t.descriptor_nodes fd ≡ some later
        → IsTuned t.poller t.kernel
        → (p' : Poller) × (k' : Kernel) × ((handler epoll host fuel fd e s
              ≡ ok (record t {
                descriptor_nodes = set t.descriptor_nodes fd (kept ++ later);
                poller = p';
                kernel = k';
              }))
            × IsTuned p' k')
    unfolding handler
    handler-IsTuned fuel e s t list kept later found walked found' tuned =
        let room = get_elem?-lt t.descriptor_nodes fd found' in
        let nodes = set t.descriptor_nodes fd (kept ++ later) in
        let (p', k', (h, tuned')) =
          update_descriptor-IsTuned (record t { descriptor_nodes = nodes }) (kept ++ later)
            (get_elem?-set_self t.descriptor_nodes fd (kept ++ later) room) tuned in
        (p', k', (rw (found, walked, found', h) refl, tuned'))
