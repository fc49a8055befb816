-- ===== src/Network/Echo/Scheduled/Posted.antt =====
-- Where a session stands, its node, and what it posts.
use Prim.Native.Nat.{bit_and}
use bc.Prelude.{
  ℕ, ◌<◌, ◌≡◌, ◌==◌, refl, sym, ap, ◌∙◌, Bool, true, if◌then◌else◌, List, [], ◌∷◌, Bytes, Result,
  ok, err, some, get_elem?, set, get_elem?-set_self, get_elem?-lt, pos,
}
use bc.Async.Poller.{Epoll, Event}
use bc.Async.Scheduler.{
  DescriptorNode, coro, Post, at_descriptor, Sched, increment, post, post_all, resume_coro,
}
use bc.Async.Scheduler.Posts.{Accepts, IsTuned, post_at_descriptor-IsTuned}
use bc.Network.Awaiters.{
  read_mask, write_mask, resume_read, resume_write, suspend_read, suspend_write,
}
use bc.Network.Echo.{buffer_size}
use bc.Network.Socket.{Socket}
use bc.Network.Socket.SystemCalls.{Sys}
use bc.Utils.Expected.{Expected, value, error}
use bc.Network.Echo.Scheduled.{
  Machine, Stage, reading, writing, over, Coroutine, begin, after_read, after_write, continue, host,
}

-- The nodes of a session that waits at a stage.
abbrev pub nodes_of : Stage → List DescriptorNode
nodes_of reading = record { ev = read_mask; revent = 0; next = coro 0 } ∷ []
nodes_of (writing bytes) = record { ev = write_mask; revent = 0; next = coro 0 } ∷ []
nodes_of (over r) = []

-- Whether events leave the session as it is.
abbrev pub passes : Stage → Event → Bool
passes reading e = bit_and read_mask e == 0
passes (writing bytes) e = bit_and write_mask e == 0
passes (over r) e = true

abbrev pub posts_of : ℕ → Stage → List Post
posts_of fd reading = suspend_read fd 0 0 ∷ []
posts_of fd (writing bytes) = suspend_write fd 0 0 ∷ []
posts_of fd (over r) = []

module _ (sys : Sys) (s : Socket) (fd : ℕ) (at_fd : s.fd_ ≡ pos fd) where
  open sys use {World}

  -- What the session makes of events.
  abbrev pub woken : Event → Coroutine World → Coroutine World
  woken e c = if passes c.stage e then c else (continue sys s c.stage e c.outside).0

  abbrev HasPosts : Coroutine World × List Post → Type 0
  HasPosts out = out.1 ≡ posts_of fd out.0.stage

  begin-posts : (w : World) → HasPosts (begin sys s w)
  unfolding begin
  begin-posts w = rw at_fd refl

  after_read-posts :
      (r : Result (Expected Bytes ℕ) × Socket × World) → HasPosts (after_read sys s r)
  unfolding after_read
  after_read-posts (ok (value bytes), _, w) = rw at_fd refl
  after_read-posts (ok (error e), _, w) = refl
  after_read-posts (err fault, _, w) = refl

  after_write-posts : (r : Result (Expected ℕ ℕ) × Socket × World) → HasPosts (after_write sys s r)
  unfolding after_write
  after_write-posts (ok (value n), _, w) = begin-posts w
  after_write-posts (ok (error e), _, w) = refl
  after_write-posts (err fault, _, w) = refl

  continue-posts : (stage : Stage) (e : Event) (w : World) → HasPosts (continue sys s stage e w)
  unfolding continue
  continue-posts reading e w = after_read-posts (resume_read sys e buffer_size s w)
  continue-posts (writing bytes) e w = after_write-posts (resume_write sys e bytes s w)
  continue-posts (over r) e w = refl

  module _ (epoll : Epoll) (machine : Machine epoll.Kernel World) where
    abbrev pub S : Type 0
    S = Sched epoll (host sys s machine)

    -- The session is at `c`, and its node, if it waits, is the one at its descriptor.
    abbrev pub IsAt : Coroutine World → S → Type 0
    IsAt c t =
        (t.world ≡ c)
        × ((get_elem? t.descriptor_nodes fd ≡ some (nodes_of c.stage))
            × IsTuned epoll fd t.poller t.kernel)

    module _ (positive : 0 < fd) (accepts : Accepts epoll fd) where
      posted :
          (n : DescriptorNode) (c : Coroutine World) (t : S)
          → t.world ≡ c
          → get_elem? t.descriptor_nodes fd ≡ some []
          → IsTuned epoll fd t.poller t.kernel
          → nodes_of c.stage ≡ n ∷ []
          → (u : S) × ((post_all epoll (host sys s machine) (at_descriptor fd n ∷ []) t ≡ ok u)
              × IsAt c u)
      unfolding post_all post
      posted n c t world found tuned one =
          let (p', k', (h, tuned')) =
            post_at_descriptor-IsTuned epoll fd (host sys s machine) positive accepts n t [] found
              tuned in
          (
            record t {
              coro_count = increment t.coro_count;
              descriptor_nodes = set t.descriptor_nodes fd (n ∷ []);
              poller = p';
              kernel = k';
            },
            (
              rw h refl,
              (
                world,
                (
                  get_elem?-set_self _ fd _ (get_elem?-lt t.descriptor_nodes fd found)
                      ∙ ap some (sym one),
                  tuned',
                ),
              ),
            ),
          )

      pub post_all-IsAt :
          (stage : Stage) (c : Coroutine World) (t : S)
          → c.stage ≡ stage
          → t.world ≡ c
          → get_elem? t.descriptor_nodes fd ≡ some []
          → IsTuned epoll fd t.poller t.kernel
          → (u : S) × ((post_all epoll (host sys s machine) (posts_of fd stage) t ≡ ok u)
              × IsAt c u)
      unfolding suspend_read suspend_write
      post_all-IsAt reading c t e world found tuned =
          posted (record { ev = read_mask; revent = 0; next = coro 0 }) c t world found tuned
            (rw e refl)
      post_all-IsAt (writing bytes) c t e world found tuned =
          posted (record { ev = write_mask; revent = 0; next = coro 0 }) c t world found tuned
            (rw e refl)
      post_all-IsAt (over r) c t e world found tuned =
          (t, (unfold post_all in refl, (world, (rw e found, tuned))))

      -- The session, called with events.
      pub resumed :
          (e : Event) (c : Coroutine World) (t : S)
          → t.world ≡ record c { revent = e }
          → get_elem? t.descriptor_nodes fd ≡ some []
          → IsTuned epoll fd t.poller t.kernel
          → (u : S) × ((resume_coro epoll (host sys s machine) 0 t ≡ ok u)
              × IsAt (continue sys s c.stage e c.outside).0 u)
      unfolding resume_coro
      resumed e c t world found tuned =
          let d = (continue sys s c.stage e c.outside).0 in
          rw (world, continue-posts c.stage e c.outside)
            (post_all-IsAt d.stage d (record t { world = d }) refl refl found tuned)
