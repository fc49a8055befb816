-- ===== src/Network/Socket/Reach.antt =====
-- Programs that make, use, move and destroy sockets in any order, as steps on all sockets there are.
use bc.Prelude.{
  ℕ, ◌+◌, ◌≡◌, ◌==◌, Bool, true, false, if◌then◌else◌, List, [], ◌∷◌, ◌++◌, Option, some, Bytes,
  Result, ok, err, ℤ, pos, negsuc, refl, ◌∙◌, arith, Bool-cases, inl, inr,
}
use bc.Async.Poller.{Outcome, done, failed, Epoll, Poller, subscribe, unsubscribe}
use bc.Network.Address.{Domain, Address}
use bc.Network.Socket.SystemCalls.{Protocol, Sys}
use bc.Network.Socket.Ownership.{
  bit, holds, holds-is_zero, fresh_balance, Balanced, bind-Keeps, listen-Keeps, listen_at-Keeps,
  async_connect-Keeps, read-Keeps, write-Keeps,
}
use bc.Network.Socket.{
  Socket, new_socket, is_zero, clear, move_from, move_assign, bind, listen, listen_at,
  async_connect, read, write, destroy, release, closing, is_transient, is_undetermined,
}
use bc.Network.Awaiters.{accept_proxy, accepted}
use bc.Utils.Expected.{Expected, value}

-- How many sockets hold the descriptor.
abbrev pub holders : ℕ → List Socket → ℕ
holders fd [] = 0
holders fd (s ∷ ss) = holds s.fd_ fd + holders fd ss

pub holders-append :
    (fd : ℕ) (xs ys : List Socket) → holders fd (xs ++ ys) ≡ holders fd xs + holders fd ys
holders-append fd [] ys = omega arith
holders-append fd (s ∷ xs) ys = omega (arith, holders-append fd xs ys)

pub holders-middle :
    (fd : ℕ) (xs : List Socket) (s : Socket) (ys : List Socket)
    → holders fd (xs ++ s ∷ ys) ≡ holds s.fd_ fd + holders fd (xs ++ ys)
holders-middle fd xs s ys = omega (arith, holders-append fd xs (s ∷ ys), holders-append fd xs ys)

pub moved-holders :
    (s other s' other' : Socket)
    → move_assign s other ≡ ok (s', other')
    → (fd : ℕ) → holds s'.fd_ fd + holds other'.fd_ fd ≡ holds s.fd_ fd + holds other.fd_ fd
unfolding move_assign clear
moved-holders s other s' other' h fd = elim (Bool-cases (is_zero s.fd_)) [
  | inr e ↦ cc (rw e at h)
  | inl e ↦ elim (Bool-cases (is_undetermined s.role_)) [
    | inr q ↦ cc (rw (e, q) at h)
    | inl q ↦
        let first : s' ≡ other = cc (rw (e, q) at h) in
        let second : other' ≡ clear other = cc (rw (e, q) at h) in
        rw (first, second) (omega (arith, holds-is_zero s.fd_ fd e))
  ]
]

-- What a program does with a socket that it has.
pub data Use : Type 0 where
  binds : Address → Use
  listens : ℕ → Use
  listens_at : Address → ℕ → Use
  connects : Address → Use
  reads : ℕ → Use
  writes : Bytes → Use

-- The sockets that an accept makes.
abbrev pub made : Result (Option (Expected Socket ℕ)) → List Socket
made (ok (some (value s))) = s ∷ []
made _ = []

module _ (sys : Sys) (proto : Protocol) where
  open sys use {World, is_open}

  pub record Program : Type 0 where
    pub sockets : List Socket
    pub world : World

  abbrev pub used : Use → Socket → World → Socket × World
  used (binds addr) s w = let (r, s', w') = bind sys proto addr s w in (s', w')
  used (listens n) s w = let (r, s', w') = listen sys proto n s w in (s', w')
  used (listens_at addr n) s w = let (r, s', w') = listen_at sys proto addr n s w in (s', w')
  used (connects addr) s w = let (r, s', w') = async_connect sys proto addr s w in (s', w')
  used (reads n) s w = let (r, s', w') = read sys proto n s w in (s', w')
  used (writes bytes) s w = let (r, s', w') = write sys proto bytes s w in (s', w')

  -- The poller may be in any state when a socket is destroyed.
  pub data Step (p : Program) : Program → Type 1 where
    construct : (d : Domain) → Step p (record p { sockets = new_socket d ∷ p.sockets })
    uses :
        (u : Use) (xs : List Socket) (s : Socket) (ys : List Socket)
        → p.sockets ≡ xs ++ s ∷ ys
        → Step p
            (record { sockets = xs ++ (used u s p.world).0 ∷ ys; world = (used u s p.world).1 })
    accepts :
        (xs : List Socket) (s : Socket) (ys : List Socket)
        → p.sockets ≡ xs ++ s ∷ ys
        → Step p (record {
          sockets = made (accept_proxy sys s p.world).0 ++ p.sockets;
          world = (accept_proxy sys s p.world).2;
        })
    moves :
        (xs : List Socket) (s : Socket) (ys : List Socket)
        → p.sockets ≡ xs ++ s ∷ ys
        → Step p (record p { sockets = (move_from s).0 ∷ xs ++ (move_from s).1 ∷ ys })
    assigns :
        (xs : List Socket) (a : Socket) (ys : List Socket) (b : Socket) (zs : List Socket)
        (a' b' : Socket)
        → p.sockets ≡ xs ++ a ∷ ys ++ b ∷ zs
        → move_assign a b ≡ ok (a', b')
        → Step p (record p { sockets = xs ++ a' ∷ ys ++ b' ∷ zs })
    assigns_back :
        (xs : List Socket) (a : Socket) (ys : List Socket) (b : Socket) (zs : List Socket)
        (a' b' : Socket)
        → p.sockets ≡ xs ++ a ∷ ys ++ b ∷ zs
        → move_assign b a ≡ ok (b', a')
        → Step p (record p { sockets = xs ++ a' ∷ ys ++ b' ∷ zs })
    destroys :
        (epoll : Epoll) (poller poller' : Poller) (k k' : epoll.Kernel) (xs : List Socket)
        (s : Socket) (ys : List Socket) (w : World)
        → p.sockets ≡ xs ++ s ∷ ys
        → destroy sys epoll s p.world poller k ≡ ok (w, poller', k')
        → Step p (record { sockets = xs ++ ys; world = w })

  pub data Reach (p : Program) : Program → Type 1 where
    here : Reach p p
    next : {q r : Program} → Reach p q → Step q r → Reach p r

  -- Each descriptor that is open and not among the foreign ones is held by one socket; no other is held.
  abbrev pub IsOwned : (ℕ → Bool) → Program → Type 0
  IsOwned foreign p =
      (is_open p.world 0 ≡ true)
      × ((fd : ℕ) → holders fd p.sockets + bit (foreign fd) ≡ bit (is_open p.world fd))

  pub used-Balanced :
      (u : Use) (s : Socket) (w : World)
      → is_open w 0 ≡ true
      → Balanced sys s w (used u s w).0 (used u s w).1
  used-Balanced (binds addr) s w z = bind-Keeps sys proto addr s w z
  used-Balanced (listens n) s w z = listen-Keeps sys proto n s w z
  used-Balanced (listens_at addr n) s w z = listen_at-Keeps sys proto addr n s w z
  used-Balanced (connects addr) s w z = async_connect-Keeps sys proto addr s w z
  used-Balanced (reads n) s w z = read-Keeps sys proto n s w z
  used-Balanced (writes bytes) s w z = write-Keeps sys proto bytes s w z

  pub accepted-balance :
      (w : World) (d : Domain) (out : World × Outcome ℕ)
      → is_open w 0 ≡ true
      → ((fd : ℕ) → out.1 ≡ done fd → is_open w fd ≡ false)
      → ((fd j : ℕ) → out.1 ≡ done fd → is_open out.0 j ≡ (if j == fd then true else is_open w j))
      → ((errno j : ℕ) → out.1 ≡ failed errno → is_open out.0 j ≡ is_open w j)
      → (is_open out.0 0 ≡ true)
        × ((j : ℕ)
            → holders j (made (ok (accepted d out.1))) + bit (is_open w j) ≡ bit (is_open out.0 j))
  accepted-balance w d (w', done fd) z fresh opens fails =
      let b = fresh_balance (is_open w) (is_open w') fd z (fresh fd refl) (λ j. opens fd j refl) in
      (b.0, λ j. omega (arith, b.1 j))
  accepted-balance w d (w', failed errno) z fresh opens fails = (
    fails errno 0 refl ∙ z,
    λ j. elim (Bool-cases (is_transient errno)) [
      | inl e ↦ rw (e, fails errno j refl) (omega arith)
      | inr e ↦ rw (e, fails errno j refl) (omega arith)
    ],
  )

  -- The balance of a socket's destruction.
  abbrev pub Closes : ℤ → World → World → Type 0
  Closes d w w' =
      (is_open w' 0 ≡ true) × ((fd : ℕ) → bit (is_open w fd) ≡ holds d fd + bit (is_open w' fd))

  close-Closes :
      (n : ℕ) (w : World)
      → (n == 0) ≡ false
      → is_open w 0 ≡ true
      → is_open w n ≡ true
      → Closes (pos n) w (sys.close (pos n) w).0
  close-Closes n w ne z held = (
    sys.close_closes n 0 w ∙ ground (arith, z),
    λ fd. elim (Bool-cases (n == fd)) [
      | inl e ↦
          let same : n ≡ fd = ground arith in
          let back : (fd == n) ≡ true = ground arith in
          let open_fd : is_open w fd ≡ true = rw (← same) held in
          rw (ne, e, sys.close_closes n fd w, back, open_fd) refl
      | inr e ↦
          let other : (fd == n) ≡ false = ground arith in
          rw (ne, e, sys.close_closes n fd w, other) (omega arith)
    ],
  )

  pub release-Closes :
      (epoll : Epoll) (d : ℤ) (w w' : World) (p p' : Poller) (k k' : epoll.Kernel)
      → release sys epoll d w p k ≡ ok (w', p', k')
      → is_open w 0 ≡ true
      → ((fd : ℕ) → holds d fd ≡ 1 → is_open w fd ≡ true)
      → Closes d w w'
  unfolding unsubscribe subscribe
  release-Closes epoll (negsuc n) w w' p p' k k' h z held = cc
  release-Closes epoll (pos n) w w' p p' k k' h z held = elim (Bool-cases (n == 0)) [
    | inl e ↦ let same : w ≡ w' = cc (rw e at h) in rw (← same) (z, λ fd. rw e (omega arith))
    | inr e ↦
        let self : (n == n) ≡ true = ground arith in
        let closed = closed_world (pos n) w (unsubscribe epoll n p k) (rw e at h) in
        rw closed (close-Closes n w e z (held n (rw (e, self) refl)))
  ]
    where
      closed_world :
          (fd : ℤ) (w : World) (r : Result (Poller × epoll.Kernel))
          → closing sys epoll fd w r ≡ ok (w', p', k')
          → w' ≡ (sys.close fd w).0
      closed_world fd w (ok (q, l)) h = cc
      closed_world fd w (err e) h = cc
