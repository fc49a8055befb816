-- ===== src/Network/Socket/Ownership.antt =====
-- Which socket holds which descriptor: what each method does to the balance between the descriptors
-- that sockets hold and those that are open.
use bc.Prelude.{
  ℕ, ◌+◌, ◌≡◌, ◌==◌, Bool, true, false, if◌then◌else◌, Bytes, Result, ok, err, ℤ, pos, negsuc, refl,
  ◌∙◌, arith, Bool-cases, inl, inr,
}
use bc.Async.Poller.{Outcome, done, failed}
use bc.Network.Address.{Domain, Address}
use bc.Network.Address
use bc.Network.Socket.SystemCalls.{Protocol, Role, server, peer, Sys}
use bc.Network.Socket.{
  Socket, is_zero, is_undetermined, Method, after, ◌>>=◌, require, put, call, use_domain, opened,
  connectable, bind, listen, listen_at, async_connect, read, write,
}

abbrev pub bit : Bool → ℕ
bit true = 1
bit false = 0

-- 1 if a socket whose `fd_` is this holds the descriptor.
abbrev pub holds : ℤ → ℕ → ℕ
holds (pos n) fd = if n == 0 then 0 else bit (n == fd)
holds (negsuc n) fd = 0

module _ (sys : Sys) where
  open sys use {World, is_open}

  -- Descriptor 0 stays open, and what the socket gains or loses is opened or closed.
  abbrev pub Balanced : Socket → World → Socket → World → Type 0
  Balanced s w s' w' =
      (is_open w' 0 ≡ true)
      × ((fd : ℕ) → holds s'.fd_ fd + bit (is_open w fd) ≡ holds s.fd_ fd + bit (is_open w' fd))

  abbrev pub Keeps : {A : Type 0} → Method World A → Type 0
  Keeps m = (s : Socket) (w : World) → is_open w 0 ≡ true → Balanced s w (m s w).1 (m s w).2

  after-Balanced :
      {A B : Type 0} (s : Socket) (w : World) (r : Result A × Socket × World)
      (f : A → Method World B)
      → Balanced s w r.1 r.2
      → ((a : A) → Keeps (f a))
      → Balanced s w (after r f).1 (after r f).2
  after-Balanced s w (err e, s', w') f b k = b
  after-Balanced s w (ok a, s', w') f b k =
      let c = k a s' w' b.0 in (c.0, λ fd. omega (arith, b.1 fd, c.1 fd))

  >>=-Keeps :
      {A B : Type 0} (m : Method World A) (f : A → Method World B)
      → Keeps m
      → ((a : A) → Keeps (f a))
      → Keeps (m >>= f)
  >>=-Keeps m f h k s w z = after-Balanced s w (m s w) f (h s w z) k

  same-Balanced :
      (s s' : Socket) (w w' : World)
      → s'.fd_ ≡ s.fd_
      → is_open w 0 ≡ true
      → ((j : ℕ) → is_open w' j ≡ is_open w j)
      → Balanced s w s' w'
  same-Balanced s s' w w' e z h = (h 0 ∙ z, λ fd. rw (e, h fd) refl)

  require-Keeps : (test : Socket → Bool) → Keeps (require test)
  require-Keeps test s w z = same-Balanced s s w w refl z (λ j. refl)

  call-Keeps :
      {A : Type 0} (f : ℤ → World → World × Outcome A)
      → ((d : ℤ) (w : World) (j : ℕ) → is_open (f d w).0 j ≡ is_open w j)
      → Keeps (call f)
  call-Keeps f h s w z = same-Balanced s s w (f s.fd_ w).0 refl z (h s.fd_ w)

  put_role-Keeps : (role : Role) → Keeps (put (λ s. record s { role_ = role }))
  put_role-Keeps role s w z = same-Balanced s (record s { role_ = role }) w w refl z (λ j. refl)

pub holds-is_zero : (d : ℤ) (fd : ℕ) → is_zero d ≡ true → holds d fd ≡ 0
holds-is_zero (pos n) fd h = rw h
holds-is_zero (negsuc n) fd h = refl

-- A descriptor that was not open is not 0, and is held once it is stored.
pub fresh_balance :
    (old new : ℕ → Bool) (fd : ℕ)
    → old 0 ≡ true
    → old fd ≡ false
    → ((j : ℕ) → new j ≡ (if j == fd then true else old j))
    → (new 0 ≡ true) × ((j : ℕ) → holds (pos fd) j + bit (old j) ≡ bit (new j))
fresh_balance old new fd z f h =
    let ne : (fd == 0) ≡ false = elim (Bool-cases (fd == 0)) [
      | inl e ↦ let same : fd ≡ 0 = ground arith in cc
      | inr e ↦ e
    ] in
    (
      h 0 ∙ ground arith,
      λ j. elim (Bool-cases (fd == j)) [
        | inl e ↦ let same : fd ≡ j = ground arith in rw (h j, ← same, f, ne) (ground arith)
        | inr e ↦
            let other : (j == fd) ≡ false = ground arith in rw (h j, other, ne, e) (omega arith)
      ],
    )

module _ (sys : Sys) (proto : Protocol) where
  open sys use {World, is_open}

  opened-Balanced :
      (d : Domain) (s : Socket) (w : World) (out : World × Outcome ℕ)
      → is_open w 0 ≡ true
      → is_zero s.fd_ ≡ true
      → ((fd : ℕ) → out.1 ≡ done fd → is_open w fd ≡ false)
      → ((fd j : ℕ) → out.1 ≡ done fd → is_open out.0 j ≡ (if j == fd then true else is_open w j))
      → ((errno j : ℕ) → out.1 ≡ failed errno → is_open out.0 j ≡ is_open w j)
      → Balanced sys s w (opened sys proto d s out).1 (opened sys proto d s out).2
  opened-Balanced d s w (w', done fd) z none fresh opens fails =
      let b = fresh_balance (is_open w) (is_open w') fd z (fresh fd refl) (λ j. opens fd j refl) in
      (b.0, λ j. omega (arith, b.1 j, holds-is_zero s.fd_ j none))
  opened-Balanced d s w (w', failed errno) z none fresh opens fails = (
    fails errno 0 refl ∙ z,
    λ j. rw (fails errno j refl) (omega (arith, holds-is_zero s.fd_ j none)),
  )

  use_domain-Keeps : (d : Domain) → Keeps sys (use_domain sys proto d)
  unfolding use_domain
  use_domain-Keeps d s w z = elim (Bool-cases (is_zero s.fd_)) [
    | inl e ↦ rw e (
        opened-Balanced d s w (sys.socket d proto w) z e (sys.socket_fresh d proto w)
          (sys.socket_opens d proto w) (sys.socket_fails d proto w))
    | inr e ↦ rw e (same-Balanced sys s s w w refl z (λ j. refl))
  ]

  pub bind-Keeps : (addr : Address) → Keeps sys (bind sys proto addr)
  unfolding bind
  bind-Keeps addr =
      >>=-Keeps sys (use_domain sys proto (Address.domain addr)) _
        (use_domain-Keeps (Address.domain addr))
        (λ _.
          >>=-Keeps sys (call sys.setsockopt) _ (call-Keeps sys sys.setsockopt sys.setsockopt_keeps)
            (λ _. call-Keeps sys (λ fd. sys.bind fd addr) (λ d w j. sys.bind_keeps d addr w j)))

  pub listen-Keeps : (backlog : ℕ) → Keeps sys (listen sys proto backlog)
  unfolding listen
  listen-Keeps backlog =
      >>=-Keeps sys (require (λ s. is_undetermined s.role_)) _
        (require-Keeps sys (λ s. is_undetermined s.role_))
        (λ _.
          >>=-Keeps sys (call (λ fd. sys.listen fd backlog)) _
            (call-Keeps sys (λ fd. sys.listen fd backlog) (λ d w j. sys.listen_keeps d backlog w j))
            (λ _. put_role-Keeps sys server))

  pub listen_at-Keeps :
      (addr : Address) (backlog : ℕ) → Keeps sys (listen_at sys proto addr backlog)
  unfolding listen_at
  listen_at-Keeps addr backlog =
      >>=-Keeps sys (bind sys proto addr) _ (bind-Keeps addr) (λ _. listen-Keeps backlog)

  connectable-Keeps : (addr : Address) → Keeps sys (connectable sys proto addr)
  connectable-Keeps addr s w z = elim (Bool-cases (is_zero s.fd_)) [
    | inl e ↦ rw (e, connectable) (use_domain-Keeps (Address.domain addr) s w z)
    | inr e ↦ rw (e, connectable) (same-Balanced sys s s w w refl z (λ j. refl))
  ]

  pub async_connect-Keeps : (addr : Address) → Keeps sys (async_connect sys proto addr)
  unfolding async_connect
  async_connect-Keeps addr =
      >>=-Keeps sys (connectable sys proto addr) _ (connectable-Keeps addr)
        (λ _. put_role-Keeps sys peer)

  pub read-Keeps : (size : ℕ) → Keeps sys (read sys proto size)
  unfolding read
  read-Keeps size s w z =
      same-Balanced sys s s w (sys.read s.fd_ size w).0 refl z (λ j. sys.read_keeps s.fd_ size w j)

  pub write-Keeps : (bytes : Bytes) → Keeps sys (write sys proto bytes)
  unfolding write
  write-Keeps bytes s w z =
      same-Balanced sys s s w (sys.write s.fd_ bytes w).0 refl z
        (λ j. sys.write_keeps s.fd_ bytes w j)
