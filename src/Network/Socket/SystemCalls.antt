-- ===== src/Network/Socket/SystemCalls.antt =====
-- The system calls on sockets.
use bc.Prelude.{ℕ, ◌==◌, ◌≡◌, Bool, true, false, if◌then◌else◌, Bytes, ℤ, pos}
use bc.Async.Poller.{Outcome, done, failed}
use bc.Network.Address.{Domain, Address}

pub data Protocol : Type 0 where
  tcp udp : Protocol

pub data Role : Type 0 where
  undetermined server peer : Role

abbrev pub eintr : ℕ
eintr = 4

abbrev pub eagain : ℕ
eagain = 11

-- The same number as EAGAIN on Linux.
abbrev pub ewouldblock : ℕ
ewouldblock = 11

abbrev pub einprogress : ℕ
einprogress = 115

-- `is_open` says which descriptors the process has open. The laws are those of the manual pages: a
-- new descriptor was not open before, `close` frees the descriptor also where it reports an error,
-- and the other calls open and close nothing.
pub record Sys : Type 1 where
  pub World : Type 0
  pub is_open : World → ℕ → Bool
  pub socket : Domain → Protocol → World → World × Outcome ℕ
  pub setsockopt : ℤ → World → World × Outcome (Unit {0})
  pub bind : ℤ → Address → World → World × Outcome (Unit {0})
  pub listen : ℤ → ℕ → World → World × Outcome (Unit {0})
  pub connect : ℤ → Address → World → World × Outcome (Unit {0})
  pub accept : ℤ → World → World × Outcome ℕ
  pub read : ℤ → ℕ → World → World × Outcome Bytes
  pub write : ℤ → Bytes → World → World × Outcome ℕ
  pub close : ℤ → World → World × Outcome (Unit {0})
  pub socket_fresh :
      (d : Domain) (p : Protocol) (w : World) (fd : ℕ)
      → (socket d p w).1 ≡ done fd
      → is_open w fd ≡ false
  pub socket_opens :
      (d : Domain) (p : Protocol) (w : World) (fd j : ℕ)
      → (socket d p w).1 ≡ done fd
      → is_open (socket d p w).0 j ≡ (if j == fd then true else is_open w j)
  pub socket_fails :
      (d : Domain) (p : Protocol) (w : World) (errno j : ℕ)
      → (socket d p w).1 ≡ failed errno
      → is_open (socket d p w).0 j ≡ is_open w j
  pub accept_fresh : (s : ℤ) (w : World) (fd : ℕ) → (accept s w).1 ≡ done fd → is_open w fd ≡ false
  pub accept_opens :
      (s : ℤ) (w : World) (fd j : ℕ)
      → (accept s w).1 ≡ done fd
      → is_open (accept s w).0 j ≡ (if j == fd then true else is_open w j)
  pub accept_fails :
      (s : ℤ) (w : World) (errno j : ℕ)
      → (accept s w).1 ≡ failed errno
      → is_open (accept s w).0 j ≡ is_open w j
  pub close_closes :
      (fd j : ℕ) (w : World)
      → is_open (close (pos fd) w).0 j ≡ (if j == fd then false else is_open w j)
  pub setsockopt_keeps : (s : ℤ) (w : World) (j : ℕ) → is_open (setsockopt s w).0 j ≡ is_open w j
  pub bind_keeps :
      (s : ℤ) (a : Address) (w : World) (j : ℕ) → is_open (bind s a w).0 j ≡ is_open w j
  pub listen_keeps : (s : ℤ) (n : ℕ) (w : World) (j : ℕ) → is_open (listen s n w).0 j ≡ is_open w j
  pub connect_keeps :
      (s : ℤ) (a : Address) (w : World) (j : ℕ) → is_open (connect s a w).0 j ≡ is_open w j
  pub read_keeps : (s : ℤ) (n : ℕ) (w : World) (j : ℕ) → is_open (read s n w).0 j ≡ is_open w j
  pub write_keeps :
      (s : ℤ) (b : Bytes) (w : World) (j : ℕ) → is_open (write s b w).0 j ≡ is_open w j
