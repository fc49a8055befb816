-- ===== src/Network/Socket.antt =====
-- The class `socket` of include/bc/network/socket.hpp. A method takes the object and the world, and
-- gives both back, also where it throws. What the system calls do is the parameter `Sys`.
pub mod SystemCalls
pub mod Ownership
pub mod Reach
pub mod Owned
use bc.Prelude.{
  ℕ, ◌==◌, Bool, true, false, ◌&&◌, ◌||◌, if◌then◌else◌, List, [], Bytes, length, Result, ok, err,
  assert, assertion, thrown, ℤ, pos, negsuc,
}
use bc.Async.Poller.{Outcome, done, failed, Epoll, Poller, unsubscribe}
use bc.Network.Address.{Domain, ipv4, ipv6, Address}
use bc.Network.Address
use bc.Utils.Expected.{Expected, value, error}
use SystemCalls.{Protocol, Role, undetermined, server, peer, Sys, eagain, ewouldblock, eintr}

pub record Socket : Type 0 where
  -- 0 stands for no descriptor.
  pub fd_ : ℤ
  pub domain_ : Domain
  pub role_ : Role

-- The default constructor leaves `domain_` as it is found.
abbrev pub new_socket : Domain → Socket
new_socket found = record { fd_ = pos 0; domain_ = found; role_ = undetermined }

abbrev pub wrap : ℕ → Domain → Role → Socket
wrap fd domain role = record { fd_ = pos fd; domain_ = domain; role_ = role }

abbrev pub is_zero : ℤ → Bool
is_zero (pos n) = n == 0
is_zero (negsuc n) = false

-- A descriptor as the poller's numbers: its `subscribe` asserts that it is positive, and so fails at
-- any negative number as it does at 0.
abbrev pub descriptor : ℤ → ℕ
descriptor (pos fd) = fd
descriptor (negsuc n) = 0

abbrev pub is_undetermined : Role → Bool
is_undetermined undetermined = true
is_undetermined _ = false

abbrev pub same_domain : Domain → Domain → Bool
same_domain ipv4 ipv4 = true
same_domain ipv6 ipv6 = true
same_domain _ _ = false

-- `clear_`.
unfoldable pub clear : Socket → Socket
clear s = record s { fd_ = pos 0; role_ = undetermined }

-- The move constructor: the new object, and the one that is moved from.
unfoldable pub move_from : Socket → Socket × Socket
move_from other = (other, clear other)

-- `operator=` of two objects, the target first.
unfoldable pub move_assign : Socket → Socket → Result (Socket × Socket)
move_assign s other =
    if is_zero s.fd_
    then (if is_undetermined s.role_ then ok (other, clear other) else err assertion)
    else err assertion

abbrev pub is_transient : ℕ → Bool
is_transient errno = errno == eagain || errno == ewouldblock || errno == eintr

module _ (W : Type 0) where
  abbrev pub Method : Type 0 → Type 0
  Method A = Socket → W → Result A × Socket × W

abbrev pub result_of : {A : Type 0} → Outcome A → Result A
result_of (done a) = ok a
result_of (failed errno) = err (thrown errno)

module _ {W : Type 0} where
  abbrev pub after :
      {A B : Type 0} → Result A × Socket × W → (A → Method W B) → Result B × Socket × W
  after (ok a, s, w) f = f a s w
  after (err e, s, w) f = (err e, s, w)

  infixl 5 ◌>>=◌ ◌>>◌
  abbrev pub ◌>>=◌ : {A B : Type 0} → Method W A → (A → Method W B) → Method W B
  ◌>>=◌ m f s w = after (m s w) f

  abbrev pub ◌>>◌ : {B : Type 0} → Method W (Unit {0}) → Method W B → Method W B
  m >> k = m >>= λ _. k

  abbrev pub give : {A : Type 0} → A → Method W A
  give a s w = (ok a, s, w)

  -- `assert`.
  abbrev pub require : (Socket → Bool) → Method W (Unit {0})
  require test s w = (assert (test s), s, w)

  abbrev pub put : (Socket → Socket) → Method W (Unit {0})
  put f s w = (ok tt, f s, w)

  -- A system call on the descriptor, whose failure is thrown.
  abbrev pub call : {A : Type 0} → (ℤ → W → W × Outcome A) → Method W A
  call f s w = (result_of (f s.fd_ w).1, s, (f s.fd_ w).0)

-- What `read` makes of the call's outcome: the bytes in the buffer, or the error.
abbrev pub received : Outcome Bytes → Expected Bytes ℕ
received (done bytes) = value bytes
received (failed errno) = if is_transient errno then value [] else error errno

abbrev pub sent : Outcome ℕ → Expected ℕ ℕ
sent (done count) = value count
sent (failed errno) = if is_transient errno then value 0 else error errno

module _ (sys : Sys) (proto : Protocol) where
  open sys use {World}

  -- The descriptor is set to -1 where there is no new one.
  abbrev pub opened : Domain → Socket → World × Outcome ℕ → Result (Unit {0}) × Socket × World
  opened d s (w, done fd) = (ok tt, record s { fd_ = pos fd; domain_ = d }, w)
  opened d s (w, failed errno) = (err (thrown errno), record s { fd_ = negsuc 0 }, w)

  -- `use_domain_`.
  unfoldable pub use_domain : Domain → Method World (Unit {0})
  use_domain d = do require (λ s. is_zero s.fd_); λ s w. opened d s (sys.socket d proto w)

  unfoldable pub bind : Address → Method World (Unit {0})
  bind addr = do
    use_domain (Address.domain addr)
    call sys.setsockopt
    call (λ fd. sys.bind fd addr)

  unfoldable pub listen : ℕ → Method World (Unit {0})
  listen backlog = do
    require (λ s. is_undetermined s.role_)
    call (λ fd. sys.listen fd backlog)
    put (λ s. record s { role_ = server })

  unfoldable pub listen_at : Address → ℕ → Method World (Unit {0})
  listen_at addr backlog = do bind addr; listen backlog

  -- The first part of `async_connect`; the second sets the role.
  abbrev pub connectable : Address → Method World (Unit {0})
  connectable addr s w = elim (is_zero s.fd_) [
    | true ↦ use_domain (Address.domain addr) s w
    | false ↦
        (assert (same_domain s.domain_ (Address.domain addr) && is_undetermined s.role_), s, w)
  ]

  unfoldable pub async_connect : Address → Method World (Unit {0})
  async_connect addr = do connectable addr; put (λ s. record s { role_ = peer })

  unfoldable pub read : ℕ → Method World (Expected Bytes ℕ)
  read size s w = let (w', o) = sys.read s.fd_ size w in (ok (received o), s, w')

  unfoldable pub write : Bytes → Method World (Expected ℕ ℕ)
  write bytes s w = let (w', o) = sys.write s.fd_ bytes w in (ok (sent o), s, w')

module _ (sys : Sys) (epoll : Epoll) where
  abbrev pub State : Type 0
  State = sys.World × Poller × epoll.Kernel

  -- `close`, whose failure is logged, behind `unsubscribe`.
  abbrev pub closing : ℤ → sys.World → Result (Poller × epoll.Kernel) → Result State
  closing fd w (ok (p, k)) = ok ((sys.close fd w).0, p, k)
  closing fd w (err e) = err e

  abbrev pub release : ℤ → sys.World → Poller → epoll.Kernel → Result State
  release fd w p k =
      if is_zero fd then ok (w, p, k) else closing fd w (unsubscribe epoll (descriptor fd) p k)

  -- The destructor, with the poller of the default scheduler.
  unfoldable pub destroy : Socket → sys.World → Poller → epoll.Kernel → Result State
  destroy s w p k = release s.fd_ w p k
