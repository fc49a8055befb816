-- ===== src/Network/Socket/Owned.antt =====
-- Every run of a program keeps each descriptor that it opens in exactly one socket.
use bc.Prelude.{ℕ, ◌+◌, ◌≡◌, Bool, true, false, List, [], ◌∷◌, ◌++◌, refl, ap, arith, ok}
use bc.Network.Socket.SystemCalls.{Protocol, Sys}
use bc.Network.Socket.Ownership.{bit, holds}
use bc.Network.Socket.{Socket, clear, move_from, destroy}
use bc.Network.Awaiters.{accept_proxy, accepted}
use bc.Network.Socket.Reach.{
  holders, holders-append, holders-middle, made, Program, used, Step, construct, uses, accepts,
  moves, assigns, assigns_back, destroys, Reach, here, next, IsOwned, used-Balanced,
  accepted-balance, moved-holders, release-Closes,
}

holders_two :
    (fd : ℕ) (xs : List Socket) (a : Socket) (ys : List Socket) (b : Socket) (zs : List Socket)
    → holders fd (xs ++ a ∷ ys ++ b ∷ zs)
      ≡ holds a.fd_ fd + holds b.fd_ fd + (holders fd xs + holders fd ys + holders fd zs)
holders_two fd xs a ys b zs =
    omega (arith, holders-append fd (xs ++ a ∷ ys) (b ∷ zs), holders-append fd xs (a ∷ ys))

module _ (sys : Sys) (proto : Protocol) (foreign : ℕ → Bool) where
  open sys use {World, is_open}

  Step-IsOwned :
      {p q : Program sys proto}
      → Step sys proto p q
      → IsOwned sys proto foreign p
      → IsOwned sys proto foreign q
  unfolding move_from clear accept_proxy destroy
  Step-IsOwned (construct d) o = (o.0, λ fd. omega (arith, o.1 fd))
  Step-IsOwned {p} (uses u xs s ys e) o =
      let b = used-Balanced sys proto u s p.world o.0 in
      (
        b.0,
        λ fd. omega (
          arith,
          o.1 fd,
          b.1 fd,
          ap (holders fd) e,
          holders-middle fd xs s ys,
          holders-middle fd xs (used sys proto u s p.world).0 ys,
        ),
      )
  Step-IsOwned {p} (accepts xs s ys e) o =
      let out = sys.accept s.fd_ p.world in
      let b =
        accepted-balance sys proto p.world s.domain_ out o.0 (sys.accept_fresh s.fd_ p.world)
          (sys.accept_opens s.fd_ p.world) (sys.accept_fails s.fd_ p.world) in
      (
        b.0,
        λ fd. omega (
          arith,
          o.1 fd,
          b.1 fd,
          holders-append fd (made (ok (accepted s.domain_ out.1))) p.sockets,
        ),
      )
  Step-IsOwned {p} (moves xs s ys e) o = (
    o.0,
    λ fd. omega (
      arith,
      o.1 fd,
      ap (holders fd) e,
      holders-middle fd xs s ys,
      holders-middle fd xs (clear s) ys,
    ),
  )
  Step-IsOwned {p} (assigns xs a ys b zs a' b' e m) o = (
    o.0,
    λ fd. omega (
      arith,
      o.1 fd,
      ap (holders fd) e,
      moved-holders a b a' b' m fd,
      holders_two fd xs a ys b zs,
      holders_two fd xs a' ys b' zs,
    ),
  )
  Step-IsOwned {p} (assigns_back xs a ys b zs a' b' e m) o = (
    o.0,
    λ fd. omega (
      arith,
      o.1 fd,
      ap (holders fd) e,
      moved-holders b a b' a' m fd,
      holders_two fd xs a ys b zs,
      holders_two fd xs a' ys b' zs,
    ),
  )
  Step-IsOwned {p} (destroys epoll poller poller' k k' xs s ys w e d) o =
      let held : (fd : ℕ) → holds s.fd_ fd ≡ 1 → is_open p.world fd ≡ true = λ fd h.
        held_open fd (holders fd (xs ++ ys) + bit (foreign fd)) (is_open p.world fd)
          (omega (arith, o.1 fd, ap (holders fd) e, holders-middle fd xs s ys, h)) in
      let b = release-Closes sys proto epoll s.fd_ p.world w poller poller' k k' d o.0 held in
      (b.0, λ fd. omega (arith, o.1 fd, b.1 fd, ap (holders fd) e, holders-middle fd xs s ys))
    where
      held_open : (fd n : ℕ) (b : Bool) → 1 + n ≡ bit b → b ≡ true
      held_open fd n true h = refl
      held_open fd n false h = absurd (omega (arith, h))

  Reach-IsOwned :
      {p q : Program sys proto}
      → Reach sys proto p q
      → IsOwned sys proto foreign p
      → IsOwned sys proto foreign q
  Reach-IsOwned here o = o
  Reach-IsOwned (next r step) o = Step-IsOwned step (Reach-IsOwned r o)

-- However a program that starts with no socket makes, uses, accepts, moves and destroys sockets, the
-- descriptors that are open are those from the start and, each in exactly one socket, those that its
-- sockets hold: none leaks, is held twice, or is closed while it is held. (Descriptor 0 is open.)
pub Reach-holders :
    (sys : Sys) (proto : Protocol) (w : sys.World) (q : Program sys proto)
    → sys.is_open w 0 ≡ true
    → Reach sys proto (record { sockets = []; world = w }) q
    → (fd : ℕ) → holders fd q.sockets + bit (sys.is_open w fd) ≡ bit (sys.is_open q.world fd)
Reach-holders sys proto w q z r fd =
    (Reach-IsOwned sys proto (sys.is_open w) r (z, λ j. omega arith)).1 fd
