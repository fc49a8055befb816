-- ===== src/Network/Client/Connects.antt =====
-- What a client does with its connection.
use bc.Prelude.{
  ℕ, ◌≡◌, refl, ◌==◌, Bool, true, false, Bytes, none, some, ok, err, assertion, pos, Bool-cases,
  inl, inr, ◌⊎◌,
}
use bc.Async.Poller.{Event, done}
use bc.Async.Task.{move_assign}
use bc.Network.Address.{Domain, ipv4, ipv6, Address, address, from}
use bc.Network.Address
use bc.Network.Socket.SystemCalls.{Sys, Protocol, peer}
use bc.Network.Socket.{
  Socket, new_socket, wrap, same_domain, connectable, async_connect, use_domain,
}
use bc.Network.Awaiters.{connect_ready}
use bc.Network.Client.{Client, awaited, handle, connect, connect_to, client_connect}
use bc.Utils.Expected.{Expected, value, error, deref}

deref-cases {ℓ κ} :
    {T : Type ℓ} {E : Type κ} (x : Expected T E)
    → ((t : T) × (deref x ≡ ok t)) ⊎ (deref x ≡ err assertion)
unfolding deref
deref-cases (value t) = inl (t, refl)
deref-cases (error e) = inr refl

abbrev pub new_client : Domain → Client
new_client found = record { sock_ = new_socket found; task_ = none }

module _ (sys : Sys) (proto : Protocol) (start : Socket → sys.World → ℕ × sys.World)
    (woken : sys.World → Event × sys.World) where
  open sys use {World}

  -- The world in which the handler starts.
  abbrev pub begun : ℕ → Address → Bool → World → World
  begun fd addr b w = (awaited sys proto start woken (pos fd) addr (ok b, w)).1

  abbrev pub connected : ℕ → Address → World → Client
  connected fd addr w =
      let sock = wrap fd (Address.domain addr) peer in
      record { sock_ = sock; task_ = some (start sock w).0 }

  handle-ok :
      (c : Client) (fd : ℕ) (addr : Address) (b : Bool) (w : World)
      → c.task_ ≡ none
      → handle sys proto start woken c (awaited sys proto start woken (pos fd) addr (ok b, w)) ≡ (
        ok (record c { task_ = some (start c.sock_ (begun fd addr b w)).0 }),
        (start c.sock_ (begun fd addr b w)).1,
      )
  unfolding handle move_assign
  handle-ok c fd addr true w h = rw h refl
  handle-ok c fd addr false w h = rw h refl

  async_connect_used :
      (fd : ℕ) (d : Domain) (addr : Address) (w : World)
      → (fd == 0) ≡ false
      → async_connect sys proto addr (wrap fd d peer) w ≡ (err assertion, wrap fd d peer, w)
  unfolding async_connect
  async_connect_used fd d addr w h = elim (Bool-cases (same_domain d (Address.domain addr))) [
    | inl e ↦ rw (connectable, h, e) refl
    | inr e ↦ rw (connectable, h, e) refl
  ]

  async_connect_new :
      (d : Domain) (addr : Address) (w w' : World) (fd : ℕ)
      → sys.socket (Address.domain addr) proto w ≡ (w', done fd)
      → async_connect sys proto addr (new_socket d) w
        ≡ (ok tt, wrap fd (Address.domain addr) peer, w')
  unfolding async_connect use_domain
  async_connect_new d addr w w' fd h = rw (connectable, h) refl

  connect_again :
      (fuel : ℕ) (hostname : Bytes) (port : ℕ) (c : Client) (fd : ℕ) (d : Domain) (w : World)
      → c.sock_ ≡ wrap fd d peer
      → (fd == 0) ≡ false
      → client_connect sys proto start woken fuel hostname port c w ≡ (err assertion, w)
  unfolding client_connect connect_to connect address
  connect_again fuel hostname port c fd d w same h = elim (deref-cases (from hostname port)) [
    | inl (addr, e) ↦ rw (e, same, async_connect_used fd d addr w h) refl
    | inr e ↦ rw e refl
  ]

  -- A new client whose address is read, whose socket is made with a descriptor other than 0, and whose
  -- loop on `connect` ends with an answer, starts its handler on the socket, whatever the answer is
  -- and whatever events come; each later call fails an assertion and changes nothing.
  pub connect-handler :
      (fuel : ℕ) (hostname : Bytes) (port : ℕ) (d : Domain) (addr : Address) (w w1 w2 : World)
      (fd : ℕ) (b : Bool)
      → address hostname port ≡ ok addr
      → sys.socket (Address.domain addr) proto w ≡ (w1, done fd)
      → (fd == 0) ≡ false
      → connect_ready sys fuel (pos fd) addr w1 ≡ (ok b, w2)
      → (client_connect sys proto start woken fuel hostname port (new_client d) w ≡ (
        ok (connected fd addr (begun fd addr b w2)),
        (start (wrap fd (Address.domain addr) peer) (begun fd addr b w2)).1,
      ))
        × ((fuel' : ℕ) (hostname' : Bytes) (port' : ℕ) (w' : World)
            → client_connect sys proto start woken fuel' hostname' port'
                (connected fd addr (begun fd addr b w2))
                w'
              ≡ (err assertion, w'))
  unfolding client_connect connect_to connect
  connect-handler fuel hostname port d addr w w1 w2 fd b parsed made nonzero ready = (
    rw (parsed, async_connect_new d addr w w1 fd made, ready)
        (handle-ok (record { sock_ = wrap fd (Address.domain addr) peer; task_ = none }) fd addr b
          w2 refl),
    λ fuel' hostname' port' w'.
        connect_again fuel' hostname' port' (connected fd addr (begun fd addr b w2)) fd
          (Address.domain addr) w' refl nonzero,
  )
