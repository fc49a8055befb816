-- ===== src/Network/Awaiters/Resume.antt =====
-- The loop of the awaiter of a connect, which calls connect again where a signal interrupts it.
use bc.Prelude.{
  ℕ, zero, suc, ◌<◌, ◌≡◌, ◌≢◌, inl, inr, refl, ap, true, false, ◌==◌, Result, Bool, ok, err,
  terminated, ℤ, arith, Bool-cases,
}
use bc.Async.Poller.{Outcome, done, failed}
use bc.Network.Address.{Address}
use bc.Network.Socket.SystemCalls.{Sys, eintr, einprogress}
use bc.Network.Awaiters.{connect_ready}

-- What the awaiter makes of a call that no signal has interrupted: the connection stands, is under way,
-- or is refused, which ends the program.
pub data Answers : Outcome (Unit {0}) → Result Bool → Type 0 where
  connected : Answers (done tt) (ok true)
  pending : Answers (failed einprogress) (ok false)
  refused :
      {errno : ℕ} → errno ≢ eintr → errno ≢ einprogress → Answers (failed errno) (err terminated)

module _ (sys : Sys) (fd : ℤ) (addr : Address) where
  open sys use {World}

  -- Calls that signals interrupt, and the first that none does.
  pub data Settles : World → World → Outcome (Unit {0}) → Type 0 where
    settled :
        {w w' : World} {o : Outcome (Unit {0})}
        → sys.connect fd addr w ≡ (w', o)
        → o ≢ failed eintr
        → Settles w w' o
    interrupted :
        {w w' w'' : World} {o : Outcome (Unit {0})}
        → sys.connect fd addr w ≡ (w', failed eintr)
        → Settles w' w'' o
        → Settles w w'' o

  -- The result and the world are those of the first call that no signal interrupts.
  abbrev pub Connects : World → Result Bool × World → Type 0
  Connects w out =
      (w' : World) × (o : Outcome (Unit {0})) × (Settles w w' o × (Answers o out.0 × (out.1 ≡ w')))

  Connects-again :
      {w w' : World} (out : Result Bool × World)
      → sys.connect fd addr w ≡ (w', failed eintr)
      → Connects w' out
      → Connects w out
  Connects-again out p (w'', o, (s, (a, e))) = (w'', o, (interrupted p s, (a, e)))

  connect_ready-step :
      (fuel : ℕ) (w w' : World) (o : Outcome (Unit {0}))
      → (sys.connect fd addr w).0 ≡ w'
      → (sys.connect fd addr w).1 ≡ o
      → sys.connect fd addr w ≡ (w', o)
      → (o ≡ failed eintr → Connects w' (connect_ready sys fuel fd addr w'))
      → Connects w (connect_ready sys (suc fuel) fd addr w)
  unfolding connect_ready
  connect_ready-step fuel w w' (done u) p q both again =
      rw (connect_ready, q, p) (w', done tt, (settled both (λ e. cc), (connected, refl)))
  connect_ready-step fuel w w' (failed errno) p q both again = elim (Bool-cases (errno == eintr)) [
    | inl e ↦
        let same : errno ≡ eintr = ground arith in
        rw (connect_ready, q, p, e)
          (Connects-again (connect_ready sys fuel fd addr w') (rw same at both)
            (again (rw same refl)))
    | inr e ↦ elim (Bool-cases (errno == einprogress)) [
      | inl r ↦
          let same : errno ≡ einprogress = ground arith in
          rw (connect_ready, q, p, e, r)
            (w', failed einprogress, (settled (rw same at both) (λ h. cc), (pending, refl)))
      | inr r ↦
          rw (connect_ready, q, p, e, r)
            (
              w',
              failed errno,
              (settled both (λ h. cc), (refused (λ h. ground arith) (λ h. ground arith), refl)),
            )
    ]
  ]

  -- Where every interrupted call of connect leaves fewer signals to come, and fewer are to come than
  -- the fuel, the loop of `await_ready` calls connect until a call is not interrupted, and then gives
  -- what that call says: that the connection stands, that it is under way, or the end of the program.
  pub connect_ready-Connects :
      (signals : World → ℕ)
      → ((w w' : World) → sys.connect fd addr w ≡ (w', failed eintr) → signals w' < signals w)
      → (fuel : ℕ) (w : World) → signals w < fuel
      → Connects w (connect_ready sys fuel fd addr w)
  connect_ready-Connects signals fewer zero w h = absurd (omega arith)
  connect_ready-Connects signals fewer (suc fuel) w h =
      let w' = (sys.connect fd addr w).0 in
      let o = (sys.connect fd addr w).1 in
      connect_ready-step fuel w w' o refl refl refl (λ e.
        let p : sys.connect fd addr w ≡ (w', failed eintr) = ap (λ x. (w', x)) e in
        connect_ready-Connects signals fewer fuel w' (let less = fewer w w' p in omega arith))
