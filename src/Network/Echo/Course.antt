-- ===== src/Network/Echo/Course.antt =====
-- The course of a session, as reads and writes that follow one another, and how it ends.
use bc.Prelude.{
  ℕ, ◌≡◌, refl, false, List, [], ◌∷◌, ◌++◌, Bytes, Result, ok, err, Fault, arith, Bool-cases, inl,
  inr,
}
use bc.Async.Poller.{Event}
use bc.Network.Awaiters.{has_error, has_hangup, resume_read, resume_write}
use bc.Network.Echo.{Output, buffer_size, give_up, on_written, on_read, session}
use bc.Network.Socket.{Socket}
use bc.Network.Socket.SystemCalls.{Sys}
use bc.Utils.Expected.{Expected, value, error}

module _ (sys : Sys) where
  open sys use {World}

  pub resume_read-socket :
      (e : Event) (s : Socket) (w : World) → (resume_read sys e buffer_size s w).1 ≡ s
  unfolding resume_read
  resume_read-socket e s w = ground arith

  pub resume_write-answers :
      (e : Event) (bytes : Bytes) (s : Socket) (w : World)
      → (r : Expected ℕ ℕ) × ((w' : World) × (resume_write sys e bytes s w ≡ (ok r, s, w')))
  unfolding resume_write
  resume_write-answers e bytes s w = elim (Bool-cases (has_error e)) [
    | inl p ↦ rw p (_, (_, refl))
    | inr p ↦ elim (Bool-cases (has_hangup e)) [
      | inl q ↦ rw (p, q) (_, (_, refl))
      | inr q ↦ rw (p, q) (_, (_, refl))
    ]
  ]

  -- Turns in which bytes are read and then written, and last: no event is left, the read fails or
  -- faults, or the write fails. The first bytes are those written, the others those of the last read.
  pub data Course (s : Socket)
      : List (Event × Event) → World → Bytes → Bytes → Output sys → Type 0 where
    waits : {w : World} → Course s [] w [] [] (ok false, w)
    unread :
        {re we : Event} {events : List (Event × Event)} {w w' : World} {e : ℕ}
        → resume_read sys re buffer_size s w ≡ (ok (error e), s, w')
        → Course s ((re, we) ∷ events) w [] [] (give_up e, w')
    unwoken :
        {re we : Event} {events : List (Event × Event)} {w w' : World} {fault : Fault}
        → resume_read sys re buffer_size s w ≡ (err fault, s, w')
        → Course s ((re, we) ∷ events) w [] [] (err fault, w')
    unsent :
        {re we : Event} {events : List (Event × Event)} {w w' w'' : World} {bytes : Bytes} {e : ℕ}
        → resume_read sys re buffer_size s w ≡ (ok (value bytes), s, w')
        → resume_write sys we bytes s w' ≡ (ok (error e), s, w'')
        → Course s ((re, we) ∷ events) w [] bytes (give_up e, w'')
    turn :
        {re we : Event} {events : List (Event × Event)} {w w' w'' : World} {bytes more lost : Bytes}
        {n : ℕ} {out : Output sys}
        → resume_read sys re buffer_size s w ≡ (ok (value bytes), s, w')
        → resume_write sys we bytes s w' ≡ (ok (value n), s, w'')
        → Course s events w'' more lost out
        → Course s ((re, we) ∷ events) w (bytes ++ more) lost out

  abbrev pub HasCourse : List (Event × Event) → Socket → World → Output sys → Type 0
  HasCourse events s w out = (echoed lost : Bytes) × Course s events w echoed lost out

  HasCourse-written :
      (re we : Event) (events : List (Event × Event)) (s : Socket) (w w' w'' : World)
      (bytes : Bytes) (r : Expected ℕ ℕ)
      → ((u : World) → HasCourse events s u (session sys events s u))
      → resume_read sys re buffer_size s w ≡ (ok (value bytes), s, w')
      → resume_write sys we bytes s w' ≡ (ok r, s, w'')
      → HasCourse
          ((re, we) ∷ events)
          s
          w
          (on_written sys (λ u. session sys events s u) (ok r, s, w''))
  unfolding on_written
  HasCourse-written re we events s w w' w'' bytes (value n) next p q =
      let (more, lost, c) = next w'' in (bytes ++ more, lost, turn p q c)
  HasCourse-written re we events s w w' w'' bytes (error e) next p q = ([], bytes, unsent p q)

  HasCourse-read :
      (re we : Event) (events : List (Event × Event)) (s s' : Socket) (w w' : World)
      (r : Result (Expected Bytes ℕ))
      → ((u : World) → HasCourse events s u (session sys events s u))
      → s' ≡ s
      → resume_read sys re buffer_size s w ≡ (r, s', w')
      → HasCourse ((re, we) ∷ events) s w (on_read sys we (λ u. session sys events s u) (r, s', w'))
  unfolding on_read
  HasCourse-read re we events s s' w w' (ok (value bytes)) next same p =
      let (r, (w'', q)) = resume_write-answers we bytes s w' in
      rw (same, q) (HasCourse-written re we events s w w' w'' bytes r next (rw same at p) q)
  HasCourse-read re we events s s' w w' (ok (error e)) next same p = ([], [], unread (rw same at p))
  HasCourse-read re we events s s' w w' (err fault) next same p = ([], [], unwoken (rw same at p))

  pub session-HasCourse :
      (events : List (Event × Event)) (s : Socket) (w : World)
      → HasCourse events s w (session sys events s w)
  unfolding session
  session-HasCourse [] s w = ([], [], waits)
  session-HasCourse ((re, we) ∷ events) s w =
      let out = resume_read sys re buffer_size s w in
      HasCourse-read re we events s out.1 w out.2 out.0 (session-HasCourse events s)
        (resume_read-socket re s w) refl
