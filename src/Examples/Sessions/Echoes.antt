-- ===== src/Examples/Sessions/Echoes.antt =====
-- The sessions of the examples beside that of main.cpp.
use bc.Prelude.{
  ℕ, ◌≡◌, ◌≢◌, arith, ◌⊎◌, inl, inr, refl, false, List, [], ◌∷◌, Bytes, Result, ok, err, assertion,
}
use bc.Async.Poller.{Event}
use bc.Network.Awaiters.{resume_read, resume_write}
use bc.Network.Echo.{Output, buffer_size, give_up, session, on_read, on_written}
use bc.Network.Echo.Course.{Course, waits, unread, unwoken, unsent, turn, session-HasCourse}
use bc.Utils.Error.{report}
use bc.Network.Socket.{Socket}
use bc.Network.Socket.SystemCalls.{Sys}
use bc.Utils.Expected.{Expected, value, error, get_error}
use bc.Examples.Sessions.{on_answer, on_request, example_session, on_wrote, on_got, once_session}

module _ (sys : Sys) where
  open sys use {World}

  -- The session of main.cpp ends on a write that fails.
  abbrev pub IsUnsent :
      {s : Socket} {events : List (Event × Event)} {w : World} {echoed lost : Bytes}
      {out : Output sys}
      → Course sys s events w echoed lost out
      → Type 0
  IsUnsent waits = ⊥
  IsUnsent (unread p) = ⊥
  IsUnsent (unwoken p) = ⊥
  IsUnsent (unsent p q) = Unit
  IsUnsent (turn p q c) = IsUnsent c

  -- `a` in place of the end `b` of a session of main.cpp with a course.
  abbrev pub Mimics :
      {s : Socket} {events : List (Event × Event)} {w : World} {echoed lost : Bytes}
      → Output sys
      → (b : Output sys) → Course sys s events w echoed lost b
      → Type 0
  Mimics a b c = (IsUnsent c × (a ≡ (err assertion, b.1))) ⊎ ((¬ IsUnsent c) × (a ≡ b))

  Course-Mimics :
      {s : Socket} {events : List (Event × Event)} {w : World} {echoed lost : Bytes}
      {out : Output sys} (c : Course sys s events w echoed lost out)
      → Mimics (example_session sys events s w) out c
  unfolding example_session on_request on_answer get_error
  Course-Mimics waits = inr ((λ h. h), refl)
  Course-Mimics (unread p) = inr ((λ h. h), rw p refl)
  Course-Mimics (unwoken p) = inr ((λ h. h), rw p refl)
  Course-Mimics (unsent p q) = inl (tt, rw (p, q) refl)
  Course-Mimics (turn p q c) = rw (p, q) (Course-Mimics c)

  -- The session of async-server.cxx leaves the world that the session of main.cpp leaves, and ends as
  -- that does, except exactly where that ends on a write that fails: there it fails the assertion of
  -- the error that the read does not have.
  pub example_session-Mimics :
      (events : List (Event × Event)) (s : Socket) (w : World)
      → (echoed lost : Bytes) × (c : Course sys s events w echoed lost (session sys events s w))
        × Mimics (example_session sys events s w) (session sys events s w) c
  example_session-Mimics events s w =
      let (echoed, lost, c) = session-HasCourse sys events s w in (echoed, lost, c, Course-Mimics c)

  -- While the session of main.cpp goes on, the loop of one-time-server.cxx does the same.
  abbrev pub Follows : Output sys → Output sys → Type 0
  Follows a b = b.0 ≡ ok false → a ≡ b

  give_up-ends : (e : ℕ) → give_up e ≢ ok false
  unfolding report
  give_up-ends e h = ground arith

  wrote-Follows :
      (next next' : World → Output sys)
      → ((w : World) → Follows (next w) (next' w))
      → (out : Result (Expected ℕ ℕ) × Socket × World)
      → Follows (on_wrote sys next out) (on_written sys next' out)
  unfolding on_wrote on_written
  wrote-Follows next next' same (ok (value n), s, w) h = same w h
  wrote-Follows next next' same (ok (error e), s, w) h = absurd (give_up-ends e h)
  wrote-Follows next next' same (err fault, s, w) h = refl

  got-Follows :
      (next next' : World → Output sys)
      → ((w : World) → Follows (next w) (next' w))
      → (we : Event) (out : Result (Expected Bytes ℕ) × Socket × World)
      → Follows (on_got sys we next out) (on_read sys we next' out)
  unfolding on_got on_read
  got-Follows next next' same we (ok (value bytes), s, w) h =
      wrote-Follows next next' same (resume_write sys we bytes s w) h
  got-Follows next next' same we (ok (error e), s, w) h = absurd (give_up-ends e h)
  got-Follows next next' same we (err fault, s, w) h = refl

  pub once_session-Follows :
      (events : List (Event × Event)) (s : Socket) (w : World)
      → Follows (once_session sys events s w) (session sys events s w)
  unfolding once_session session
  once_session-Follows [] s w h = refl
  once_session-Follows ((re, we) ∷ events) s w h =
      got-Follows (λ w'. once_session sys events s w') (λ w'. session sys events s w')
        (once_session-Follows events s) we (resume_read sys re buffer_size s w) h
