-- ===== src/Network/Server/Waits.antt =====
-- The coroutine that waits for a client's session.
use bc.Prelude.{ℕ, ◌≡◌, refl, ap, ◌∙◌, ◌==◌, true, false, Option, some, List, ok, arith}
use bc.Async.Task.{Frames, Act, update, finish, done, await, acts}
use bc.Async.Task.Await.{pending, last_awaiter, Spares, acts-pending}
use bc.Network.Server.{async_session}

-- While the handler's session has not ended, the coroutine that waits for it suspends, and is the one
-- to resume at the session's end. Whatever else happens to frames until then, where no other coroutine
-- awaits the session, that end resumes it, and it waits no more.
pub async_session-finish :
    (f self : ℕ) (who : Option ℕ) (more : List Act) (fs fs' : Frames)
    → fs f ≡ pending who
    → Spares f more
    → last_awaiter f more (some self) ≡ some self
    → acts more (update f (pending (some self)) fs) ≡ ok fs'
    → (async_session (some f) self fs ≡ ok (true, update f (pending (some self)) fs))
      × ((ended : Frames) × ((finish f fs' ≡ ok (some self, ended))
            × (async_session (some f) self ended ≡ ok (false, ended))))
unfolding async_session finish await done
async_session-finish f self who more fs fs' p s alone h =
    let own : (f == f) ≡ true = ground arith in
    let waits : update f (pending (some self)) fs f ≡ pending (some self) = rw own refl in
    let still =
      acts-pending f more (some self) (update f (pending (some self)) fs) fs' s waits h
      ∙ ap pending alone in
    (
      rw p refl,
      (
        update f (some (record { is_done = true; prev = some self })) fs',
        (rw still refl, rw own refl),
      ),
    )
