-- ===== src/Async/Task.antt =====
-- include/bc/async/task.hpp: the frames of coroutines, each with its promise's `prev`, and the handle
-- that a `task` owns. A handle is the number of a frame, and a frame that was destroyed is `none`: a
-- use of its handle, or of a null handle, is `dangling`.
pub mod Await
use bc.Prelude.{
  ℕ, ◌==◌, Bool, true, false, if◌then◌else◌, List, [], ◌∷◌, Option, none, some, Result, ok, err,
  ◌>>=◌, ◌>>◌, assert, dangling,
}

pub record Frame : Type 0 where
  pub is_done : Bool
  pub prev : Option ℕ

abbrev pub Frames : Type 0
Frames = ℕ → Option Frame

abbrev pub update : ℕ → Option Frame → Frames → Frames
update f fr fs j = if j == f then fr else fs j

abbrev pub frame_of : Option Frame → Result Frame
frame_of (some fr) = ok fr
frame_of none = err dangling

-- A coroutine starts at once (`initial_suspend`), and nobody awaits it yet.
unfoldable pub create : ℕ → Frames → Frames
create f fs = update f (some (record { is_done = false; prev = none })) fs

-- `task_awaiter`: `await_ready`, and else `await_suspend`, which stores the handle of who awaits. The
-- result tells whether that coroutine waits.
unfoldable pub await : ℕ → ℕ → Frames → Result (Bool × Frames)
await f handle fs = do
  fr ← frame_of (fs f)
  if fr.is_done
      then ok (false, fs)
      else ok (true, update f (some (record fr { prev = some handle })) fs)

-- The end of a coroutine: `final_suspend`, whose awaiter gives the coroutine to resume.
unfoldable pub finish : ℕ → Frames → Result (Option ℕ × Frames)
finish f fs = do
  fr ← frame_of (fs f)
  ok (fr.prev, update f (some (record fr { is_done = true })) fs)

unfoldable pub destroy : ℕ → Frames → Result Frames
destroy f fs = do frame_of (fs f) >>= λ fr. ok (update f none fs)

-- A `task` is the handle that it owns.
abbrev pub Task : Type 0
Task = Option ℕ

abbrev pub handle_of : Task → Result ℕ
handle_of (some f) = ok f
handle_of none = err dangling

abbrev pub is_null : Task → Bool
is_null none = true
is_null (some f) = false

-- The move constructor and `operator=`: the target, and the task that is moved from.
unfoldable pub move_from : Task → Task × Task
move_from other = (other, none)

unfoldable pub move_assign : Task → Task → Result (Task × Task)
move_assign t other = do assert (is_null t); ok (other, none)

-- The destructor.
unfoldable pub drop : Task → Frames → Result Frames
drop none fs = ok fs
drop (some f) fs = destroy f fs

-- `task::done`.
unfoldable pub done : Task → Frames → Result Bool
done t fs = do f ← handle_of t; fr ← frame_of (fs f); ok fr.is_done

-- What happens to frames: one is created, awaited by a coroutine, ends, or is destroyed.
pub data Act : Type 0 where
  creates finishes destroys : ℕ → Act
  awaits : ℕ → ℕ → Act

unfoldable pub act : Act → Frames → Result Frames
act (creates f) fs = ok (create f fs)
act (finishes f) fs = do r ← finish f fs; ok r.1
act (destroys f) fs = destroy f fs
act (awaits f handle) fs = do r ← await f handle fs; ok r.1

unfoldable pub acts : List Act → Frames → Result Frames
acts [] fs = ok fs
acts (a ∷ more) fs = do fs' ← act a fs; acts more fs'
