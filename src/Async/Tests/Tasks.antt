-- ===== src/Async/Tests/Tasks.antt =====
-- Two coroutines that await the same task.
use bc.Prelude.{◌≡◌, refl, false, List, [], ◌∷◌, none, some, Result, ok, err}
use bc.Async.Task.{Frames, Act, awaits, creates, finishes, create, await, finish, act, acts}
use bc.Async.Task.Await.{finish-last_awaiter}

abbrev no_frames : Frames
no_frames j = none

-- Another task comes and goes between the two.
abbrev two_awaits : List Act
two_awaits = awaits 1 5 ∷ creates 2 ∷ finishes 2 ∷ awaits 1 6 ∷ []

abbrev frames_of : Result Frames → Frames
frames_of (ok fs) = fs
frames_of (err e) = no_frames

abbrev awaited : Frames
awaited = frames_of (acts two_awaits (create 1 no_frames))

ran : acts two_awaits (create 1 no_frames) ≡ ok awaited
unfolding acts act create await finish
ran = refl

-- The first of them is never resumed.
finish-last_awaiter_example :
    (ended : Frames) × ((finish 1 awaited ≡ ok (some 6, ended))
      × (await 1 7 ended ≡ ok (false, ended)))
finish-last_awaiter_example =
    finish-last_awaiter 1 7 two_awaits no_frames awaited (refl, (refl, tt)) ran
