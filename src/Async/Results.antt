-- ===== src/Async/Results.antt =====
-- include/bc/async/task.hpp: the results that the promises of a `task<T>` keep. What a coroutine does
-- when it is resumed is the parameter `resume`, and what a move leaves behind is `moved`.
use bc.Prelude.{ℕ, ◌==◌, ◌≡◌, refl, true, false, if◌then◌else◌, some, Result, ok, ◌>>=◌, arith}
use bc.Async.Task.{Frame, Frames, Task, frame_of, handle_of}

-- `result` holds what the promise was made with until `return_value` is called.
record Memory (T : Type 0) : Type 0 where
  frames : Frames
  results : ℕ → T

module _ {T : Type 0} where
  abbrev store : ℕ → T → Memory T → Memory T
  store f value m = record m { results = λ j. if j == f then value else m.results j }

  unfoldable return_value : ℕ → T → Memory T → Memory T
  return_value f value m = store f value m

  module _ (moved : T → T) (resume : ℕ → Memory T → Memory T) where
    -- `operator()`: one `resume` where the coroutine has not ended, and then the result as it is.
    unfoldable call : Task → Memory T → Result (T × Memory T)
    call t m = do
      f ← handle_of t
      fr ← frame_of (m.frames f)
      let m' = if fr.is_done then m else resume f m
      frame_of (m'.frames f) >>= λ _. ok (m'.results f, store f (moved (m'.results f)) m')

    -- The call of a coroutine that has returned a value and ended gives the value, and resumes nothing.
    call-return_value :
        (f : ℕ) (value : T) (m : Memory T) (fr : Frame)
        → m.frames f ≡ some fr
        → fr.is_done ≡ true
        → call (some f) (return_value f value m)
          ≡ ok (value, store f (moved value) (return_value f value m))
    unfolding call return_value
    call-return_value f value m fr h e =
        let own : (f == f) ≡ true = ground arith in rw (h, e, h, own) refl

    -- The call of a coroutine that waits again behind its `resume`, and has not returned, gives what the
    -- promise was made with.
    call-pending :
        (f : ℕ) (m : Memory T) (fr fr' : Frame)
        → m.frames f ≡ some fr
        → fr.is_done ≡ false
        → (resume f m).frames f ≡ some fr'
        → (resume f m).results f ≡ m.results f
        → call (some f) m ≡ ok (m.results f, store f (moved (m.results f)) (resume f m))
    unfolding call
    call-pending f m fr fr' h e h' same = rw (h, e, h', same) refl
