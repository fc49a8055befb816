-- ===== src/Examples/Sleep/Lines.antt =====
-- What the two coroutines of examples/sleep.cxx print, and for how long they sleep.
use mathlib.Core.List.{append_assoc, append-nil}
use bc.Prelude.{
  ℕ, zero, suc, ◌+◌, ◌*◌, ◌≤◌, ◌<◌, ◌≡◌, ◌⊎◌, inl, inr, refl, sym, ap, ◌∙◌, Bool, true, false, leb,
  List, [], ◌∷◌, ◌++◌, Option, none, some, Bytes, codes, arith, Bool-cases, replicate,
}
use bc.Async.Scheduler.{Post, at_time}
use bc.Async.Sleep.{async_sleep, sleep_ready, suspend_sleep}
use bc.Async.Task.{Frame, create, await, finish, destroy}
use bc.Async.Task.Await.{pending}
use bc.Examples.Sleep.{
  Machine, Stage, Program, first, second, over, one_second, woke, woke_again, World, print,
  run_rest, loop_ends, second_loop, first_loop, resume_at, awaiting, async_run,
}

abbrev pub woken_lines : ℕ → List Bytes
woken_lines n = replicate n woke ++ codes "loop finished" ∷ replicate 5 woke_again

-- What the loops still print, and how often they will sleep again.
abbrev pub todo : Stage → List Bytes
todo (first n) = woke ∷ woken_lines n
todo (second n) = woke_again ∷ replicate n woke_again
todo over = []

abbrev pub sleeps_left : Stage → ℕ
sleeps_left (first n) = n + 5
sleeps_left (second n) = n
sleeps_left over = 0

abbrev pub IsLoop : Stage → Type 0
IsLoop over = ⊥
IsLoop _ = Unit

-- Both coroutines are there, and the loop's is awaited by the other, or not yet.
abbrev pub caller : Bool → Option ℕ
caller true = some 0
caller false = none

abbrev pub AreRunning : {Env : Type 0} → Bool → Program Env → Type 0
AreRunning b w = (w.frames 0 ≡ pending none) × (w.frames 1 ≡ pending (caller b)) × (w.fault ≡ none)

module _ {Kernel : Type 0} (m : Machine Kernel) (total : List Bytes) (deadline : ℕ) where
  -- The loop sleeps until `tp`, and will sleep again fewer times than `k`.
  abbrev pub Sleeps : Bool → ℕ → World m → List Post → Type 0
  Sleeps b k w posts =
      (tp : ℕ) × ((posts ≡ at_time tp 1 ∷ [])
        × (IsLoop w.stage
            × (AreRunning b w
                × ((w.printed ++ todo w.stage ≡ total)
                    × (deadline ≤ tp + sleeps_left w.stage * one_second)
                    × (sleeps_left w.stage < k)))))

  -- The loop has ended, and so has the coroutine that awaited it; nothing has faulted.
  abbrev pub Ended : Bool → World m → List Post → Type 0
  Ended true w posts =
      (posts ≡ [])
      × ((w.stage ≡ over)
          × ((w.printed ≡ total ++ codes "async run finished" ∷ [])
              × (deadline ≤ m.clock w.env)
              × (w.fault ≡ none)))
  Ended false w posts =
      (posts ≡ [])
      × ((w.stage ≡ over)
          × ((w.frames 1 ≡ some (record { is_done = true; prev = none }))
              × ((w.frames 0 ≡ pending none)
                  × ((w.printed ≡ total) × (deadline ≤ m.clock w.env) × (w.fault ≡ none)))))

  abbrev pub Goes : Bool → ℕ → World m × List Post → Type 0
  Goes b k out = Sleeps b k out.0 out.1 ⊎ Ended b out.0 out.1

  loop_ends-Goes :
      (b : Bool) (k : ℕ) (w : World m)
      → AreRunning b w
      → w.printed ≡ total
      → deadline ≤ m.clock w.env
      → Goes b k (loop_ends m w)
  unfolding loop_ends run_rest finish destroy
  loop_ends-Goes true k w fr all late = inr (
      rw (fr.1, fr.0)
        (refl, (refl, (ap (λ x. x ++ codes "async run finished" ∷ []) all, late, fr.2))))
  loop_ends-Goes false k w fr all late =
      inr (rw (fr.1) (refl, (refl, (refl, (fr.0, (all, late, fr.2))))))

  second_loop-Goes :
      (b : Bool) (k n : ℕ) (w : World m)
      → n ≤ k
      → AreRunning b w
      → w.printed ++ replicate n woke_again ≡ total
      → deadline ≤ m.clock w.env + n * one_second
      → Goes b k (second_loop m n w)
  unfolding second_loop async_sleep sleep_ready suspend_sleep
  second_loop-Goes b k zero w le fr all late =
      loop_ends-Goes b k w fr (sym (append-nil w.printed) ∙ all) (omega arith)
  second_loop-Goes b k (suc n) w le fr all late =
      let t = (m.now w.env).0 in
      let e = (m.now w.env).1 in
      let e' = (m.now e).1 in
      let first_look = m.clock_now w.env in
      let second_look = m.clock_now e in
      elim (Bool-cases (leb (t + one_second) (m.now e).0)) [
        | inl ready ↦
            let past : t + one_second ≤ (m.now e).0 = ground arith in
            rw ready (
              second_loop-Goes b k n (print m woke_again (record w { env = e' })) (omega arith) fr
                (append_assoc w.printed (woke_again ∷ []) (replicate n woke_again) ∙ all)
                (omega arith))
        | inr waits ↦
            rw waits (inl (t + one_second, (refl, (tt, (fr, (all, omega arith, omega arith))))))
      ]

  first_loop-Goes :
      (b : Bool) (k n : ℕ) (w : World m)
      → n + 5 ≤ k
      → AreRunning b w
      → w.printed ++ woken_lines n ≡ total
      → deadline ≤ m.clock w.env + (n + 5) * one_second
      → Goes b k (first_loop m n w)
  unfolding first_loop async_sleep sleep_ready suspend_sleep
  first_loop-Goes b k zero w le fr all late =
      second_loop-Goes b k 5 (print m (codes "loop finished") w) (omega arith) fr
        (append_assoc w.printed (codes "loop finished" ∷ []) (replicate 5 woke_again) ∙ all)
        (omega arith)
  first_loop-Goes b k (suc n) w le fr all late =
      let t = (m.now w.env).0 in
      let e = (m.now w.env).1 in
      let e' = (m.now e).1 in
      let first_look = m.clock_now w.env in
      let second_look = m.clock_now e in
      elim (Bool-cases (leb (t + one_second) (m.now e).0)) [
        | inl ready ↦
            let past : t + one_second ≤ (m.now e).0 = ground arith in
            rw ready (
              first_loop-Goes b k n (print m woke (record w { env = e' })) (omega arith) fr
                (append_assoc w.printed (woke ∷ []) (woken_lines n) ∙ all) (omega arith))
        | inr waits ↦
            rw waits (inl (t + one_second, (refl, (tt, (fr, (all, omega arith, omega arith))))))
      ]

  pub resume_at-Goes :
      (st : Stage) (w : World m)
      → IsLoop st
      → AreRunning true w
      → w.printed ++ todo st ≡ total
      → deadline ≤ m.clock w.env + sleeps_left st * one_second
      → Goes true (sleeps_left st) (resume_at m st w)
  resume_at-Goes (first n) w i fr all late =
      first_loop-Goes true (n + 5) n (print m woke w) (omega arith) fr
        (append_assoc w.printed (woke ∷ []) (woken_lines n) ∙ all) late
  resume_at-Goes (second n) w i fr all late =
      second_loop-Goes true n n (print m woke_again w) (omega arith) fr
        (append_assoc w.printed (woke_again ∷ []) (replicate n woke_again) ∙ all) late
  resume_at-Goes over w i fr all late = absurd i

  run_rest-Ended :
      (w : World m) (fr : Frame)
      → w.frames 1 ≡ some fr
      → w.frames 0 ≡ pending none
      → w.stage ≡ over
      → w.printed ≡ total
      → deadline ≤ m.clock w.env
      → w.fault ≡ none
      → Ended true (run_rest m w) []
  unfolding run_rest destroy finish
  run_rest-Ended w fr f1 f0 o all late sound =
      rw (f1, f0) (refl, (o, (ap (λ x. x ++ codes "async run finished" ∷ []) all, late, sound)))

  -- `co_await t`.
  awaiting-Goes :
      (k : ℕ) (w : World m) (posts : List Post)
      → Goes false k (w, posts)
      → Goes true k (awaiting m (await 1 0 w.frames) w, posts)
  unfolding await
  awaiting-Goes k w posts (inl (tp, (p, (i, (fr, (all, late, less)))))) =
      inl (tp, (p, rw (fr.1) (i, ((fr.0, refl, fr.2), (all, late, less)))))
  awaiting-Goes k w posts (inr (p, (o, (f1, (f0, (all, late, sound)))))) = inr (
      rw (p, f1) (run_rest-Ended w (record { is_done = true; prev = none }) f1 f0 o all late sound))

  pub async_run-Goes :
      (w : World m)
      → w.printed ++ codes "async run" ∷ woken_lines 5 ≡ total
      → deadline ≤ m.clock w.env + 10 * one_second
      → Goes true 10 (async_run m w)
  unfolding async_run create
  async_run-Goes w all late =
      let w' = record w {
        frames = create 1 (create 0 w.frames);
        printed = w.printed ++ codes "async run" ∷ [];
        fault = none;
      } in
      let out = first_loop m 5 w' in
      awaiting-Goes 10 out.0 out.1 (
        first_loop-Goes false 10 5 w' (omega arith) (refl, refl, refl)
          (append_assoc w.printed (codes "async run" ∷ []) (woken_lines 5) ∙ all) late)
