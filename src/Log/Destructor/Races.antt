-- ===== src/Log/Destructor/Races.antt =====
-- What the destructor guarantees, and what it does not.
use bc.Prelude.{ℕ, zero, suc, ◌≡◌, ◌≢◌, refl, arith}
use bc.Log.Destructor.{
  Main, checking, testing, blocking, blocked, destroyed, idle, notifying, System, woken, Step,
  sees_none, sees_some, passes, fails, blocks, decrements, decrements_last, notifies, Reach, here,
  next, start,
}

-- Once the members are gone, nothing is referenced.
abbrev IsSafe : System → Type 0
IsSafe s = s.main ≡ destroyed → s.ref_ ≡ 0

woken_destroyed : (m : Main) → woken m ≡ destroyed → m ≡ destroyed
woken_destroyed checking h = cc
woken_destroyed testing h = cc
woken_destroyed blocking h = cc
woken_destroyed blocked h = cc
woken_destroyed destroyed h = refl

Step-IsSafe : {s t : System} → Step s t → IsSafe s → IsSafe t
Step-IsSafe (sees_none m z) i h = z
Step-IsSafe (sees_some m z) i h = cc
Step-IsSafe (passes m z) i h = z
Step-IsSafe (fails m z) i h = cc
Step-IsSafe (blocks m) i h = cc
Step-IsSafe (decrements n w z) i h = absurd (omega (arith, i h))
Step-IsSafe (decrements_last w z) i h = refl
Step-IsSafe {s} (notifies w) i h = i (woken_destroyed s.main h)

Reach-IsSafe : {s t : System} → Reach s t → IsSafe s → IsSafe t
Reach-IsSafe here i = i
Reach-IsSafe (next r step) i = Step-IsSafe step (Reach-IsSafe r i)

-- However many records are on their way, the destructor is done only when none is referenced.
Reach-destroyed : (n : ℕ) (t : System) → Reach (start n) t → t.main ≡ destroyed → t.ref_ ≡ 0
Reach-destroyed n t r = Reach-IsSafe r (λ h. cc)

-- The worker counts down to 1, whatever the destructor is doing.
Reach-one :
    (n : ℕ) {s : System} (m : Main)
    → Reach s (record { ref_ = suc n; main = m; notifier = idle })
    → Reach s (record { ref_ = 1; main = m; notifier = idle })
Reach-one zero m r = r
Reach-one (suc n) m r = Reach-one n m (next r (decrements n refl refl))

suc_ne_zero : (n : ℕ) → suc n ≢ 0
suc_ne_zero n e = absurd (omega (arith, e))

abbrev pub stuck : System
stuck = record { ref_ = 0; main = blocked; notifier = idle }

-- With any number of records on their way, at least one, the last notification can come between the
-- test of the wait and its block: then the destructor waits with nothing left that would wake it.
pub Reach-stuck : (n : ℕ) → Reach (start (suc n)) stuck × ((t : System) → Step stuck t → ⊥)
Reach-stuck n =
    let tested : Reach (start (suc n)) (record { ref_ = suc n; main = blocking; notifier = idle }) =
      next (next here (sees_some refl (suc_ne_zero n))) (fails refl (suc_ne_zero n)) in
    let counted = next (Reach-one n blocking tested) (decrements_last refl refl) in
    (next (next counted (notifies refl)) (blocks refl), λ t step. no_step step)
  where
    no_step : {t : System} → Step stuck t → ⊥
    no_step (sees_none m z) = cc
    no_step (sees_some m z) = cc
    no_step (passes m z) = cc
    no_step (fails m z) = cc
    no_step (blocks m) = cc
    no_step (decrements n w z) = absurd (omega arith)
    no_step (decrements_last w z) = absurd (omega arith)
    no_step (notifies w) = cc

-- With any number of records on their way, at least one, the destructor can be done while the worker has
-- still to notify the condition variable, which is gone.
Reach-late_notify :
    (n : ℕ) → Reach (start (suc n)) (record { ref_ = 0; main = destroyed; notifier = notifying })
Reach-late_notify n =
    next (next (Reach-one n checking here) (decrements_last refl refl)) (sees_none refl refl)
