-- ===== src/Log/Destructor.antt =====
-- The destructor of `logger`, in one thread, against `unreference_`, in the worker's thread: the
-- shared accesses of both, interleaved in any order. `cv_.wait` tests its predicate, and blocks
-- where it fails, in two accesses; the mutex does not keep `unreference_` out. Waking without a
-- notification, which `cv_` may do and need not, is left out.
pub mod Races
use bc.Prelude.{ℕ, zero, suc, ◌≡◌, ◌≢◌}

-- Where the destructor stands.
pub data Main : Type 0 where
  checking : Main  -- at `if (ref_)`
  testing : Main  -- at the predicate of the wait
  blocking : Main  -- the predicate was false
  blocked : Main
  destroyed : Main  -- the destructor is done, and the members are gone

-- Whether the worker still has to notify after a decrement to 0.
pub data Notifier : Type 0 where
  idle notifying : Notifier

pub record System : Type 0 where
  pub ref_ : ℕ
  pub main : Main
  pub notifier : Notifier

-- What a notification does to the destructor.
abbrev pub woken : Main → Main
woken blocked = testing
woken m = m

pub data Step (s : System) : System → Type 0 where
  sees_none : s.main ≡ checking → s.ref_ ≡ 0 → Step s (record s { main = destroyed })
  sees_some : s.main ≡ checking → s.ref_ ≢ 0 → Step s (record s { main = testing })
  passes : s.main ≡ testing → s.ref_ ≡ 0 → Step s (record s { main = destroyed })
  fails : s.main ≡ testing → s.ref_ ≢ 0 → Step s (record s { main = blocking })
  blocks : s.main ≡ blocking → Step s (record s { main = blocked })
  decrements :
      (n : ℕ) → s.notifier ≡ idle → s.ref_ ≡ suc (suc n) → Step s (record s { ref_ = suc n })
  decrements_last :
      s.notifier ≡ idle → s.ref_ ≡ 1 → Step s (record s { ref_ = 0; notifier = notifying })
  notifies : s.notifier ≡ notifying → Step s (record s { main = woken s.main; notifier = idle })

pub data Reach (s : System) : System → Type 0 where
  here : Reach s s
  next : {t u : System} → Reach s t → Step t u → Reach s u

-- The destructor begins with so many records on their way.
abbrev pub start : ℕ → System
start n = record { ref_ = n; main = checking; notifier = idle }
