-- ===== src/Async/Poller.antt =====
-- The class `poller` of include/bc/async/scheduler.hpp, and `poller::subscribe` of
-- src/async/scheduler.cpp. The kernel's epoll instance is the parameter `Epoll`.
pub mod Mirror
pub mod Room
pub mod Errors
use bc.Prelude.{
  ℕ, zero, suc, ◌+◌, ◌<◌, ◌≤◌, ◌≡◌, ◌≢◌, ◌⊎◌, inl, inr, Bool, true, false, not, ◌==◌, ltb,
  if◌then◌else◌, List, [], ◌∷◌, Option, none, some, length, get_elem?, set, Result, ok, err, ◌>>=◌,
  ◌>>◌, assert, in_bounds, Fault, thrown, out_of_bounds, assertion,
}
use bc.Async.BitCeil.{bit_ceil, resize}

-- A `u_int32_t` with a bit for each condition of <sys/epoll.h>.
abbrev pub Event : Type 0
Event = ℕ

abbrev pub no_event : Event
no_event = 0

abbrev pub read_event : Event
read_event = 0x1

abbrev pub write_event : Event
write_event = 0x4

abbrev pub error_event : Event
error_event = 0x8

abbrev pub hangup_event : Event
hangup_event = 0x10

abbrev pub rdhangup_event : Event
rdhangup_event = 0x2000

-- EPOLL_CTL_ADD, EPOLL_CTL_MOD, EPOLL_CTL_DEL.
pub data Op : Type 0 where
  add modify delete : Op

-- What a call of the kernel gives: the new state, or an error code and the state as it was.
pub data Outcome (A : Type 0) : Type 0 where
  done : A → Outcome A
  failed : ℕ → Outcome A

abbrev pub eexist : ℕ
eexist = 17

abbrev pub enoent : ℕ
enoent = 2

-- The epoll instance: for each descriptor the events that it is registered for, and `epoll_ctl`,
-- as its manual page describes it.
pub record Epoll : Type 1 where
  pub Kernel : Type 0
  pub interest : Kernel → ℕ → Option Event
  pub ctl : Kernel → Op → ℕ → Event → Outcome Kernel
  pub ctl_add :
      (k k' : Kernel) (fd : ℕ) (e : Event) → ctl k add fd e ≡ done k' → interest k' fd ≡ some e
  pub ctl_modify :
      (k k' : Kernel) (fd : ℕ) (e : Event) → ctl k modify fd e ≡ done k' → interest k' fd ≡ some e
  pub ctl_delete :
      (k k' : Kernel) (fd : ℕ) (e : Event) → ctl k delete fd e ≡ done k' → interest k' fd ≡ none
  pub ctl_others :
      (k k' : Kernel) (op : Op) (fd j : ℕ) (e : Event)
      → ctl k op fd e ≡ done k'
      → j ≢ fd
      → interest k' j ≡ interest k j
  pub ctl_exists :
      (k : Kernel) (op : Op) (fd : ℕ) (e : Event)
      → ctl k op fd e ≡ failed eexist
      → (op ≡ add) × (interest k fd ≢ none)
  pub ctl_missing :
      (k : Kernel) (op : Op) (fd : ℕ) (e : Event)
      → ctl k op fd e ≡ failed enoent
      → (op ≢ add) × (interest k fd ≡ none)

-- An entry of `evs_`.
pub record EpollEvent : Type 0 where
  pub events : Event
  -- `none` stands for -1.
  pub descriptor : Option ℕ

pub record Poller : Type 0 where
  pub focus_ : List Event
  pub evs_ : List EpollEvent

abbrev pub blank_event : EpollEvent
blank_event = record { events = no_event; descriptor = none }

unfoldable pub adjust_size : Poller → ℕ → Poller
adjust_size p index = if ltb index (length p.focus_) then p else record {
  focus_ = resize p.focus_ (bit_ceil index) no_event;
  evs_ = resize p.evs_ (bit_ceil index) blank_event;
}

-- The operation that takes the registration from the events `now` to `target`, if one is needed.
unfoldable pub choose_op : Event → Event → Option Op
choose_op now target =
    if now == target
    then none
    else if now == no_event
    then some add
    else if target == no_event
    then some delete
    else some modify

module _ (epoll : Epoll) where
  open epoll use {Kernel, ctl}

  -- `if (op && ::epoll_ctl(…) == -1) throw …`.
  unfoldable pub control : Option Op → ℕ → Event → Kernel → Result Kernel
  control none fd e k = ok k
  control (some op) fd e k = elim (ctl k op fd e) [
    | done k' ↦ ok k'
    | failed errno ↦ err (thrown errno)
  ]

  unfoldable pub subscribe : ℕ → Event → Poller → Kernel → Result (Poller × Kernel)
  subscribe fd e p k = do
    assert (ltb 0 fd)
    let q = adjust_size p fd
    now ← in_bounds (get_elem? q.focus_ fd)
    k' ← control (choose_op now e) fd e k
    ok (record q { focus_ = set q.focus_ fd e }, k')

  unfoldable pub unsubscribe : ℕ → Poller → Kernel → Result (Poller × Kernel)
  unsubscribe fd = subscribe fd no_event
