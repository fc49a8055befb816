-- ===== src/Async/Poller/Mirror.antt =====
-- `focus_` mirrors what the kernel has registered, and every subscription keeps it so.
use native.Mathlib.Decide.{ℕ_discrete}
use bc.Prelude.{
  ℕ, zero, suc, ◌≡◌, ◌≢◌, inl, inr, ltb, sym, ap, ◌∙◌, List, Option, none, some, length, get_elem?,
  set, ok, assert, in_bounds, arith, get_elem?-set_self, get_elem?-lt, get_elem?-set_ne, >>=-eq-ok,
  in_bounds-eq-ok, Bool-cases,
}
use bc.Async.BitCeil.{bit_ceil, resize, get_elem?-resize}
use bc.Async.Poller.Room.{get_elem?-past}
use bc.Async.Poller.{
  Epoll, Event, Poller, Op, add, modify, delete, done, adjust_size, choose_op, control, subscribe,
}

-- The events that `focus_` has for a descriptor, if any.
abbrev pub registered : Option Event → Option Event
registered none = none
registered (some zero) = none
registered (some (suc e)) = some (suc e)

abbrev pub view : Poller → ℕ → Option Event
view p fd = registered (get_elem? p.focus_ fd)

registered-resize :
    (xs : List Event) (n i : ℕ)
    → registered (get_elem? (resize xs n 0) i) ≡ registered (get_elem? xs i)
registered-resize xs n i = rw (get_elem?-resize xs n i 0) (ground (arith, get_elem?-past xs i))

-- A resize shows nothing new.
pub view-adjust_size : (p : Poller) (index fd : ℕ) → view (adjust_size p index) fd ≡ view p fd
unfolding adjust_size
view-adjust_size p index fd = elim (Bool-cases (ltb index (length p.focus_))) [
  | inl e ↦ rw e
  | inr e ↦ rw e (registered-resize p.focus_ (bit_ceil index) fd)
]

pub choose_op-same : (e : Event) → choose_op e e ≡ none
unfolding choose_op
choose_op-same e = ground arith

pub choose_op-add : (e : Event) → choose_op zero (suc e) ≡ some add
unfolding choose_op
choose_op-add e = ground arith

pub choose_op-delete : (now : Event) → choose_op (suc now) zero ≡ some delete
unfolding choose_op
choose_op-delete now = ground arith

pub choose_op-modify : (now e : Event) → suc now ≢ suc e → choose_op (suc now) (suc e) ≡ some modify
unfolding choose_op
choose_op-modify now e ne = ground arith

module _ (epoll : Epoll) where
  open epoll use {
    Kernel, interest, ctl, ctl_add, ctl_modify, ctl_delete, ctl_others, ctl_exists, ctl_missing,
  }

  -- The kernel has each descriptor registered as `focus_` says.
  abbrev pub Mirrors : Poller → Kernel → Type 0
  Mirrors p k = (fd : ℕ) → interest k fd ≡ view p fd

  -- A subscription that succeeds, taken apart.
  record Steps (fd : ℕ) (e : Event) (p p' : Poller) (k k' : Kernel) : Type 0 where
    now : Event
    found : get_elem? (adjust_size p fd).focus_ fd ≡ some now
    told : control epoll (choose_op now e) fd e k ≡ ok k'
    focus_is : p'.focus_ ≡ set (adjust_size p fd).focus_ fd e

  subscribe-Steps :
      (fd : ℕ) (e : Event) (p p' : Poller) (k k' : Kernel)
      → subscribe epoll fd e p k ≡ ok (p', k')
      → Steps fd e p p' k k'
  unfolding subscribe
  subscribe-Steps fd e p p' k k' h =
      let (_, _, h₁) = >>=-eq-ok (assert (ltb 0 fd)) _ h in
      let (now, found, h₂) = >>=-eq-ok (in_bounds (get_elem? (adjust_size p fd).focus_ fd)) _ h₁ in
      let (k₁, told, h₃) = >>=-eq-ok (control epoll (choose_op now e) fd e k) _ h₂ in
      record {
        now = now;
        found = in_bounds-eq-ok _ found;
        told = ground arith;
        focus_is = ground arith;
      }

  control-done :
      (op : Op) (fd : ℕ) (e : Event) (k k' : Kernel)
      → control epoll (some op) fd e k ≡ ok k'
      → ctl k op fd e ≡ done k'
  unfolding control
  control-done op fd e k k' h = ground arith

  control-others :
      (o : Option Op) (fd j : ℕ) (e : Event) (k k' : Kernel)
      → control epoll o fd e k ≡ ok k'
      → j ≢ fd
      → interest k' j ≡ interest k j
  control-others none fd j e k k' h ne = unfold control in (ground arith)
  control-others (some op) fd j e k k' h ne =
      ctl_others k k' op fd j e (control-done op fd e k k' h) ne

  control-target :
      (now e : Event) (fd : ℕ) (k k' : Kernel)
      → control epoll (choose_op now e) fd e k ≡ ok k'
      → interest k fd ≡ registered (some now)
      → interest k' fd ≡ registered (some e)
  control-target zero zero fd k k' h m =
      let same : k ≡ k' = unfold control in (ground (arith, choose_op-same 0)) in rw (← same) m
  control-target zero (suc e) fd k k' h m =
      ctl_add k k' fd (suc e) (control-done add fd (suc e) k k' (rw (choose_op-add e) at h))
  control-target (suc now) zero fd k k' h m =
      ctl_delete k k' fd zero (control-done delete fd zero k k' (rw (choose_op-delete now) at h))
  control-target (suc now) (suc e) fd k k' h m = elim (ℕ_discrete (suc now) (suc e)) [
    | yes q ↦
        let same : k ≡ k' = unfold control in (ground (arith, choose_op-same (suc e))) in
        rw (← same, ← q) m
    | no q ↦
        ctl_modify k k' fd (suc e)
          (control-done modify fd (suc e) k k' (rw (choose_op-modify now e q) at h))
  ]

  -- What a subscription that succeeds does, while `focus_` mirrors the kernel: the kernel then has `e` for the descriptor, `focus_` says so, and
  -- the other descriptors are as they were.
  pub subscribe-Mirrors :
      (fd : ℕ) (e : Event) (p p' : Poller) (k k' : Kernel)
      → Mirrors p k
      → subscribe epoll fd e p k ≡ ok (p', k')
      → Mirrors p' k'
        × (view p' fd ≡ registered (some e))
        × ((j : ℕ) → j ≢ fd → interest k' j ≡ interest k j)
  subscribe-Mirrors fd e p p' k k' m h = (mirrors, own, others)
    where
      s : Steps fd e p p' k k'
      s = subscribe-Steps fd e p p' k k' h

      here : view p fd ≡ registered (some s.now)
      here = sym (view-adjust_size p fd fd) ∙ ap registered s.found

      own : view p' fd ≡ registered (some e)
      own = rw s.focus_is (
          ap registered
            (get_elem?-set_self _ fd e (get_elem?-lt (adjust_size p fd).focus_ fd s.found)))

      others : (j : ℕ) → j ≢ fd → interest k' j ≡ interest k j
      others j ne = control-others (choose_op s.now e) fd j e k k' s.told ne

      mirrors : Mirrors p' k'
      mirrors j = elim (ℕ_discrete j fd) [
        | yes q ↦ rw q (control-target s.now e fd k k' s.told (m fd ∙ here) ∙ sym own)
        | no q ↦
            others j q
            ∙ m j
            ∙ sym (view-adjust_size p fd j)
            ∙ ap registered (sym (get_elem?-set_ne (adjust_size p fd).focus_ e (λ x. q (sym x))))
            ∙ rw s.focus_is
      ]
