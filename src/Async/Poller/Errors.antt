-- ===== src/Async/Poller/Errors.antt =====
-- When a subscription throws, and when it does not.
use native.Mathlib.Decide.{ℕ_discrete}
use bc.Prelude.{
  ℕ, zero, suc, ◌<◌, ◌≡◌, ◌≢◌, ◌⊎◌, inl, inr, refl, sym, ap, ◌∙◌, List, [], ◌∷◌, none, some, length,
  get_elem?, set, ok, err, lt→ltb, thrown, arith, Option-cases,
}
use bc.Async.Poller.{
  Epoll, Event, Poller, Op, add, modify, delete, done, failed, eexist, enoent, adjust_size,
  choose_op, control, subscribe,
}
use bc.Async.Poller.Mirror.{
  registered, Mirrors, view-adjust_size, choose_op-same, choose_op-add, choose_op-delete,
  choose_op-modify,
}

module _ (epoll : Epoll) where
  open epoll use {Kernel, interest, ctl, ctl_exists, ctl_missing}

  control-failed :
      (op : Op) (fd : ℕ) (e : Event) (k : Kernel) (x : ℕ)
      → control epoll (some op) fd e k ≡ err (thrown x)
      → ctl k op fd e ≡ failed x
  unfolding control
  control-failed op fd e k x h = ground arith

  -- The two error codes that say that the poller has lost track of the kernel.
  abbrev IsLostTrack : ℕ → Type 0
  IsLostTrack x = (x ≡ eexist) ⊎ (x ≡ enoent)

  -- The operation is an add exactly where nothing is registered.
  abbrev pub Fits : Op → ℕ → Kernel → Type 0
  Fits op fd k = ((op ≡ add) × (interest k fd ≡ none)) ⊎ ((op ≢ add) × (interest k fd ≢ none))

  Fits-failed :
      (op : Op) (fd : ℕ) (e : Event) (k : Kernel) (x : ℕ)
      → Fits op fd k
      → control epoll (some op) fd e k ≡ err (thrown x)
      → ¬ IsLostTrack x
  Fits-failed op fd e k x (inl (_, f)) h (inl l) =
      (ctl_exists k op fd e (rw l at (control-failed op fd e k x h))).1 f
  Fits-failed op fd e k x (inr (f, _)) h (inl l) =
      f (ctl_exists k op fd e (rw l at (control-failed op fd e k x h))).0
  Fits-failed op fd e k x (inl (f, _)) h (inr l) =
      (ctl_missing k op fd e (rw l at (control-failed op fd e k x h))).0 f
  Fits-failed op fd e k x (inr (_, f)) h (inr l) =
      f (ctl_missing k op fd e (rw l at (control-failed op fd e k x h))).1

  control-err :
      (now e : Event) (fd : ℕ) (k : Kernel) (x : ℕ)
      → interest k fd ≡ registered (some now)
      → control epoll (choose_op now e) fd e k ≡ err (thrown x)
      → ¬ IsLostTrack x
  control-err zero zero fd k x m h = unfold control in (ground (arith, choose_op-same 0))
  control-err zero (suc e) fd k x m h =
      Fits-failed add fd (suc e) k x (inl (refl, m)) (rw (choose_op-add e) at h)
  control-err (suc now) zero fd k x m h =
      Fits-failed delete fd zero k x (inr ((λ q. cc), (λ q. cc))) (rw (choose_op-delete now) at h)
  control-err (suc now) (suc e) fd k x m h = elim (ℕ_discrete (suc now) (suc e)) [
    | yes q ↦
        let none_chosen : choose_op (suc now) (suc e) ≡ none = rw q (choose_op-same (suc e)) in
        unfold control in (ground (arith, none_chosen))
    | no q ↦
        Fits-failed modify fd (suc e) k x (inr ((λ r. cc), (λ r. cc)))
          (rw (choose_op-modify now e q) at h)
  ]

  subscribe-thrown :
      (fd : ℕ) (e : Event) (p : Poller) (k : Kernel) (x : ℕ)
      → subscribe epoll fd e p k ≡ err (thrown x)
      → (now : Event) × (get_elem? (adjust_size p fd).focus_ fd ≡ some now)
        × (control epoll (choose_op now e) fd e k ≡ err (thrown x))
  unfolding subscribe
  subscribe-thrown fd e p k x h = elim (Option-cases (get_elem? (adjust_size p fd).focus_ fd)) [
    | inl q ↦ absurd (ground arith)
    | inr (now, q) ↦ (now, q, ground arith)
  ]

  -- While `focus_` mirrors the kernel, `epoll_ctl` is never asked to add a registered descriptor,
  -- nor to change or delete one that is not there: whatever it throws has another cause.
  pub subscribe_keeps_track :
      (fd : ℕ) (e : Event) (p : Poller) (k : Kernel) (x : ℕ)
      → Mirrors epoll p k
      → subscribe epoll fd e p k ≡ err (thrown x)
      → (x ≢ eexist) × (x ≢ enoent)
  subscribe_keeps_track fd e p k x m h =
      let (now, found, told) = subscribe-thrown fd e p k x h in
      let here : interest k fd ≡ registered (some now) =
        m fd ∙ sym (view-adjust_size p fd fd) ∙ ap registered found in
      let n : ¬ IsLostTrack x = control-err now e fd k x here told in
      (λ q. n (inl q), λ q. n (inr q))

  get_elem?-some :
      (xs : List Event) (i : ℕ) → i < length xs → (x : Event) × (get_elem? xs i ≡ some x)
  get_elem?-some [] i h = absurd (omega arith)
  get_elem?-some (x ∷ xs) zero h = (x, refl)
  get_elem?-some (x ∷ xs) (suc i) h = get_elem?-some xs i (omega arith)

  control-ready :
      (op : Op) (fd : ℕ) (e : Event) (k : Kernel)
      → ((o : Op) → Fits o fd k → (k' : Kernel) × (ctl k o fd e ≡ done k'))
      → Fits op fd k
      → (k' : Kernel) × (control epoll (some op) fd e k ≡ ok k')
  unfolding control
  control-ready op fd e k ready f = let (k', h) = ready op f in (k', rw (h, control))

  control-total :
      (now e : Event) (fd : ℕ) (k : Kernel)
      → interest k fd ≡ registered (some now)
      → ((o : Op) → Fits o fd k → (k' : Kernel) × (ctl k o fd e ≡ done k'))
      → (k' : Kernel) × (control epoll (choose_op now e) fd e k ≡ ok k')
  control-total zero zero fd k m ready = (k, rw (choose_op-same 0) (unfold control in refl))
  control-total zero (suc e) fd k m ready =
      rw (choose_op-add e) (control-ready add fd (suc e) k ready (inl (refl, m)))
  control-total (suc now) zero fd k m ready =
      rw (choose_op-delete now) (control-ready delete fd zero k ready (inr ((λ q. cc), (λ q. cc))))
  control-total (suc now) (suc e) fd k m ready = elim (ℕ_discrete (suc now) (suc e)) [
    | yes q ↦ (k, rw (q, choose_op-same (suc e)) (unfold control in refl))
    | no q ↦
        rw (choose_op-modify now e q)
          (control-ready modify fd (suc e) k ready (inr ((λ r. cc), (λ r. cc))))
  ]

  -- A positive descriptor with room in `focus_` is subscribed, while `focus_` mirrors the kernel,
  -- whenever the kernel accepts an add of what is not registered and a change of what is.
  pub subscribe_total :
      (fd : ℕ) (e : Event) (p : Poller) (k : Kernel)
      → 0 < fd
      → fd < length (adjust_size p fd).focus_
      → Mirrors epoll p k
      → ((o : Op) → Fits o fd k → (k' : Kernel) × (ctl k o fd e ≡ done k'))
      → (p' : Poller) × (k' : Kernel) × (subscribe epoll fd e p k ≡ ok (p', k'))
  unfolding subscribe
  subscribe_total fd e p k positive room m ready =
      let (now, found) = get_elem?-some (adjust_size p fd).focus_ fd room in
      let here : interest k fd ≡ registered (some now) =
        m fd ∙ sym (view-adjust_size p fd fd) ∙ ap registered found in
      let (k', told) = control-total now e fd k here ready in
      (
        record (adjust_size p fd) { focus_ = set (adjust_size p fd).focus_ fd e },
        k',
        rw (lt→ltb 0 fd positive, found, told),
      )
