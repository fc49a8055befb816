-- ===== src/Async/Task/Await.antt =====
-- Who is resumed when a coroutine ends.
use bc.Prelude.{
  ℕ, ◌≡◌, refl, ◌∙◌, ◌==◌, true, false, if◌then◌else◌, List, [], ◌∷◌, Option, none, some, ok, ◌>>=◌,
  arith, Bool-cases, inl, inr, >>=-eq-ok,
}
use bc.Async.Task.{
  Frame, Frames, update, frame_of, create, await, finish, destroy, Act, creates, finishes, destroys,
  awaits, act, acts,
}

-- The last coroutine that awaits the frame, if one does, and else the one from before.
abbrev pub last_awaiter : ℕ → List Act → Option ℕ → Option ℕ
last_awaiter f [] before = before
last_awaiter f (awaits g handle ∷ more) before =
    last_awaiter f more (if g == f then some handle else before)
last_awaiter f (creates g ∷ more) before = last_awaiter f more before
last_awaiter f (finishes g ∷ more) before = last_awaiter f more before
last_awaiter f (destroys g ∷ more) before = last_awaiter f more before

-- The frame is not made anew, ended or destroyed.
abbrev pub Spares : ℕ → List Act → Type 0
Spares f [] = Unit
Spares f (awaits g handle ∷ more) = Spares f more
Spares f (creates g ∷ more) = ((g == f) ≡ false) × Spares f more
Spares f (finishes g ∷ more) = ((g == f) ≡ false) × Spares f more
Spares f (destroys g ∷ more) = ((g == f) ≡ false) × Spares f more

abbrev pub pending : Option ℕ → Option Frame
pending who = some (record { is_done = false; prev = who })

update_ne : (f g : ℕ) (fr : Option Frame) (fs : Frames) → (g == f) ≡ false → update g fr fs f ≡ fs f
update_ne f g fr fs h = let other : (f == g) ≡ false = ground arith in rw other refl

frame_of-eq-ok : (o : Option Frame) (fr : Frame) → frame_of o ≡ ok fr → o ≡ some fr
frame_of-eq-ok none fr h = cc
frame_of-eq-ok (some x) fr h = cc

-- The effect of an operation that stores a frame, on the frame `f`.
stored :
    (f g : ℕ) (o : Option Frame) (next : Frame → Option Frame) (fs fs' : Frames)
    → (g == f) ≡ false
    → (frame_of o >>= λ fr. ok (update g (next fr) fs)) ≡ ok fs'
    → fs' f ≡ fs f
stored f g none next fs fs' h e = cc
stored f g (some fr) next fs fs' h e =
    let same : update g (next fr) fs ≡ fs' = cc in rw (← same) (update_ne f g (next fr) fs h)

awaited_self :
    (f handle : ℕ) (who : Option ℕ) (fs fs' : Frames)
    → fs f ≡ pending who
    → act (awaits f handle) fs ≡ ok fs'
    → fs' f ≡ pending (some handle)
unfolding act await
awaited_self f handle who fs fs' p h =
    let self : (f == f) ≡ true = ground arith in
    let same : update f (pending (some handle)) fs ≡ fs' = cc (rw p at h) in rw (← same, self) refl

awaited_other :
    (f g handle : ℕ) (o : Option Frame) (fs fs' : Frames)
    → (g == f) ≡ false
    → fs g ≡ o
    → act (awaits g handle) fs ≡ ok fs'
    → fs' f ≡ fs f
unfolding act await
awaited_other f g handle none fs fs' ne p h = cc (rw p at h)
awaited_other f g handle (some fr) fs fs' ne p h = elim (Bool-cases fr.is_done) [
  | inl e ↦ let same : fs ≡ fs' = cc (rw (p, e) at h) in rw same refl
  | inr e ↦
      let same : update g (some (record fr { prev = some handle })) fs ≡ fs' =
        cc (rw (p, e) at h) in
      rw (← same) (update_ne f g (some (record fr { prev = some handle })) fs ne)
]

act-pending :
    (f : ℕ) (a : Act) (who : Option ℕ) (fs fs' : Frames)
    → Spares f (a ∷ [])
    → fs f ≡ pending who
    → act a fs ≡ ok fs'
    → fs' f ≡ pending (last_awaiter f (a ∷ []) who)
unfolding act create finish destroy
act-pending f (creates g) who fs fs' s p h =
    let same : update g (pending none) fs ≡ fs' = cc in
    rw (← same) (update_ne f g (pending none) fs s.0 ∙ p)
act-pending f (finishes g) who fs fs' s p h = finished (fs g) h
  where
    finished :
        (o : Option Frame)
        → (◌>>=◌ {B = Option ℕ × Frames}
              (frame_of o)
              (λ fr. ok (fr.prev, update g (some (record fr { is_done = true })) fs))
            >>= λ r. ok r.1)
          ≡ ok fs'
        → fs' f ≡ pending who
    finished none h = cc
    finished (some fr) h =
        stored f g (some fr) (λ x. some (record x { is_done = true })) fs fs' s.0 h ∙ p
act-pending f (destroys g) who fs fs' s p h = stored f g (fs g) (λ fr. none) fs fs' s.0 h ∙ p
act-pending f (awaits g handle) who fs fs' s p h = elim (Bool-cases (g == f)) [
  | inl e ↦
      let same : f ≡ g = ground arith in
      rw e (awaited_self f handle who fs fs' p (rw (← same) at h))
  | inr e ↦ rw e (awaited_other f g handle (fs g) fs fs' e refl h ∙ p)
]

pub acts-pending :
    (f : ℕ) (more : List Act) (who : Option ℕ) (fs fs' : Frames)
    → Spares f more
    → fs f ≡ pending who
    → acts more fs ≡ ok fs'
    → fs' f ≡ pending (last_awaiter f more who)
unfolding acts
acts-pending f [] who fs fs' s p h = let same : fs ≡ fs' = cc in rw (← same) p
acts-pending f (creates g ∷ more) who fs fs' s p h =
    let (fs1, first, later) = >>=-eq-ok (act (creates g) fs) (acts more) h in
    acts-pending f more who fs1 fs' s.1 (act-pending f (creates g) who fs fs1 (s.0, tt) p first)
      later
acts-pending f (finishes g ∷ more) who fs fs' s p h =
    let (fs1, first, later) = >>=-eq-ok (act (finishes g) fs) (acts more) h in
    acts-pending f more who fs1 fs' s.1 (act-pending f (finishes g) who fs fs1 (s.0, tt) p first)
      later
acts-pending f (destroys g ∷ more) who fs fs' s p h =
    let (fs1, first, later) = >>=-eq-ok (act (destroys g) fs) (acts more) h in
    acts-pending f more who fs1 fs' s.1 (act-pending f (destroys g) who fs fs1 (s.0, tt) p first)
      later
acts-pending f (awaits g handle ∷ more) who fs fs' s p h =
    let (fs1, first, later) = >>=-eq-ok (act (awaits g handle) fs) (acts more) h in
    acts-pending f more (if g == f then some handle else who) fs1 fs' s
      (act-pending f (awaits g handle) who fs fs1 tt p first) later

-- Whatever happens to frames after a coroutine has been made, until it ends: its end resumes the last
-- of the coroutines that await it, and no other; and who awaits it then goes on at once.
pub finish-last_awaiter :
    (f handle : ℕ) (more : List Act) (fs fs' : Frames)
    → Spares f more
    → acts more (create f fs) ≡ ok fs'
    → (ended : Frames) × ((finish f fs' ≡ ok (last_awaiter f more none, ended))
        × (await f handle ended ≡ ok (false, ended)))
unfolding finish await create
finish-last_awaiter f handle more fs fs' s h =
    let self : (f == f) ≡ true = ground arith in
    let made : create f fs f ≡ pending none = rw self refl in
    let p = acts-pending f more none (create f fs) fs' s made h in
    (
      update f (some (record { is_done = true; prev = last_awaiter f more none })) fs',
      (rw p refl, rw self refl),
    )
