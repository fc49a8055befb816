-- ===== src/Network/Echo/Lossless.antt =====
-- What a session sends back, of what it reads.
use mathlib.Core.List.{append_assoc, append-nil}
use bc.Prelude.{
  ℕ, ◌≡◌, ◌==◌, inl, inr, refl, sym, ap, ◌∙◌, false, List, [], ◌∷◌, ◌++◌, Bytes, length, take,
  append_laws, Result, ok, ℤ, Bool-cases,
}
use bc.Async.Poller.{Event, Outcome, done, failed, no_event}
use bc.Network.Socket.SystemCalls.{Sys}
use bc.Network.Socket.{Socket, is_transient, received, sent}
use bc.Network.Awaiters.{has_error, has_hangup, resume_read, resume_write}
use bc.Network.Echo.{Output, buffer_size, session}
use bc.Network.Echo.Course.{Course, waits, unread, unwoken, unsent, turn, session-HasCourse}
use bc.Utils.Expected.{Expected, value}

-- A connection, as the bytes that its peer still has to send and those that it has been sent. A read
-- takes bytes from the front; a write that succeeds adds as many as it says, and one that fails none.
pub record Connection (sys : Sys) (fd : ℤ) : Type 0 where
  pub input : sys.World → Bytes
  pub output : sys.World → Bytes
  pub read_takes :
      (size : ℕ) (w : sys.World) (bytes : Bytes)
      → (sys.read fd size w).1 ≡ done bytes
      → input w ≡ bytes ++ input (sys.read fd size w).0
  pub read_fails :
      (size : ℕ) (w : sys.World) (errno : ℕ)
      → (sys.read fd size w).1 ≡ failed errno
      → input (sys.read fd size w).0 ≡ input w
  pub read_keeps : (size : ℕ) (w : sys.World) → output (sys.read fd size w).0 ≡ output w
  pub write_adds :
      (bytes : Bytes) (w : sys.World) (n : ℕ)
      → (sys.write fd bytes w).1 ≡ done n
      → output (sys.write fd bytes w).0 ≡ output w ++ take n bytes
  pub write_fails :
      (bytes : Bytes) (w : sys.World) (errno : ℕ)
      → (sys.write fd bytes w).1 ≡ failed errno
      → output (sys.write fd bytes w).0 ≡ output w
  pub write_keeps : (bytes : Bytes) (w : sys.World) → input (sys.write fd bytes w).0 ≡ input w

pub take-length : (bytes : Bytes) → take (length bytes) bytes ≡ bytes
take-length [] = refl
take-length (c ∷ bytes) = ap (λ x. c ∷ x) (take-length bytes)

module _ (sys : Sys) (s : Socket) (conn : Connection sys s.fd_) where
  open sys use {World}

  -- What a read takes from the connection, and what a write does to it.
  abbrev pub Got : World → Result (Expected Bytes ℕ) × Socket × World → Type 0
  Got w (ok (value bytes), s', w') =
      (conn.input w ≡ bytes ++ conn.input w') × (conn.output w' ≡ conn.output w)
  Got w (r, s', w') = (conn.input w ≡ conn.input w') × (conn.output w' ≡ conn.output w)

  abbrev Sent : Bytes → World → Result (Expected ℕ ℕ) × Socket × World → Type 0
  Sent bytes w (ok (value n), s', w') =
      (conn.input w ≡ conn.input w') × (conn.output w' ≡ conn.output w ++ bytes)
  Sent bytes w (r, s', w') = (conn.input w ≡ conn.input w') × (conn.output w' ≡ conn.output w)

  received-Got :
      (size : ℕ) (w : World) (o : Outcome Bytes)
      → (sys.read s.fd_ size w).1 ≡ o
      → Got w (ok (received o), s, (sys.read s.fd_ size w).0)
  received-Got size w (done bytes) e = (conn.read_takes size w bytes e, conn.read_keeps size w)
  received-Got size w (failed errno) e =
      let i = sym (conn.read_fails size w errno e) in
      let o = conn.read_keeps size w in
      elim (Bool-cases (is_transient errno)) [ inl t ↦ rw t (i, o) | inr t ↦ rw t (i, o) ]

  pub resume_read-Got : (re : Event) (size : ℕ) (w : World) → Got w (resume_read sys re size s w)
  unfolding resume_read
  resume_read-Got re size w = elim (Bool-cases (re == no_event)) [
    | inl a ↦ rw a (refl, refl)
    | inr a ↦ elim (Bool-cases (has_error re)) [
      | inl b ↦ rw (a, b) (refl, refl)
      | inr b ↦ elim (Bool-cases (has_hangup re)) [
        | inl c ↦ rw (a, b, c) (refl, refl)
        | inr c ↦ rw (a, b, c) (received-Got size w (sys.read s.fd_ size w).1 refl)
      ]
    ]
  ]

  -- A write takes nothing from what is still to come.
  pub resume_write-input :
      (we : Event) (bytes : Bytes) (w : World)
      → conn.input (resume_write sys we bytes s w).2 ≡ conn.input w
  unfolding resume_write
  resume_write-input we bytes w = elim (Bool-cases (has_error we)) [
    | inl b ↦ rw b refl
    | inr b ↦ elim (Bool-cases (has_hangup we)) [
      | inl c ↦ rw (b, c) refl
      | inr c ↦ rw (b, c) (conn.write_keeps bytes w)
    ]
  ]

  -- Between two states the bytes `echoed` have come and gone, and then `lost` has come.
  abbrev pub Moves : Bytes → Bytes → World → World → Type 0
  Moves echoed lost w w' =
      (conn.input w ≡ echoed ++ lost ++ conn.input w') × (conn.output w' ≡ conn.output w ++ echoed)

  -- The bytes that a session writes and the bytes of a read whose write fails are what has come, and
  -- the first are what has gone.
  abbrev pub Echoes : List (Event × Event) → World → Output sys → Type 0
  Echoes events w out =
      (echoed lost : Bytes) × (Course sys s events w echoed lost out × Moves echoed lost w out.1)

  Moves-none :
      (lost : Bytes) (w w' : World)
      → conn.input w ≡ lost ++ conn.input w'
      → conn.output w' ≡ conn.output w
      → Moves [] lost w w'
  Moves-none lost w w' i o = (i, o ∙ sym (append-nil (conn.output w)))

  Moves-turn :
      (bytes more lost : Bytes) (w w' w'' w3 : World)
      → Got w (ok (value bytes), s, w')
      → (conn.input w' ≡ conn.input w'') × (conn.output w'' ≡ conn.output w' ++ bytes)
      → Moves more lost w'' w3
      → Moves (bytes ++ more) lost w w3
  Moves-turn bytes more lost w w' w'' w3 (i, o) (i', o') (i'', o'') = (
    i ∙ rw (i', i'') (simp append_laws),
    o'' ∙ rw (o', o) (append_assoc (conn.output w) bytes more),
  )

  -- Every write that succeeds is complete, and no write fails in passing.
  abbrev pub IsComplete : Type 0
  IsComplete =
      (bytes : Bytes) (w : World) (n : ℕ) → (sys.write s.fd_ bytes w).1 ≡ done n → n ≡ length bytes

  abbrev pub IsFirm : Type 0
  IsFirm =
      (bytes : Bytes) (w : World) (errno : ℕ)
      → (sys.write s.fd_ bytes w).1 ≡ failed errno
      → is_transient errno ≡ false

  module _ (complete : IsComplete) (firm : IsFirm) where
    sent-Sent :
        (bytes : Bytes) (w : World) (o : Outcome ℕ)
        → (sys.write s.fd_ bytes w).1 ≡ o
        → Sent bytes w (ok (sent o), s, (sys.write s.fd_ bytes w).0)
    sent-Sent bytes w (done n) e =
        let all_sent : take n bytes ≡ bytes =
          ap (λ m. take m bytes) (complete bytes w n e) ∙ take-length bytes in
        (sym (conn.write_keeps bytes w), conn.write_adds bytes w n e ∙ rw all_sent refl)
    sent-Sent bytes w (failed errno) e =
        rw (firm bytes w errno e) (sym (conn.write_keeps bytes w), conn.write_fails bytes w errno e)

    resume_write-Sent :
        (we : Event) (bytes : Bytes) (w : World) → Sent bytes w (resume_write sys we bytes s w)
    unfolding resume_write
    resume_write-Sent we bytes w = elim (Bool-cases (has_error we)) [
      | inl b ↦ rw b (refl, refl)
      | inr b ↦ elim (Bool-cases (has_hangup we)) [
        | inl c ↦ rw (b, c) (refl, refl)
        | inr c ↦ rw (b, c) (sent-Sent bytes w (sys.write s.fd_ bytes w).1 refl)
      ]
    ]

    Course-Moves :
        {events : List (Event × Event)} {w : World} {echoed lost : Bytes} {out : Output sys}
        → Course sys s events w echoed lost out
        → Moves echoed lost w out.1
    Course-Moves waits = Moves-none [] _ _ refl refl
    Course-Moves {w} (unread {re = re} p) =
        let (i, o) = rw p at (resume_read-Got re buffer_size w) in Moves-none [] w _ i o
    Course-Moves {w} (unwoken {re = re} p) =
        let (i, o) = rw p at (resume_read-Got re buffer_size w) in Moves-none [] w _ i o
    Course-Moves {w} (unsent {re = re} {we = we} {w' = w'} {w'' = w''} {bytes = bytes} p q) =
        let (i, o) = rw p at (resume_read-Got re buffer_size w) in
        let (i', o') = rw q at (resume_write-Sent we bytes w') in
        Moves-none bytes w w'' (i ∙ ap (λ x. bytes ++ x) i') (o' ∙ o)
    Course-Moves {w} {out = out}
          (turn {re = re} {we = we} {w' = w'} {w'' = w''} {bytes = bytes} {more = more}
            {lost = lost} p q c) =
        Moves-turn bytes more lost w w' w'' out.1 (rw p at (resume_read-Got re buffer_size w))
          (rw q at (resume_write-Sent we bytes w')) (Course-Moves c)

    -- Where every write that succeeds is complete and none fails in passing, a session reads and
    -- writes in turn, one event of each pair for each, until no event is left, a read fails or faults,
    -- or a write fails. What it has read and then written is what has come and gone, in order; only the
    -- bytes whose write has failed have come and not gone. An error ends it, or aborts it where the
    -- error has no message.
    pub session-Echoes :
        (events : List (Event × Event)) (w : World) → Echoes events w (session sys events s w)
    session-Echoes events w =
        let (echoed, lost, c) = session-HasCourse sys events s w in
        (echoed, lost, (c, Course-Moves c))
