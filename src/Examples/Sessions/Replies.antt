-- ===== src/Examples/Sessions/Replies.antt =====
-- What the handler of examples/client.cxx shows of what it reads.
use mathlib.Core.List.{append_assoc, append-nil}
use bc.Prelude.{
  ℕ, ◌≡◌, ◌≤◌, ◌<◌, ltb, inl, inr, refl, sym, ◌∙◌, List, [], ◌∷◌, ◌++◌, map, Bytes, joined, length,
  append_laws, Result, ok, err, Fault, out_of_bounds, arith, Bool-cases,
}
use bc.Network.Awaiters.{resume_read, resume_write}
use bc.Network.Echo.{buffer_size}
use bc.Network.Echo.Course.{resume_read-socket, resume_write-answers}
use bc.Network.Echo.Lossless.{Connection, Got, resume_read-Got, resume_write-input}
use bc.Network.Socket.{Socket}
use bc.Network.Socket.SystemCalls.{Sys}
use bc.Utils.Error.{report}
use bc.Utils.Expected.{Expected, value, error}
use bc.Examples.Sessions.{Line, Talk, c_string, on_reply, on_sent, client_session}

module _ (sys : Sys) (s : Socket) where
  open sys use {World}

  -- Lines that are written and then answered by a reply that is shorter than the buffer, and last: no
  -- line is left, the write fails, the read fails or faults, or the reply does not fit with its zero.
  -- The lists are the replies and the bytes of the last.
  pub data Chat : List Line → World → List Bytes → Bytes → Result (Unit {0}) → World → Type 0 where
    typed_all : {w : World} → Chat [] w [] [] (ok tt) w
    unsent :
        {line : Line} {lines : List Line} {w w' : World} {e : ℕ}
        → resume_write sys line.write_event line.text s w ≡ (ok (error e), s, w')
        → Chat (line ∷ lines) w [] [] (report e) w'
    unread :
        {line : Line} {lines : List Line} {w w' w'' : World} {n e : ℕ}
        → resume_write sys line.write_event line.text s w ≡ (ok (value n), s, w')
        → resume_read sys line.read_event buffer_size s w' ≡ (ok (error e), s, w'')
        → Chat (line ∷ lines) w [] [] (report e) w''
    unwoken :
        {line : Line} {lines : List Line} {w w' w'' : World} {n : ℕ} {fault : Fault}
        → resume_write sys line.write_event line.text s w ≡ (ok (value n), s, w')
        → resume_read sys line.read_event buffer_size s w' ≡ (err fault, s, w'')
        → Chat (line ∷ lines) w [] [] (err fault) w''
    overrun :
        {line : Line} {lines : List Line} {w w' w'' : World} {n : ℕ} {bytes : Bytes}
        → resume_write sys line.write_event line.text s w ≡ (ok (value n), s, w')
        → resume_read sys line.read_event buffer_size s w' ≡ (ok (value bytes), s, w'')
        → buffer_size ≤ length bytes
        → Chat (line ∷ lines) w [] bytes (err out_of_bounds) w''
    reply :
        {line : Line} {lines : List Line} {w w' w'' w3 : World} {n : ℕ} {bytes rest : Bytes}
        {pieces : List Bytes} {r : Result (Unit {0})}
        → resume_write sys line.write_event line.text s w ≡ (ok (value n), s, w')
        → resume_read sys line.read_event buffer_size s w' ≡ (ok (value bytes), s, w'')
        → length bytes < buffer_size
        → Chat lines w'' pieces rest r w3
        → Chat (line ∷ lines) w (bytes ∷ pieces) rest r w3

  -- A chat, of which each reply is shown up to its first zero behind what was shown before.
  abbrev pub Chats : List Line → List Bytes → World → Talk sys → Type 0
  Chats lines shown w out =
      (pieces : List Bytes) × (rest : Bytes) × (Chat lines w pieces rest out.1 out.2
        × (out.0 ≡ shown ++ map c_string pieces))

  Chats-ends :
      {lines : List Line} (shown : List Bytes) {w w' : World} {rest : Bytes} {r : Result (Unit {0})}
      → Chat lines w [] rest r w'
      → Chats lines shown w (shown, r, w')
  Chats-ends shown {rest = rest} c = ([], rest, (c, sym (append-nil shown)))

  reply-Chats :
      (line : Line) (lines : List Line) (shown : List Bytes) (w w' w'' : World) (n : ℕ)
      (s' : Socket) (r : Result (Expected Bytes ℕ))
      → ((shown' : List Bytes) (u : World)
          → Chats lines shown' u (client_session sys lines shown' s u))
      → s' ≡ s
      → resume_write sys line.write_event line.text s w ≡ (ok (value n), s, w')
      → resume_read sys line.read_event buffer_size s w' ≡ (r, s', w'')
      → Chats
          (line ∷ lines)
          shown
          w
          (on_reply sys shown (λ shown' u. client_session sys lines shown' s u) (r, s', w''))
  unfolding on_reply
  reply-Chats line lines shown w w' w'' n s' (ok (value bytes)) next same p q =
      elim (Bool-cases (ltb (length bytes) buffer_size)) [
        | inl fits ↦
            let (pieces, rest, (c, e)) = next (shown ++ c_string bytes ∷ []) w'' in
            rw fits (
              bytes ∷ pieces,
              rest,
              (
                reply p (rw same at q) (ground arith) c,
                e ∙ append_assoc shown (c_string bytes ∷ []) (map c_string pieces),
              ),
            )
        | inr over ↦ rw over (Chats-ends shown (overrun p (rw same at q) (ground arith)))
      ]
  reply-Chats line lines shown w w' w'' n s' (ok (error e)) next same p q =
      Chats-ends shown (unread p (rw same at q))
  reply-Chats line lines shown w w' w'' n s' (err fault) next same p q =
      Chats-ends shown (unwoken p (rw same at q))

  sent-Chats :
      (line : Line) (lines : List Line) (shown : List Bytes) (w w' : World) (r : Expected ℕ ℕ)
      → ((shown' : List Bytes) (u : World)
          → Chats lines shown' u (client_session sys lines shown' s u))
      → resume_write sys line.write_event line.text s w ≡ (ok r, s, w')
      → Chats (line ∷ lines) shown w (
          on_sent sys line.read_event shown
            (λ shown' u. client_session sys lines shown' s u)
            (ok r, s, w'))
  unfolding on_sent
  sent-Chats line lines shown w w' (value n) next p =
      let out = resume_read sys line.read_event buffer_size s w' in
      reply-Chats line lines shown w w' out.2 n out.1 out.0 next
        (resume_read-socket sys line.read_event s w') p refl
  sent-Chats line lines shown w w' (error e) next p = Chats-ends shown (unsent p)

  client_session-Chats :
      (lines : List Line) (shown : List Bytes) (w : World)
      → Chats lines shown w (client_session sys lines shown s w)
  unfolding client_session
  client_session-Chats [] shown w = Chats-ends shown typed_all
  client_session-Chats (line ∷ lines) shown w =
      let (r, (w', p)) = resume_write-answers sys line.write_event line.text s w in
      rw p (sent-Chats line lines shown w w' r (client_session-Chats lines) p)

  module _ (conn : Connection sys s.fd_) where
    -- The write takes nothing, and the read what its result says.
    exchange :
        (line : Line) {w w' w'' : World} {a : Result (Expected ℕ ℕ)} {r : Result (Expected Bytes ℕ)}
        → resume_write sys line.write_event line.text s w ≡ (a, s, w')
        → resume_read sys line.read_event buffer_size s w' ≡ (r, s, w'')
        → (conn.input w ≡ conn.input w') × Got sys s conn w' (r, s, w'')
    exchange line {w} {w'} p q = (
      sym (rw p at (resume_write-input sys s conn line.write_event line.text w)),
      rw q at (resume_read-Got sys s conn line.read_event buffer_size w'),
    )

    Chat-input :
        {lines : List Line} {w w' : World} {pieces : List Bytes} {rest : Bytes}
        {r : Result (Unit {0})}
        → Chat lines w pieces rest r w'
        → conn.input w ≡ joined pieces ++ rest ++ conn.input w'
    Chat-input typed_all = refl
    Chat-input {w = w} (unsent {line = line} p) =
        sym (rw p at (resume_write-input sys s conn line.write_event line.text w))
    Chat-input (unread p q) = let (i, (i', _)) = exchange _ p q in i ∙ i'
    Chat-input (unwoken p q) = let (i, (i', _)) = exchange _ p q in i ∙ i'
    Chat-input (overrun p q long) = let (i, (i', _)) = exchange _ p q in i ∙ i'
    Chat-input (reply {bytes = bytes} p q short c) =
        let (i, (i', _)) = exchange _ p q in i ∙ i' ∙ rw (Chat-input c) (simp append_laws)

    -- The handler of client.cxx writes each line and reads a reply, of which it shows what stands before
    -- the first zero, in order, until no line is left, the write fails, the read fails or faults, or the
    -- reply has 1024 bytes or more, where it writes past its buffer. What was shown before stays shown.
    -- Every byte that has come is in a reply or in the last, which did not fit; an error ends the
    -- handler, or aborts it where the error has no message.
    pub client_session-Shows :
        (lines : List Line) (shown : List Bytes) (w : World)
        → let out = client_session sys lines shown s w in
          (pieces : List Bytes) × (rest : Bytes) × (Chat lines w pieces rest out.1 out.2
            × ((out.0 ≡ shown ++ map c_string pieces)
                × (conn.input w ≡ joined pieces ++ rest ++ conn.input out.2)))
    client_session-Shows lines shown w =
        let (pieces, rest, (c, e)) = client_session-Chats lines shown w in
        (pieces, rest, (c, (e, Chat-input c)))
