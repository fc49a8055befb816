-- ===== src/Network/Tests/Echo.antt =====
-- A session that sends back what it reads from one connection, and loses what it cannot send.
use bc.Prelude.{
  ℕ, ◌≡◌, refl, sym, ap, arith, false, length, List, [], ◌∷◌, ◌++◌, Bytes, codes, take, joined,
}
use bc.Async.Poller.{Event, Outcome, done, failed, read_event, write_event}
use bc.Network.Address.{ipv4}
use bc.Network.Awaiters.{resume_read, resume_write}
use bc.Network.Echo.{session, on_read, on_written}
use bc.Network.Echo.Lossless.{Connection, Echoes, IsComplete, IsFirm, session-Echoes, take-length}
use bc.Network.Socket.{Socket, wrap}
use bc.Network.Socket.SystemCalls.{Sys, peer}

-- What the peer has still to send, and what it has been sent.
pub record Line : Type 0 where
  pub coming : List Bytes
  pub gone : Bytes

abbrev read_line : List Bytes → Bytes → Line × Outcome Bytes
read_line [] gone = (record { coming = []; gone = gone }, done [])
read_line (b ∷ bs) gone = (record { coming = bs; gone = gone }, done b)

-- No descriptor is open but those that the calls find.
abbrev pub wire : Sys
wire = record {
  World = Line;
  is_open = λ w fd. false;
  socket = λ d p w. (w, failed 24);
  setsockopt = λ s w. (w, done tt);
  bind = λ s a w. (w, done tt);
  listen = λ s n w. (w, done tt);
  connect = λ s a w. (w, done tt);
  accept = λ s w. (w, failed 24);
  read = λ s n w. read_line w.coming w.gone;
  write = λ s b w. (record w { gone = w.gone ++ b }, done (length b));
  close = λ s w. (w, done tt);
  socket_fresh = λ d p w fd h. refl;
  socket_opens = λ d p w fd j h. cc;
  socket_fails = λ d p w errno j h. refl;
  accept_fresh = λ s w fd h. refl;
  accept_opens = λ s w fd j h. cc;
  accept_fails = λ s w errno j h. refl;
  close_closes = λ fd j w. ground arith;
  setsockopt_keeps = λ s w j. refl;
  bind_keeps = λ s a w j. refl;
  listen_keeps = λ s n w j. refl;
  connect_keeps = λ s a w j. refl;
  read_keeps = λ s n w j. refl;
  write_keeps = λ s b w j. refl;
}

abbrev pub sock : Socket
sock = wrap 4 ipv4 peer

pub read_line-takes :
    (bs : List Bytes) (gone bytes : Bytes)
    → (read_line bs gone).1 ≡ done bytes
    → joined bs ≡ bytes ++ joined (read_line bs gone).0.coming
read_line-takes [] gone bytes h = let e : [] ≡ bytes = cc in rw (← e) refl
read_line-takes (b ∷ bs) gone bytes h = let e : b ≡ bytes = cc in rw e refl

pub read_line-fails :
    (bs : List Bytes) (gone : Bytes) (errno : ℕ)
    → (read_line bs gone).1 ≡ failed errno
    → joined (read_line bs gone).0.coming ≡ joined bs
read_line-fails [] gone errno h = cc
read_line-fails (b ∷ bs) gone errno h = cc

pub read_line-keeps : (bs : List Bytes) (gone : Bytes) → (read_line bs gone).0.gone ≡ gone
read_line-keeps [] gone = refl
read_line-keeps (b ∷ bs) gone = refl

pub take_all : (bytes : Bytes) (n : ℕ) → done (length bytes) ≡ done n → bytes ≡ take n bytes
take_all bytes n h = let e : length bytes ≡ n = cc in rw (← e) (sym (take-length bytes))

abbrev pub line : Connection wire sock.fd_
line = record {
  input = λ w. joined w.coming;
  output = λ w. w.gone;
  read_takes = λ size w bytes h. read_line-takes w.coming w.gone bytes h;
  read_fails = λ size w errno h. read_line-fails w.coming w.gone errno h;
  read_keeps = λ size w. read_line-keeps w.coming w.gone;
  write_adds = λ bytes w n h. ap (λ x. w.gone ++ x) (take_all bytes n h);
  write_fails = λ bytes w errno h. cc h;
  write_keeps = λ bytes w. refl;
}

pub complete : IsComplete wire sock line
complete bytes w n h = cc

pub firm : IsFirm wire sock line
firm bytes w errno h = cc

abbrev pub talk : Line
talk = record { coming = codes "hello" ∷ codes "world" ∷ []; gone = [] }

abbrev pub wakes : List (Event × Event)
wakes = (read_event, write_event) ∷ (read_event, write_event) ∷ []

session-Echoes_example : Echoes wire sock line wakes talk (session wire wakes sock talk)
session-Echoes_example = session-Echoes wire sock line complete firm wakes talk

talk_echoed : (session wire wakes sock talk).1.gone ≡ codes "helloworld"
unfolding session on_read on_written resume_read resume_write
talk_echoed = refl
