-- ===== src/Network/Server/Sessions.antt =====
-- The server keeps the clients whose session goes on, and no other.
use mathlib.Core.List.{Perm, map, append_assoc, perm_middle, perm_append_comm}
use mathlib.Core.List.Perm
use bc.Prelude.{
  ℕ, ◌≡◌, refl, ap, not, Result, Bool, true, false, if◌then◌else◌, List, [], ◌∷◌, ◌++◌, ◌∙◌,
  Bool-cases, inl, inr,
}
use bc.Network.Socket.{Socket}
use bc.Network.Server.{Client, Server, sweep, add_client, round, serve}
use bc.Utils.Error.{report}
use bc.Utils.Expected.{Expected, value, error}

sweep-Perm :
    (is_done : ℕ → Bool) (cs : List Client) → Perm ((sweep is_done cs).0 ++ (sweep is_done cs).1) cs
unfolding sweep
sweep-Perm is_done [] = Perm.refl []
sweep-Perm is_done (c ∷ cs) = elim (Bool-cases (is_done c.task)) [
  | inl e ↦ rw e (
      Perm.trans (perm_middle (sweep is_done cs).0 (sweep is_done cs).1)
        (Perm.cons c (sweep-Perm is_done cs)))
  | inr e ↦ rw e (Perm.cons c (sweep-Perm is_done cs))
]

-- The clients with an answer, in their order.
abbrev pub chosen : (Client → Bool) → List Client → List Client
chosen p [] = []
chosen p (c ∷ cs) = if p c then c ∷ chosen p cs else chosen p cs

sweep-chosen :
    (is_done : ℕ → Bool) (cs : List Client)
    → ((sweep is_done cs).0 ≡ chosen (λ c. not (is_done c.task)) cs)
      × ((sweep is_done cs).1 ≡ chosen (λ c. is_done c.task) cs)
unfolding sweep
sweep-chosen is_done [] = (refl, refl)
sweep-chosen is_done (c ∷ cs) =
    let ih = sweep-chosen is_done cs in
    elim (Bool-cases (is_done c.task)) [
      | inl e ↦ rw (e, ih.0, ih.1) (refl, refl)
      | inr e ↦ rw (e, ih.0, ih.1) (refl, refl)
    ]

-- The sockets that come before the first error.
abbrev pub accepted {ℓ} : {W : Type ℓ} → List (Expected Socket ℕ × W) → List Socket
accepted [] = []
accepted ((value sock, w) ∷ events) = sock ∷ accepted events
accepted ((error e, w) ∷ events) = []

abbrev pub sockets : Server → List Socket
sockets s = map (λ c. c.sock) (s.clients ++ s.erased)

module _ (World : Type 0) (start : Socket → World → ℕ × World) (is_done : World → ℕ → Bool) where
  round-Perm :
      (sock : Socket) (w : World) (s : Server)
      → let t = round World start is_done (value sock) w s in
        Perm
          (t.clients ++ t.erased)
          (record { sock = sock; task = (start sock w).0 } ∷ s.clients ++ s.erased)
  unfolding round add_client
  round-Perm sock w s =
      let c : Client = record { sock = sock; task = (start sock w).0 } in
      let cs = s.clients ++ c ∷ [] in
      let kept = (sweep (is_done (start sock w).1) cs).0 in
      let gone = (sweep (is_done (start sock w).1) cs).1 in
      let swapped : Perm (kept ++ (s.erased ++ gone)) (kept ++ (gone ++ s.erased)) =
        Perm.append_left kept (perm_append_comm s.erased gone) in
      let swept : Perm ((kept ++ gone) ++ s.erased) (cs ++ s.erased) =
        Perm.append_right s.erased (sweep-Perm (is_done (start sock w).1) cs) in
      let placed : Perm (cs ++ s.erased) (c ∷ s.clients ++ s.erased) =
        rw (append_assoc s.clients (c ∷ []) s.erased) (perm_middle s.clients s.erased) in
      Perm.trans swapped (rw (← append_assoc kept gone s.erased) (Perm.trans swept placed))

  -- An iteration that gets a socket starts its session, and then keeps the clients whose session goes
  -- on and erases those whose session has finished, the new client among them, both in their order;
  -- those that were erased before stay so.
  pub round-chosen :
      (sock : Socket) (w : World) (s : Server)
      → let t = round World start is_done (value sock) w s in
        let done = is_done (start sock w).1 in
        let cs = s.clients ++ record { sock = sock; task = (start sock w).0 } ∷ [] in
        (t.clients ≡ chosen (λ c. not (done c.task)) cs)
        × (t.erased ≡ s.erased ++ chosen (λ c. done c.task) cs)
  unfolding round add_client
  round-chosen sock w s =
      let cs = s.clients ++ record { sock = sock; task = (start sock w).0 } ∷ [] in
      let parts = sweep-chosen (is_done (start sock w).1) cs in
      (parts.0, ap (λ gone. s.erased ++ gone) parts.1)

  round-running :
      (sock : Socket) (w : World) (s : Server)
      → (round World start is_done (value sock) w s).running ≡ s.running
  unfolding round add_client
  round-running sock w s = refl

  serve-cons :
      (res : Expected Socket ℕ) (w : World) (events : List (Expected Socket ℕ × World)) (s : Server)
      → s.running ≡ true
      → serve World start is_done ((res, w) ∷ events) s
        ≡ serve World start is_done events (round World start is_done res w s)
  unfolding serve
  serve-cons res w events s running = go s.running running
    where
      go :
          (b : Bool)
          → b ≡ true
          → (if b then serve World start is_done events (round World start is_done res w s) else s)
            ≡ serve World start is_done events (round World start is_done res w s)
      go true e = refl
      go false e = cc

  serve_stopped :
      (events : List (Expected Socket ℕ × World)) (s : Server) (r : Result (Unit {0}))
      → serve World start is_done events (record s { running = false; outcome = r })
        ≡ record s { running = false; outcome = r }
  unfolding serve
  serve_stopped [] s r = refl
  serve_stopped ((res, w) ∷ events) s r = refl

  -- A server that runs, fed with what comes, has each accepted socket exactly once: in a client or
  -- among those that it has erased; the first error stops it, and what comes then is not touched.
  pub serve-Perm :
      (events : List (Expected Socket ℕ × World)) (s : Server)
      → s.running ≡ true
      → Perm (sockets (serve World start is_done events s)) (accepted events ++ sockets s)
  unfolding round
  serve-Perm [] s running = unfold serve in Perm.refl (sockets s)
  serve-Perm ((value sock, w) ∷ events) s running =
      let t = round World start is_done (value sock) w s in
      let ih = serve-Perm events t (round-running sock w s ∙ running) in
      let one : Perm (sockets t) (sock ∷ sockets s) =
        Perm.map (λ c. c.sock) (round-Perm sock w s) in
      rw (serve-cons (value sock) w events s running) (
        Perm.trans ih (
          Perm.trans (Perm.append_left (accepted events) one)
            (perm_middle (accepted events) (sockets s))))
  serve-Perm ((error e, w) ∷ events) s running =
      rw (serve-cons (error e) w events s running, serve_stopped events s (report e))
        (Perm.refl (sockets s))
