-- ===== src/Examples/Servers/Prints.antt =====
-- The server of the example against the class `server`, and what it prints.
use bc.Prelude.{
  ℕ, suc, ◌+◌, ◌-◌, ◌≡◌, ◌<◌, ◌≤◌, refl, ap, Bool, List, [], ◌∷◌, ◌++◌, length, length-append,
  arith, Bool-cases, inl, inr, All,
}
use bc.Network.Server.{Client, Server, sweep, add_client, round, serve}
use bc.Network.Socket.{Socket}
use bc.Utils.Expected.{Expected, value, error}
use bc.Examples.Servers.{Notice, removed, has_clients, tidy, accept_round, async_server}

abbrev pub removals : List Notice → ℕ
removals [] = 0
removals (removed ∷ notices) = suc (removals notices)
removals (has_clients n ∷ notices) = removals notices

-- No report of no clients.
abbrev pub IsSound : Notice → Type 0
IsSound removed = Unit
IsSound (has_clients n) = 0 < n

removals-append : (xs ys : List Notice) → removals (xs ++ ys) ≡ removals xs + removals ys
removals-append [] ys = omega arith
removals-append (removed ∷ xs) ys = omega (arith, removals-append xs ys)
removals-append (has_clients n ∷ xs) ys = removals-append xs ys

All-append : (xs ys : List Notice) → All IsSound xs → All IsSound ys → All IsSound (xs ++ ys)
All-append [] ys h k = k
All-append (x ∷ xs) ys (h, hs) k = (h, All-append xs ys hs k)

tidy-sweep :
    (is_done : ℕ → Bool) (size : ℕ) (cs : List Client)
    → ((tidy is_done size cs).0 ≡ (sweep is_done cs).0)
      × ((tidy is_done size cs).1 ≡ (sweep is_done cs).1)
unfolding tidy sweep
tidy-sweep is_done size [] = (refl, refl)
tidy-sweep is_done size (c ∷ cs) = elim (Bool-cases (is_done c.task)) [
  | inl e ↦ let ih = tidy-sweep is_done (size - 1) cs in rw (e, ih.0, ih.1) (refl, refl)
  | inr e ↦ let ih = tidy-sweep is_done size cs in rw (e, ih.0, ih.1) (refl, refl)
]

tidy-notices :
    (is_done : ℕ → Bool) (size : ℕ) (cs : List Client)
    → length cs ≤ size
    → (removals (tidy is_done size cs).2 ≡ length (tidy is_done size cs).1)
      × All IsSound (tidy is_done size cs).2
unfolding tidy
tidy-notices is_done size [] h = (refl, tt)
tidy-notices is_done size (c ∷ cs) h = elim (Bool-cases (is_done c.task)) [
  | inl e ↦
      let ih = tidy-notices is_done (size - 1) cs (omega arith) in rw e (ap suc ih.0, (tt, ih.1))
  | inr e ↦ let ih = tidy-notices is_done size cs (omega arith) in rw e (ih.0, (omega arith, ih.1))
]

module _ (World : Type 0) (start : Socket → World → ℕ × World) (is_done : World → ℕ → Bool) where
  -- The same server, a removal printed for each client that it has erased, and no report of no
  -- clients.
  abbrev pub Prints : Server → Server × List Notice → Server → Type 0
  Prints s out t =
      (out.0 ≡ t) × ((length s.erased + removals out.1 ≡ length t.erased) × All IsSound out.1)

  accept_round-Prints :
      (res : Expected Socket ℕ) (w : World) (s : Server)
      → Prints s (accept_round World start is_done res w s) (round World start is_done res w s)
  unfolding accept_round round add_client
  accept_round-Prints (value sock) w s =
      let done = is_done (start sock w).1 in
      let cs = s.clients ++ record { sock = sock; task = (start sock w).0 } ∷ [] in
      let same = tidy-sweep done (length cs) cs in
      let lines = tidy-notices done (length cs) cs (omega arith) in
      (
        rw (same.0, same.1) refl,
        (
          omega (arith, length-append s.erased (sweep done cs).1, lines.0, ap (length {0}) same.1),
          lines.1,
        ),
      )
  accept_round-Prints (error e) w s = (refl, (omega arith, tt))

  Prints-after :
      (s t : Server) (first : Server × List Notice) (last : Server × List Notice) (u : Server)
      → Prints s first t
      → Prints t last u
      → Prints s (last.0, first.1 ++ last.1) u
  Prints-after s t first last u (e, (n, sound)) (e', (n', sound')) =
      (e', (omega (arith, removals-append first.1 last.1), All-append first.1 last.1 sound sound'))

  -- The server of async-server.cxx keeps and erases the clients that the class `server` keeps and
  -- erases, whatever comes. It prints one removal for each client that it erases, and never that it
  -- has no clients.
  pub async_server-Prints :
      (events : List (Expected Socket ℕ × World)) (s : Server)
      → Prints s (async_server World start is_done events s) (serve World start is_done events s)
  unfolding async_server serve
  async_server-Prints [] s = (refl, (omega arith, tt))
  async_server-Prints ((res, w) ∷ events) s =
      let out = accept_round World start is_done res w s in
      let t = round World start is_done res w s in
      let one = accept_round-Prints res w s in
      let next = async_server-Prints events t in
      elim (Bool-cases s.running) [
        | inl on ↦ rw (one.0) (
            simp on (
              Prints-after s t out (async_server World start is_done events t)
                (serve World start is_done events t) one next))
        | inr off ↦ rw off (refl, (omega arith, tt))
      ]
