-- ===== src/Log/Worker/References.antt =====
-- The reference counts of the loggers: one for each record that is not written yet.
use bc.Prelude.{
  ℕ, ◌+◌, ◌-◌, ◌%◌, ◌^◌, ◌≡◌, not, ◌==◌, if◌then◌else◌, [], ◌∷◌, refl, ◌++◌, Bytes, arith, Gives,
  gives, Gives->>=, Gives-assert, Gives-in_bounds, Bool-cases, inl, inr,
}
use bc.Log.Record.{Record, level_lt}
use bc.Log.Formatter.{Fmt, format}
use bc.Log.Worker.{
  Loggers, reference, unreference, Logs, Worker, append, log, Buffers, contains, add_to, emplace,
  gather, write_all, drain, round,
}

-- How many records, and how many buffers, belong to the logger.
abbrev pub records_of : ℕ → Logs → ℕ
records_of l [] = 0
records_of l ((k, r) ∷ logs) = (if k == l then 1 else 0) + records_of l logs

abbrev pub buffers_of : ℕ → Buffers → ℕ
buffers_of l [] = 0
buffers_of l ((k, t) ∷ bs) = (if k == l then 1 else 0) + buffers_of l bs

records_of-append :
    (l : ℕ) (xs ys : Logs) → records_of l (xs ++ ys) ≡ records_of l xs + records_of l ys
records_of-append l [] ys = ground arith
records_of-append l ((k, r) ∷ xs) ys = omega (arith, records_of-append l xs ys)

buffers_of-add_to :
    (l k : ℕ) (s : Bytes) (bs : Buffers) → buffers_of l (add_to k s bs) ≡ buffers_of l bs
unfolding add_to
buffers_of-add_to l k s [] = refl
buffers_of-add_to l k s ((j, t) ∷ bs) = ground (arith, buffers_of-add_to l k s bs)

buffers_of-emplace :
    (l k : ℕ) (s : Bytes) (bs : Buffers)
    → buffers_of l (emplace k s bs) ≡ (if k == l then 1 else 0) + buffers_of l bs
unfolding emplace
buffers_of-emplace l k s [] = ground arith
buffers_of-emplace l k s ((j, t) ∷ bs) = ground (arith, buffers_of-emplace l k s bs)

ref_-reference :
    (l k : ℕ) (ls : Loggers)
    → (reference k ls l).ref_ ≡ (if l == k then ((ls k).ref_ + 1) % 2 ^ 64 else (ls l).ref_)
unfolding reference
ref_-reference l k ls = elim (Bool-cases (l == k)) [ inl e ↦ rw e | inr e ↦ rw e ]

ref_-unreference :
    (l k : ℕ) (ls : Loggers)
    → (unreference k ls l).ref_
      ≡ (if l == k then ((ls k).ref_ + 2 ^ 64 - 1) % 2 ^ 64 else (ls l).ref_)
unfolding unreference
ref_-unreference l k ls = elim (Bool-cases (l == k)) [ inl e ↦ rw e | inr e ↦ rw e ]

-- Each logger counts its records, its buffers, and `more` besides.
abbrev pub Holds : (ℕ → ℕ) → Logs → Buffers → Loggers → Type 0
Holds more logs bs ls =
    (l : ℕ) → (ls l).ref_ ≡ (records_of l logs + buffers_of l bs + more l) % 2 ^ 64

known-Holds :
    (more : ℕ → ℕ) (l : ℕ) (r : Record) (logs : Logs) (text : Bytes) (bs : Buffers) (ls : Loggers)
    → Holds more ((l, r) ∷ logs) bs ls
    → Holds more logs (add_to l text bs) (unreference l ls)
known-Holds more l r logs text bs ls h j =
    ground (arith, ref_-unreference j l ls, buffers_of-add_to j l text bs, h j, h l)

new-Holds :
    (more : ℕ → ℕ) (l : ℕ) (r : Record) (logs : Logs) (text : Bytes) (bs : Buffers) (ls : Loggers)
    → Holds more ((l, r) ∷ logs) bs ls
    → Holds more logs (emplace l text bs) (unreference l (reference l ls))
new-Holds more l r logs text bs ls h j = ground (
  arith,
  ref_-unreference j l (reference l ls),
  ref_-reference j l ls,
  ref_-reference l l ls,
  buffers_of-emplace j l text bs,
  h j,
  h l,
)

gather-Holds :
    (fmt : Fmt) (more : ℕ → ℕ) (logs : Logs) (bs : Buffers) (ls : Loggers)
    → Holds more logs bs ls
    → Gives (λ r. Holds more [] r.0 r.1) (gather fmt logs bs ls)
unfolding gather
gather-Holds fmt more [] bs ls h = gives h
gather-Holds fmt more ((l, r) ∷ logs) bs ls h =
    Gives->>= (Gives-in_bounds (format fmt (ls l).formatter_ r)) (λ line _.
      elim (Bool-cases (contains l bs)) [
        | inl e ↦ rw e (gather-Holds fmt more logs _ _ (known-Holds more l r logs _ bs ls h))
        | inr e ↦ rw e (gather-Holds fmt more logs _ _ (new-Holds more l r logs _ bs ls h))
      ])

written-Holds :
    (more : ℕ → ℕ) (l : ℕ) (t : Bytes) (bs : Buffers) (ls : Loggers)
    → Holds more [] ((l, t) ∷ bs) ls
    → Holds more [] bs (unreference l ls)
written-Holds more l t bs ls h j = ground (arith, ref_-unreference j l ls, h j, h l)

write_all-Holds :
    (more : ℕ → ℕ) (bs : Buffers) (ls : Loggers) (console : Bytes)
    → Holds more [] bs ls
    → Holds more [] [] (write_all bs ls console).0
unfolding write_all
write_all-Holds more [] ls console h = h
write_all-Holds more ((l, t) ∷ bs) ls console h =
    write_all-Holds more bs (unreference l ls) _ (written-Holds more l t bs ls h)

-- Each logger counts exactly its records that wait in `logs_`, less multiples of `2 ^ 64`.
abbrev pub Counts : Worker → Type 0
Counts w = (l : ℕ) → (w.loggers l).ref_ ≡ records_of l w.logs_ % 2 ^ 64

-- A round of the worker's loop that succeeds keeps the counts: what it has drained is counted off.
pub round-Counts : (fmt : Fmt) (w : Worker) → Counts w → Gives Counts (round fmt w)
unfolding round drain
round-Counts fmt w c =
    let h : Holds (λ l. 0) w.logs_ [] w.loggers = λ l. omega (arith, c l) in
    Gives->>= (gather-Holds fmt (λ l. 0) w.logs_ [] w.loggers h)
      (λ r held. gives (λ l. omega (arith, write_all-Holds (λ l. 0) r.0 r.1 w.console held l)))

-- The logging of a record, where the worker has not stopped, keeps the counts.
pub log-Counts : (l : ℕ) (r : Record) (w : Worker) → Counts w → Gives Counts (log l r w)
unfolding log append
log-Counts l r w c = elim (Bool-cases (level_lt r.lv (w.loggers l).level_)) [
  | inl e ↦ rw e (gives c)
  | inr e ↦ rw e (
      Gives->>= (Gives-assert (not w.stop_)) (λ _ _. gives (λ j. ground (
        arith,
        ref_-reference j l w.loggers,
        records_of-append j w.logs_ ((l, record r { topic = (w.loggers l).topic_ }) ∷ []),
        c j,
        c l,
      ))))
]
