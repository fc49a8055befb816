-- ===== src/Async/Tests/Kernel.antt =====
-- A simulated epoll instance: a table of the descriptors that are registered.
use bc.Prelude.{ℕ, ◌≡◌, ◌≢◌, ◌==◌, if◌then◌else◌, [], Option, none, some, arith, refl}
use bc.Async.Poller.{
  Event, Op, add, modify, delete, Outcome, done, failed, eexist, enoent, Epoll, Poller,
}

abbrev pub Table : Type 0
Table = ℕ → Option Event

abbrev pub update : Table → ℕ → Option Event → Table
update k fd v j = if j == fd then v else k j

unfoldable pub ctl_in : Op → Option Event → Table → ℕ → Event → Outcome Table
ctl_in add none k fd e = done (update k fd (some e))
ctl_in add (some _) k fd e = failed eexist
ctl_in modify none k fd e = failed enoent
ctl_in modify (some _) k fd e = done (update k fd (some e))
ctl_in delete none k fd e = failed enoent
ctl_in delete (some _) k fd e = done (update k fd none)

abbrev pub table_ctl : Table → Op → ℕ → Event → Outcome Table
table_ctl k op fd e = ctl_in op (k fd) k fd e

pub update_self : (k : Table) (fd : ℕ) (v : Option Event) → update k fd v fd ≡ v
update_self k fd v = ground arith

pub update_other : (k : Table) (fd j : ℕ) (v : Option Event) → j ≢ fd → update k fd v j ≡ k j
update_other k fd j v h = ground arith

pub table_add :
    (o : Option Event) (k k' : Table) (fd : ℕ) (e : Event)
    → ctl_in add o k fd e ≡ done k'
    → k' fd ≡ some e
unfolding ctl_in
table_add none k k' fd e h =
    let same : update k fd (some e) ≡ k' = cc in rw (← same) (update_self k fd (some e))
table_add (some x) k k' fd e h = cc

pub table_modify :
    (o : Option Event) (k k' : Table) (fd : ℕ) (e : Event)
    → ctl_in modify o k fd e ≡ done k'
    → k' fd ≡ some e
unfolding ctl_in
table_modify none k k' fd e h = cc
table_modify (some x) k k' fd e h =
    let same : update k fd (some e) ≡ k' = cc in rw (← same) (update_self k fd (some e))

pub table_delete :
    (o : Option Event) (k k' : Table) (fd : ℕ) (e : Event)
    → ctl_in delete o k fd e ≡ done k'
    → k' fd ≡ none
unfolding ctl_in
table_delete none k k' fd e h = cc
table_delete (some x) k k' fd e h =
    let same : update k fd none ≡ k' = cc in rw (← same) (update_self k fd none)

pub updated_others :
    (k k' : Table) (fd j : ℕ) (v : Option Event) → update k fd v ≡ k' → j ≢ fd → k' j ≡ k j
updated_others k k' fd j v same h = rw (← same) (update_other k fd j v h)

pub table_others :
    (op : Op) (o : Option Event) (k k' : Table) (fd j : ℕ) (e : Event)
    → ctl_in op o k fd e ≡ done k'
    → j ≢ fd
    → k' j ≡ k j
unfolding ctl_in
table_others add none k k' fd j e h n = updated_others k k' fd j (some e) (cc) n
table_others add (some x) k k' fd j e h n = cc
table_others modify none k k' fd j e h n = cc
table_others modify (some x) k k' fd j e h n = updated_others k k' fd j (some e) (cc) n
table_others delete none k k' fd j e h n = cc
table_others delete (some x) k k' fd j e h n = updated_others k k' fd j none (cc) n

pub table_exists :
    (op : Op) (o : Option Event) (k : Table) (fd : ℕ) (e : Event)
    → ctl_in op o k fd e ≡ failed eexist
    → (op ≡ add) × (o ≢ none)
unfolding ctl_in
table_exists add none k fd e h = cc
table_exists add (some x) k fd e h = (refl, λ q. cc)
table_exists modify none k fd e h = absurd (ground arith)
table_exists modify (some x) k fd e h = cc
table_exists delete none k fd e h = absurd (ground arith)
table_exists delete (some x) k fd e h = cc

pub table_missing :
    (op : Op) (o : Option Event) (k : Table) (fd : ℕ) (e : Event)
    → ctl_in op o k fd e ≡ failed enoent
    → (op ≢ add) × (o ≡ none)
unfolding ctl_in
table_missing add none k fd e h = cc
table_missing add (some x) k fd e h = absurd (ground arith)
table_missing modify none k fd e h = ((λ q. cc), refl)
table_missing modify (some x) k fd e h = cc
table_missing delete none k fd e h = ((λ q. cc), refl)
table_missing delete (some x) k fd e h = cc

abbrev pub table : Epoll
table = record {
  Kernel = Table;
  interest = λ k fd. k fd;
  ctl = table_ctl;
  ctl_add = λ k k' fd e. table_add (k fd) k k' fd e;
  ctl_modify = λ k k' fd e. table_modify (k fd) k k' fd e;
  ctl_delete = λ k k' fd e. table_delete (k fd) k k' fd e;
  ctl_others = λ k k' op fd j e. table_others op (k fd) k k' fd j e;
  ctl_exists = λ k op fd e. table_exists op (k fd) k fd e;
  ctl_missing = λ k op fd e. table_missing op (k fd) k fd e;
}

abbrev pub no_interest : Table
no_interest j = none

abbrev pub empty_poller : Poller
empty_poller = record { focus_ = []; evs_ = [] }
