-- ===== src/PhpCount/Threads.antt =====
-- Requests that are served at the same time: processes of libs/phpcount.rs over one database, whose
-- queries are interleaved in any order.
use crackstation_rust.Base.{
  ℕ, ◌==◌, Bool, true, false, Option, none, some, List, [], ◌∷◌, Bool-cases, inl, inr,
  if◌then◌else◌,
}
use crackstation_rust.PhpCount.Store.{
  Database, Process, finish, call, Program, and_then, on_success, ◌>>=◌, ok, query, run,
}

pub record System (A : Type 0) : Type 0 where
  pub database : Database
  pub threads : ℕ → Process A

-- One query of a process, and whether it fails.
unfoldable pub perform : {A : Type 0} → Bool → Process A → Database → Process A × Database
perform fault (finish a) db = (finish a, db)
perform true (call next change failed) db = (failed, db)
perform false (call next change failed) db = (next db, change db)

abbrev pub update : {A : Type 0} → (ℕ → A) → ℕ → A → ℕ → A
update f i a j = if i == j then a else f j

-- The next query of one thread.
abbrev pub picked : {A : Type 0} → ℕ → Bool → System A → System A
picked i fault s = record {
  database = (perform fault (s.threads i) s.database).1;
  threads = update s.threads i (perform fault (s.threads i) s.database).0;
}

pub data Step {A : Type 0} (s : System A) : System A → Type 0 where
  pick : (i : ℕ) (fault : Bool) → Step s (picked i fault s)

pub data Reach {A : Type 0} (s : System A) : System A → Type 0 where
  start : Reach s s
  later : {t after : System A} → Reach s t → Step t after → Reach s after

-- Threads that take a step in turn, none of them failing; the first of the list takes the last one.
abbrev pub scheduled : {A : Type 0} → List ℕ → System A → System A
scheduled [] s = s
scheduled (i ∷ picks) s = picked i false (scheduled picks s)

pub Reach-scheduled : {A : Type 0} (picks : List ℕ) (s : System A) → Reach s (scheduled picks s)
Reach-scheduled [] s = start
Reach-scheduled (i ∷ picks) s = later (Reach-scheduled picks s) (pick i false)

-- Every query of a process changes the database as `R` says.
pub data Within (R : Database → Database → Type 0) {A : Type 0} : Process A → Type 0 where
  finished : (a : A) → Within R (finish a)
  calling :
      (next : Database → Process A) (change : Database → Database) (failed : Process A)
      → ((db : Database) → R db (change db))
      → ((db : Database) → Within R (next db))
      → Within R failed
      → Within R (call next change failed)

module _ {R : Database → Database → Type 0} where
  pub Within-and_then :
      {A B : Type 0} {p : Process A} (f : A → Process B)
      → Within R p
      → ((a : A) → Within R (f a))
      → Within R (and_then p f)
  unfolding and_then
  Within-and_then f (finished a) h = h a
  Within-and_then f (calling next change failed step rest ended) h =
      calling _ _ _ step (λ db. Within-and_then f (rest db) h) (Within-and_then f ended h)

  Within-on_success :
      {A B : Type 0} (f : A → Program B) (o : Option A)
      → ((a : A) → Within R (f a))
      → Within R (on_success f o)
  unfolding on_success
  Within-on_success f none h = finished none
  Within-on_success f (some a) h = h a

  pub Within-bind :
      {A B : Type 0} {p : Program A} (f : A → Program B)
      → Within R p
      → ((a : A) → Within R (f a))
      → Within R (p >>= f)
  unfolding ◌>>=◌
  Within-bind f g h = Within-and_then _ g (λ o. Within-on_success f o h)

  pub Within-query :
      {A : Type 0} (q : Database → A × Database)
      → ((db : Database) → R db (q db).1)
      → Within R (query q)
  unfolding query ok
  Within-query q h = calling _ _ _ h (λ db. finished _) (finished none)

  module _ (same : (db : Database) → R db db)
      (both : (a b c : Database) → R a b → R b c → R a c) where
    -- A run that nothing interleaves, with any queries failing.
    pub run-Within :
        {A : Type 0} {p : Process A} (faults : List Bool) (db : Database)
        → Within R p
        → R db (run p faults db).1.database
    unfolding run
    run-Within faults db (finished a) = same db
    run-Within [] db (calling next change failed step rest ended) =
        both _ _ _ (step db) (run-Within [] (change db) (rest db))
    run-Within (true ∷ faults) db (calling next change failed step rest ended) =
        run-Within faults db ended
    run-Within (false ∷ faults) db (calling next change failed step rest ended) =
        both _ _ _ (step db) (run-Within faults (change db) (rest db))

    perform-Within :
        {A : Type 0} {p : Process A} (fault : Bool) (db : Database)
        → Within R p
        → R db (perform fault p db).1 × Within R (perform fault p db).0
    unfolding perform
    perform-Within fault db (finished a) = (same db, finished a)
    perform-Within true db (calling next change failed step rest ended) = (same db, ended)
    perform-Within false db (calling next change failed step rest ended) = (step db, rest db)

    update-Within :
        {A : Type 0} (threads : ℕ → Process A) (i : ℕ) (p : Process A) (j : ℕ)
        → Within R p
        → Within R (threads j)
        → Within R (update threads i p j)
    update-Within threads i p j h k = elim (Bool-cases (i == j)) [ inl e ↦ rw e h | inr e ↦ rw e k ]

    -- Every interleaving of the processes, with any queries failing.
    pub Reach-Within :
        {A : Type 0} {s t : System A}
        → ((i : ℕ) → Within R (s.threads i))
        → Reach s t
        → R s.database t.database × ((i : ℕ) → Within R (t.threads i))
    Reach-Within h start = (same _, h)
    Reach-Within {A} {s} h (later {t} r (pick i fault)) =
        let (so_far, threads) = Reach-Within h r in
        let (step, rest) = perform-Within fault t.database (threads i) in
        (both _ _ _ so_far step, λ j. update-Within t.threads i _ j rest (threads j))
