-- ===== src/PhpCount/Runs.antt =====
-- Runs of the programs of libs/phpcount.rs without a fault and without another visit between.
use crackstation_rust.Base.{
  ℕ, Bool, true, false, some, [], Text, any, Bool-cases, inl, inr, ◌≡◌, refl, ap, ◌∙◌,
  if◌then◌else◌,
}
use crackstation_rust.PhpCount.Store.{
  Done, done, Database, State, Process, Program, finish, call, and_then, on_success, ◌>>=◌, ok,
  query, run,
}
use crackstation_rust.PhpCount.Queries.{
  is_old, is_row, has_row, insert_row, increment, time_in, select_time, upsert_time,
}
use crackstation_rust.PhpCount.Tables.{
  IsCollation, any-append_old, any-append_new, same_kind_refl, any-incremented,
}
use crackstation_rust.PhpCount.Counter.{Counter}
use crackstation_rust.PhpCount.Refinement.{Shows, Shows-insert_row}
use crackstation_rust.PhpCount.{
  Moment, execute_insert, create_if_absent, create_counts_if_not_present, id_hash, is_unique_hit,
  log_hit, count_hit, count_unique,
}

-- The state behind a run in which no query is to fail.
abbrev pub calm : Database → State
calm db = record { database = db; faults = [] }

pub run-and_then :
    {A B : Type 0} (p : Process A) (f : A → Process B) (db : Database)
    → run (and_then p f) [] db ≡ run (f (run p [] db).0) [] (run p [] db).1.database
unfolding run and_then
run-and_then (finish a) f db = refl
run-and_then (call next change failed) f db = run-and_then (next db) f (change db)

pub run-bind :
    {A B : Type 0} (m : Program A) (f : A → Program B) (db after : Database) (a : A)
    → run m [] db ≡ (some a, calm after)
    → run (m >>= f) [] db ≡ run (f a) [] after
unfolding ◌>>=◌ on_success
run-bind m f db after a e = rw (run-and_then m (on_success f) db, e) refl

run-query :
    {A : Type 0} (q : Database → A × Database) (db : Database)
    → run (query q) [] db ≡ (some (q db).0, calm (q db).1)
unfolding run query ok
run-query q db = refl

module _ (collates : Text → Text → Bool) (c : IsCollation collates) where
  -- A page has its row of a kind.
  abbrev pub Stands : Text → Bool → Database → Type 0
  Stands page unique db = any (is_row collates page unique) db.cshits ≡ true

  -- The run of a creation: the row is there, no row is lost, and no count changes.
  record Creates (m : Program Done) (p : Text) (k : Bool) (db : Database) : Type 0 where
    after : Database
    runs : run m [] db ≡ (some done, calm after)
    stands : Stands p k after
    keeps : (q : Text) (l : Bool) → Stands q l db → Stands q l after
    shows :
        (clock : ℕ) (counter : Counter)
        → Shows collates c clock db counter
        → Shows collates c clock after counter

  abbrev insert_unless : Text → Bool → Bool → Program Done
  insert_unless p k present = if present then ok done else execute_insert collates p k

  run-create_if_absent :
      (p : Text) (k : Bool) (db : Database)
      → run (create_if_absent collates p k) [] db
        ≡ run (insert_unless p k (any (is_row collates p k) db.cshits)) [] db
  unfolding create_if_absent has_row
  run-create_if_absent p k db = run-bind _ (insert_unless p k) db db _ (run-query _ db)

  run-insertion :
      (p : Text) (k : Bool) (db : Database)
      → run (execute_insert collates p k) [] db
        ≡ ((insert_row collates p k db).0, calm (insert_row collates p k db).1)
  unfolding execute_insert run query ok ◌>>=◌ on_success and_then
  run-insertion p k db = refl

  run-execute_insert :
      (p : Text) (k : Bool) (db : Database)
      → any (is_row collates p k) db.cshits ≡ false
      → run (execute_insert collates p k) [] db ≡ (some done, calm (insert_row collates p k db).1)
  unfolding insert_row
  run-execute_insert p k db e = run-insertion p k db ∙ rw e refl

  create_if_absent-Creates :
      (p : Text) (k : Bool) (db : Database) → Creates (create_if_absent collates p k) p k db
  unfolding insert_row run ok
  create_if_absent-Creates p k db = elim (Bool-cases (any (is_row collates p k) db.cshits)) [
    | inl e ↦ record {
      after = db;
      runs = run-create_if_absent p k db ∙ ap (λ b. run (insert_unless p k b) [] db) e;
      stands = e;
      keeps = λ q l h. h;
      shows = λ clock counter h. h;
    }
    | inr e ↦ record {
      after = (insert_row collates p k db).1;
      runs =
          run-create_if_absent p k db
          ∙ ap (λ b. run (insert_unless p k b) [] db) e
          ∙ run-execute_insert p k db e;
      stands = rw e (
          any-append_new (is_row collates p k) db.cshits _ (rw (c.reflexive p) (same_kind_refl k)));
      keeps = λ q l h. rw e (any-append_old _ db.cshits _ h);
      shows = λ clock counter h. Shows-insert_row collates c p k e h;
    }
  ]

  -- The run of the creation of both rows of a page.
  pub record CreatesBoth (p : Text) (db : Database) : Type 0 where
    pub after : Database
    pub runs : run (create_counts_if_not_present collates p) [] db ≡ (some done, calm after)
    pub both_stand : (k : Bool) → Stands p k after
    pub shows :
        (clock : ℕ) (counter : Counter)
        → Shows collates c clock db counter
        → Shows collates c clock after counter

  pub create_counts-Creates : (p : Text) (db : Database) → CreatesBoth p db
  unfolding create_counts_if_not_present
  create_counts-Creates p db =
      let first = create_if_absent-Creates p false db in
      let second = create_if_absent-Creates p true first.after in
      record {
        after = second.after;
        runs = run-bind _ _ db first.after _ first.runs ∙ second.runs;
        both_stand = λ k. elim k as (λ k. Stands p k second.after) [
          | true ↦ second.stands
          | false ↦ second.keeps p false first.stands
        ];
        shows = λ clock counter s. second.shows clock counter (first.shows clock counter s);
      }

  pub Stands-increment :
      (q p : Text) (l k : Bool) (db : Database)
      → Stands q l db
      → Stands q l (increment collates p k db).1
  unfolding increment
  Stands-increment q p l k db h = any-incremented collates q p l k db.cshits ∙ h

  pub Stands-upsert_time :
      (q : Text) (l : Bool) (hash : Text) (now : ℕ) (db : Database)
      → Stands q l db
      → Stands q l (upsert_time collates hash now db).1
  unfolding upsert_time
  Stands-upsert_time q l hash now db h = h

  module _ (hmac : Text → Text → Text) (u : Text → ℕ → Text → Text) where
    pub run-is_unique_hit :
        (at : Moment) (p ip : Text) (db : Database)
        → run (is_unique_hit hmac collates u at p ip) [] db ≡ (
          some (
              is_old at.now
                (time_in collates (id_hash hmac collates u at.visitor_key p ip) db.csnodupes)),
          calm db,
        )
    unfolding is_unique_hit select_time run query ok ◌>>=◌ on_success and_then
    run-is_unique_hit at p ip db = refl

    pub run-count_unique :
        (at : Moment) (p ip : Text) (db : Database)
        → run (count_unique hmac collates u at p ip true) [] db ≡ (
          some done,
          calm
              (upsert_time collates
                (id_hash hmac collates u at.visitor_key p ip)
                at.now
                (increment collates p true db).1).1,
        )
    unfolding count_unique log_hit count_hit upsert_time increment run query ok ◌>>=◌ on_success
        and_then
    run-count_unique at p ip db = refl
