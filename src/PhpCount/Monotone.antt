-- ===== src/PhpCount/Monotone.antt =====
-- The counts and the primary keys of libs/phpcount.rs under visits that fail and interleave.
use crackstation_rust.Base.{ℕ, ◌≤◌, Bool, List, Text, ◌≡◌, refl}
use crackstation_rust.PhpCount.Store.{Database, Process, query, run}
use crackstation_rust.PhpCount.Queries.{has_row, select_time, select_count, select_total}
use crackstation_rust.PhpCount.Threads.{
  System, Reach, Within, finished, Within-and_then, Within-query, run-Within, Reach-Within,
}
use crackstation_rust.PhpCount.Evolves.{
  counted, Evolves, Evolves-same, Evolves-both, Evolves-insert_row, Evolves-increment,
  Evolves-upsert_time, Evolves-delete_old,
}
use crackstation_rust.PhpCount.Statements.{Visit, OfStatements, of-record_and_get_hits, visited}
use crackstation_rust.PhpCount.{Moment, HitCounts, record_and_get_hits}

module _ (collates : Text → Text → Bool) where
  abbrev Keeps : {A : Type 0} → Process A → Type 0
  Keeps = Within (Evolves collates)

  Keeps-read :
      {A : Type 0} (q : Database → A × Database)
      → ((db : Database) → (q db).1 ≡ db)
      → Keeps (query q)
  Keeps-read q h = Within-query q (λ db. rw (h db) (Evolves-same collates db))

  Keeps-OfStatements : OfStatements collates (λ A p. Keeps p)
  unfolding has_row select_time select_count select_total
  Keeps-OfStatements = record {
    of_finish = λ A a. finished a;
    of_and_then = λ A B p f g h. Within-and_then f g h;
    of_has_row = λ p k. Keeps-read _ (λ db. refl);
    of_insert_row = λ p k. Within-query _ (Evolves-insert_row collates p k);
    of_increment = λ p k. Within-query _ (Evolves-increment collates p k);
    of_select_time = λ hash. Keeps-read _ (λ db. refl);
    of_upsert_time = λ hash now. Within-query _ (Evolves-upsert_time collates hash now);
    of_delete_old = λ now. Within-query _ (Evolves-delete_old collates now);
    of_select_count = λ p k. Keeps-read _ (λ db. refl);
    of_select_total = λ k. Keeps-read _ (λ db. refl);
  }

  module _ (hmac : Text → Text → Text) (u : Text → ℕ → Text → Text) where
    Keeps-record_and_get_hits :
        (now : ℕ) (test log : Moment) (p ip agent : Text)
        → Keeps (record_and_get_hits hmac collates u now test log p ip agent)
    Keeps-record_and_get_hits = of-record_and_get_hits collates Keeps-OfStatements hmac u

    Reach-visits :
        (visit : ℕ → Visit) {s t : System HitCounts}
        → ((i : ℕ) → s.threads i ≡ visited collates hmac u (visit i))
        → Reach s t
        → Evolves collates s.database t.database × ((i : ℕ) → Keeps (t.threads i))
    Reach-visits visit h =
        Reach-Within (Evolves-same collates) (Evolves-both collates)
          (λ i. rw (h i) (Keeps-record_and_get_hits _ _ _ _ _ _))

    -- Whichever of its queries fail, a visit that no other interleaves leaves no page with fewer hits,
    -- unique or not.
    pub record_and_get_hits-grows :
        (now : ℕ) (test log : Moment) (p ip agent : Text) (faults : List Bool) (db : Database)
        (page : Text) (unique : Bool)
        → counted collates page unique db.cshits
          ≤ counted collates page unique
              (run
                (record_and_get_hits hmac collates u now test log p ip agent)
                faults
                db).1.database.cshits
    record_and_get_hits-grows now test log p ip agent faults db =
        (run-Within (Evolves-same collates) (Evolves-both collates) faults db
          (Keeps-record_and_get_hits now test log p ip agent)).grows

    -- Visits that are served at the same time, with their queries interleaved in any order and any of
    -- them failing, leave no page with fewer hits, unique or not.
    visits-Grow :
        (visit : ℕ → Visit) {s t : System HitCounts}
        → ((i : ℕ) → s.threads i ≡ visited collates hmac u (visit i))
        → Reach s t
        → (page : Text) (unique : Bool)
        → counted collates page unique s.database.cshits
          ≤ counted collates page unique t.database.cshits
    visits-Grow visit h r = ((Reach-visits visit h r).0).grows
