-- ===== src/PhpCount/Visits.antt =====
-- A visit of libs/phpcount.rs that succeeds refines a visit of the abstract counter.
use crackstation_rust.Base.{
  ℕ, ◌≤◌, Bool, true, false, some, [], Text, ◌≡◌, refl, subst, ◌∙◌, if◌then◌else◌,
}
use crackstation_rust.PhpCount.Store.{
  done, Database, Program, ok, query, run, and_then, on_success, ◌>>=◌,
}
use crackstation_rust.PhpCount.Queries.{is_old, time_in, increment, delete_old}
use crackstation_rust.PhpCount.Tables.{IsCollation}
use crackstation_rust.PhpCount.Rows.{is_old-Forgets}
use crackstation_rust.PhpCount.Counter.{Counter, one_hit, seen, visit}
use crackstation_rust.PhpCount.Refinement.{
  Shows, Shows-delete_old, Shows-increment, Shows-upsert_time,
}
use crackstation_rust.PhpCount.Runs.{
  calm, run-bind, Stands, Stands-increment, Stands-upsert_time, create_counts-Creates,
  run-is_unique_hit, run-count_unique,
}
use crackstation_rust.PhpCount.{
  Moment, VisitorKey, cleanup, id_hash, count_hit, count_unique, count_visit, add_hit,
  is_search_bot,
}

module _ (collates : Text → Text → Bool) (c : IsCollation collates) (hmac : Text → Text → Text)
    (u : Text → ℕ → Text → Text) where
  abbrev pub identifier : VisitorKey → Text → Text → Text
  identifier = id_hash hmac collates u

  -- The end of a program without a fault, and the counter that the tables then show.
  abbrev pub EndsIn : {A : Type 0} → Program A → A → ℕ → Database → Counter → Type 0
  EndsIn m a clock db counter =
      (after : Database) × (run m [] db ≡ (some a, calm after))
      × Shows collates c clock after counter

  run-cleanup :
      (now : ℕ) (db : Database) → run (cleanup now) [] db ≡ (some done, calm (delete_old now db).1)
  unfolding cleanup delete_old run query ok
  run-cleanup now db = refl

  count_unique-EndsIn :
      (at : Moment) (p ip : Text) (unique : Bool) (clock : ℕ) (db : Database) (counter : Counter)
      → ((k : Bool) → Stands collates c p k db)
      → Shows collates c clock db counter
      → (after : Database) × (run (count_unique hmac collates u at p ip unique) [] db
          ≡ (some done, calm after))
        × Stands collates c p false after
        × Shows collates c clock after (
            if unique
            then seen collates
                (identifier at.visitor_key p ip)
                at.now
                (one_hit collates p true counter)
            else counter)
  count_unique-EndsIn at p ip true clock db counter stand s = (
    _,
    run-count_unique collates c hmac u at p ip db,
    Stands-upsert_time collates c p false _ at.now _
        (Stands-increment collates c p p false true db (stand false)),
    Shows-upsert_time collates c _ at.now (Shows-increment collates c p true (stand true) s),
  )
  count_unique-EndsIn at p ip false clock db counter stand s =
      (db, unfold count_unique ok run in refl, stand false, s)

  count_hit-EndsIn :
      (p : Text) (clock : ℕ) (db : Database) (counter : Counter)
      → Stands collates c p false db
      → Shows collates c clock db counter
      → EndsIn
          (do _ ← count_hit collates p false; ok true)
          true
          clock
          db
          (one_hit collates p false counter)
  unfolding count_hit increment run query ok ◌>>=◌ on_success and_then
  count_hit-EndsIn p clock db counter stand s =
      (_, refl, Shows-increment collates c p false stand s)

  -- The counter behind a visit.
  abbrev pub visited_counter : Moment → Moment → Text → Text → Counter → Counter
  visited_counter test log p ip =
      visit collates (identifier test.visitor_key p ip) test.now (identifier log.visitor_key p ip)
        log.now p

  count_visit-EndsIn :
      (clock at_cleanup : ℕ) (test log : Moment) (p ip : Text) (db : Database) (counter : Counter)
      → clock ≤ at_cleanup
      → at_cleanup ≤ test.now
      → Shows collates c clock db counter
      → EndsIn
          (count_visit hmac collates u at_cleanup test log p ip)
          true
          at_cleanup
          db
          (visited_counter test log p ip counter)
  unfolding count_visit visit
  count_visit-EndsIn clock at_cleanup test log p ip db counter le later s =
      let hash = identifier test.visitor_key p ip in
      let swept = (delete_old at_cleanup db).1 in
      let both = create_counts-Creates collates c p swept in
      let shown = both.shows at_cleanup counter (Shows-delete_old collates c le s) in
      let unique = is_old test.now (time_in collates hash both.after.csnodupes) in
      let (logged, ran, stands, shows) =
        count_unique-EndsIn log p ip unique at_cleanup both.after counter both.both_stand shown in
      let (after, ended, last) = count_hit-EndsIn p at_cleanup logged _ stands shows in
      (
        after,
        run-bind _ _ db swept _ (run-cleanup at_cleanup db)
            ∙ run-bind _ _ swept both.after _ both.runs
            ∙ run-bind _ _ both.after both.after _
                (run-is_unique_hit collates c hmac u test p ip both.after)
            ∙ run-bind _ _ both.after logged _ ran
            ∙ ended,
        subst
            (λ b. Shows collates c at_cleanup after (
              one_hit collates p false (
                if b
                then seen collates (identifier log.visitor_key p ip) log.now
                    (one_hit collates p true counter)
                else counter)))
            (is_old-Forgets at_cleanup test.now _ _ later (shown.same_last hash)) last,
      )

  -- Under a collation that compares as an equivalence, where the tables show a counter but for the
  -- visits that sweeps up to an earlier time forgot, and the test reads no earlier time than the
  -- sweep: a visit by no search bot, whose queries all succeed with no other visit between them,
  -- returns true, and the tables then show the counter behind the visit, in which the page has one
  -- hit more, and one unique hit more exactly where the visitor had none in the last 30 days.
  pub add_hit-Refines :
      (clock at_cleanup : ℕ) (test log : Moment) (p ip agent : Text) (db : Database)
      (counter : Counter)
      → is_search_bot hmac collates u agent ≡ false
      → clock ≤ at_cleanup
      → at_cleanup ≤ test.now
      → Shows collates c clock db counter
      → EndsIn
          (add_hit hmac collates u at_cleanup test log p ip agent)
          true
          at_cleanup
          db
          (visited_counter test log p ip counter)
  unfolding add_hit
  add_hit-Refines clock at_cleanup test log p ip agent db counter human le later s =
      rw human (count_visit-EndsIn clock at_cleanup test log p ip db counter le later s)
