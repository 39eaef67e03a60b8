-- ===== src/PhpCount/Shown.antt =====
-- The counts that a visit of libs/phpcount.rs shows.
use crackstation_rust.Base.{
  ℕ, ◌≤◌, Bool, true, false, some, List, [], ◌∷◌, Text, any, Bool-cases, inl, inr, ◌≡◌, refl, ap,
  ◌∙◌, arith,
}
use crackstation_rust.PhpCount.Store.{
  HitRow, Database, Process, and_then, on_success, ◌>>=◌, ok, query, run,
}
use crackstation_rust.PhpCount.Queries.{is_row, count_in, sum_of, select_count, select_total}
use crackstation_rust.PhpCount.Tables.{IsCollation, HitsAreKeyed, neither}
use crackstation_rust.PhpCount.Evolves.{counted}
use crackstation_rust.PhpCount.Rows.{any-alike, rest_holds}
use crackstation_rust.PhpCount.Counter.{Counter}
use crackstation_rust.PhpCount.Refinement.{Shows}
use crackstation_rust.PhpCount.Runs.{calm, run-and_then, run-bind, Stands, create_counts-Creates}
use crackstation_rust.PhpCount.Visits.{visited_counter, add_hit-Refines}
use crackstation_rust.PhpCount.{
  Moment, HitCounts, is_search_bot, add_hit, fetch_count, get_hit_counts, counts_shown,
  record_and_get_hits,
}

module _ (collates : Text → Text → Bool) (c : IsCollation collates) where
  counted-absent :
      (p : Text) (k : Bool) (rows : List HitRow)
      → any (is_row collates p k) rows ≡ false
      → counted collates p k rows ≡ 0
  counted-absent p k [] e = refl
  counted-absent p k (row ∷ rows) e =
      let here : is_row collates p k row ≡ false =
        (neither _ (any (is_row collates p k) rows) e).0 in
      rw here (omega (arith, counted-absent p k rows (neither (is_row collates p k row) _ e).1))

  -- The first row of a page and a kind is its only one.
  count_in-counted :
      (p : Text) (k : Bool) (rows : List HitRow)
      → HitsAreKeyed collates rows
      → any (is_row collates p k) rows ≡ true
      → count_in collates p k rows ≡ some (counted collates p k rows)
  count_in-counted p k [] h e = cc
  count_in-counted p k (row ∷ rows) h e = elim (Bool-cases (is_row collates p k row)) [
    | inl f ↦
        let rest = counted-absent p k rows (any-alike collates c p k row rows f ∙ h.0) in
        rw (f, rest) (ap some (omega arith))
    | inr f ↦ rw f (
        count_in-counted p k rows h.1 (rest_holds (is_row collates p k row) _ f e)
        ∙ ap some (omega arith))
  ]

  run-fetch_count :
      (p : Text) (k : Bool) (db : Database)
      → run (fetch_count collates p k) [] db ≡ (count_in collates p k db.cshits, calm db)
  unfolding fetch_count select_count run query ok ◌>>=◌ on_success and_then
  run-fetch_count p k db = refl

  run-select_total :
      (k : Bool) (db : Database)
      → run (query (select_total k)) [] db ≡ (some (sum_of k db.cshits), calm db)
  unfolding select_total run query ok
  run-select_total k db = refl

  run-ok : {A : Type 0} (a : A) (db : Database) → run (ok a) [] db ≡ (some a, calm db)
  unfolding run ok
  run-ok a db = refl

  fetch_count_lem :
      (p : Text) (k : Bool) (clock : ℕ) (db : Database) (counter : Counter)
      → Stands collates c p k db
      → Shows collates c clock db counter
      → run (fetch_count collates p k) [] db ≡ (some (counter.hits p k), calm db)
  fetch_count_lem p k clock db counter stands s =
      run-fetch_count p k db
      ∙ rw (count_in-counted p k db.cshits s.hits_keyed stands, s.same_hits p k) refl

  -- The counts of a page and of the site, as a counter and its tables have them.
  abbrev pub counts_of : Text → Counter → Database → HitCounts
  counts_of p counter db = record {
    page_hits = counter.hits p false;
    unique_hits = counter.hits p true;
    total_hits = sum_of false db.cshits;
    total_unique_hits = sum_of true db.cshits;
  }

  abbrev pub Gives : Process HitCounts → Text → ℕ → Database → Counter → Type 0
  Gives m p clock db counter =
      (after : Database) × (run m [] db ≡ (counts_of p counter after, calm after))
      × Shows collates c clock after counter

  get_hit_counts-Gives :
      (p : Text) (clock : ℕ) (db : Database) (counter : Counter)
      → Shows collates c clock db counter
      → (after : Database) × (run (get_hit_counts collates p) [] db
          ≡ (some (counts_of p counter after), calm after))
        × Shows collates c clock after counter
  unfolding get_hit_counts
  get_hit_counts-Gives p clock db counter s =
      let both = create_counts-Creates collates c p db in
      let shown = both.shows clock counter s in
      let after = both.after in
      (
        after,
        run-bind _ _ db after _ both.runs
            ∙ run-bind _ _ after after _
                (fetch_count_lem p false clock after counter (both.both_stand false) shown)
            ∙ run-bind _ _ after after _
                (fetch_count_lem p true clock after counter (both.both_stand true) shown)
            ∙ run-bind _ _ after after _ (run-select_total false after)
            ∙ run-bind _ _ after after _ (run-select_total true after)
            ∙ run-ok (counts_of p counter after) after,
        shown,
      )

  counts_shown-Gives :
      (p : Text) (clock : ℕ) (db : Database) (counter : Counter)
      → Shows collates c clock db counter
      → Gives (counts_shown collates p) p clock db counter
  unfolding counts_shown
  counts_shown-Gives p clock db counter s =
      let (after, ran, shown) = get_hit_counts-Gives p clock db counter s in
      (after, run-and_then (get_hit_counts collates p) _ db ∙ rw ran (unfold run in refl), shown)

  module _ (hmac : Text → Text → Text) (u : Text → ℕ → Text → Text) where
    -- Under a collation that compares as an equivalence, where the tables show a counter but for the
    -- visits that sweeps up to an earlier time forgot, and the test reads no earlier time than the
    -- sweep: a visit by no search bot, whose queries all succeed with no other visit between them,
    -- gives the hits and the unique hits of its page as the counter has them behind the visit, which
    -- is among them, and the sums of both kinds over all rows.
    pub record_and_get_hits-Gives :
        (clock at_cleanup : ℕ) (test log : Moment) (p ip agent : Text) (db : Database)
        (counter : Counter)
        → is_search_bot hmac collates u agent ≡ false
        → clock ≤ at_cleanup
        → at_cleanup ≤ test.now
        → Shows collates c clock db counter
        → Gives
            (record_and_get_hits hmac collates u at_cleanup test log p ip agent)
            p
            at_cleanup
            db
            (visited_counter collates c hmac u test log p ip counter)
    unfolding record_and_get_hits
    record_and_get_hits-Gives clock at_cleanup test log p ip agent db counter human le later s =
        let (between, ran, shows) =
          add_hit-Refines collates c hmac u clock at_cleanup test log p ip agent db counter human le
            later s in
        let (after, given, shown) = counts_shown-Gives p at_cleanup between _ shows in
        (
          after,
          run-and_then (add_hit hmac collates u at_cleanup test log p ip agent) _ db ∙ rw ran given,
          shown,
        )
