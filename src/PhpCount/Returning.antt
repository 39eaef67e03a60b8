-- ===== src/PhpCount/Returning.antt =====
-- Two visits of one visitor to one page, by libs/phpcount.rs.
use crackstation_rust.Base.{
  ℕ, ◌+◌, ◌≤◌, Bool, true, false, Option, none, some, [], Text, Bool-cases, inl, inr, ◌≡◌, refl,
  subst, arith, if◌then◌else◌,
}
use crackstation_rust.PhpCount.Store.{Database, run}
use crackstation_rust.PhpCount.Queries.{is_old, time_in}
use crackstation_rust.PhpCount.Tables.{IsCollation, HitsAreKeyed, SeenAreKeyed}
use crackstation_rust.PhpCount.Evolves.{counted}
use crackstation_rust.PhpCount.Rows.{Forgets}
use crackstation_rust.PhpCount.Counter.{Counter, one_hit, seen, visit}
use crackstation_rust.PhpCount.Refinement.{Shows}
use crackstation_rust.PhpCount.Runs.{calm}
use crackstation_rust.PhpCount.Visits.{visited_counter, add_hit-Refines}
use crackstation_rust.PhpCount.{Moment, id_hash, add_hit, is_search_bot}

Forgets-refl : (clock : ℕ) (o : Option ℕ) → Forgets clock o o
Forgets-refl clock none = _
Forgets-refl clock (some t) = refl

module _ (collates : Text → Text → Bool) (c : IsCollation collates) where
  -- The counter that tables with their keys show, when nothing is forgotten.
  pub counter_of : Database → Counter
  counter_of db = record {
    hits = λ page unique. counted collates page unique db.cshits;
    last = λ visitor. time_in collates visitor db.csnodupes;
  }

  pub Shows-counter_of :
      (clock : ℕ) (db : Database)
      → HitsAreKeyed collates db.cshits
      → SeenAreKeyed collates db.csnodupes
      → Shows collates c clock db (counter_of db)
  unfolding counter_of
  Shows-counter_of clock db hits times = record {
    hits_keyed = hits;
    seen_keyed = times;
    same_hits = λ page unique. refl;
    same_last = λ visitor. Forgets-refl clock _;
  }

  -- A visit that is counted as unique leaves its time under its identifier.
  last_of_visit :
      (v w logged : Text) (now noted : ℕ) (p : Text) (counter : Counter)
      → is_old now (counter.last v) ≡ true
      → collates logged w ≡ true
      → (visit collates v now logged noted p counter).last w ≡ some noted
  unfolding visit one_hit seen
  last_of_visit v w logged now noted p counter old same = rw (old, same) refl

  unique_hits_of_visit :
      (v logged : Text) (now noted : ℕ) (p : Text) (counter : Counter)
      → (visit collates v now logged noted p counter).hits p true
        ≡ counter.hits p true + (if is_old now (counter.last v) then 1 else 0)
  unfolding visit one_hit seen
  unique_hits_of_visit v logged now noted p counter =
      elim (Bool-cases (is_old now (counter.last v))) [
        | inl e ↦ rw (e, c.reflexive p) (omega arith)
        | inr e ↦ rw (e, c.reflexive p) (omega arith)
      ]

  hits_of_visit :
      (v logged : Text) (now noted : ℕ) (p : Text) (counter : Counter)
      → (visit collates v now logged noted p counter).hits p false ≡ counter.hits p false + 1
  unfolding visit one_hit seen
  hits_of_visit v logged now noted p counter = elim (Bool-cases (is_old now (counter.last v))) [
    | inl e ↦ rw (e, c.reflexive p) (omega arith)
    | inr e ↦ rw (e, c.reflexive p) (omega arith)
  ]

  module _ (hmac : Text → Text → Text) (u : Text → ℕ → Text → Text) where
    -- What two visits to a page leave, with `again` for a visitor that counts as unique twice.
    abbrev pub AddsTwo : Text → Bool → Database → Database → Type 0
    AddsTwo p again before after =
        (counted collates p false after.cshits ≡ counted collates p false before.cshits + 2)
        × (counted collates p true after.cshits
            ≡ counted collates p true before.cshits + 1 + (if again then 1 else 0))

    -- Under a collation that compares as an equivalence, in tables with their primary keys: a visitor
    -- that was not counted as unique in the last 30 days visits a page twice, not as a search bot,
    -- the clock does not run backwards, the key is the same at the first log and the second test,
    -- every query succeeds and no other visit comes between. Then both visits return true, the page
    -- has two hits more, and it has two unique hits more if the second visit is 30 days behind the
    -- first or later, else one.
    pub add_hit-twice :
        (at_1 at_2 : ℕ) (test_1 log_1 test_2 log_2 : Moment) (p ip agent : Text) (db : Database)
        → is_search_bot hmac collates u agent ≡ false
        → HitsAreKeyed collates db.cshits
        → SeenAreKeyed collates db.csnodupes
        → at_1 ≤ test_1.now
        → at_1 ≤ at_2
        → at_2 ≤ test_2.now
        → is_old test_1.now
            (time_in collates (id_hash hmac collates u test_1.visitor_key p ip) db.csnodupes)
          ≡ true
        → id_hash hmac collates u log_1.visitor_key p ip
          ≡ id_hash hmac collates u test_2.visitor_key p ip
        → (between : Database) × (after : Database) × (run
              (add_hit hmac collates u at_1 test_1 log_1 p ip agent)
              []
              db
            ≡ (some true, calm between))
          × (run (add_hit hmac collates u at_2 test_2 log_2 p ip agent) [] between
              ≡ (some true, calm after))
          × AddsTwo p (is_old test_2.now (some log_1.now)) db after
    unfolding counter_of
    add_hit-twice at_1 at_2 test_1 log_1 test_2 log_2 p ip agent db human hits times h_1 le h_2 old
          same =
        let first = visited_counter collates c hmac u test_1 log_1 p ip (counter_of db) in
        let (between, ran_1, shows_1) =
          add_hit-Refines collates c hmac u at_1 at_1 test_1 log_1 p ip agent db (counter_of db)
            human (omega arith) h_1 (Shows-counter_of at_1 db hits times) in
        let (after, ran_2, shows_2) =
          add_hit-Refines collates c hmac u at_1 at_2 test_2 log_2 p ip agent between first human le
            h_2 shows_1 in
        let noted = last_of_visit _ _ _ test_1.now log_1.now p (counter_of db) old (
          subst (λ h. collates (id_hash hmac collates u log_1.visitor_key p ip) h ≡ true) same
            (c.reflexive _)) in
        (
          between,
          after,
          ran_1,
          ran_2,
          (
            rw
                (
                  shows_2.same_hits p false,
                  hits_of_visit _ _ test_2.now log_2.now p first,
                  hits_of_visit _ _ test_1.now log_1.now p (counter_of db),
                )
                (omega arith),
            rw
                (
                  shows_2.same_hits p true,
                  unique_hits_of_visit _ _ test_2.now log_2.now p first,
                  unique_hits_of_visit _ _ test_1.now log_1.now p (counter_of db),
                  noted,
                  old,
                )
                refl,
          ),
        )
