-- ===== src/PhpCount/Refinement.antt =====
-- Without a fault and without another visit between its queries, a visit of libs/phpcount.rs does to
-- the tables what the abstract counter does.
use crackstation_rust.Base.{ℕ, ◌≤◌, Bool, true, false, Text, any, ◌≡◌, sym, ◌∙◌}
use crackstation_rust.PhpCount.Store.{Database}
use crackstation_rust.PhpCount.Queries.{
  is_row, insert_row, increment, time_in, upsert_time, delete_old,
}
use crackstation_rust.PhpCount.Tables.{
  IsCollation, HitsAreKeyed, SeenAreKeyed, HitsAreKeyed-append, HitsAreKeyed-incremented,
  SeenAreKeyed-keep, SeenAreKeyed-upserted,
}
use crackstation_rust.PhpCount.Evolves.{counted}
use crackstation_rust.PhpCount.Rows.{
  Forgets, Forgets-keep, Forgets-logged, counted-fresh, counted-incremented, time_in-upserted,
}
use crackstation_rust.PhpCount.Counter.{Counter, one_hit, seen}

module _ (collates : Text → Text → Bool) (c : IsCollation collates) where
  -- The tables show a counter, but for the visits that the sweeps up to a time forgot.
  pub record Shows (clock : ℕ) (db : Database) (counter : Counter) : Type 0 where
    pub hits_keyed : HitsAreKeyed collates db.cshits
    pub seen_keyed : SeenAreKeyed collates db.csnodupes
    pub same_hits :
        (page : Text) (unique : Bool)
        → counted collates page unique db.cshits ≡ counter.hits page unique
    pub same_last :
        (visitor : Text)
        → Forgets clock (time_in collates visitor db.csnodupes) (counter.last visitor)

  pub Shows-delete_old :
      {clock now : ℕ} {db : Database} {counter : Counter}
      → clock ≤ now
      → Shows clock db counter
      → Shows now (delete_old now db).1 counter
  unfolding delete_old
  Shows-delete_old {clock} {now} {db} {counter} le s = record {
    hits_keyed = s.hits_keyed;
    seen_keyed = SeenAreKeyed-keep collates _ db.csnodupes s.seen_keyed;
    same_hits = s.same_hits;
    same_last = λ h.
        Forgets-keep collates c h clock now db.csnodupes (counter.last h) le s.seen_keyed
          (s.same_last h);
  }

  pub Shows-insert_row :
      {clock : ℕ} {db : Database} {counter : Counter} (p : Text) (k : Bool)
      → any (is_row collates p k) db.cshits ≡ false
      → Shows clock db counter
      → Shows clock (insert_row collates p k db).1 counter
  unfolding insert_row
  Shows-insert_row {clock} {db} {counter} p k e s = rw e (record {
    hits_keyed = HitsAreKeyed-append collates c p k db.cshits e s.hits_keyed;
    seen_keyed = s.seen_keyed;
    same_hits = λ q l. counted-fresh collates q p l k db.cshits ∙ s.same_hits q l;
    same_last = s.same_last;
  })

  pub Shows-increment :
      {clock : ℕ} {db : Database} {counter : Counter} (p : Text) (k : Bool)
      → any (is_row collates p k) db.cshits ≡ true
      → Shows clock db counter
      → Shows clock (increment collates p k db).1 (one_hit collates p k counter)
  unfolding increment one_hit
  Shows-increment {clock} {db} {counter} p k e s = record {
    hits_keyed = HitsAreKeyed-incremented collates p k db.cshits s.hits_keyed;
    seen_keyed = s.seen_keyed;
    same_hits = λ q l.
        rw (sym (s.same_hits q l))
          (counted-incremented collates c q p l k db.cshits s.hits_keyed e);
    same_last = s.same_last;
  }

  pub Shows-upsert_time :
      {clock : ℕ} {db : Database} {counter : Counter} (hash : Text) (now : ℕ)
      → Shows clock db counter
      → Shows clock (upsert_time collates hash now db).1 (seen collates hash now counter)
  unfolding upsert_time seen
  Shows-upsert_time {clock} {db} {counter} hash now s = record {
    hits_keyed = s.hits_keyed;
    seen_keyed = SeenAreKeyed-upserted collates c hash now db.csnodupes s.seen_keyed;
    same_hits = s.same_hits;
    same_last = λ h.
        rw (time_in-upserted collates c h hash now db.csnodupes)
          (Forgets-logged clock now _ _ (collates hash h) (s.same_last h));
  }
