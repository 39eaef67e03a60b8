-- ===== src/PhpCount/Evolves.antt =====
-- What the statements of libs/phpcount.rs may do to the tables: no counter falls, and the primary
-- keys stay.
use crackstation_rust.Base.{
  ℕ, ◌+◌, ◌≤◌, Bool, List, [], ◌∷◌, ◌++◌, Text, true, ◌∙◌, Bool-cases, inl, inr, any, ◌≡◌, arith,
  if◌then◌else◌,
}
use crackstation_rust.PhpCount.Store.{HitRow, Database}
use crackstation_rust.PhpCount.Queries.{
  is_row, insert_row, incremented, increment, upsert_time, delete_old,
}
use crackstation_rust.PhpCount.Tables.{
  any-append_old, any-incremented, IsCollation, HitsAreKeyed, HitsAreKeyed-incremented,
  HitsAreKeyed-append, SeenAreKeyed, SeenAreKeyed-keep, SeenAreKeyed-upserted,
}

module _ (collates : Text → Text → Bool) where
  -- The hits in the rows of a page and of a kind.
  abbrev pub counted : Text → Bool → List HitRow → ℕ
  counted page unique [] = 0
  counted page unique (row ∷ rows) =
      (if is_row collates page unique row then row.hitcount else 0) + counted page unique rows

  -- What a query may do to the tables.
  pub record Evolves (before after : Database) : Type 0 where
    pub grows :
        (page : Text) (unique : Bool)
        → counted page unique before.cshits ≤ counted page unique after.cshits
    pub hits_keyed :
        IsCollation collates
        → HitsAreKeyed collates before.cshits
        → HitsAreKeyed collates after.cshits
    pub rows_stay :
        (page : Text) (unique : Bool)
        → any (is_row collates page unique) before.cshits ≡ true
        → any (is_row collates page unique) after.cshits ≡ true
    pub seen_keyed :
        IsCollation collates
        → SeenAreKeyed collates before.csnodupes
        → SeenAreKeyed collates after.csnodupes

  pub counted-append :
      (page : Text) (unique : Bool) (rows more : List HitRow)
      → counted page unique (rows ++ more) ≡ counted page unique rows + counted page unique more
  counted-append page unique [] more = omega arith
  counted-append page unique (row ∷ rows) more = omega (arith, counted-append page unique rows more)

  pub counted-incremented :
      (page p : Text) (unique k : Bool) (rows : List HitRow)
      → counted page unique rows ≤ counted page unique (incremented collates p k rows)
  counted-incremented page p unique k [] = omega arith
  counted-incremented page p unique k (row ∷ rows) =
      let rest = counted-incremented page p unique k rows in
      elim (Bool-cases (is_row collates p k row)) [
        | inr h ↦ rw h (omega (arith, rest))
        | inl h ↦ elim (Bool-cases (is_row collates page unique row)) [
          | inl g ↦ rw (h, g) (omega (arith, rest))
          | inr g ↦ rw (h, g) (omega (arith, rest))
        ]
      ]

  pub Evolves-same : (db : Database) → Evolves db db
  Evolves-same db = record {
    grows = λ page unique. omega arith;
    hits_keyed = λ c h. h;
    rows_stay = λ page unique h. h;
    seen_keyed = λ c h. h;
  }

  pub Evolves-both : (a b d : Database) → Evolves a b → Evolves b d → Evolves a d
  Evolves-both a b d f g = record {
    grows = λ page unique. omega (arith, f.grows page unique, g.grows page unique);
    hits_keyed = λ c h. g.hits_keyed c (f.hits_keyed c h);
    rows_stay = λ page unique h. g.rows_stay page unique (f.rows_stay page unique h);
    seen_keyed = λ c h. g.seen_keyed c (f.seen_keyed c h);
  }

  Evolves-seen :
      (db : Database) (rows : List _)
      → (IsCollation collates → SeenAreKeyed collates db.csnodupes → SeenAreKeyed collates rows)
      → Evolves db (record db { csnodupes = rows })
  Evolves-seen db rows h = record {
    grows = λ page unique. omega arith;
    hits_keyed = λ c k. k;
    rows_stay = λ page unique k. k;
    seen_keyed = h;
  }

  pub Evolves-insert_row :
      (p : Text) (k : Bool) (db : Database) → Evolves db (insert_row collates p k db).1
  unfolding insert_row
  Evolves-insert_row p k db = elim (Bool-cases (any (is_row collates p k) db.cshits)) [
    | inl e ↦ rw e (Evolves-same db)
    | inr e ↦ rw e (record {
      grows = λ page unique. omega (arith, counted-append page unique db.cshits _);
      hits_keyed = λ c. HitsAreKeyed-append collates c p k db.cshits e;
      rows_stay = λ page unique h. any-append_old _ db.cshits _ h;
      seen_keyed = λ c h. h;
    })
  ]

  pub Evolves-increment :
      (p : Text) (k : Bool) (db : Database) → Evolves db (increment collates p k db).1
  unfolding increment
  Evolves-increment p k db = record {
    grows = λ page unique. counted-incremented page p unique k db.cshits;
    hits_keyed = λ c. HitsAreKeyed-incremented collates p k db.cshits;
    rows_stay = λ page unique h. any-incremented collates page p unique k db.cshits ∙ h;
    seen_keyed = λ c h. h;
  }

  pub Evolves-upsert_time :
      (hash : Text) (now : ℕ) (db : Database) → Evolves db (upsert_time collates hash now db).1
  unfolding upsert_time
  Evolves-upsert_time hash now db =
      Evolves-seen db _ (λ c. SeenAreKeyed-upserted collates c hash now db.csnodupes)

  pub Evolves-delete_old : (now : ℕ) (db : Database) → Evolves db (delete_old now db).1
  unfolding delete_old
  Evolves-delete_old now db = Evolves-seen db _ (λ c. SeenAreKeyed-keep collates _ db.csnodupes)
