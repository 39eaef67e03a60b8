-- ===== src/PhpCount/Queries.antt =====
-- The statements of libs/phpcount.rs on its two tables.
use crackstation_rust.Base.{
  ℕ, ◌+◌, Bool, true, false, ◌&&◌, Option, none, some, List, [], ◌∷◌, ◌++◌, Text, any, ltb, leb,
  keep, not, if◌then◌else◌,
}
use crackstation_rust.PhpCount.Store.{HitRow, SeenRow, Database, Done, done}

abbrev pub hit_old_after_seconds : ℕ
hit_old_after_seconds = 2592000

abbrev pub same_kind : Bool → Bool → Bool
same_kind true k = k
same_kind false k = not k

abbrev pub is_old : ℕ → Option ℕ → Bool
is_old now none = true
is_old now (some time) = leb (time + hit_old_after_seconds) now

-- A row of `csnodupes` that the sweep leaves.
abbrev pub is_recent : ℕ → SeenRow → Bool
is_recent now row = not (ltb (row.time + hit_old_after_seconds) now)

unfoldable pub delete_old : ℕ → Database → Done × Database
delete_old now db = (done, record db { csnodupes = keep (is_recent now) db.csnodupes })

abbrev pub sum_of : Bool → List HitRow → ℕ
sum_of unique [] = 0
sum_of unique (row ∷ rows) =
    (if same_kind row.isunique unique then row.hitcount else 0) + sum_of unique rows

unfoldable pub select_total : Bool → Database → ℕ × Database
select_total unique db = (sum_of unique db.cshits, db)

-- The comparison of texts by the collation of the tables.
module _ (collates : Text → Text → Bool) where
  abbrev pub is_row : Text → Bool → HitRow → Bool
  is_row page_id unique row = collates row.pageid page_id && same_kind row.isunique unique

  unfoldable pub has_row : Text → Bool → Database → Bool × Database
  has_row page_id unique db = (any (is_row page_id unique) db.cshits, db)

  -- A second row of a page and a kind is an error: they are the primary key.
  unfoldable pub insert_row : Text → Bool → Database → Option Done × Database
  insert_row page_id unique db = if any (is_row page_id unique) db.cshits then (none, db) else (
    some done,
    record db {
      cshits = db.cshits ++ record { pageid = page_id; isunique = unique; hitcount = 0 } ∷ [];
    },
  )

  abbrev pub incremented : Text → Bool → List HitRow → List HitRow
  incremented page_id unique [] = []
  incremented page_id unique (row ∷ rows) =
      (if is_row page_id unique row then record row { hitcount = row.hitcount + 1 } else row)
      ∷ incremented page_id unique rows

  unfoldable pub increment : Text → Bool → Database → Done × Database
  increment page_id unique db = (done, record db { cshits = incremented page_id unique db.cshits })

  abbrev pub time_in : Text → List SeenRow → Option ℕ
  time_in hash [] = none
  time_in hash (row ∷ rows) =
      if collates row.ids_hash hash then some row.time else time_in hash rows

  unfoldable pub select_time : Text → Database → Option ℕ × Database
  select_time hash db = (time_in hash db.csnodupes, db)

  abbrev pub upserted : Text → ℕ → List SeenRow → List SeenRow
  upserted hash now [] = record { ids_hash = hash; time = now } ∷ []
  upserted hash now (row ∷ rows) =
      if collates row.ids_hash hash
      then record row { time = now } ∷ rows
      else row ∷ upserted hash now rows

  unfoldable pub upsert_time : Text → ℕ → Database → Done × Database
  upsert_time hash now db = (done, record db { csnodupes = upserted hash now db.csnodupes })

  abbrev pub count_in : Text → Bool → List HitRow → Option ℕ
  count_in page_id unique [] = none
  count_in page_id unique (row ∷ rows) =
      if is_row page_id unique row then some row.hitcount else count_in page_id unique rows

  unfoldable pub select_count : Text → Bool → Database → Option ℕ × Database
  select_count page_id unique db = (count_in page_id unique db.cshits, db)
