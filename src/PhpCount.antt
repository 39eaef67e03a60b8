-- ===== src/PhpCount.antt =====
-- src/libs/phpcount.rs: the hit counter, over the two tables of dev/01-init.sql.
pub mod Store
pub mod Queries
pub mod Threads
pub mod Tables
pub mod Evolves
pub mod Monotone
pub mod Owes
pub mod Confirmed
pub mod Sums
pub mod Tally
pub mod Rows
pub mod Counter
pub mod Refinement
pub mod Runs
pub mod Visits
pub mod Shown
pub mod Returning
pub mod Identifiers
pub mod Rotation
pub mod Statements
pub mod Orders
pub mod Unordered
mod Tests
pub mod Samples
mod Races
use mathlib.Core.Option
use crackstation_rust.Base.{
  ℕ, ◌+◌, ◌-◌, ◌*◌, Bool, true, false, ◌&&◌, Option, none, some, List, [], ◌∷◌, ◌++◌, map, Text,
  codes, contains, any, ltb, leb, keep, not, is_some, if◌then◌else◌,
}
use crackstation_rust.PhpCount.Store.{
  HitRow, SeenRow, Database, Done, done, Process, finish, Program, and_then, on_success, ◌>>=◌, ok,
  query,
}
use crackstation_rust.PhpCount.Queries.{
  has_row, insert_row, increment, select_time, upsert_time, delete_old, is_old, select_count,
  select_total,
}
use crackstation_rust.Registry.Pages.{to_lowercase}
use crackstation_rust.Util.{group_digits}

-- 60 days, in seconds.
abbrev pub visitor_key_lifetime : ℕ
visitor_key_lifetime = 60 * 24 * 60 * 60

abbrev bot_keywords : List Text
bot_keywords =
    codes "bot"
    ∷ codes "spider"
    ∷ codes "spyder"
    ∷ codes "crawler"
    ∷ codes "walker"
    ∷ codes "search"
    ∷ codes "yahoo"
    ∷ codes "holmes"
    ∷ codes "htdig"
    ∷ codes "archive"
    ∷ codes "tineye"
    ∷ codes "yacy"
    ∷ codes "yeti"
    ∷ []

-- `VisitorKey`: its bytes, and the second of its creation by the monotonic clock.
pub record VisitorKey : Type 0 where
  pub key : Text
  pub created : ℕ

-- `VisitorKey::new`, with the bytes that the system draws: `none` is its panic where it draws none.
unfoldable pub new_key : Option Text → ℕ → Option VisitorKey
new_key entropy instant = Option.map (λ key. record { key = key; created = instant }) entropy

pub rotate : Option Text → ℕ → VisitorKey → Option VisitorKey
rotate entropy instant k =
    Option.map (λ fresh. record k { key = fresh.key; created = fresh.created })
      (new_key entropy instant)

-- `elapsed` stops at 0.
pub is_expired : ℕ → VisitorKey → Bool
is_expired instant k = leb visitor_key_lifetime (instant - k.created)

-- What `id_hash` finds: the shared key, whether its lock is poisoned by a panic under it, the
-- monotonic clock, and the bytes that a rotation draws.
pub record KeyReading : Type 0 where
  pub visitor_key : VisitorKey
  pub poisoned : Bool
  pub instant : ℕ
  pub entropy : Option Text

-- The key that `id_hash` reads behind its first block, with no other thread in between; `none` is a
-- panic.
pub refreshed : KeyReading → Option VisitorKey
refreshed r =
    if r.poisoned
    then none
    else if is_expired r.instant r.visitor_key
    then rotate r.entropy r.instant r.visitor_key
    else some r.visitor_key

pub record HitCounts : Type 0 where
  pub page_hits : ℕ
  pub unique_hits : ℕ
  pub total_hits : ℕ
  pub total_unique_hits : ℕ

-- `HitCounts::default`.
abbrev pub no_hits : HitCounts
no_hits = record { page_hits = 0; unique_hits = 0; total_hits = 0; total_unique_hits = 0 }

-- The two counters as the footer shows them.
pub page_hits_grouped : HitCounts → Text
page_hits_grouped counts = group_digits counts.page_hits

pub unique_hits_grouped : HitCounts → Text
unique_hits_grouped counts = group_digits counts.unique_hits

-- What the code reads outside the database at one call that does not panic: the clock, which is not
-- before 1970, and the key that `refreshed` gives.
pub record Moment : Type 0 where
  pub now : ℕ
  pub visitor_key : VisitorKey

-- `PhpCountService`: the pool of connections of the crate `sqlx`, and the key that every clone shares.
pub record PhpCountService (MySqlPool : Type 0) : Type 0 where
  pub pool : MySqlPool
  pub visitor_key : VisitorKey

module _ {MySqlPool : Type 0} (entropy : Option Text) (instant : ℕ) where
  -- `PhpCountService::new`: `none` is the panic of the key.
  unfoldable pub new_service : MySqlPool → Option (PhpCountService MySqlPool)
  new_service pool =
      Option.map (λ key. record { pool = pool; visitor_key = key }) (new_key entropy instant)

  -- `PhpCountService::connect`, with the connection of the crate: the outer `none` is its `Err`.
  unfoldable pub connect :
      (Text → Option MySqlPool) → Text → Option (Option (PhpCountService MySqlPool))
  connect connect_pool database_url = Option.map new_service (connect_pool database_url)

-- The message that is authenticated: the two texts around a NUL.
pub id_message : Text → Text → Text
id_message page_id client_ip = page_id ++ 0 ∷ client_ip

pub cleanup : ℕ → Program Done
cleanup now = query (delete_old now)

-- The comparison of texts by the collation of the tables.
module _ (collates : Text → Text → Bool) where
  pub execute_insert : Text → Bool → Program Done
  execute_insert page_id unique = do
    inserted ← query (insert_row collates page_id unique)
    finish inserted

  pub create_if_absent : Text → Bool → Program Done
  create_if_absent page_id unique = do
    exists ← query (has_row collates page_id unique)
    if exists then ok done else execute_insert page_id unique

  pub create_counts_if_not_present : Text → Program Done
  create_counts_if_not_present page_id = do
    _ ← create_if_absent page_id false
    create_if_absent page_id true

  pub count_hit : Text → Bool → Program Done
  count_hit page_id unique = query (increment collates page_id unique)

  -- `fetch_one`: no row is an error.
  pub fetch_count : Text → Bool → Program ℕ
  fetch_count page_id unique = do found ← query (select_count collates page_id unique); finish found

  pub get_hit_counts : Text → Program HitCounts
  get_hit_counts page_id = do
    _ ← create_counts_if_not_present page_id
    page ← fetch_count page_id false
    unique ← fetch_count page_id true
    total ← query (select_total false)
    total_unique ← query (select_total true)
    ok (record {
      page_hits = page;
      unique_hits = unique;
      total_hits = total;
      total_unique_hits = total_unique;
    })

  abbrev counts_or_default : Option HitCounts → HitCounts
  counts_or_default (some counts) = counts
  counts_or_default none = no_hits

  pub counts_shown : Text → Process HitCounts
  counts_shown page_id =
      and_then (get_hit_counts page_id) (λ counts. finish (counts_or_default counts))

-- The hexadecimal digits of HMAC-SHA256 by key and message, the comparison of texts, and the Unicode
-- tables.
module _ (hmac : Text → Text → Text) (collates : Text → Text → Bool)
    (unicode_lower : Text → ℕ → Text → Text) where
  -- `id_hash` behind its first block.
  pub id_hash : VisitorKey → Text → Text → Text
  id_hash k page_id client_ip = hmac k.key (id_message page_id client_ip)

  pub is_search_bot : Text → Bool
  is_search_bot user_agent =
      any (λ keyword. contains keyword (to_lowercase unicode_lower user_agent)) bot_keywords

  pub is_unique_hit : Moment → Text → Text → Program Bool
  is_unique_hit at page_id client_ip = do
    result ← query (select_time collates (id_hash at.visitor_key page_id client_ip))
    ok (is_old at.now result)

  pub log_hit : Moment → Text → Text → Program Done
  log_hit at page_id client_ip =
      query (upsert_time collates (id_hash at.visitor_key page_id client_ip) at.now)

  pub count_unique : Moment → Text → Text → Bool → Program Done
  count_unique at page_id client_ip false = ok done
  count_unique at page_id client_ip true = do
    _ ← count_hit collates page_id true
    log_hit at page_id client_ip

  -- The clock and the key are read at the cleanup, at the test and at the log.
  pub count_visit : ℕ → Moment → Moment → Text → Text → Program Bool
  count_visit at_cleanup at_test at_log page_id client_ip = do
    _ ← cleanup at_cleanup
    _ ← create_counts_if_not_present collates page_id
    unique ← is_unique_hit at_test page_id client_ip
    _ ← count_unique at_log page_id client_ip unique
    _ ← count_hit collates page_id false
    ok true

  pub add_hit : ℕ → Moment → Moment → Text → Text → Text → Program Bool
  add_hit at_cleanup at_test at_log page_id client_ip user_agent =
      if is_search_bot user_agent
      then ok false
      else count_visit at_cleanup at_test at_log page_id client_ip

  -- `record_and_get_hits` of registered_page_handler.rs: an error is logged and passed over.
  pub record_and_get_hits : ℕ → Moment → Moment → Text → Text → Text → Process HitCounts
  record_and_get_hits at_cleanup at_test at_log page_id client_ip user_agent =
      and_then (add_hit at_cleanup at_test at_log page_id client_ip user_agent)
        (λ _. counts_shown collates page_id)
