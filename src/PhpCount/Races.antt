-- ===== src/PhpCount/Races.antt =====
-- Interleaved runs of libs/phpcount.rs.
use mathlib.Core.List.{Permᴰ}
use crackstation_rust.Base.{
  Bool, not, ℕ, ◌≤◌, true, false, List, [], ◌∷◌, text_eq, ◌≡◌, refl, Option, ◌+◌,
}
use crackstation_rust.Registry.Pages.{to_lowercase}
use crackstation_rust.Fixtures.{no_unicode}
use crackstation_rust.PhpCount.Store.{Database, HitRow, and_then, on_success, ◌>>=◌, ok, query}
use crackstation_rust.PhpCount.Queries.{
  has_row, insert_row, increment, select_time, upsert_time, delete_old, select_count, select_total,
}
use crackstation_rust.PhpCount.Threads.{System, Reach, perform, scheduled, Reach-scheduled}
use crackstation_rust.PhpCount.{
  HitCounts, id_message, id_hash, is_search_bot, cleanup, execute_insert, create_if_absent,
  create_counts_if_not_present, is_unique_hit, log_hit, count_hit, count_unique, count_visit,
  add_hit, fetch_count, get_hit_counts, counts_shown, record_and_get_hits,
}
use crackstation_rust.PhpCount.Evolves.{counted}
use crackstation_rust.PhpCount.Statements.{Visit}
use crackstation_rust.PhpCount.Unordered.{SameRows}
use crackstation_rust.PhpCount.Unordered.Visits.{visits-unordered}
use crackstation_rust.PhpCount.Sums.{total}
use crackstation_rust.PhpCount.Tally.{hit_of, is_confirmed, visits-Count_all}
use crackstation_rust.PhpCount.Samples.{
  joined, at, empty, page, address, browser, visit_at, one_row, text_eq-IsCollation,
}

abbrev same_visit : ℕ → Visit
same_visit i = record {
  at_cleanup = 3000000;
  at_test = at 3000000;
  at_log = at 3000000;
  page_id = page;
  client_ip = address;
  user_agent = browser;
}

abbrev many : System HitCounts
many = record { database = one_row; threads = λ i. visit_at 3000000 }

-- Two visits sweep one behind the other, and the first looks for its row.
abbrev picks : List ℕ
picks = 0 ∷ 1 ∷ 0 ∷ []

abbrev row : Bool → HitRow
row unique = record { pageid = page; isunique = unique; hitcount = 7 }

-- Two orders of one table.
abbrev ordered : Bool → Database
ordered unique = record { cshits = row unique ∷ row (not unique) ∷ []; csnodupes = [] }

abbrev many_over : Bool → System HitCounts
many_over unique = record { database = ordered unique; threads = λ i. visit_at 3000000 }

visits-unordered_example :
    (end : System HitCounts) × Reach (many_over false) end
    × ((i : ℕ) → end.threads i ≡ (scheduled picks (many_over true)).threads i)
    × SameRows text_eq (scheduled picks (many_over true)).database end.database
visits-unordered_example =
    visits-unordered text_eq text_eq-IsCollation joined no_unicode same_visit {s = many_over true}
      {other = many_over false} (λ i. refl) (λ i. refl)
      (record {
        same_hits = Permᴰ.swap refl refl;
        same_seen = Permᴰ.nil;
        hits_keyed = (refl, (refl, _));
        seen_keyed = _;
      })
      (Reach-scheduled picks (many_over true))

-- Two visits from one address that both test before either is logged: two unique hits, one visitor.
abbrev two_visits : System HitCounts
two_visits = record { database = empty; threads = λ i. visit_at 3000000 }

abbrev race : List ℕ
race = 1 ∷ 1 ∷ 0 ∷ 0 ∷ 1 ∷ 1 ∷ 1 ∷ 1 ∷ 0 ∷ 0 ∷ 0 ∷ 0 ∷ 0 ∷ 0 ∷ []

race_counts_twice : counted text_eq page true (scheduled race two_visits).database.cshits ≡ 2
unfolding record_and_get_hits counts_shown get_hit_counts fetch_count select_total select_count
    add_hit count_visit count_unique count_hit log_hit is_unique_hit create_counts_if_not_present
    create_if_absent execute_insert cleanup delete_old upsert_time select_time increment insert_row
    has_row is_search_bot id_hash id_message query perform ◌>>=◌ and_then on_success ok to_lowercase
race_counts_twice = refl

abbrev adding_visits : System (Option Bool)
adding_visits = record {
  database = empty;
  threads =
      λ i. add_hit joined text_eq no_unicode 3000000 (at 3000000) (at 3000000) page address browser;
}

-- Both visits of the race return true.
abbrev both_confirmed : List ℕ
both_confirmed = 1 ∷ 0 ∷ race

both_are_counted :
    (is_confirmed ((scheduled both_confirmed adding_visits).threads 0) ≡ true)
    × (is_confirmed ((scheduled both_confirmed adding_visits).threads 1) ≡ true)
    × (counted text_eq page false (scheduled both_confirmed adding_visits).database.cshits ≡ 2)
unfolding add_hit count_visit count_unique count_hit log_hit is_unique_hit
    create_counts_if_not_present create_if_absent execute_insert cleanup delete_old upsert_time
    select_time increment insert_row has_row is_search_bot id_hash id_message query perform ◌>>=◌
    and_then on_success ok to_lowercase
both_are_counted = (refl, refl, refl)

visits-Count_all_example :
    0
      + total
          (λ i.
            hit_of text_eq same_visit i
              (is_confirmed ((scheduled both_confirmed adding_visits).threads i))
              page)
          2
    ≤ counted text_eq page false (scheduled both_confirmed adding_visits).database.cshits
visits-Count_all_example =
    visits-Count_all text_eq same_visit text_eq-IsCollation joined no_unicode {s = adding_visits}
      (λ i. refl) (Reach-scheduled both_confirmed adding_visits) page 2
