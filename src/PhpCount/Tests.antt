-- ===== src/PhpCount/Tests.antt =====
-- Runs of libs/phpcount.rs.
use crackstation_rust.Base.{
  Option, none, false, ℕ, ◌+◌, codes, true, false, some, [], text_eq, ◌≡◌, refl, arith,
}
use crackstation_rust.Registry.Pages.{to_lowercase}
use crackstation_rust.Fixtures.{no_unicode}
use crackstation_rust.PhpCount.Store.{
  Database, Process, and_then, on_success, ◌>>=◌, ok, query, run,
}
use crackstation_rust.PhpCount.Queries.{
  has_row, insert_row, increment, select_time, upsert_time, delete_old, select_count, select_total,
}
use crackstation_rust.PhpCount.{
  refreshed, rotate, new_key, HitCounts, Moment, is_expired, VisitorKey, id_message, id_hash,
  is_search_bot, cleanup, execute_insert, create_if_absent, create_counts_if_not_present,
  is_unique_hit, log_hit, count_hit, count_unique, count_visit, add_hit, fetch_count,
  get_hit_counts, counts_shown, record_and_get_hits,
}
use crackstation_rust.PhpCount.Visits.{EndsIn, visited_counter, add_hit-Refines}
use crackstation_rust.PhpCount.Shown.{Gives, record_and_get_hits-Gives}
use crackstation_rust.PhpCount.Returning.{AddsTwo, counter_of, Shows-counter_of, add_hit-twice}
use crackstation_rust.PhpCount.Runs.{calm}
use crackstation_rust.PhpCount.Samples.{
  joined, at, empty, page, address, browser, visit_at, one_row, text_eq-IsCollation,
}

first_visit :
    (run (visit_at 3000000) [] empty).0
    ≡ record { page_hits = 1; unique_hits = 1; total_hits = 1; total_unique_hits = 1 }
unfolding record_and_get_hits counts_shown get_hit_counts fetch_count select_total select_count
    add_hit count_visit count_unique count_hit log_hit is_unique_hit create_counts_if_not_present
    create_if_absent execute_insert cleanup delete_old upsert_time select_time increment insert_row
    has_row is_search_bot id_hash id_message refreshed rotate new_key is_expired query run ◌>>=◌
    and_then on_success ok to_lowercase
first_visit = refl

is_human : is_search_bot joined text_eq no_unicode browser ≡ false
unfolding is_search_bot to_lowercase
is_human = refl

-- The key of a visitor's first visit is a second short of its 60 days, and the second visit, a second
-- behind, rotates it: the row of the first is orphaned, and the visitor counts as unique again.
abbrev first_key : VisitorKey
first_key = record { key = codes "k"; created = 0 }

abbrev aged_key : ℕ → Option VisitorKey
aged_key seconds = refreshed (record {
  visitor_key = first_key;
  poisoned = false;
  instant = 5183999 + seconds;
  entropy = some (codes "f");
})

abbrev or_first : Option VisitorKey → VisitorKey
or_first none = first_key
or_first (some key) = key

abbrev aged : ℕ → Moment
aged seconds = record { now = 3000000 + seconds; visitor_key = or_first (aged_key seconds) }

abbrev aged_visit : ℕ → Process HitCounts
aged_visit seconds =
    record_and_get_hits joined text_eq no_unicode (3000000 + seconds) (aged seconds) (aged seconds)
      page address browser

rotation_orphans_a_row :
    (run (and_then (aged_visit 0) (λ _. aged_visit 1)) [] empty).0
    ≡ record { page_hits = 2; unique_hits = 2; total_hits = 2; total_unique_hits = 2 }
unfolding record_and_get_hits counts_shown get_hit_counts fetch_count select_total select_count
    add_hit count_visit count_unique count_hit log_hit is_unique_hit create_counts_if_not_present
    create_if_absent execute_insert cleanup delete_old upsert_time select_time increment insert_row
    has_row is_search_bot id_hash id_message refreshed rotate new_key is_expired query run ◌>>=◌
    and_then on_success ok to_lowercase
rotation_orphans_a_row = refl

add_hit-Refines_example :
    EndsIn text_eq text_eq-IsCollation joined no_unicode
      (add_hit joined text_eq no_unicode 3000000 (at 3000000) (at 3000000) page address browser)
      true
      3000000
      one_row
      (visited_counter text_eq text_eq-IsCollation joined no_unicode
        (at 3000000)
        (at 3000000)
        page
        address
        (counter_of text_eq text_eq-IsCollation one_row))
add_hit-Refines_example =
    add_hit-Refines text_eq text_eq-IsCollation joined no_unicode 3000000 3000000 (at 3000000)
      (at 3000000) page address browser one_row (counter_of text_eq text_eq-IsCollation one_row)
      is_human (omega arith) (omega arith)
      (Shows-counter_of text_eq text_eq-IsCollation 3000000 one_row (refl, _) _)

-- The second visit is 30 days behind the first.
add_hit-twice_example :
    (between : Database) × (after : Database) × (run
        (add_hit joined text_eq no_unicode 3000000 (at 3000000) (at 3000000) page address browser)
        []
        one_row
      ≡ (some true, calm between))
    × (run
          (add_hit joined text_eq no_unicode 5592000 (at 5592000) (at 5592000) page address browser)
          []
          between
        ≡ (some true, calm after))
    × AddsTwo text_eq text_eq-IsCollation joined no_unicode page true one_row after
add_hit-twice_example =
    add_hit-twice text_eq text_eq-IsCollation joined no_unicode 3000000 5592000 (at 3000000)
      (at 3000000) (at 5592000) (at 5592000) page address browser one_row is_human (refl, _) _
      (omega arith) (omega arith) (omega arith) refl refl

record_and_get_hits-Gives_example :
    Gives text_eq text_eq-IsCollation (visit_at 3000000) page 3000000 one_row (
      visited_counter text_eq text_eq-IsCollation joined no_unicode
        (at 3000000)
        (at 3000000)
        page
        address
        (counter_of text_eq text_eq-IsCollation one_row))
record_and_get_hits-Gives_example =
    record_and_get_hits-Gives text_eq text_eq-IsCollation joined no_unicode 3000000 3000000
      (at 3000000) (at 3000000) page address browser one_row
      (counter_of text_eq text_eq-IsCollation one_row) is_human (omega arith) (omega arith)
      (Shows-counter_of text_eq text_eq-IsCollation 3000000 one_row (refl, _) _)
