-- ===== src/PhpCount/Statements.antt =====
-- The visits of libs/phpcount.rs by the statements that they are made of: what holds of each
-- statement, and of programs one behind another, holds of a visit.
use crackstation_rust.Base.{
  ℕ, Bool, true, false, Option, none, some, Text, Bool-cases, inl, inr, if◌then◌else◌,
}
use crackstation_rust.PhpCount.Store.{
  Process, finish, Program, and_then, on_success, ◌>>=◌, done, ok, query,
}
use crackstation_rust.PhpCount.Queries.{
  has_row, insert_row, increment, select_time, upsert_time, delete_old, select_count, select_total,
}
use crackstation_rust.PhpCount.{
  Moment, HitCounts, cleanup, execute_insert, create_if_absent, create_counts_if_not_present,
  is_unique_hit, log_hit, count_hit, count_unique, count_visit, add_hit, fetch_count,
  get_hit_counts, counts_shown, is_search_bot, record_and_get_hits,
}

-- The arguments of one call, with what it reads of the clock and of the key.
pub record Visit : Type 0 where
  pub at_cleanup : ℕ
  pub at_test : Moment
  pub at_log : Moment
  pub page_id : Text
  pub client_ip : Text
  pub user_agent : Text

module _ (collates : Text → Text → Bool) where
  -- A predicate that each statement has, and programs one behind another.
  pub record OfStatements (P : (A : Type 0) → Process A → Type 0) : Type 1 where
    pub of_finish : (A : Type 0) (a : A) → P A (finish a)
    pub of_and_then :
        (A B : Type 0) (p : Process A) (f : A → Process B)
        → P A p
        → ((a : A) → P B (f a))
        → P B (and_then p f)
    pub of_has_row : (p : Text) (k : Bool) → P _ (query (has_row collates p k))
    pub of_insert_row : (p : Text) (k : Bool) → P _ (query (insert_row collates p k))
    pub of_increment : (p : Text) (k : Bool) → P _ (query (increment collates p k))
    pub of_select_time : (hash : Text) → P _ (query (select_time collates hash))
    pub of_upsert_time : (hash : Text) (now : ℕ) → P _ (query (upsert_time collates hash now))
    pub of_delete_old : (now : ℕ) → P _ (query (delete_old now))
    pub of_select_count : (p : Text) (k : Bool) → P _ (query (select_count collates p k))
    pub of_select_total : (k : Bool) → P _ (query (select_total k))

  module _ {P : (A : Type 0) → Process A → Type 0} (s : OfStatements P) where
    open s use {of_finish, of_and_then}

    of-on_success :
        {A B : Type 0} (f : A → Program B) (o : Option A)
        → ((a : A) → P _ (f a))
        → P _ (on_success f o)
    unfolding on_success
    of-on_success f none h = of_finish _ _
    of-on_success f (some a) h = h a

    of_bind :
        {A B : Type 0} {p : Program A} (f : A → Program B)
        → P _ p
        → ((a : A) → P _ (f a))
        → P _ (p >>= f)
    unfolding ◌>>=◌
    of_bind f g h = of_and_then _ _ _ _ g (λ o. of-on_success f o h)

    of_ok : {A : Type 0} (a : A) → P _ (ok a)
    unfolding ok
    of_ok a = of_finish _ _

    of-insert_unless :
        (p : Text) (k present : Bool)
        → P _ (if present then ok done else execute_insert collates p k)
    unfolding execute_insert
    of-insert_unless p k true = of_ok _
    of-insert_unless p k false = of_bind _ (s.of_insert_row p k) (of_finish _)

    of-create_if_absent : (p : Text) (k : Bool) → P _ (create_if_absent collates p k)
    unfolding create_if_absent
    of-create_if_absent p k = of_bind _ (s.of_has_row p k) (of-insert_unless p k)

    of-create_counts : (p : Text) → P _ (create_counts_if_not_present collates p)
    unfolding create_counts_if_not_present
    of-create_counts p = of_bind _ (of-create_if_absent p false) (λ _. of-create_if_absent p true)

    of-count_hit : (p : Text) (k : Bool) → P _ (count_hit collates p k)
    unfolding count_hit
    of-count_hit p k = s.of_increment p k

    of-fetch_count : (p : Text) (k : Bool) → P _ (fetch_count collates p k)
    unfolding fetch_count
    of-fetch_count p k = of_bind _ (s.of_select_count p k) (of_finish _)

    of-counts_shown : (p : Text) → P _ (counts_shown collates p)
    unfolding counts_shown get_hit_counts
    of-counts_shown p =
        of_and_then _ _ _ _
          (of_bind _ (of-create_counts p) (λ _. of_bind _ (of-fetch_count p false) (λ _.
            of_bind _ (of-fetch_count p true) (λ _.
              of_bind _ (s.of_select_total false)
                (λ _. of_bind _ (s.of_select_total true) (λ _. of_ok _))))))
          (λ o. of_finish _ _)

    module _ (hmac : Text → Text → Text) (u : Text → ℕ → Text → Text) where
      of-is_unique_hit : (at : Moment) (p ip : Text) → P _ (is_unique_hit hmac collates u at p ip)
      unfolding is_unique_hit
      of-is_unique_hit at p ip = of_bind _ (s.of_select_time _) (λ r. of_ok _)

      of-count_unique :
          (at : Moment) (p ip : Text) (k : Bool) → P _ (count_unique hmac collates u at p ip k)
      unfolding count_unique log_hit
      of-count_unique at p ip false = of_ok _
      of-count_unique at p ip true = of_bind _ (of-count_hit p true) (λ _. s.of_upsert_time _ _)

      of-count_visit :
          (now : ℕ) (test log : Moment) (p ip : Text)
          → P _ (count_visit hmac collates u now test log p ip)
      unfolding count_visit cleanup
      of-count_visit now test log p ip = of_bind _ (s.of_delete_old now) (λ _.
          of_bind _ (of-create_counts p) (λ _. of_bind _ (of-is_unique_hit test p ip) (λ k.
            of_bind _ (of-count_unique log p ip k)
              (λ _. of_bind _ (of-count_hit p false) (λ _. of_ok _)))))

      of-add_hit :
          (now : ℕ) (test log : Moment) (p ip agent : Text)
          → P _ (add_hit hmac collates u now test log p ip agent)
      unfolding add_hit
      of-add_hit now test log p ip agent = elim (Bool-cases (is_search_bot hmac collates u agent)) [
        | inl bot ↦ rw bot (of_ok _)
        | inr human ↦ rw human (of-count_visit now test log p ip)
      ]

      pub of-record_and_get_hits :
          (now : ℕ) (test log : Moment) (p ip agent : Text)
          → P _ (record_and_get_hits hmac collates u now test log p ip agent)
      unfolding record_and_get_hits
      of-record_and_get_hits now test log p ip agent =
          of_and_then _ _ _ _ (of-add_hit now test log p ip agent) (λ _. of-counts_shown p)

  module _ (hmac : Text → Text → Text) (u : Text → ℕ → Text → Text) where
    -- The process of a visit.
    abbrev pub visited : Visit → Process HitCounts
    visited v =
        record_and_get_hits hmac collates u v.at_cleanup v.at_test v.at_log v.page_id v.client_ip
          v.user_agent
