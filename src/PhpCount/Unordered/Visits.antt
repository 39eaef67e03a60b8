-- ===== src/PhpCount/Unordered/Visits.antt =====
-- The statements of libs/phpcount.rs and its visits, over rows in another order.
use mathlib.Core.List.Permᴰ
use crackstation_rust.Base.{ℕ, Bool, Text, any, ◌≡◌, refl, sym, ◌∙◌, Bool-cases, inl, inr, arith}
use crackstation_rust.PhpCount.Store.{Database}
use crackstation_rust.PhpCount.Queries.{
  is_row, has_row, insert_row, increment, select_time, upsert_time, delete_old, select_count,
  select_total,
}
use crackstation_rust.PhpCount.Threads.{System, Reach}
use crackstation_rust.PhpCount.Tables.{
  IsCollation, SeenAreKeyed-keep, HitsAreKeyed-append, HitsAreKeyed-incremented,
  SeenAreKeyed-upserted,
}
use crackstation_rust.PhpCount.Orders.{
  any-order, Permᴰ-keep, sum_of-order, incremented-order, count_in-order, time_in-order,
  upserted-order,
}
use crackstation_rust.PhpCount.Statements.{Visit, OfStatements, of-record_and_get_hits, visited}
use crackstation_rust.PhpCount.Unordered.{
  SameRows, IsUnordered, IsBlind, finished, IsBlind-and_then, IsBlind-query, SameSystem, Reach-same,
}
use crackstation_rust.PhpCount.{HitCounts}

module _ (collates : Text → Text → Bool) (c : IsCollation collates) where
  abbrev Blind : (A : Type 0) → (Database → A × Database) → Type 0
  Blind A q = IsUnordered collates q

  insert_row-IsUnordered : (p : Text) (k : Bool) → Blind _ (insert_row collates p k)
  unfolding insert_row
  insert_row-IsUnordered p k = record {
    value = λ db other e. rw (any-order (is_row collates p k) e.same_hits) (ground arith);
    change = λ db other e.
        rw (sym (any-order (is_row collates p k) e.same_hits))
          (elim (Bool-cases (any (is_row collates p k) db.cshits)) [
            | inl g ↦ rw g e
            | inr g ↦ rw g (record {
              same_hits = Permᴰ.append_right _ e.same_hits;
              same_seen = e.same_seen;
              hits_keyed = HitsAreKeyed-append collates c p k db.cshits g e.hits_keyed;
              seen_keyed = e.seen_keyed;
            })
          ]);
  }

  increment-IsUnordered : (p : Text) (k : Bool) → Blind _ (increment collates p k)
  unfolding increment
  increment-IsUnordered p k = record {
    value = λ db other e. refl;
    change = λ db other e. record {
      same_hits = incremented-order collates p k e.same_hits;
      same_seen = e.same_seen;
      hits_keyed = HitsAreKeyed-incremented collates p k db.cshits e.hits_keyed;
      seen_keyed = e.seen_keyed;
    };
  }

  upsert_time-IsUnordered : (hash : Text) (now : ℕ) → Blind _ (upsert_time collates hash now)
  unfolding upsert_time
  upsert_time-IsUnordered hash now = record {
    value = λ db other e. refl;
    change = λ db other e. record {
      same_hits = e.same_hits;
      same_seen = upserted-order collates c hash now e.same_seen e.seen_keyed;
      hits_keyed = e.hits_keyed;
      seen_keyed = SeenAreKeyed-upserted collates c hash now db.csnodupes e.seen_keyed;
    };
  }

  delete_old-IsUnordered : (now : ℕ) → Blind _ (delete_old now)
  unfolding delete_old
  delete_old-IsUnordered now = record {
    value = λ db other e. refl;
    change = λ db other e. record {
      same_hits = e.same_hits;
      same_seen = Permᴰ-keep _ e.same_seen;
      hits_keyed = e.hits_keyed;
      seen_keyed = SeenAreKeyed-keep collates _ db.csnodupes e.seen_keyed;
    };
  }

  IsBlind-OfStatements : OfStatements collates (λ A p. IsBlind collates p)
  unfolding has_row select_time select_count select_total
  IsBlind-OfStatements = record {
    of_finish = λ A a. finished a;
    of_and_then = λ A B p f g h. IsBlind-and_then collates f g h;
    of_has_row = λ p k. IsBlind-query collates _ (record {
      value = λ db other e. any-order (is_row collates p k) e.same_hits;
      change = λ db other e. e;
    });
    of_insert_row = λ p k. IsBlind-query collates _ (insert_row-IsUnordered p k);
    of_increment = λ p k. IsBlind-query collates _ (increment-IsUnordered p k);
    of_select_time = λ hash. IsBlind-query collates _ (record {
      value = λ db other e. time_in-order collates c hash e.same_seen e.seen_keyed;
      change = λ db other e. e;
    });
    of_upsert_time = λ hash now. IsBlind-query collates _ (upsert_time-IsUnordered hash now);
    of_delete_old = λ now. IsBlind-query collates _ (delete_old-IsUnordered now);
    of_select_count = λ p k. IsBlind-query collates _ (record {
      value = λ db other e. count_in-order collates c p k e.same_hits e.hits_keyed;
      change = λ db other e. e;
    });
    of_select_total = λ k.
        IsBlind-query collates _
          (record { value = λ db other e. sum_of-order k e.same_hits; change = λ db other e. e });
  }

  -- Over two databases with the same rows in whatever order, the primary keys kept, whatever visits
  -- reach on the one, with their queries interleaved and failing in any way, the same visits reach on
  -- the other: each thread is as far, with the same values read and shown, and the rows are again
  -- the same.
  pub visits-unordered :
      (hmac : Text → Text → Text) (u : Text → ℕ → Text → Text) (visit : ℕ → Visit)
      {s other t : System HitCounts}
      → ((i : ℕ) → s.threads i ≡ visited collates hmac u (visit i))
      → ((i : ℕ) → other.threads i ≡ visited collates hmac u (visit i))
      → SameRows collates s.database other.database
      → Reach s t
      → (end : System HitCounts) × Reach other end
        × ((i : ℕ) → end.threads i ≡ t.threads i)
        × SameRows collates t.database end.database
  visits-unordered hmac u visit {s} {other} h k e r =
      let same : SameSystem collates s other = record {
        threads = λ i. k i ∙ sym (h i);
        rows = e;
        blind =
            λ i. rw (h i) (of-record_and_get_hits collates IsBlind-OfStatements hmac u _ _ _ _ _ _);
      } in
      let (end, there, alike) = Reach-same collates same r in
      (end, there, alike.threads, alike.rows)
