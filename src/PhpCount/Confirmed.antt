-- ===== src/PhpCount/Confirmed.antt =====
-- No interleaving of visits of libs/phpcount.rs loses a hit that is confirmed.
use crackstation_rust.Base.{
  ℕ, ◌+◌, ◌≤◌, Bool, true, false, ◌&&◌, ◌||◌, Option, none, some, List, [], ◌∷◌, Text, any,
  Bool-cases, inl, inr, ◌≡◌, arith, if◌then◌else◌,
}
use crackstation_rust.PhpCount.Store.{
  Done, done, HitRow, Database, finish, Program, and_then, on_success, ◌>>=◌, ok, query,
}
use crackstation_rust.PhpCount.Queries.{
  is_row, same_kind, has_row, insert_row, incremented, increment, select_time, is_old,
}
use crackstation_rust.PhpCount.Tables.{IsCollation, collates_alike, same_kind_refl, any-append_new}
use crackstation_rust.PhpCount.Evolves.{
  counted, counted-incremented, Evolves-same, Evolves-insert_row, Evolves-increment,
  Evolves-upsert_time, Evolves-delete_old,
}
use crackstation_rust.PhpCount.Rows.{both_hold, rest_holds}
use crackstation_rust.PhpCount.Owes.{
  bind_assoc, weight, Owes, ends, confirms, makes, Owes-query, Owes-plain,
}
use crackstation_rust.PhpCount.{
  Moment, cleanup, execute_insert, create_if_absent, create_counts_if_not_present, is_unique_hit,
  log_hit, count_hit, count_unique, count_visit, add_hit, is_search_bot,
}

head_adds :
    (b : Bool) (m n after : ℕ)
    → n ≤ after
    → (if b && true then m else 0) + n + (if b then 1 else 0)
      ≤ (if b && true then m + 1 else 0) + after
head_adds true m n after h = omega arith
head_adds false m n after h = omega arith

module _ (collates : Text → Text → Bool) (c : IsCollation collates) (p : Text) where
  -- Where the row of a page stands, its increment adds a hit.
  increment_adds :
      (rows : List HitRow) (q : Text)
      → any (is_row collates p false) rows ≡ true
      → counted collates q false rows + weight collates p true q
        ≤ counted collates q false (incremented collates p false rows)
  increment_adds [] q e = cc
  increment_adds (row ∷ rows) q e = elim (Bool-cases (is_row collates p false row)) [
    | inr h ↦ rw h (omega (arith, increment_adds rows q (rest_holds _ _ h e)))
    | inl h ↦
        let alike : collates row.pageid q ≡ collates p q =
          collates_alike collates c row.pageid p q (both_hold _ _ h).0 in
        let kind : same_kind row.isunique false ≡ true =
          (both_hold (collates row.pageid p) _ h).1 in
        rw (h, alike, kind)
          (head_adds (collates p q) row.hitcount _ _
            (counted-incremented collates q p false false rows))
  ]

  Owes-assoc :
      {A B : Type 0} (known made : Bool) (m : Program A) (f : A → Program B) (g : B → Program Bool)
      → Owes collates p known made (m >>= (λ a. f a >>= g))
      → Owes collates p known made ((m >>= f) >>= g)
  Owes-assoc known made m f g h = rw (bind_assoc m f g) h

  Owes-ok :
      {A : Type 0} (known made : Bool) (a : A) (f : A → Program Bool)
      → Owes collates p known made (f a)
      → Owes collates p known made (ok a >>= f)
  unfolding ok ◌>>=◌ and_then on_success
  Owes-ok known made a f h = h

  inserted_stands :
      (k : Bool) (db : Database)
      → any (is_row collates p k) (insert_row collates p k db).1.cshits ≡ true
  unfolding insert_row
  inserted_stands k db = elim (Bool-cases (any (is_row collates p k) db.cshits)) [
    | inl e ↦ rw e e
    | inr e ↦
        rw e
          (any-append_new (is_row collates p k) db.cshits _ (rw (c.reflexive p) (same_kind_refl k)))
  ]

  Owes-finish :
      (known made : Bool) (o : Option Done) (f : Done → Program Bool)
      → Owes collates p known made (f done)
      → Owes collates p known made (finish o >>= f)
  unfolding ◌>>=◌ and_then on_success
  Owes-finish known made none f h = ends known made none (λ e. cc)
  Owes-finish known made (some done) f h = h

  Owes-insert_unless :
      (made present : Bool) (f : Done → Program Bool)
      → Owes collates p true made (f done)
      → Owes collates p
          (present || false)
          made
          ((if present then ok done else execute_insert collates p false) >>= f)
  unfolding execute_insert
  Owes-insert_unless made true f h = Owes-ok true made done f h
  Owes-insert_unless made false f h = Owes-assoc false made _ finish f (
      Owes-query collates p false made _ _ (λ db. true) (Evolves-insert_row collates p false)
        (λ db e. inserted_stands false db) (λ db. Owes-finish true made _ f h))

  Owes-create_false :
      (made : Bool) (f : Done → Program Bool)
      → Owes collates p true made (f done)
      → Owes collates p false made (create_if_absent collates p false >>= f)
  unfolding create_if_absent has_row
  Owes-create_false made f h = Owes-assoc false made _ _ f (
      Owes-query collates p false made _ _ (λ db. any (is_row collates p false) db.cshits)
        (Evolves-same collates) (λ db e. e) (λ db. Owes-insert_unless made _ f h))

  Owes-insert_true :
      (made present : Bool) (f : Done → Program Bool)
      → Owes collates p true made (f done)
      → Owes collates p true made
          ((if present then ok done else execute_insert collates p true) >>= f)
  unfolding execute_insert
  Owes-insert_true made true f h = Owes-ok true made done f h
  Owes-insert_true made false f h = Owes-assoc true made _ finish f (
      Owes-plain collates p true made _ _ (Evolves-insert_row collates p true)
        (λ o. Owes-finish true made o f h))

  Owes-create_true :
      (made : Bool) (f : Done → Program Bool)
      → Owes collates p true made (f done)
      → Owes collates p true made (create_if_absent collates p true >>= f)
  unfolding create_if_absent has_row
  Owes-create_true made f h = Owes-assoc true made _ _ f (
      Owes-plain collates p true made _ _ (Evolves-same collates)
        (λ present. Owes-insert_true made present f h))

  Owes-create_counts :
      (made : Bool) (f : Done → Program Bool)
      → Owes collates p true made (f done)
      → Owes collates p false made (create_counts_if_not_present collates p >>= f)
  unfolding create_counts_if_not_present
  Owes-create_counts made f h =
      Owes-assoc false made _ _ f (Owes-create_false made _ (Owes-create_true made f h))

  -- The increment of the row for hits of any visitor, which ends a visit.
  Owes-count_hit : Owes collates p true false (do _ ← count_hit collates p false; ok true)
  unfolding count_hit increment query ◌>>=◌ and_then on_success ok
  Owes-count_hit =
      makes _ _ _ (λ db. unfold increment in Evolves-increment collates p false db)
        (λ db h q. increment_adds db.cshits q h) (λ db. confirms true)
        (ends true false none (λ e. cc))

  module _ (hmac : Text → Text → Text) (u : Text → ℕ → Text → Text) where
    Owes-is_unique_hit :
        (at : Moment) (ip : Text) (f : Bool → Program Bool)
        → ((k : Bool) → Owes collates p true false (f k))
        → Owes collates p true false (is_unique_hit hmac collates u at p ip >>= f)
    unfolding is_unique_hit select_time
    Owes-is_unique_hit at ip f h = Owes-assoc true false _ _ f (
        Owes-plain collates p true false _ _ (Evolves-same collates)
          (λ r. Owes-ok true false (is_old at.now r) f (h (is_old at.now r))))

    Owes-count_unique :
        (at : Moment) (ip : Text) (k : Bool) (f : Done → Program Bool)
        → Owes collates p true false (f done)
        → Owes collates p true false (count_unique hmac collates u at p ip k >>= f)
    unfolding count_unique count_hit log_hit
    Owes-count_unique at ip false f h = Owes-ok true false done f h
    Owes-count_unique at ip true f h = Owes-assoc true false _ _ f (
        Owes-plain collates p true false _ _ (Evolves-increment collates p true) (λ _.
          Owes-plain collates p true false _ f (Evolves-upsert_time collates _ _)
            (elim [ done ↦ h ])))

    Owes-count_visit :
        (now : ℕ) (test log : Moment) (ip : Text)
        → Owes collates p false false (count_visit hmac collates u now test log p ip)
    unfolding count_visit cleanup
    Owes-count_visit now test log ip =
        Owes-plain collates p false false _ _ (Evolves-delete_old collates now) (λ _.
          Owes-create_counts false _
            (Owes-is_unique_hit test ip _ (λ k. Owes-count_unique log ip k _ Owes-count_hit)))

    -- A visit owes its page a hit from its start.
    pub Owes-add_hit :
        (now : ℕ) (test log : Moment) (ip agent : Text)
        → Owes collates p false false (add_hit hmac collates u now test log p ip agent)
    unfolding add_hit ok
    Owes-add_hit now test log ip agent = elim (Bool-cases (is_search_bot hmac collates u agent)) [
      | inl bot ↦ rw bot (ends false false (some false) (λ e. cc))
      | inr human ↦ rw human (Owes-count_visit now test log ip)
    ]
