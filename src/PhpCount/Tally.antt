-- ===== src/PhpCount/Tally.antt =====
-- The hits of all visits of libs/phpcount.rs that are served at the same time.
use crackstation_rust.Base.{
  ℕ, ◌+◌, ◌≤◌, ◌==◌, Bool, true, false, Option, none, some, Text, Bool-cases, inl, inr, ◌≡◌, refl,
  subst, arith,
}
use crackstation_rust.PhpCount.Sums.{
  total, total_le, total_change, total_zero, itself, same, after_change,
}
use crackstation_rust.PhpCount.Store.{Database, finish, Program}
use crackstation_rust.PhpCount.Threads.{System, Reach, start, later, Step, pick, update, perform}
use crackstation_rust.PhpCount.Tables.{IsCollation}
use crackstation_rust.PhpCount.Evolves.{counted}
use crackstation_rust.PhpCount.Owes.{
  Stands, weight, Owes, ends, confirms, asks, makes, Paid-perform,
}
use crackstation_rust.PhpCount.Confirmed.{Owes-add_hit}
use crackstation_rust.PhpCount.Statements.{Visit}
use crackstation_rust.PhpCount.{add_hit}

abbrev pub is_confirmed : Program Bool → Bool
is_confirmed (finish (some true)) = true
is_confirmed _ = false

module _ (collates : Text → Text → Bool) (visit : ℕ → Visit) where
  -- The hit of a visit, for the names of its page, if it is made.
  abbrev pub hit_of : ℕ → Bool → Text → ℕ
  hit_of i made q = weight collates (visit i).page_id made q

  -- Which visits have made their hit, and that the counters have them all.
  record Tallied (before : Database) (t : System (Option Bool)) : Type 0 where
    made : ℕ → Bool
    known : ℕ → Bool
    knows : (i : ℕ) → known i ≡ true → Stands collates (visit i).page_id t.database
    owes : (i : ℕ) → Owes collates (visit i).page_id (known i) (made i) (t.threads i)
    tallied :
        (q : Text) (n : ℕ)
        → counted collates q false before.cshits + total (λ i. hit_of i (made i) q) n
          ≤ counted collates q false t.database.cshits

  Tallied-pick :
      (before : Database) (t after : System (Option Bool))
      → Tallied before t
      → Step t after
      → Tallied before after
  Tallied-pick before t _ tally (pick i fault) =
      let paid =
        Paid-perform collates (visit i).page_id fault (tally.known i) (tally.made i) (t.threads i)
          t.database (tally.owes i) (tally.knows i) in
      let made_now : ℕ → Bool = update tally.made i paid.made_then in
      record {
        made = update tally.made i paid.made_then;
        known = update tally.known i paid.known_then;
        knows = λ j. elim (Bool-cases (i == j)) [
          | inl e ↦ rw e (
              subst
                (λ j.
                  paid.known_then ≡ true
                  → Stands collates (visit j).page_id (perform fault (t.threads i) t.database).1)
                (same i j e) paid.knows)
          | inr e ↦ rw e (λ h. paid.evolves.rows_stay (visit j).page_id false (tally.knows j h))
        ];
        owes = λ j. elim (Bool-cases (i == j)) [
          | inl e ↦ rw e (
              subst
                (λ j.
                  Owes collates (visit j).page_id paid.known_then paid.made_then
                    (perform fault (t.threads i) t.database).0)
                (same i j e) paid.owes)
          | inr e ↦ rw e (tally.owes j)
        ];
        tallied = λ q n.
            let f : ℕ → ℕ = λ j. hit_of j (tally.made j) q in
            let g : ℕ → ℕ = λ j. hit_of j (made_now j) q in
            let here : g i ≡ hit_of i paid.made_then q = rw (itself i) refl in
            let others : (j : ℕ) → (i == j) ≡ false → g j ≡ f j = λ j e. rw e refl in
            let less : f i ≤ g i = rw here (paid.rises q) in
            after_change _ _ _ _ _ _ _ _ (tally.tallied q n) (total_change f g i n less others) here
              (paid.adds q);
      }

  Tallied-Reach :
      (s t : System (Option Bool)) → Tallied s.database s → Reach s t → Tallied s.database t
  Tallied-Reach s t start_tally start = start_tally
  Tallied-Reach s after start_tally (later {t} r step) =
      Tallied-pick s.database t after (Tallied-Reach s t start_tally r) step

  is_confirmed-made :
      (page : Text) (known made : Bool) (p : Program Bool)
      → Owes collates page known made p
      → is_confirmed p ≡ true
      → made ≡ true
  is_confirmed-made page known made p (ends k m none h) e = cc
  is_confirmed-made page known made p (ends k m (some false) h) e = cc
  is_confirmed-made page known made p (ends k m (some true) h) e = absurd (h refl)
  is_confirmed-made page known made p (confirms k) e = refl
  is_confirmed-made page known made p (asks k m next change failed l ev learned rest err) e = cc
  is_confirmed-made page known made p (makes next change failed ev adds rest err) e = cc

  confirmed_le :
      (i : ℕ) (q : Text) (confirmed made : Bool)
      → (confirmed ≡ true → made ≡ true)
      → hit_of i confirmed q ≤ hit_of i made q
  confirmed_le i q false made h = omega arith
  confirmed_le i q true made h = rw (h refl) (omega arith)

  module _ (c : IsCollation collates) (hmac : Text → Text → Text) (u : Text → ℕ → Text → Text) where
    -- `add_hit` of a visit.
    abbrev pub adding : Visit → Program Bool
    adding v =
        add_hit hmac collates u v.at_cleanup v.at_test v.at_log v.page_id v.client_ip v.user_agent

    Tallied-start :
        (s : System (Option Bool))
        → ((i : ℕ) → s.threads i ≡ adding (visit i))
        → Tallied s.database s
    Tallied-start s h = record {
      made = λ i. false;
      known = λ i. false;
      knows = λ i e. cc;
      owes = λ i. rw (h i) (Owes-add_hit collates c (visit i).page_id hmac u _ _ _ _ _);
      tallied = λ q n. omega (arith, total_zero n);
    }

    -- Under a collation that compares as an equivalence: visits that are served at the same time, with
    -- their queries interleaved in any order and any of them failing, lose no hit. However many of the
    -- threads are taken, each page has, beside the hits it had, one for each of them that returned
    -- true for that page.
    pub visits-Count_all :
        {s t : System (Option Bool)}
        → ((i : ℕ) → s.threads i ≡ adding (visit i))
        → Reach s t
        → (page : Text) (n : ℕ)
        → counted collates page false s.database.cshits
            + total (λ i. hit_of i (is_confirmed (t.threads i)) page) n
          ≤ counted collates page false t.database.cshits
    visits-Count_all {s} {t} h r page n =
        let tally = Tallied-Reach s t (Tallied-start s h) r in
        omega (
          arith,
          tally.tallied page n,
          total_le (λ i. hit_of i (is_confirmed (t.threads i)) page)
              (λ i. hit_of i (tally.made i) page) n
              (λ i.
                confirmed_le i page _ _
                  (is_confirmed-made (visit i).page_id (tally.known i) _ _ (tally.owes i))),
        )
