-- ===== src/PhpCount/Rows.antt =====
-- What the statements of libs/phpcount.rs do to the count of a page and to the time of a visitor.
use crackstation_rust.Base.{
  ℕ, ◌+◌, ◌≤◌, ◌<◌, Bool, true, false, ◌&&◌, ◌||◌, Option, none, some, List, [], ◌∷◌, ◌++◌, Text,
  any, keep, Bool-cases, inl, inr, ◌≡◌, refl, sym, ap, ◌∙◌, arith, if◌then◌else◌,
}
use crackstation_rust.PhpCount.Store.{HitRow, SeenRow}
use crackstation_rust.PhpCount.Queries.{
  hit_old_after_seconds, same_kind, is_old, is_recent, is_row, incremented, time_in, upserted,
}
use crackstation_rust.PhpCount.Tables.{
  IsCollation, collates_alike, same_kind_eq, has_hash, neither, any-keep, HitsAreKeyed,
  SeenAreKeyed,
}
use crackstation_rust.PhpCount.Evolves.{counted, counted-append}

-- What a table that is swept up to a time may know of a last visit: the visit, or nothing where it
-- is too long ago.
abbrev pub Forgets : ℕ → Option ℕ → Option ℕ → Type 0
Forgets clock (some time) last = last ≡ some time
Forgets clock none none = Unit
Forgets clock none (some time) = time + hit_old_after_seconds < clock

-- A visit that was swept is old.
pub is_old-Forgets :
    (clock now : ℕ) (found last : Option ℕ)
    → clock ≤ now
    → Forgets clock found last
    → is_old now found ≡ is_old now last
is_old-Forgets clock now (some time) last h f = rw f
is_old-Forgets clock now none none h f = refl
is_old-Forgets clock now none (some time) h f = ground arith

Forgets-later :
    (clock now : ℕ) (last : Option ℕ)
    → clock ≤ now
    → Forgets clock none last
    → Forgets now none last
Forgets-later clock now none h f = f
Forgets-later clock now (some time) h f = omega arith

pub Forgets-logged :
    (clock now : ℕ) (found last : Option ℕ) (b : Bool)
    → Forgets clock found last
    → Forgets clock (if b then some now else found) (if b then some now else last)
Forgets-logged clock now found last true f = refl
Forgets-logged clock now found last false f = f

found_if :
    (clock : ℕ) (here there last : Option ℕ) (b : Bool)
    → b ≡ true
    → Forgets clock (if b then here else there) last
    → Forgets clock here last
found_if clock here there last true e f = f
found_if clock here there last false e f = cc

found_else :
    (clock : ℕ) (here there last : Option ℕ) (b : Bool)
    → b ≡ false
    → Forgets clock (if b then here else there) last
    → Forgets clock there last
found_else clock here there last true e f = cc
found_else clock here there last false e f = f

pub both_hold : (a b : Bool) → a && b ≡ true → (a ≡ true) × (b ≡ true)
both_hold true b e = (refl, e)
both_hold false b e = cc

pub rest_holds : (a b : Bool) → a ≡ false → a || b ≡ true → b ≡ true
rest_holds true b f e = cc
rest_holds false b f e = e

Forgets-swept :
    (now : ℕ) (row : SeenRow) (last : Option ℕ)
    → is_recent now row ≡ false
    → last ≡ some row.time
    → Forgets now none last
Forgets-swept now row none e f = cc
Forgets-swept now row (some time) e f = ground arith

zero_if : (b : Bool) → ◌≡◌ {A = ℕ} (if b then 0 else 0) 0
zero_if true = refl
zero_if false = refl

one_more :
    (b : Bool) (m n : ℕ)
    → (if b then m + 1 else 0) + n ≡ (if b then m else 0) + n + (if b then 1 else 0)
one_more true m n = omega arith
one_more false m n = omega arith

module _ (collates : Text → Text → Bool) where
  time_in-absent :
      (h : Text) (rows : List SeenRow)
      → any (has_hash collates h) rows ≡ false
      → time_in collates h rows ≡ none
  time_in-absent h [] e = refl
  time_in-absent h (row ∷ rows) e = ground (arith, time_in-absent h rows)

  incremented-absent :
      (p : Text) (k : Bool) (rows : List HitRow)
      → any (is_row collates p k) rows ≡ false
      → incremented collates p k rows ≡ rows
  incremented-absent p k [] e = refl
  incremented-absent p k (row ∷ rows) e =
      let here : is_row collates p k row ≡ false =
        (neither _ (any (is_row collates p k) rows) e).0 in
      let there = incremented-absent p k rows (neither (is_row collates p k row) _ e).1 in
      rw (here, there) refl

  pub counted-fresh :
      (q p : Text) (l k : Bool) (rows : List HitRow)
      → counted collates q l (rows ++ record { pageid = p; isunique = k; hitcount = 0 } ∷ [])
        ≡ counted collates q l rows
  counted-fresh q p l k rows = omega (
    arith,
    counted-append collates q l rows (record { pageid = p; isunique = k; hitcount = 0 } ∷ []),
    zero_if (collates p q && same_kind k l),
  )

  module _ (c : IsCollation collates) where
    open c use {reflexive, symmetric, transitive}

    is_row-alike :
        (p : Text) (k : Bool) (row r : HitRow)
        → is_row collates p k row ≡ true
        → is_row collates p k r ≡ is_row collates row.pageid row.isunique r
    is_row-alike p k row r e =
        let (same, kind) = both_hold _ _ e in
        ap (λ b. b && same_kind r.isunique k)
          (symmetric r.pageid p
            ∙ sym (collates_alike collates c row.pageid p r.pageid same)
            ∙ symmetric row.pageid r.pageid)
        ∙ ap (λ l. collates r.pageid row.pageid && same_kind r.isunique l)
            (sym (same_kind_eq _ _ kind))

    pub any-alike :
        (p : Text) (k : Bool) (row : HitRow) (rows : List HitRow)
        → is_row collates p k row ≡ true
        → any (is_row collates p k) rows ≡ any (is_row collates row.pageid row.isunique) rows
    any-alike p k row [] e = refl
    any-alike p k row (r ∷ rows) e = rw (is_row-alike p k row r e, any-alike p k row rows e) refl

    -- One row of a page and a kind counts one hit more.
    pub counted-incremented :
        (q p : Text) (l k : Bool) (rows : List HitRow)
        → HitsAreKeyed collates rows
        → any (is_row collates p k) rows ≡ true
        → counted collates q l (incremented collates p k rows)
          ≡ counted collates q l rows + (if collates p q && same_kind k l then 1 else 0)
    counted-incremented q p l k [] h e = cc
    counted-incremented q p l k (row ∷ rows) h e = elim (Bool-cases (is_row collates p k row)) [
      | inl f ↦
          let (same, kind) = both_hold _ _ f in
          let alike : collates row.pageid q ≡ collates p q =
            collates_alike collates c row.pageid p q same in
          let kinds : row.isunique ≡ k = same_kind_eq _ _ kind in
          rw (f, incremented-absent p k rows (any-alike p k row rows f ∙ h.0), alike, kinds)
            (one_more _ _ _)
      | inr f ↦ rw (f, counted-incremented q p l k rows h.1 (rest_holds _ _ f e)) (omega arith)
    ]

    pub time_in-upserted :
        (h hash : Text) (now : ℕ) (rows : List SeenRow)
        → time_in collates h (upserted collates hash now rows)
          ≡ (if collates hash h then some now else time_in collates h rows)
    time_in-upserted h hash now [] = refl
    time_in-upserted h hash now (row ∷ rows) = elim (Bool-cases (collates row.ids_hash hash)) [
      | inl e ↦ rw (e, collates_alike collates c row.ids_hash hash h e) (ground arith)
      | inr e ↦ elim (Bool-cases (collates row.ids_hash h)) [
        | inl g ↦
            let apart : collates hash h ≡ false =
              symmetric hash h ∙ sym (collates_alike collates c row.ids_hash h hash g) ∙ e in
            rw (e, g, apart) refl
        | inr g ↦ rw (e, g, time_in-upserted h hash now rows) refl
      ]
    ]

    pub other_rows :
        (row : SeenRow) (h : Text) (rows : List SeenRow)
        → collates row.ids_hash h ≡ true
        → any (has_hash collates h) rows ≡ any (has_hash collates row.ids_hash) rows
    other_rows row h [] e = refl
    other_rows row h (r ∷ rows) e =
        rw
          (
            symmetric r.ids_hash h,
            sym (collates_alike collates c row.ids_hash h r.ids_hash e),
            symmetric row.ids_hash r.ids_hash,
            other_rows row h rows e,
          )
          refl

    pub Forgets-keep :
        (h : Text) (clock now : ℕ) (rows : List SeenRow) (last : Option ℕ)
        → clock ≤ now
        → SeenAreKeyed collates rows
        → Forgets clock (time_in collates h rows) last
        → Forgets now (time_in collates h (keep (is_recent now) rows)) last
    Forgets-keep h clock now [] last le k f = Forgets-later clock now last le f
    Forgets-keep h clock now (row ∷ rows) last le k f =
        elim (Bool-cases (collates row.ids_hash h)) [
          | inl e ↦ elim (Bool-cases (is_recent now row)) [
            | inl g ↦ rw (g, e) (found_if _ _ _ _ _ e f)
            | inr g ↦
                rw
                  (
                    g,
                    time_in-absent h (keep (is_recent now) rows)
                        (any-keep _ (is_recent now) rows (other_rows row h rows e ∙ k.0)),
                  )
                  (Forgets-swept now row last g (found_if _ _ _ _ _ e f))
          ]
          | inr e ↦ elim (Bool-cases (is_recent now row)) [
            | inl g ↦
                rw (g, e) (Forgets-keep h clock now rows last le k.1 (found_else _ _ _ _ _ e f))
            | inr g ↦ rw g (Forgets-keep h clock now rows last le k.1 (found_else _ _ _ _ _ e f))
          ]
        ]
