-- ===== src/PhpCount/Tables.antt =====
-- The primary keys of the tables of libs/phpcount.rs, and what each statement does to them.
use crackstation_rust.Base.{
  ℕ, Bool, true, false, ◌&&◌, ◌||◌, List, [], ◌∷◌, ◌++◌, Text, any, keep, Bool-cases, inl, inr, ◌≡◌,
  refl, sym, ◌∙◌, arith,
}
use crackstation_rust.PhpCount.Store.{HitRow, SeenRow}
use crackstation_rust.PhpCount.Queries.{same_kind, is_row, incremented, upserted}

-- A collation compares as an equivalence.
pub record IsCollation (collates : Text → Text → Bool) : Type 0 where
  pub reflexive : (a : Text) → collates a a ≡ true
  pub symmetric : (a b : Text) → collates a b ≡ collates b a
  pub transitive : (a b c : Text) → collates a b ≡ true → collates b c ≡ true → collates a c ≡ true

pub same_kind_sym : (k l : Bool) → same_kind k l ≡ same_kind l k
same_kind_sym true true = refl
same_kind_sym true false = refl
same_kind_sym false true = refl
same_kind_sym false false = refl

pub same_kind_eq : (k l : Bool) → same_kind k l ≡ true → k ≡ l
same_kind_eq true true e = refl
same_kind_eq true false e = cc
same_kind_eq false true e = cc
same_kind_eq false false e = refl

pub neither : (a b : Bool) → a || b ≡ false → (a ≡ false) × (b ≡ false)
neither true b e = cc
neither false b e = (refl, e)

pub any-keep :
    {A : Type 0} (p f : A → Bool) (rows : List A) → any p rows ≡ false → any p (keep f rows) ≡ false
any-keep p f [] h = refl
any-keep p f (row ∷ rows) h = ground (arith, any-keep p f rows)

pub any-append_old :
    {A : Type 0} (p : A → Bool) (rows more : List A)
    → any p rows ≡ true
    → any p (rows ++ more) ≡ true
any-append_old p [] more h = cc
any-append_old p (row ∷ rows) more h = ground (arith, any-append_old p rows more)

pub any-append_new :
    {A : Type 0} (p : A → Bool) (rows : List A) (row : A)
    → p row ≡ true
    → any p (rows ++ row ∷ []) ≡ true
any-append_new p [] row h = ground arith
any-append_new p (r ∷ rows) row h = ground (arith, any-append_new p rows row)

pub same_kind_refl : (k : Bool) → same_kind k k ≡ true
same_kind_refl true = refl
same_kind_refl false = refl

module _ (collates : Text → Text → Bool) where
  abbrev pub has_hash : Text → SeenRow → Bool
  has_hash hash row = collates row.ids_hash hash

  abbrev pub HitsAreKeyed : List HitRow → Type 0
  HitsAreKeyed [] = Unit
  HitsAreKeyed (row ∷ rows) =
      (any (is_row collates row.pageid row.isunique) rows ≡ false) × HitsAreKeyed rows

  abbrev pub SeenAreKeyed : List SeenRow → Type 0
  SeenAreKeyed [] = Unit
  SeenAreKeyed (row ∷ rows) = (any (has_hash row.ids_hash) rows ≡ false) × SeenAreKeyed rows

  pub any-incremented :
      (q p : Text) (l k : Bool) (rows : List HitRow)
      → any (is_row collates q l) (incremented collates p k rows) ≡ any (is_row collates q l) rows
  any-incremented q p l k [] = refl
  any-incremented q p l k (row ∷ rows) = ground (arith, any-incremented q p l k rows)

  pub HitsAreKeyed-incremented :
      (p : Text) (k : Bool) (rows : List HitRow)
      → HitsAreKeyed rows
      → HitsAreKeyed (incremented collates p k rows)
  HitsAreKeyed-incremented p k [] h = h
  HitsAreKeyed-incremented p k (row ∷ rows) h =
      let rest = HitsAreKeyed-incremented p k rows h.1 in
      elim (Bool-cases (is_row collates p k row)) [
        | inl e ↦ rw e (any-incremented row.pageid p row.isunique k rows ∙ h.0, rest)
        | inr e ↦ rw e (any-incremented row.pageid p row.isunique k rows ∙ h.0, rest)
      ]

  pub SeenAreKeyed-keep :
      (f : SeenRow → Bool) (rows : List SeenRow) → SeenAreKeyed rows → SeenAreKeyed (keep f rows)
  SeenAreKeyed-keep f [] h = h
  SeenAreKeyed-keep f (row ∷ rows) h =
      let rest = SeenAreKeyed-keep f rows h.1 in
      elim (Bool-cases (f row)) [ inl e ↦ rw e (any-keep _ f rows h.0, rest) | inr e ↦ rw e rest ]

  any-upserted :
      (h hash : Text) (now : ℕ) (rows : List SeenRow)
      → any (has_hash h) rows ≡ false
      → collates hash h ≡ false
      → any (has_hash h) (upserted collates hash now rows) ≡ false
  any-upserted h hash now [] e f = ground arith
  any-upserted h hash now (row ∷ rows) e f = ground (arith, any-upserted h hash now rows)

  any-append :
      (q : Text) (l : Bool) (rows : List HitRow) (row : HitRow)
      → any (is_row collates q l) rows ≡ false
      → is_row collates q l row ≡ false
      → any (is_row collates q l) (rows ++ row ∷ []) ≡ false
  any-append q l [] row h k = ground arith
  any-append q l (r ∷ rows) row h k = ground (arith, any-append q l rows row)

  module _ (c : IsCollation collates) where
    open c use {reflexive, symmetric, transitive}

    -- Texts that collate are told apart from no third.
    pub collates_alike : (a b d : Text) → collates a b ≡ true → collates a d ≡ collates b d
    collates_alike a b d e = elim (Bool-cases (collates b d)) [
      | inl f ↦ transitive a b d e f ∙ sym f
      | inr f ↦ elim (Bool-cases (collates a d)) [
        | inl g ↦ cc (transitive b a d (symmetric b a ∙ e) g)
        | inr g ↦ g ∙ sym f
      ]
    ]

    is_row_sym :
        (p : Text) (k : Bool) (row : HitRow)
        → collates p row.pageid && same_kind k row.isunique ≡ is_row collates p k row
    is_row_sym p k row = rw (symmetric p row.pageid, same_kind_sym k row.isunique) refl

    pub SeenAreKeyed-upserted :
        (hash : Text) (now : ℕ) (rows : List SeenRow)
        → SeenAreKeyed rows
        → SeenAreKeyed (upserted collates hash now rows)
    SeenAreKeyed-upserted hash now [] h = (refl, _)
    SeenAreKeyed-upserted hash now (row ∷ rows) h =
        let rest = SeenAreKeyed-upserted hash now rows h.1 in
        elim (Bool-cases (collates row.ids_hash hash)) [
          | inl e ↦ rw e h
          | inr e ↦ rw e (any-upserted row.ids_hash hash now rows h.0 (symmetric _ _ ∙ e), rest)
        ]

    pub HitsAreKeyed-append :
        (p : Text) (k : Bool) (rows : List HitRow)
        → any (is_row collates p k) rows ≡ false
        → HitsAreKeyed rows
        → HitsAreKeyed (rows ++ record { pageid = p; isunique = k; hitcount = 0 } ∷ [])
    HitsAreKeyed-append p k [] e h = (refl, _)
    HitsAreKeyed-append p k (row ∷ rows) e h =
        let (here, there) = neither _ _ e in
        (
          any-append row.pageid row.isunique rows _ h.0 (is_row_sym p k row ∙ here),
          HitsAreKeyed-append p k rows there h.1,
        )
