-- ===== src/PhpCount/Orders.antt =====
-- What the statements of libs/phpcount.rs make of rows in another order.
use mathlib.Core.List.{Permᴰ}
use mathlib.Core.List.Permᴰ
use crackstation_rust.Base.{
  ℕ, Bool, true, false, List, ◌∷◌, Text, any, keep, Bool-cases, inl, inr, ◌≡◌, refl, sym, subst,
  ◌∙◌, arith,
}
use crackstation_rust.PhpCount.Store.{HitRow, SeenRow}
use crackstation_rust.PhpCount.Queries.{is_row, incremented, time_in, upserted, count_in, sum_of}
use crackstation_rust.PhpCount.Tables.{
  IsCollation, same_kind_sym, has_hash, neither, HitsAreKeyed, SeenAreKeyed,
}
use crackstation_rust.PhpCount.Rows.{any-alike, other_rows}

module _ {A : Type 0} (p : A → Bool) where
  pub any-order : {rows more : List A} → Permᴰ rows more → any p rows ≡ any p more
  any-order Permᴰ.nil = refl
  any-order (Permᴰ.cons e d) = rw (e, any-order d) refl
  any-order (Permᴰ.swap e f) = rw (e, f) (ground arith)
  any-order (Permᴰ.trans d g) = any-order d ∙ any-order g

  pub Permᴰ-keep : {rows more : List A} → Permᴰ rows more → Permᴰ (keep p rows) (keep p more)
  Permᴰ-keep Permᴰ.nil = Permᴰ.nil
  Permᴰ-keep (Permᴰ.cons {b = b} e d) = elim (Bool-cases (p b)) [
    | inl f ↦ rw (e, f) (Permᴰ.cons refl (Permᴰ-keep d))
    | inr f ↦ rw (e, f) (Permᴰ-keep d)
  ]
  Permᴰ-keep (Permᴰ.swap {a' = a} {b' = b} {l = l} e f) = elim (Bool-cases (p a)) [
    | inl g ↦ elim (Bool-cases (p b)) [
      | inl h ↦ rw (e, f, g, h) (Permᴰ.swap refl refl)
      | inr h ↦ rw (e, f, g, h) (Permᴰ.refl _)
    ]
    | inr g ↦ elim (Bool-cases (p b)) [
      | inl h ↦ rw (e, f, g, h) (Permᴰ.refl _)
      | inr h ↦ rw (e, f, g, h) (Permᴰ.refl _)
    ]
  ]
  Permᴰ-keep (Permᴰ.trans d g) = Permᴰ.trans (Permᴰ-keep d) (Permᴰ-keep g)

pub sum_of-order :
    (unique : Bool) {rows more : List HitRow}
    → Permᴰ rows more
    → sum_of unique rows ≡ sum_of unique more
sum_of-order unique Permᴰ.nil = refl
sum_of-order unique (Permᴰ.cons e d) = rw (e, sum_of-order unique d) refl
sum_of-order unique (Permᴰ.swap e f) = rw (e, f) (omega arith)
sum_of-order unique (Permᴰ.trans d g) = sum_of-order unique d ∙ sum_of-order unique g

module _ (collates : Text → Text → Bool) where
  pub incremented-order :
      (p : Text) (k : Bool) {rows more : List HitRow}
      → Permᴰ rows more
      → Permᴰ (incremented collates p k rows) (incremented collates p k more)
  incremented-order p k Permᴰ.nil = Permᴰ.nil
  incremented-order p k (Permᴰ.cons e d) = rw e (Permᴰ.cons refl (incremented-order p k d))
  incremented-order p k (Permᴰ.swap e f) = rw (e, f) (Permᴰ.swap refl refl)
  incremented-order p k (Permᴰ.trans d g) =
      Permᴰ.trans (incremented-order p k d) (incremented-order p k g)

  module _ (c : IsCollation collates) where
    open c use {symmetric}

    is_row-sym :
        (row r : HitRow)
        → is_row collates row.pageid row.isunique r ≡ is_row collates r.pageid r.isunique row
    is_row-sym row r =
        rw (symmetric row.pageid r.pageid, same_kind_sym row.isunique r.isunique) refl

    hits_swapped :
        (a b : HitRow) (rows : List HitRow)
        → HitsAreKeyed collates (a ∷ b ∷ rows)
        → HitsAreKeyed collates (b ∷ a ∷ rows)
    hits_swapped a b rows h =
        let (apart, fresh) = neither (is_row collates a.pageid a.isunique b) _ h.0 in
        (rw (sym (is_row-sym a b), apart, h.1.0) refl, (fresh, h.1.1))

    pub HitsAreKeyed-order :
        {rows more : List HitRow}
        → Permᴰ rows more
        → HitsAreKeyed collates rows
        → HitsAreKeyed collates more
    HitsAreKeyed-order Permᴰ.nil h = h
    HitsAreKeyed-order (Permᴰ.cons {a = a} {b = b} e d) h = (
      rw (sym e, sym (any-order (is_row collates a.pageid a.isunique) d)) h.0,
      HitsAreKeyed-order d h.1,
    )
    HitsAreKeyed-order (Permᴰ.swap {a = a} {b = b} {b' = b'} {l = l} e f) h =
        subst (λ x. HitsAreKeyed collates (x ∷ b' ∷ l)) f
          (subst (λ y. HitsAreKeyed collates (b ∷ y ∷ l)) e (hits_swapped a b l h))
    HitsAreKeyed-order (Permᴰ.trans d g) h = HitsAreKeyed-order g (HitsAreKeyed-order d h)

    seen_swapped :
        (a b : SeenRow) (rows : List SeenRow)
        → SeenAreKeyed collates (a ∷ b ∷ rows)
        → SeenAreKeyed collates (b ∷ a ∷ rows)
    seen_swapped a b rows h =
        let (apart, fresh) = neither (has_hash collates a.ids_hash b) _ h.0 in
        (rw (symmetric a.ids_hash b.ids_hash, apart, h.1.0) refl, (fresh, h.1.1))

    pub SeenAreKeyed-order :
        {rows more : List SeenRow}
        → Permᴰ rows more
        → SeenAreKeyed collates rows
        → SeenAreKeyed collates more
    SeenAreKeyed-order Permᴰ.nil h = h
    SeenAreKeyed-order (Permᴰ.cons {a = a} {b = b} e d) h =
        (rw (sym e, sym (any-order (has_hash collates a.ids_hash) d)) h.0, SeenAreKeyed-order d h.1)
    SeenAreKeyed-order (Permᴰ.swap {a = a} {b = b} {b' = b'} {l = l} e f) h =
        subst (λ x. SeenAreKeyed collates (x ∷ b' ∷ l)) f
          (subst (λ y. SeenAreKeyed collates (b ∷ y ∷ l)) e (seen_swapped a b l h))
    SeenAreKeyed-order (Permᴰ.trans d g) h = SeenAreKeyed-order g (SeenAreKeyed-order d h)

    -- One row of a key is found in whatever order.
    pub count_in-order :
        (p : Text) (k : Bool) {rows more : List HitRow}
        → Permᴰ rows more
        → HitsAreKeyed collates rows
        → count_in collates p k rows ≡ count_in collates p k more
    count_in-order p k Permᴰ.nil h = refl
    count_in-order p k (Permᴰ.cons e d) h = rw (e, count_in-order p k d h.1) refl
    count_in-order p k (Permᴰ.swap {a = a} {b = b} {l = l} e f) h =
        rw (sym e, sym f)
          (elim (Bool-cases (is_row collates p k a)) [
            | inl g ↦
                let apart : is_row collates p k b ≡ false =
                  (neither _ (any (is_row collates p k) l)
                    (any-alike collates c p k a (b ∷ l) g ∙ h.0)).0 in
                rw (g, apart) refl
            | inr g ↦ rw g refl
          ])
    count_in-order p k (Permᴰ.trans d g) h =
        count_in-order p k d h ∙ count_in-order p k g (HitsAreKeyed-order d h)

    apart_from :
        (hash : Text) (a b : SeenRow) (rows : List SeenRow)
        → collates a.ids_hash hash ≡ true
        → any (has_hash collates a.ids_hash) (b ∷ rows) ≡ false
        → collates b.ids_hash hash ≡ false
    apart_from hash a b rows e h =
        (neither _ (any (has_hash collates hash) rows)
          (other_rows collates c a hash (b ∷ rows) e ∙ h)).0

    pub time_in-order :
        (hash : Text) {rows more : List SeenRow}
        → Permᴰ rows more
        → SeenAreKeyed collates rows
        → time_in collates hash rows ≡ time_in collates hash more
    time_in-order hash Permᴰ.nil h = refl
    time_in-order hash (Permᴰ.cons e d) h = rw (e, time_in-order hash d h.1) refl
    time_in-order hash (Permᴰ.swap {a = a} {b = b} {l = l} e f) h =
        rw (sym e, sym f)
          (elim (Bool-cases (collates a.ids_hash hash)) [
            | inl g ↦ rw (g, apart_from hash a b l g h.0) refl
            | inr g ↦ rw g refl
          ])
    time_in-order hash (Permᴰ.trans d g) h =
        time_in-order hash d h ∙ time_in-order hash g (SeenAreKeyed-order d h)

    pub upserted-order :
        (hash : Text) (now : ℕ) {rows more : List SeenRow}
        → Permᴰ rows more
        → SeenAreKeyed collates rows
        → Permᴰ (upserted collates hash now rows) (upserted collates hash now more)
    upserted-order hash now Permᴰ.nil h = Permᴰ.refl _
    upserted-order hash now (Permᴰ.cons {b = b} e d) h =
        rw e (elim (Bool-cases (collates b.ids_hash hash)) [
          | inl g ↦ rw g (Permᴰ.cons refl d)
          | inr g ↦ rw g (Permᴰ.cons refl (upserted-order hash now d h.1))
        ])
    upserted-order hash now (Permᴰ.swap {a = a} {b = b} {l = l} e f) h =
        rw (sym e, sym f)
          (elim (Bool-cases (collates a.ids_hash hash)) [
            | inl g ↦ rw (g, apart_from hash a b l g h.0) (Permᴰ.swap refl refl)
            | inr g ↦ elim (Bool-cases (collates b.ids_hash hash)) [
              | inl k ↦ rw (g, k) (Permᴰ.swap refl refl)
              | inr k ↦ rw (g, k) (Permᴰ.swap refl refl)
            ]
          ])
    upserted-order hash now (Permᴰ.trans d g) h =
        Permᴰ.trans (upserted-order hash now d h)
          (upserted-order hash now g (SeenAreKeyed-order d h))
