-- ===== src/PhpCount/Owes.antt =====
-- What a visit of libs/phpcount.rs still owes its page while its queries are interleaved with others.
use crackstation_rust.Base.{
  ℕ, ◌+◌, ◌≤◌, Bool, true, false, ◌&&◌, ◌||◌, Option, none, some, Text, any, ◌≡◌, ◌≢◌, refl, ap,
  ◌∙◌, arith, if◌then◌else◌,
}
use mathlib.Core.Path.{fun_ext}
use crackstation_rust.PhpCount.Store.{
  Database, Process, finish, call, Program, and_then, on_success, ◌>>=◌, ok, query,
}
use crackstation_rust.PhpCount.Queries.{is_row}
use crackstation_rust.PhpCount.Threads.{perform}
use crackstation_rust.PhpCount.Evolves.{counted, Evolves, Evolves-same}

and_then_assoc :
    {A B C : Type 0} (m : Process A) (f : A → Process B) (g : B → Process C)
    → and_then (and_then m f) g ≡ and_then m (λ a. and_then (f a) g)
unfolding and_then
and_then_assoc (finish a) f g = refl
and_then_assoc (call next change failed) f g =
    cc (fun_ext (λ db. and_then_assoc (next db) f g), and_then_assoc failed f g)

on_success_assoc :
    {A B C : Type 0} (f : A → Program B) (g : B → Program C) (o : Option A)
    → and_then (on_success f o) (on_success g) ≡ on_success (λ a. f a >>= g) o
unfolding on_success and_then ◌>>=◌
on_success_assoc f g none = refl
on_success_assoc f g (some a) = refl

pub bind_assoc :
    {A B C : Type 0} (m : Program A) (f : A → Program B) (g : B → Program C)
    → (m >>= f) >>= g ≡ m >>= (λ a. f a >>= g)
unfolding ◌>>=◌
bind_assoc m f g =
    and_then_assoc m (on_success f) (on_success g)
    ∙ ap (and_then m) (fun_ext (λ o. on_success_assoc f g o))

module _ (collates : Text → Text → Bool) (page : Text) where
  -- The page has its row for hits of any visitor.
  abbrev pub Stands : Database → Type 0
  Stands db = any (is_row collates page false) db.cshits ≡ true

  -- One hit for the names of the page, if it is made.
  abbrev pub weight : Bool → Text → ℕ
  weight made q = if made && collates page q then 1 else 0

  -- A visit that knows whether the row of its page stands, and that has made its hit or not. It is
  -- confirmed only if it has.
  pub data Owes : Bool → Bool → Program Bool → Type 0 where
    ends : (known made : Bool) (r : Option Bool) → r ≢ some true → Owes known made (finish r)
    confirms : (known : Bool) → Owes known true (finish (some true))
    asks :
        (known made : Bool) (next : Database → Program Bool) (change : Database → Database)
        (failed : Program Bool) (learns : Database → Bool)
        → ((db : Database) → Evolves collates db (change db))
        → ((db : Database) → learns db ≡ true → Stands (change db))
        → ((db : Database) → Owes (learns db || known) made (next db))
        → Owes known made failed
        → Owes known made (call next change failed)
    makes :
        (next : Database → Program Bool) (change : Database → Database) (failed : Program Bool)
        → ((db : Database) → Evolves collates db (change db))
        → ((db : Database)
            → Stands db
            → (q : Text)
            → counted collates q false db.cshits + weight true q
              ≤ counted collates q false (change db).cshits)
        → ((db : Database) → Owes true true (next db))
        → Owes true false failed
        → Owes true false (call next change failed)

  -- One query of a visit: what it adds, and what the visit owes then.
  pub record Paid (made : Bool) (p : Program Bool) (before after : Database) : Type 0 where
    pub known_then : Bool
    pub made_then : Bool
    pub evolves : Evolves collates before after
    pub knows : known_then ≡ true → Stands after
    pub owes : Owes known_then made_then p
    pub rises : (q : Text) → weight made q ≤ weight made_then q
    pub adds :
        (q : Text)
        → counted collates q false before.cshits + weight made_then q
          ≤ counted collates q false after.cshits + weight made q

  knows_or : (a b : Bool) {P : Type 0} → (a ≡ true → P) → (b ≡ true → P) → a || b ≡ true → P
  knows_or true b f g e = f refl
  knows_or false b f g e = g e

  stays :
      (known made : Bool) (p : Program Bool) (before after : Database)
      → Owes known made p
      → (known ≡ true → Stands after)
      → Evolves collates before after
      → Paid made p before after
  stays known made p before after owes knows evolves = record {
    known_then = known;
    made_then = made;
    evolves = evolves;
    knows = knows;
    owes = owes;
    rises = λ q. omega arith;
    adds = λ q. omega (arith, evolves.grows q false);
  }

  pub Paid-perform :
      (fault known made : Bool) (p : Program Bool) (db : Database)
      → Owes known made p
      → (known ≡ true → Stands db)
      → Paid made (perform fault p db).0 db (perform fault p db).1
  unfolding perform
  Paid-perform fault known made p db (ends k m r h) s =
      stays known made _ db db (ends known made r h) s (Evolves-same collates db)
  Paid-perform fault known made p db (confirms k) s =
      stays known true _ db db (confirms known) s (Evolves-same collates db)
  Paid-perform true known made p db (asks k m next change failed learns ev learned rest err) s =
      stays known made failed db db err s (Evolves-same collates db)
  Paid-perform false known made p db (asks k m next change failed learns ev learned rest err) s =
      stays (learns db || known) made (next db) db (change db) (rest db)
        (knows_or (learns db) known (learned db) (λ e. (ev db).rows_stay page false (s e))) (ev db)
  Paid-perform true known made p db (makes next change failed ev adds rest err) s =
      stays true false failed db db err s (Evolves-same collates db)
  Paid-perform false known made p db (makes next change failed ev adds rest err) s = record {
    known_then = true;
    made_then = true;
    evolves = ev db;
    knows = λ e. (ev db).rows_stay page false (s refl);
    owes = rest db;
    rises = λ q. omega arith;
    adds = λ q. omega (arith, adds db (s refl) q);
  }

  -- A query that only asks, with what it may teach of the row.
  pub Owes-query :
      {A : Type 0} (known made : Bool) (q : Database → A × Database) (f : A → Program Bool)
      (learns : Database → Bool)
      → ((db : Database) → Evolves collates db (q db).1)
      → ((db : Database) → learns db ≡ true → Stands (q db).1)
      → ((db : Database) → Owes (learns db || known) made (f (q db).0))
      → Owes known made (query q >>= f)
  unfolding query ◌>>=◌ and_then on_success ok
  Owes-query known made q f learns ev learned rest =
      asks known made _ _ _ learns ev learned rest (ends known made none (λ e. cc))

  -- A query that teaches nothing.
  pub Owes-plain :
      {A : Type 0} (known made : Bool) (q : Database → A × Database) (f : A → Program Bool)
      → ((db : Database) → Evolves collates db (q db).1)
      → ((a : A) → Owes known made (f a))
      → Owes known made (query q >>= f)
  Owes-plain known made q f ev rest =
      Owes-query known made q f (λ db. false) ev (λ db e. cc) (λ db. rest (q db).0)
