-- ===== src/PhpCount/Unordered.antt =====
-- The order of the rows in the tables of libs/phpcount.rs, which SQL leaves open, and the programs
-- that do not depend on it.
pub mod Visits
use mathlib.Core.List.{Permᴰ}
use crackstation_rust.Base.{
  ℕ, ◌==◌, Bool, true, false, Option, none, some, Text, ◌≡◌, refl, sym, ap, Bool-cases, inl, inr,
}
use crackstation_rust.PhpCount.Store.{Database, Process, finish, call, and_then, ok, query}
use crackstation_rust.PhpCount.Threads.{System, perform, picked, pick, start, later, Reach}
use crackstation_rust.PhpCount.Tables.{HitsAreKeyed, SeenAreKeyed}

module _ (collates : Text → Text → Bool) where
  -- The same rows under the primary keys, in any order.
  pub record SameRows (db other : Database) : Type 0 where
    pub same_hits : Permᴰ db.cshits other.cshits
    pub same_seen : Permᴰ db.csnodupes other.csnodupes
    pub hits_keyed : HitsAreKeyed collates db.cshits
    pub seen_keyed : SeenAreKeyed collates db.csnodupes

  -- A statement that the order of the rows does not matter to.
  pub record IsUnordered {A : Type 0} (q : Database → A × Database) : Type 0 where
    pub value : (db other : Database) → SameRows db other → (q db).0 ≡ (q other).0
    pub change : (db other : Database) → SameRows db other → SameRows (q db).1 (q other).1

  -- A process whose statements all are so.
  pub data IsBlind {A : Type 0} : Process A → Type 0 where
    finished : (a : A) → IsBlind (finish a)
    calling :
        (next : Database → Process A) (change : Database → Database) (failed : Process A)
        → ((db other : Database) → SameRows db other → next db ≡ next other)
        → ((db other : Database) → SameRows db other → SameRows (change db) (change other))
        → ((db : Database) → IsBlind (next db))
        → IsBlind failed
        → IsBlind (call next change failed)

  pub IsBlind-and_then :
      {A B : Type 0} {p : Process A} (f : A → Process B)
      → IsBlind p
      → ((a : A) → IsBlind (f a))
      → IsBlind (and_then p f)
  unfolding and_then
  IsBlind-and_then f (finished a) h = h a
  IsBlind-and_then f (calling next change failed same step rest ended) h =
      calling _ _ _ (λ db other e. ap (λ p. and_then p f) (same db other e)) step
        (λ db. IsBlind-and_then f (rest db) h) (IsBlind-and_then f ended h)

  pub IsBlind-query : {A : Type 0} (q : Database → A × Database) → IsUnordered q → IsBlind (query q)
  unfolding query ok
  IsBlind-query q u =
      calling _ _ _ (λ db other e. ap (λ a. finish (some a)) (u.value db other e)) u.change
        (λ db. finished _) (finished none)

  perform-IsBlind :
      {A : Type 0} {p : Process A} (fault : Bool) (db other : Database)
      → IsBlind p
      → SameRows db other
      → ((perform fault p other).0 ≡ (perform fault p db).0)
        × SameRows (perform fault p db).1 (perform fault p other).1
        × IsBlind (perform fault p db).0
  unfolding perform
  perform-IsBlind fault db other (finished a) e = (refl, e, finished a)
  perform-IsBlind true db other (calling next change failed same step rest ended) e =
      (refl, e, ended)
  perform-IsBlind false db other (calling next change failed same step rest ended) e =
      (sym (same db other e), step db other e, rest db)

  module _ {A : Type 0} (s other : System A) where
    -- The same threads over the same rows.
    pub record SameSystem : Type 0 where
      pub threads : (i : ℕ) → other.threads i ≡ s.threads i
      pub rows : SameRows s.database other.database
      pub blind : (i : ℕ) → IsBlind (s.threads i)

  update-same :
      {A : Type 0} (s other : System A) (i : ℕ) (fault : Bool)
      → SameSystem s other
      → SameSystem (picked i fault s) (picked i fault other)
  update-same s other i fault e =
      let (result, rows, blind) =
        perform-IsBlind fault s.database other.database (e.blind i) e.rows in
      record {
        threads = λ j. elim (Bool-cases (i == j)) [
          | inl h ↦ rw (h, e.threads i, result) refl
          | inr h ↦ rw (h, e.threads j) refl
        ];
        rows = rw (e.threads i) rows;
        blind = λ j. elim (Bool-cases (i == j)) [ inl h ↦ rw h blind | inr h ↦ rw h (e.blind j) ];
      }

  -- What one system reaches, the other reaches by the same choices.
  pub Reach-same :
      {A : Type 0} {s other t : System A}
      → SameSystem s other
      → Reach s t
      → (end : System A) × Reach other end × SameSystem t end
  Reach-same {other = other} e start = (other, start, e)
  Reach-same e (later {t} r (pick i fault)) =
      let (end, there, same) = Reach-same e r in
      (picked i fault end, later there (pick i fault), update-same t end i fault same)
