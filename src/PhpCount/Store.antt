-- ===== src/PhpCount/Store.antt =====
-- The two tables of libs/phpcount.rs, and the code that queries them.
use crackstation_rust.Base.{ℕ, Bool, true, false, Option, none, some, List, [], ◌∷◌, Text}

-- A row of `cshits`, and one of `csnodupes`.
pub record HitRow : Type 0 where
  pub pageid : Text
  pub isunique : Bool
  pub hitcount : ℕ

pub record SeenRow : Type 0 where
  pub ids_hash : Text
  pub time : ℕ

pub record Database : Type 0 where
  pub cshits : List HitRow
  pub csnodupes : List SeenRow

-- The database, and for each query to come whether it fails.
pub record State : Type 0 where
  pub database : Database
  pub faults : List Bool

-- `()`.
pub data Done : Type 0 where
  done : Done

-- What is left of an `async fn`: its value, or a query, which no other can part, with what follows
-- on its success and on its failure.
pub data Process (A : Type 0) : Type 0 where
  finish : A → Process A
  call : (Database → Process A) → (Database → Database) → Process A → Process A

-- An `async fn` of a `Result`; `none` is an `Err`.
abbrev pub Program : Type 0 → Type 0
Program A = Process (Option A)

unfoldable pub and_then : {A B : Type 0} → Process A → (A → Process B) → Process B
and_then (finish a) f = f a
and_then (call next change failed) f = call (λ db. and_then (next db) f) change (and_then failed f)

unfoldable pub on_success : {A B : Type 0} → (A → Program B) → Option A → Program B
on_success f none = finish none
on_success f (some a) = f a

-- `?` on a result.
infixl 5 ◌>>=◌
unfoldable pub ◌>>=◌ : {A B : Type 0} → Program A → (A → Program B) → Program B
m >>= f = and_then m (on_success f)

module _ {A : Type 0} where
  unfoldable pub ok : A → Program A
  ok a = finish (some a)

  unfoldable pub query : (Database → A × Database) → Program A
  query q = call (λ db. ok (q db).0) (λ db. (q db).1) (finish none)

  -- The run of a process that nothing interleaves.
  unfoldable pub run : Process A → List Bool → Database → A × State
  run (finish a) faults db = (a, record { database = db; faults = faults })
  run (call next change failed) [] db = run (next db) [] (change db)
  run (call next change failed) (false ∷ faults) db = run (next db) faults (change db)
  run (call next change failed) (true ∷ faults) db = run failed faults db
