-- ===== src/PhpCount/Counter.antt =====
-- What the hit counter of libs/phpcount.rs promises, without its tables: how many hits each page has
-- of each kind, and when each visitor was last counted as unique.
use crackstation_rust.Base.{ℕ, ◌+◌, Bool, true, false, ◌&&◌, Option, some, Text, if◌then◌else◌}
use crackstation_rust.PhpCount.Queries.{same_kind, is_old}

pub record Counter : Type 0 where
  pub hits : Text → Bool → ℕ
  pub last : Text → Option ℕ

-- Texts that the collation takes for equal name one page, and one visitor.
module _ (collates : Text → Text → Bool) where
  unfoldable pub one_hit : Text → Bool → Counter → Counter
  one_hit page unique c = record c {
    hits = λ q l. c.hits q l + (if collates page q && same_kind unique l then 1 else 0);
  }

  unfoldable pub seen : Text → ℕ → Counter → Counter
  seen visitor now c = record c { last = λ h. if collates visitor h then some now else c.last h }

  -- A visitor is unique where it was not counted so in the last 30 days. `visitor` is the identifier
  -- at the test, `logged` the one that is noted, a key may have been rotated between.
  unfoldable pub visit : Text → ℕ → Text → ℕ → Text → Counter → Counter
  visit visitor now logged noted_at page c =
      one_hit page false
        (if is_old now (c.last visitor) then seen logged noted_at (one_hit page true c) else c)
