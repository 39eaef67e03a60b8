-- ===== src/PhpCount/Samples.antt =====
-- Small tables and visits for the tests of libs/phpcount.rs.
use crackstation_rust.Base.{
  ℕ, true, [], ◌∷◌, ◌++◌, Text, codes, text_eq, text_eq_refl, text_eq_sound, ◌≡◌, refl, arith,
}
use crackstation_rust.Fixtures.{no_unicode}
use crackstation_rust.PhpCount.Store.{Database, Process}
use crackstation_rust.PhpCount.Tables.{IsCollation}
use crackstation_rust.PhpCount.{HitCounts, Moment, record_and_get_hits}

text_eq_sym : (a b : Text) → text_eq a b ≡ text_eq b a
text_eq_sym [] [] = refl
text_eq_sym [] (b ∷ t) = refl
text_eq_sym (a ∷ s) [] = refl
text_eq_sym (a ∷ s) (b ∷ t) = ground (arith, text_eq_sym s t)

pub text_eq-IsCollation : IsCollation text_eq
text_eq-IsCollation = record {
  reflexive = text_eq_refl;
  symmetric = text_eq_sym;
  transitive = λ a b d e f. rw (text_eq_sound a b e) f;
}

abbrev pub joined : Text → Text → Text
joined key message = key ++ message

abbrev pub at : ℕ → Moment
at now = record { now = now; visitor_key = record { key = codes "k"; created = 0 } }

abbrev pub empty : Database
empty = record { cshits = []; csnodupes = [] }

abbrev pub page : Text
page = codes "about-us"

abbrev pub address : Text
address = codes "::1"

abbrev pub browser : Text
browser = codes "Mozilla"

abbrev pub visit_at : ℕ → Process HitCounts
visit_at now =
    record_and_get_hits joined text_eq no_unicode now (at now) (at now) page address browser

abbrev pub one_row : Database
one_row = record {
  cshits = record { pageid = page; isunique = true; hitcount = 7 } ∷ [];
  csnodupes = [];
}
