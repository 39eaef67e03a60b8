-- ===== src/Startup/Tests.antt =====
-- Starts of src/main.rs on small machines.
use crackstation_rust.Base.{
  true, false, Option, none, some, List, [], ◌∷◌, ◌++◌, Text, codes, text_eq, trim, leb, ℕ, ◌+◌,
  ◌≡◌, refl, if◌then◌else◌,
}
use crackstation_rust.Cracking.Oracle.{init_oracle}
use crackstation_rust.PhpCount.{new_key, new_service, connect}
use crackstation_rust.Captcha.{site_key_for, parse_dev_recaptcha_flag, check_captcha_config}
use crackstation_rust.Startup.{
  mirror_file_missing, Attempt, panicked, done, ◌>>=◌, expect, ensure, Machine, Started, new_state,
  require, check_mirror_files, async_main,
}
use crackstation_rust.Startup.Checks.{Meets, Says, IsReady, async_main-Explains}

abbrev find : List (Text × Text) → Text → Option Text
find [] name = none
find ((k, v) ∷ vars) name = if text_eq k name then some v else find vars name

abbrev vars : List (Text × Text)
vars =
    (codes "CRACKING_DIR", codes "/c")
    ∷ (codes "WORDLIST_FILES_DIR", codes "/w")
    ∷ (codes "PHPCOUNT_DATABASE_URL", codes "mysql:")
    ∷ (codes "RECAPTCHA_SECRET_KEY", codes "secret")
    ∷ []

-- A machine on which every file but one is there; its oracle counts the tables.
abbrev machine : Text → Machine Text Text ℕ
machine missing = record {
  var = find vars;
  to_path = λ s. s;
  join = λ dir name. dir ++ b'/' ∷ name;
  is_dir = λ dir. true;
  is_file = λ file. if text_eq file missing then false else true;
  connect_pool = some;
  entropy = some (codes "k");
  instant = 0;
  build_client = λ config. leb config.timeout 60;
  new_oracle = 0;
  register = λ label algorithm idx dict oracle. some (oracle + 1);
}

abbrev tables_of : Attempt (Started Text Text ℕ) → ℕ
tables_of (panicked failure) = 0
tables_of (done s) = s.state.oracle

starts_with_all_tables : tables_of (async_main (machine [])) ≡ 17
unfolding async_main require expect ensure ◌>>=◌ check_mirror_files parse_dev_recaptcha_flag
    check_captcha_config init_oracle new_state site_key_for trim connect new_service new_key
starts_with_all_tables = refl

missing_archive :
    async_main (machine (codes "/w/crackstation.txt.gz"))
    ≡ panicked (mirror_file_missing (codes "crackstation.txt.gz"))
unfolding async_main require expect ensure ◌>>=◌ check_mirror_files
missing_archive = refl

async_main-Explains_example :
    Meets (Says (machine [])) (IsReady (machine [])) (async_main (machine []))
async_main-Explains_example = async_main-Explains (machine [])
