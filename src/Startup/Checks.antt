-- ===== src/Startup/Checks.antt =====
-- What a start of src/main.rs has checked, and what a panic of it says.
use crackstation_rust.Base.{
  ap, ◌∙◌, Bool, true, false, Option, none, some, List, [], ◌∷◌, Text, codes, text_eq, trim,
  is_empty, All, ◌≡◌, refl,
}
use crackstation_rust.Cracking.Oracle.{init_oracle}
use crackstation_rust.PhpCount.{connect}
use crackstation_rust.Captcha.{
  http_client, google_test_secret, parse_dev_recaptcha_flag, check_captcha_config,
}
use crackstation_rust.Captcha.Configuration.{check_captcha_config_iff}
use crackstation_rust.Startup.{
  static_dir, wordlist_mirror_files, Failure, variable_missing, static_dir_missing,
  mirror_file_missing, database_unreachable, captcha_flag_unknown, captcha_mismatched,
  client_unavailable, entropy_unavailable, table_missing, Attempt, panicked, done, Passed, ◌>>=◌,
  expect, ensure, Machine, new_state, serves_test_site_key, Started, require, check_mirror_files,
  async_main,
}

-- An attempt panics with a message of one kind, or ends in a value of one kind.
abbrev pub Meets : {A : Type 0} → (Failure → Type 0) → (A → Type 0) → Attempt A → Type 0
Meets says P (panicked failure) = says failure
Meets says P (done a) = P a

Meets-weaken :
    {A : Type 0} (says : Failure → Type 0) (P Q : A → Type 0) (m : Attempt A)
    → Meets says Q m
    → ((a : A) → Q a → P a)
    → Meets says P m
Meets-weaken says P Q (panicked failure) h k = h
Meets-weaken says P Q (done a) h k = k a h

module _ {A B : Type 0} (says : Failure → Type 0) (P : B → Type 0) where
  Meets-expect :
      (failure : Failure) (o : Option A) (f : A → Attempt B)
      → (o ≡ none → says failure)
      → ((a : A) → o ≡ some a → Meets says P (f a))
      → Meets says P (expect failure o >>= f)
  unfolding expect ◌>>=◌
  Meets-expect failure none f h k = h refl
  Meets-expect failure (some a) f h k = k a refl

  Meets-bind :
      (m : Attempt A) (f : A → Attempt B) (Q : A → Type 0)
      → Meets says Q m
      → ((a : A) → Q a → Meets says P (f a))
      → Meets says P (m >>= f)
  unfolding ◌>>=◌
  Meets-bind (panicked failure) f Q h k = h
  Meets-bind (done a) f Q h k = k a h

ensure-Meets :
    (says : Failure → Type 0) (failure : Failure) (b : Bool)
    → (b ≡ false → says failure)
    → Meets says (λ _. b ≡ true) (ensure failure b)
unfolding ensure
ensure-Meets says failure true h = refl
ensure-Meets says failure false h = h refl

module _ {Location MySqlPool Oracle : Type 0} (m : Machine Location MySqlPool Oracle) where
  abbrev flag : Option Bool
  flag = parse_dev_recaptcha_flag (m.var (codes "USE_DEV_RECAPTCHA_KEY"))

  abbrev load : Text → Option Oracle
  load cracking_dir = init_oracle m.join m.register m.new_oracle (m.to_path cracking_dir)

  -- What each panic says of the machine.
  abbrev pub Says : Failure → Type 0
  Says (variable_missing name) = m.var name ≡ none
  Says static_dir_missing = m.is_dir (m.to_path static_dir) ≡ false
  Says (mirror_file_missing name) =
      (dir : Text) × (m.var (codes "WORDLIST_FILES_DIR") ≡ some dir)
      × (m.is_file (m.join (m.to_path dir) name) ≡ false)
  Says database_unreachable =
      (url : Text) × (m.var (codes "PHPCOUNT_DATABASE_URL") ≡ some url)
      × (connect m.entropy m.instant m.connect_pool url ≡ none)
  Says entropy_unavailable =
      (url : Text) × (m.var (codes "PHPCOUNT_DATABASE_URL") ≡ some url)
      × (connect m.entropy m.instant m.connect_pool url ≡ some none)
  Says captcha_flag_unknown = flag ≡ none
  Says captcha_mismatched =
      (use_dev : Bool) × (secret : Text) × (flag ≡ some use_dev)
      × (m.var (codes "RECAPTCHA_SECRET_KEY") ≡ some secret)
      × (check_captcha_config use_dev secret ≡ none)
  Says client_unavailable = m.build_client http_client ≡ false
  Says table_missing = (dir : Text) × (m.var (codes "CRACKING_DIR") ≡ some dir) × (load dir ≡ none)

  -- What holds of the machine, and of what the start hands on.
  pub record IsReady (s : Started Location MySqlPool Oracle) : Type 0 where
    static_there : m.is_dir (m.to_path static_dir) ≡ true
    files_there :
        All (λ name. m.is_file (m.join s.wordlist_files_dir name) ≡ true) wordlist_mirror_files
    connected :
        (url : Text) × (m.var (codes "PHPCOUNT_DATABASE_URL") ≡ some url)
        × (connect m.entropy m.instant m.connect_pool url ≡ some (some s.state.phpcount))
    captcha_agrees :
        (secret : Text) × (m.var (codes "RECAPTCHA_SECRET_KEY") ≡ some secret)
        × (is_empty (trim secret) ≡ false)
        × (text_eq (trim secret) google_test_secret ≡ serves_test_site_key s.state)
    client_there : m.build_client http_client ≡ true
    tables_loaded :
        (dir : Text) × (m.var (codes "CRACKING_DIR") ≡ some dir) × (load dir ≡ some s.state.oracle)

  abbrev IsThere : Text → Text → Type 0
  IsThere dir name = m.is_file (m.join (m.to_path dir) name) ≡ true

  check_mirror_files-Meets :
      (dir : Text) (names : List Text)
      → m.var (codes "WORDLIST_FILES_DIR") ≡ some dir
      → Meets Says (λ _. All (IsThere dir) names) (check_mirror_files m (m.to_path dir) names)
  unfolding check_mirror_files
  check_mirror_files-Meets dir [] e = _
  check_mirror_files-Meets dir (name ∷ names) e =
      Meets-bind Says _ _ _ _ (ensure-Meets Says _ _ (λ missing. (dir, e, missing))) (λ _ here.
        Meets-weaken {A = Passed} Says (λ _. All (IsThere dir) (name ∷ names)) _ _
          (check_mirror_files-Meets dir names e) (λ _ rest. (here, rest)))

  -- A start that ends has found the directory of the static files, both wordlist archives, the
  -- database, every lookup table and a secret that is not blank, and it serves the test site key
  -- exactly where the secret is the test secret; a start that panics does so for a reason that holds,
  -- the one that the panic states.
  pub async_main-Explains : Meets Says IsReady (async_main m)
  unfolding async_main require new_state serves_test_site_key
  async_main-Explains =
      Meets-expect Says _ _ _ _ (λ unset. unset)
        (λ cracking_dir e_1. Meets-bind Says _ _ _ _ (ensure-Meets Says _ _ (λ h. h)) (λ _ static.
          Meets-expect Says _ _ _ _ (λ unset. unset)
            (λ dir e_2.
              Meets-bind Says _ _ _ _ (check_mirror_files-Meets dir wordlist_mirror_files e_2)
                (λ _ files.
                  Meets-expect Says _ _ _ _ (λ unset. unset)
                    (λ url e_3.
                      Meets-expect Says _ _ _ _ (λ down. (url, e_3, down))
                        (λ service up.
                          Meets-expect Says _ _ _ _ (λ dry. (url, e_3, up ∙ ap some dry))
                            (λ phpcount drawn.
                              Meets-expect Says _ _ _ _ (λ unset. unset)
                                (λ secret e_4.
                                  Meets-expect Says _ _ _ _ (λ unknown. unknown)
                                    (λ use_dev e_5.
                                      Meets-expect Says _ _ _ _
                                        (λ bad. (use_dev, secret, e_5, e_4, bad))
                                        (λ captcha good.
                                          Meets-bind Says _ _ _ _ (ensure-Meets Says _ _ (λ h. h))
                                            (λ _ client.
                                              Meets-expect Says _ _ _ _
                                                (λ fails. (cracking_dir, e_1, fails))
                                                (λ oracle loaded.
                                                  let (given, agrees) =
                                                    (check_captcha_config_iff use_dev secret).0
                                                      (captcha, good) in
                                                  record {
                                                    static_there = static;
                                                    files_there = files;
                                                    connected = (url, e_3, up ∙ ap some drawn);
                                                    captcha_agrees = (secret, e_4, given, agrees);
                                                    client_there = client;
                                                    tables_loaded = (cracking_dir, e_1, loaded);
                                                  }))))))))))))
