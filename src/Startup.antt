-- ===== src/Startup.antt =====
-- The start of the program: `async_main` of src/main.rs up to the router, and `AppState::new`.
pub mod Checks
mod Tests
use crackstation_rust.Base.{
  ℕ, Bool, true, false, not, Option, none, some, List, [], ◌∷◌, Text, codes, if◌then◌else◌,
}
use crackstation_rust.Cracking.Oracle.{Algorithm, init_oracle}
use crackstation_rust.PhpCount.{PhpCountService, connect}
use crackstation_rust.Captcha.{
  ClientConfig, http_client, Boot, site_key_for, is_test_site_key, parse_dev_recaptcha_flag,
  check_captcha_config,
}

abbrev pub static_dir : Text
static_dir = codes "static"

abbrev pub wordlist_mirror_files : List Text
wordlist_mirror_files = codes "crackstation.txt.gz" ∷ codes "crackstation-human-only.txt.gz" ∷ []

-- The panics, by the message of their `expect` or their `panic!`.
pub data Failure : Type 0 where
  variable_missing : Text → Failure
  static_dir_missing : Failure
  mirror_file_missing : Text → Failure
  database_unreachable : Failure
  entropy_unavailable : Failure
  captcha_flag_unknown : Failure
  captcha_mismatched : Failure
  client_unavailable : Failure
  table_missing : Failure

pub data Attempt (A : Type 0) : Type 0 where
  panicked : Failure → Attempt A
  done : A → Attempt A

-- `()`.
pub data Passed : Type 0 where
  passed : Passed

infixl 5 ◌>>=◌
unfoldable pub ◌>>=◌ : {A B : Type 0} → Attempt A → (A → Attempt B) → Attempt B
panicked failure >>= f = panicked failure
done a >>= f = f a

-- `expect`.
unfoldable pub expect : {A : Type 0} → Failure → Option A → Attempt A
expect failure none = panicked failure
expect failure (some a) = done a

unfoldable pub ensure : Failure → Bool → Attempt Passed
ensure failure true = done passed
ensure failure false = panicked failure

-- What the start asks of the machine: the environment, the file system, the database, the crate
-- `preimage` and the TLS backend. A variable that is not Unicode is an error, as one that is not set.
pub record Machine (Location MySqlPool Oracle : Type 0) : Type 0 where
  pub var : Text → Option Text
  pub to_path : Text → Location
  pub join : Location → Text → Location
  pub is_dir : Location → Bool
  pub is_file : Location → Bool
  pub connect_pool : Text → Option MySqlPool
  -- What the first key of the counter is drawn from, and the monotonic clock at its creation.
  pub entropy : Option Text
  pub instant : ℕ
  pub build_client : ClientConfig → Bool
  pub new_oracle : Oracle
  pub register : Text → Algorithm → Location → Location → Oracle → Option Oracle

-- `AppState`.
pub record AppState (MySqlPool Oracle : Type 0) : Type 0 where
  pub phpcount : PhpCountService MySqlPool
  pub oracle : Oracle
  pub recaptcha_site_key : Text

-- `AppState::new`.
pub new_state :
    {MySqlPool Oracle : Type 0}
    → PhpCountService MySqlPool
    → Oracle
    → Bool
    → AppState MySqlPool Oracle
new_state phpcount oracle use_dev_recaptcha = record {
  phpcount = phpcount;
  oracle = oracle;
  recaptcha_site_key = site_key_for use_dev_recaptcha;
}

pub serves_test_site_key : {MySqlPool Oracle : Type 0} → AppState MySqlPool Oracle → Bool
serves_test_site_key state = is_test_site_key state.recaptcha_site_key

-- `unwrap_or_else`.
abbrev pub listen_addr_of : Option Text → Text
listen_addr_of none = codes "127.0.0.1:3000"
listen_addr_of (some addr) = addr

-- What the start hands to the router and the listener.
pub record Started (Location MySqlPool Oracle : Type 0) : Type 0 where
  pub listen_addr : Text
  pub wordlist_files_dir : Location
  pub captcha : Boot
  pub state : AppState MySqlPool Oracle

module _ {Location MySqlPool Oracle : Type 0} (m : Machine Location MySqlPool Oracle) where
  unfoldable pub require : Text → Attempt Text
  require name = expect (variable_missing name) (m.var name)

  unfoldable pub check_mirror_files : Location → List Text → Attempt Passed
  check_mirror_files dir [] = done passed
  check_mirror_files dir (name ∷ names) = do
    _ ← ensure (mirror_file_missing name) (m.is_file (m.join dir name))
    check_mirror_files dir names

  pub async_main : Attempt (Started Location MySqlPool Oracle)
  async_main = do
    cracking_dir ← require (codes "CRACKING_DIR")
    _ ← ensure static_dir_missing (m.is_dir (m.to_path static_dir))
    wordlist_files_dir ← require (codes "WORDLIST_FILES_DIR")
    _ ← check_mirror_files (m.to_path wordlist_files_dir) wordlist_mirror_files
    phpcount_url ← require (codes "PHPCOUNT_DATABASE_URL")
    connected ←
        expect database_unreachable (connect m.entropy m.instant m.connect_pool phpcount_url)
    phpcount ← expect entropy_unavailable connected
    recaptcha_secret ← require (codes "RECAPTCHA_SECRET_KEY")
    use_dev_recaptcha ←
        expect captcha_flag_unknown
          (parse_dev_recaptcha_flag (m.var (codes "USE_DEV_RECAPTCHA_KEY")))
    captcha ← expect captcha_mismatched (check_captcha_config use_dev_recaptcha recaptcha_secret)
    _ ← ensure client_unavailable (m.build_client http_client)
    oracle ←
        expect table_missing (init_oracle m.join m.register m.new_oracle (m.to_path cracking_dir))
    done (record {
      listen_addr = listen_addr_of (m.var (codes "LISTEN_ADDR"));
      wordlist_files_dir = m.to_path wordlist_files_dir;
      captcha = captcha;
      state = new_state phpcount oracle use_dev_recaptcha;
    })
