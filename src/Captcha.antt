-- ===== src/Captcha.antt =====
-- src/libs/recaptcha.rs: the verification of a captcha token; and the configuration of the captcha,
-- the checks at startup in src/main.rs and the site keys of src/app_state.rs.
pub mod Configuration
pub mod Reading
pub mod Verification
mod Tests
use mathlib.Core.List.{concat}
use crackstation_rust.Base.{
  ℕ, ◌+◌, ◌*◌, Bool, true, false, not, ◌&&◌, ◌||◌, Option, none, some, List, [], ◌∷◌, ◌++◌, map,
  Text, codes, text_eq, ascii_lower, trim, is_empty, length, ltb, leb, if◌then◌else◌, ◌>>=◌,
}

-- How long a verification may take, and the handshake within it, in seconds.
abbrev pub verify_timeout : ℕ
verify_timeout = 10

abbrev pub connect_timeout : ℕ
connect_timeout = 5

-- What the program sets of a `reqwest::Client`.
pub record ClientConfig : Type 0 where
  pub timeout : ℕ
  pub connect_timeout : ℕ

-- `http_client`, up to its build.
abbrev pub http_client : ClientConfig
http_client = record { timeout = verify_timeout; connect_timeout = connect_timeout }

-- `GOOGLE_TEST_SECRET` of main.rs.
abbrev pub google_test_secret : Text
google_test_secret = codes "6LeIxAcTAAAAAGG-vFI1TnRWxMZNFuojJ4WifJWe"

abbrev pub production_recaptcha_site_key : Text
production_recaptcha_site_key = codes "6LcnNi8UAAAAALJikXrc6jwNWUm00Yjx_rHCJW7u"

abbrev dev_recaptcha_site_key : Text
dev_recaptcha_site_key = codes "6LeIxAcTAAAAAJcZVRqyHh71UMIEGNQ_MXjiZKhI"

unfoldable pub site_key_for : Bool → Text
site_key_for use_dev_recaptcha =
    if use_dev_recaptcha then dev_recaptcha_site_key else production_recaptcha_site_key

pub is_test_site_key : Text → Bool
is_test_site_key site_key = text_eq site_key dev_recaptcha_site_key

-- The comparisons of the `match` on the spelling; `none` is its panic.
unfoldable spelling : Text → Option Bool
spelling s =
    if is_empty s
    then some false
    else if text_eq s (codes "true")
        || text_eq s (codes "1")
        || text_eq s (codes "yes")
        || text_eq s (codes "on")
    then some true
    else if text_eq s (codes "false")
        || text_eq s (codes "0")
        || text_eq s (codes "no")
        || text_eq s (codes "off")
    then some false
    else none

unfoldable pub parse_dev_recaptcha_flag : Option Text → Option Bool
unfolding spelling
parse_dev_recaptcha_flag none = some false
parse_dev_recaptcha_flag (some raw) = spelling (map ascii_lower (trim raw))

-- The four cells of the table: which of them boot, and with which line in the log.
pub data Boot : Type 0 where
  development_captcha production_captcha : Boot

pub check_pair : Bool → Bool → Option Boot
check_pair false true = none
check_pair true false = none
check_pair true true = some development_captcha
check_pair false false = some production_captcha

-- `none` is a panic.
unfoldable pub check_captcha_config : Bool → Text → Option Boot
unfolding check_pair
check_captcha_config use_dev_recaptcha secret =
    if is_empty (trim secret)
    then none
    else check_pair use_dev_recaptcha (text_eq (trim secret) google_test_secret)

abbrev pub max_token_len : ℕ
max_token_len = 8 * 1024

abbrev pub max_response_bytes : ℕ
max_response_bytes = 64 * 1024

abbrev pub test_key_hostname : Text
test_key_hostname = codes "testkey.google.com"

-- `str::len`: the bytes of the characters in UTF-8.
abbrev utf8_len : ℕ → ℕ
utf8_len c = if ltb c 0x80 then 1 else if ltb c 0x800 then 2 else if ltb c 0x10000 then 3 else 4

abbrev pub byte_len : Text → ℕ
byte_len [] = 0
byte_len (c ∷ s) = utf8_len c + byte_len s

unfoldable pub is_plausible_token : Text → Bool
is_plausible_token token = not (is_empty token) && leb (byte_len token) max_token_len

-- The chunks of a body as they arrive: `none` is a failed read.
abbrev pub Chunks : Type 0
Chunks = List (Option (List ℕ))

-- The loop of `read_bounded`, with the bytes read so far; `none` is an `Err`.
pub read_from : List ℕ → Chunks → Option (List ℕ)
read_from body [] = some body
read_from body (none ∷ chunks) = none
read_from body (some chunk ∷ chunks) =
    let rest = read_from (body ++ chunk) chunks in
    if ltb max_response_bytes (length body + length chunk) then none else rest

pub read_bounded : Chunks → Option (List ℕ)
unfolding read_from
read_bounded = read_from []

pub is_bypass_signature : Option Text → Bool → Bool
is_bypass_signature none serves_test_site_key = false
is_bypass_signature (some hostname) serves_test_site_key =
    text_eq hostname test_key_hostname && not serves_test_site_key

-- `json["success"].as_bool()` and `json["hostname"].as_str()`.
pub record Answer : Type 0 where
  pub success : Option Bool
  pub hostname : Option Text

abbrev pub or_false : Option Bool → Bool
or_false none = false
or_false (some b) = b

pub verdict : Bool → Answer → Option Bool
verdict serves_test_site_key json =
    if is_bypass_signature json.hostname serves_test_site_key
    then none
    else some (or_false json.success)

-- Google's endpoint, by the three fields of the form, and the crate `serde_json`. An error is
-- `none`, and so is an `Err` of `verify`.
module _ (send : Text → Text → Text → Option Chunks) (parse_json : List ℕ → Option Answer) where
  pub ask : Option Text → Text → Text → Bool → Option Bool
  ask recaptcha_secret_key token remote_ip serves_test_site_key = do
    secret ← recaptcha_secret_key
    resp ← send secret token remote_ip
    body ← read_bounded resp
    json ← parse_json body
    verdict serves_test_site_key json

  pub verify : Option Text → Text → Text → Bool → Option Bool
  verify recaptcha_secret_key token remote_ip serves_test_site_key =
      if not (is_plausible_token token)
      then some false
      else ask recaptcha_secret_key token remote_ip serves_test_site_key
