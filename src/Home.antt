-- ===== src/Home.antt =====
-- src/pages/home.rs: the form on the home page, up to its template.
pub mod Lines
pub mod Submissions
pub mod Panics
pub mod Consulting
mod Tests
use mathlib.Core.Option
use crackstation_rust.Base.{
  ℕ, Bool, true, false, not, ◌&&◌, Option, none, some, List, [], ◌∷◌, map, Text, codes, text_eq,
  split, trim, trim_by, keep, is_empty, length, ltb, ◌==◌, if◌then◌else◌, ◌>>=◌,
}
use crackstation_rust.Cracking.Results.{CrackResult}
use crackstation_rust.Cracking.Display.{Codec}
use crackstation_rust.Cracking.Oracle.{CrackWithLimit, crack_hashes}
use crackstation_rust.Secret.{BypassSecret, expose}
use crackstation_rust.Captcha.{Chunks, Answer, verify}
use crackstation_rust.Middleware.UrlCanonicalization.{or_empty}

-- `replace("\r\n", "\n")`.
pub replace_crlf : Text → Text
replace_crlf [] = []
replace_crlf (c ∷ []) = c ∷ []
replace_crlf (c ∷ d ∷ s) =
    let skipped = 10 ∷ replace_crlf s in
    let kept = c ∷ replace_crlf (d ∷ s) in if c == 13 && d == 10 then skipped else kept

-- `replace('\r', "\n")`.
pub replace_cr : Text → Text
replace_cr = map (λ c. if c == 13 then 10 else c)

pub clean : Text → Text
clean h = trim_by (λ c. c == b'*') (trim h)

pub parse_hashes : Text → List Text
unfolding clean
parse_hashes hashes_raw =
    keep (λ h. not (is_empty h)) (map clean (split 10 (replace_cr (replace_crlf hashes_raw))))

-- The fields of `HomePage` that the handlers choose.
pub record HomePage : Type 0 where
  pub results : Option (List CrackResult)
  pub error : Option Text
  pub submitted_hashes : Text

abbrev pub plain_page : Text → HomePage
plain_page submitted_hashes = record {
  results = none;
  error = none;
  submitted_hashes = submitted_hashes;
}

-- `Handler::get`.
abbrev pub get : HomePage
get = plain_page []

abbrev pub incorrect_captcha : Text
incorrect_captcha = codes "Incorrect captcha. Please try again."

abbrev pub unverified_captcha : Text
unverified_captcha = codes "Could not verify captcha (server error). Please try again."

abbrev pub too_many_hashes : Text
too_many_hashes = codes "Please enter 20 or less hashes."

abbrev pub error_page : Text → Text → HomePage
error_page submitted_hashes error = record (plain_page submitted_hashes) { error = some error }

-- The value of the first pair with a key.
unfoldable pub find_value : Text → List (Text × Text) → Option Text
find_value key [] = none
find_value key ((k, v) ∷ form) = if text_eq k key then some v else find_value key form

abbrev pub captcha_bypass_key_hash : Text
captcha_bypass_key_hash = codes "37eea42865627aaa4a298cbdae055021298906e2a069983d15ea046e3846edea"

-- The part of the context that the handler reads, with the variable `RECAPTCHA_SECRET_KEY`.
pub record Context : Type 0 where
  pub client_ip : Text
  pub captcha_bypass_header : Option BypassSecret
  pub recaptcha_secret_key : Option Text
  pub serves_test_site_key : Bool

-- The hexadecimal digits of the crate `sha2`'s digest of a text.
module _ (sha256_hex : Text → Text) where
  -- `ct_eq` of the crate `subtle` is the equality of the bytes.
  unfoldable pub is_captcha_bypassed : Option BypassSecret → Bool
  is_captcha_bypassed none = false
  is_captcha_bypassed (some h) = text_eq (sha256_hex (expose h)) captcha_bypass_key_hash

-- The error of a verdict, if there is one.
pub refusal : Option Bool → Option Text
refusal (some true) = none
refusal (some false) = some incorrect_captcha
refusal none = some unverified_captcha

-- The handler behind the captcha; `none` is the panic of a failed lookup.
pub submit : Codec → CrackWithLimit → Text → Option HomePage
submit codec oracle hashes_raw =
    let hashes = parse_hashes hashes_raw in
    if ltb 20 (length hashes)
    then some (error_page hashes_raw too_many_hashes)
    else if is_empty hashes
    then some (plain_page hashes_raw)
    else (do
      results ← crack_hashes codec oracle hashes
      some (record (plain_page hashes_raw) { results = some results }))

pub unless_refused : Option Text → Text → Option HomePage → Option HomePage
unless_refused none hashes_raw page = page
unless_refused (some error) hashes_raw page = some (error_page hashes_raw error)

-- The crate `form_urlencoded` is `parse_form`; the captcha's parameters are those of `verify`.
module _ (parse_form : Text → List (Text × Text)) (sha256_hex : Text → Text)
    (send : Text → Text → Text → Option Chunks) (parse_json : List ℕ → Option Answer) where
  unfoldable pub hashes_field : Text → Text
  hashes_field body = or_empty (find_value (codes "hashes") (parse_form body))

  unfoldable pub token_field : Text → Text
  token_field body = or_empty (find_value (codes "g-recaptcha-response") (parse_form body))

  unfoldable pub verified : Context → Text → Option Bool
  verified ctx body =
      verify send parse_json ctx.recaptcha_secret_key (token_field body) ctx.client_ip
        ctx.serves_test_site_key

  pub check_captcha : Context → Text → Option Text
  check_captcha ctx body =
      if is_captcha_bypassed sha256_hex ctx.captcha_bypass_header
      then none
      else refusal (verified ctx body)

  -- `Handler::post`.
  pub post : Codec → CrackWithLimit → Context → Text → Option HomePage
  post codec oracle ctx body =
      unless_refused (check_captcha ctx body) (hashes_field body)
        (submit codec oracle (hashes_field body))
