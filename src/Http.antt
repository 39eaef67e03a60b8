-- ===== src/Http.antt =====
-- What the program sees of the types of the crates `http` and `axum` and of `std::net`.
use Prim.Native.Nat.{◌/◌, ◌%◌, ◌^◌}
use text.Mathlib.Text.{◌==◌ as str_eq}
use crackstation_rust.Base.{
  ℕ, Bool, true, false, String, Option, none, some, List, [], ◌∷◌, Text, ◌==◌, if◌then◌else◌,
}

-- `HeaderMap`, by lower-case names: the values of a name in the order of their lines. The program
-- reads a value through `to_str().ok()`, and a value stands here as that gives it: `none` for one
-- that is not visible ASCII.
abbrev pub HeaderMap : Type 0
HeaderMap = String → List (Option Text)

-- `headers.get(name).and_then(|v| v.to_str().ok())`: `get` takes the first line.
unfoldable pub first_value : List (Option Text) → Option Text
first_value [] = none
first_value (v ∷ vs) = v

unfoldable pub header_str : String → HeaderMap → Option Text
unfolding first_value
header_str name headers = first_value (headers name)

-- `HeaderMap::insert`.
unfoldable pub insert_header : String → Text → HeaderMap → HeaderMap
insert_header name value headers n = if str_eq n name then some value ∷ [] else headers n

-- `HeaderMap::remove`.
unfoldable pub remove_header : String → HeaderMap → HeaderMap
remove_header name headers n = if str_eq n name then [] else headers n

-- `IpAddr`: the 32 bits, or the 128.
pub data IpAddr : Type 0 where
  v4 : ℕ → IpAddr
  v6 : ℕ → IpAddr

abbrev pub ip_eq : IpAddr → IpAddr → Bool
ip_eq (v4 a) (v4 b) = a == b
ip_eq (v6 a) (v6 b) = a == b
ip_eq _ _ = false

-- `IpAddr::to_canonical`: `::ffff:a.b.c.d` is `a.b.c.d`.
unfoldable pub to_canonical : IpAddr → IpAddr
to_canonical (v4 a) = v4 a
to_canonical (v6 a) = if a / 2 ^ 32 == 0xffff then v4 (a % 2 ^ 32) else v6 a

-- `Method`, as far as the program tells them apart.
pub data Method : Type 0 where
  get head post other : Method

abbrev pub is_post : Method → Bool
is_post post = true
is_post _ = false

-- `StatusCode`.
abbrev pub Status : Type 0
Status = ℕ

-- `StatusCode::METHOD_NOT_ALLOWED`.
abbrev pub method_not_allowed_status : Status
method_not_allowed_status = 405

-- The head of a `Response`.
pub record Response : Type 0 where
  pub status : Status
  pub headers : HeaderMap
