-- ===== src/Auth/Authz.antt =====
-- The gate before the routes of an account, crates/pergamon-sync-server/src/auth/authz.rs. A header is
-- its text, none where it is missing or not ASCII; the audit event is left out.
use Prim.Native.Char.{Char, code}
use Prim.Native.String.{[] as empty_text, ◌∷◌ as text_cons}
use pergamon.Common.{
  ℕ, ◌+◌, String, Bool, true, false, ◌&&◌, ◌||◌, Option, none, some, ◌==◌, leb, str_eq,
  if◌then◌else◌, Result, ok, err, ◌>>=◌,
}
use pergamon.Common.Texts.{split_once}
use pergamon.Auth.{Primitives, AuthDb, AuthAccount, ApiError, forbidden}
use pergamon.Auth.Tokens.{validate_token}
use pergamon.Auth.Binding.{lift_db, or_unauthorized}

to_ascii_lowercase : ℕ → ℕ
to_ascii_lowercase c = if leb 65 c && leb c 90 then c + 32 else c

eq_ignore_ascii_case : String → String → Bool
unfolding to_ascii_lowercase
eq_ignore_ascii_case empty_text empty_text = true
eq_ignore_ascii_case (text_cons c s) (text_cons d t) =
    (to_ascii_lowercase (code c) == to_ascii_lowercase (code d)) && eq_ignore_ascii_case s t
eq_ignore_ascii_case _ _ = false

-- Blank and tab are the white space that a header text can hold.
is_blank : Char → Bool
is_blank c = (code c == 32) || (code c == 9)

trim_start : String → String
unfolding is_blank
trim_start empty_text = empty_text
trim_start (text_cons c s) = let rest = trim_start s in if is_blank c then rest else text_cons c s

keep_unless_blank : Char → String → String
unfolding is_blank
keep_unless_blank c empty_text = if is_blank c then empty_text else text_cons c empty_text
keep_unless_blank c (text_cons d s) = text_cons c (text_cons d s)

trim_end : String → String
unfolding keep_unless_blank
trim_end empty_text = empty_text
trim_end (text_cons c s) = keep_unless_blank c (trim_end s)

non_empty : String → Option String
non_empty empty_text = none
non_empty (text_cons c s) = some (text_cons c s)

unfoldable pub bearer_from_text : String → Option String
unfolding eq_ignore_ascii_case trim_start trim_end non_empty
bearer_from_text raw = elim (split_once 32 raw) [
  | none ↦ none
  | some (scheme, credential) ↦
      if eq_ignore_ascii_case scheme "Bearer"
      then non_empty (trim_end (trim_start credential))
      else none
]

unfoldable pub bearer_from_header : Option String → Option String
unfolding bearer_from_text
bearer_from_header none = none
bearer_from_header (some raw) = bearer_from_text raw

unfoldable pub authorize_account : AuthAccount → String → Result ApiError (Unit {0})
authorize_account auth target =
    if str_eq auth.account_id target
    then ok tt
    else err (forbidden "token is not authorized for this account")

abbrev pub authorize_target : AuthAccount → Option String → Result ApiError (Unit {0})
authorize_target auth none = ok tt
authorize_target auth (some target) = authorize_account auth target

unfoldable pub authenticate : Primitives → ℕ → Option String → AuthDb → Result ApiError AuthAccount
authenticate p now header s =
    or_unauthorized "missing or malformed bearer token" (bearer_from_header header) >>= λ bearer.
    lift_db (validate_token p now bearer s) >>= or_unauthorized "invalid or expired bearer token"

-- The principal that the request goes on with: none on the liveness route.
unfoldable pub require_account_auth :
    Primitives
    → ℕ
    → (path : String) (header target : Option String) → AuthDb
    → Result ApiError (Option AuthAccount)
unfolding authenticate
require_account_auth p now path header target s =
    if str_eq path "/health"
    then ok none
    else (authenticate p now header s >>= λ account.
        authorize_target account target >>= λ _. ok (some account))
