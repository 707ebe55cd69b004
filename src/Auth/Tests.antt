-- ===== src/Auth/Tests.antt =====
-- Small stores, and instances of the theorems about them. The hash is the identity, base64 knows one
-- secret, and the bytes of a text are its code points.
use Prim.Native.Char.{code}
use Prim.Native.String.{[] as empty_text, ◌∷◌ as text_cons}
use text.Mathlib.TextEquality.{Char-path}
use pergamon.Common.{
  ◌≡◌, refl, String, Bool, true, false, none, some, [], ◌∷◌, ok, arith, err, ℕ, str_eq,
}
use pergamon.Common.Texts.{split_once, Lacks}
use pergamon.Relay.{Bytes}
use pergamon.Auth.{
  Primitives, AuthDb, TokenRow, access, refresh, content, ContentBinding, active, AuthAccount,
  BindingChallenge, default_token_config, TokenKind, invalid_token,
}
use pergamon.Auth.Bearer.{NewToken, new_token, parse_bearer, constant_time_eq}
use pergamon.Auth.Tokens.{
  mint_pair, rotate_refresh, RotatedTokens, load_valid_token, validate_token, find_token,
  is_presented,
}
use pergamon.Auth.Accounts.{binding_for, find_binding}
use pergamon.Auth.Statement.{signing_bytes, signing_bytes-injective}
use pergamon.Auth.Authz.{require_account_auth, bearer_from_header, authorize_account}
use pergamon.Auth.Isolation.{UniqueContent, require_account_auth-isolates}
use pergamon.Auth.Steps.{Steps}
use pergamon.Auth.Rotation.{rotate_refresh-IsSpent, UniqueIds}
use pergamon.Auth.Minting.{mint_pair-IsAccepted, IsAccepted, IsMintable}

abbrev secret : Bytes
secret =
    0 ∷ 0 ∷ 0 ∷ 0 ∷ 0 ∷ 0 ∷ 0 ∷ 0 ∷ 0 ∷ 0 ∷ 0 ∷ 0 ∷ 0 ∷ 0 ∷ 0 ∷ 0 ∷ 0 ∷ 0 ∷ 0 ∷ 0 ∷ 0 ∷ 0 ∷ 0 ∷ 0
    ∷ 0 ∷ 0 ∷ 0 ∷ 0 ∷ 0 ∷ 0 ∷ 0 ∷ 0 ∷ []

abbrev codes : String → Bytes
codes empty_text = []
codes (text_cons c s) = code c ∷ codes s

codes-injective : (s t : String) → codes s ≡ codes t → s ≡ t
codes-injective empty_text empty_text h = refl
codes-injective empty_text (text_cons c t) h = cc
codes-injective (text_cons c s) empty_text h = cc
codes-injective (text_cons c s) (text_cons d t) h =
    λ i. text_cons (Char-path c d (cc) i) (codes-injective s t (cc) i)

abbrev primitives : Primitives
primitives = record {
  hash = λ b. b;
  encode = λ b. "s";
  decode = λ s. some secret;
  utf8 = codes;
  verify_ed25519 = λ key msg signature. true;
}

abbrev free : String → Bool
free s = false

abbrev bound : ContentBinding
bound = record {
  auth_tenant_id = "tenant";
  content_account_id = "account";
  binding_version = 1;
  state = active;
  operation_id = some "op";
}

abbrev row : String → TokenRow
row id = record {
  token_id = id;
  auth_tenant_id = "tenant";
  device_id = "device";
  ed25519_pub = secret;
  token_hash = secret;
  kind = access;
  expires_at = 100;
  revoked_at = none;
  content_account_id = some "account";
  binding_version = 1;
  scope = content;
}

abbrev store : AuthDb
store = record {
  accounts = [];
  account_map = ("identity", "tenant") ∷ [];
  failures = [];
  tokens = row "a" ∷ row "b" ∷ record (row "r") { kind = refresh } ∷ [];
  bindings = bound ∷ [];
  challenges = [];
  server_instance_id = "server";
}

abbrev who : String → AuthAccount
who id = record {
  account_id = "account";
  device_id = "device";
  auth_tenant_id = "tenant";
  binding_version = 1;
  token_id = id;
}

require_account_auth-isolates_example :
    ((who "a").auth_tenant_id ≡ (who "b").auth_tenant_id) × UniqueContent store.bindings
unfolding require_account_auth bearer_from_header split_once validate_token parse_bearer find_token
    constant_time_eq binding_for find_binding authorize_account
require_account_auth-isolates_example =
    require_account_auth-isolates primitives free store store 5 6 "/v1/devices" "/v1/wraps"
      (some "Bearer a.s") (some "bearer b.s") "account" (who "a") (who "b") (refl, tt)
      (Steps.done store store refl) refl refl

-- The token "r" is exchanged for the pair "c" and "d".
abbrev fresh_access : TokenRow
fresh_access = record (row "c") { expires_at = 3600005 }

abbrev fresh_refresh : TokenRow
fresh_refresh = record (row "d") { kind = refresh; expires_at = 2592000005 }

abbrev rotated : AuthDb
rotated = record store {
  tokens =
      fresh_refresh
      ∷ fresh_access
      ∷ row "a"
      ∷ row "b"
      ∷ record (row "r") { kind = refresh; revoked_at = some 5 }
      ∷ [];
}

abbrev fresh_pair : RotatedTokens
fresh_pair = record {
  access_token = "c.s";
  access_expires_at = 3600005;
  refresh_token = "d.s";
  refresh_expires_at = 2592000005;
}

rotate_refresh-IsSpent_example :
    UniqueIds rotated.tokens
    × ((later : ℕ) (bearer : String) (kind : TokenKind) (presented : Bytes)
        → parse_bearer primitives bearer ≡ some ("r", presented)
        → load_valid_token primitives later bearer kind rotated ≡ ok none)
    × ((later : ℕ) (b q : NewToken) (other machine : String) (key : Bytes)
        → rotate_refresh later b q "r" other machine key default_token_config rotated
          ≡ err invalid_token)
unfolding rotate_refresh is_presented binding_for find_binding new_token
rotate_refresh-IsSpent_example =
    rotate_refresh-IsSpent primitives free 5 (new_token primitives "c" secret)
      (new_token primitives "d" secret) "r" "tenant" "device" secret default_token_config store
      rotated rotated fresh_pair (refl, (refl, (refl, tt))) refl (Steps.done rotated rotated refl)

-- The same pair, minted beside the old tokens.
abbrev minted : AuthDb
minted = record store { tokens = fresh_refresh ∷ fresh_access ∷ store.tokens }

mintable : (id : String) → Lacks 46 id → str_eq id "" ≡ false → IsMintable primitives id secret
mintable id dotless named = record {
  dotless = dotless;
  named = named;
  sized = refl;
  decoded = refl;
}

mint_pair-IsAccepted_example :
    IsAccepted primitives 5 5 "tenant" "device" secret default_token_config "c" "d" store minted
      fresh_pair 6
unfolding mint_pair binding_for find_binding new_token
mint_pair-IsAccepted_example =
    mint_pair-IsAccepted primitives 5 5 "tenant" "device" secret default_token_config "c" "d" secret
      secret store minted fresh_pair 6 (mintable "c" (refl, tt) refl) (mintable "d" (refl, tt) refl)
      refl refl

abbrev challenge : BindingChallenge
challenge = record {
  server_instance_id = "server";
  operation_id = "op";
  challenge_id = "ch";
  nonce = secret;
  auth_tenant_id = "tenant";
  content_account_id = "account";
  device_id = "device";
  ed25519_pub = secret;
  binding_version = 1;
  expires_at_ms = 120000;
}

abbrev signed : Bytes
signed = elim (signing_bytes primitives challenge) [ ok m ↦ m | err e ↦ [] ]

signing_bytes-injective_example : challenge ≡ challenge
unfolding signing_bytes
signing_bytes-injective_example =
    signing_bytes-injective primitives challenge challenge signed codes-injective
      (omega arith, omega arith) (omega arith, omega arith) refl refl
