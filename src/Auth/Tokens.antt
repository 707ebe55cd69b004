-- ===== src/Auth/Tokens.antt =====
-- The tokens of the auth store, crates/pergamon-sync-server/src/auth/store.rs. The random ids and
-- secrets of fresh tokens are arguments.
use pergamon.Common.{
  ℕ, suc, String, Bool, true, false, ◌&&◌, Option, none, some, List, [], ◌∷◌, any, ltb, length,
  ◌==◌, str_eq, if◌then◌else◌, Result, ok, err, ◌>>=◌,
}
use pergamon.Relay.{Bytes}
use pergamon.Auth.{
  Primitives, AuthDb, TokenRow, TokenKind, access, refresh, TokenScope, control, content,
  TokenConfig, AuthAccount, ContentBinding, AuthStoreError, invalid_token, db, saturating_add_i64,
}
use pergamon.Auth.Accounts.{binding_for}
use pergamon.Auth.Bearer.{NewToken, parse_bearer, constant_time_eq}

-- `binding.as_ref().map(..)`
abbrev pub bound_content : Option ContentBinding → Option String
bound_content none = none
bound_content (some b) = some b.content_account_id

-- `binding.as_ref().map_or(0, ..)`
abbrev pub bound_version : Option ContentBinding → ℕ
bound_version none = 0
bound_version (some b) = b.binding_version

abbrev pub bound_scope : Option ContentBinding → TokenScope
bound_scope none = control
bound_scope (some _) = content

abbrev pub has_token : String → List TokenRow → Bool
has_token id rows = any (λ (row : TokenRow). str_eq row.token_id id) rows

-- The row of a fresh token, with what its tenant is bound to.
unfoldable pub token_row : String → String → Bytes → NewToken → TokenKind → ℕ → AuthDb → TokenRow
token_row tenant device key t kind expires_at s =
    let binding = binding_for tenant s in
    record {
      token_id = t.token_id;
      auth_tenant_id = tenant;
      device_id = device;
      ed25519_pub = key;
      token_hash = t.token_hash;
      kind = kind;
      expires_at = expires_at;
      revoked_at = none;
      content_account_id = bound_content binding;
      binding_version = bound_version binding;
      scope = bound_scope binding;
    }

unfoldable pub insert_token_row :
    String → String → Bytes → NewToken → TokenKind → ℕ → AuthDb → Result AuthStoreError AuthDb
unfolding token_row
insert_token_row tenant device key t kind expires_at s =
    if has_token t.token_id s.tokens
    then err db
    else ok (record s { tokens = token_row tenant device key t kind expires_at s ∷ s.tokens })

pub mint :
    ℕ
    → NewToken
    → String
    → String
    → Bytes
    → TokenKind
    → ℕ
    → AuthDb
    → Result AuthStoreError (AuthDb × String × ℕ)
unfolding insert_token_row
mint now t tenant device key kind ttl_ms s =
    let expires_at = saturating_add_i64 now ttl_ms in
    insert_token_row tenant device key t kind expires_at s >>= λ s'. ok (s', t.bearer, expires_at)

pub record RotatedTokens : Type 0 where
  pub access_token : String
  pub access_expires_at : ℕ
  pub refresh_token : String
  pub refresh_expires_at : ℕ

-- A fresh access token and a fresh refresh token, in one transaction, each with the clock reading
-- that its expiry is counted from.
unfoldable pub insert_pair :
    ℕ
    → ℕ
    → NewToken
    → NewToken
    → String
    → String
    → Bytes
    → TokenConfig
    → AuthDb
    → Result AuthStoreError (AuthDb × RotatedTokens)
unfolding insert_token_row
insert_pair now refresh_now a r tenant device key config s =
    let access_expires_at = saturating_add_i64 now config.access_ttl_ms in
    let refresh_expires_at = saturating_add_i64 refresh_now config.refresh_ttl_ms in
    insert_token_row tenant device key a access access_expires_at s >>= λ s'.
    insert_token_row tenant device key r refresh refresh_expires_at s' >>= λ s''. ok (
      s'',
      record {
        access_token = a.bearer;
        access_expires_at = access_expires_at;
        refresh_token = r.bearer;
        refresh_expires_at = refresh_expires_at;
      },
    )

unfoldable pub mint_pair :
    ℕ
    → ℕ
    → NewToken
    → NewToken
    → String
    → String
    → Bytes
    → TokenConfig
    → AuthDb
    → Result AuthStoreError (AuthDb × RotatedTokens)
unfolding insert_pair
mint_pair now refresh_now a r tenant device key config s =
    insert_pair now refresh_now a r tenant device key config s

abbrev pub is_refresh : TokenKind → Bool
is_refresh refresh = true
is_refresh access = false

abbrev pub same_kind : TokenKind → TokenKind → Bool
same_kind access access = true
same_kind refresh refresh = true
same_kind _ _ = false

abbrev pub is_unrevoked : TokenRow → Bool
is_unrevoked row = elim row.revoked_at [ none ↦ true | some _ ↦ false ]

-- `content_account_id IS ?6`
abbrev pub same_content : Option String → Option String → Bool
same_content none none = true
same_content (some a) (some b) = str_eq a b
same_content _ _ = false

-- The bytes of two BLOB columns.
abbrev pub same_blob : Bytes → Bytes → Bool
same_blob [] [] = true
same_blob (x ∷ xs) (y ∷ ys) = (x == y) && same_blob xs ys
same_blob _ _ = false

-- `UPDATE tokens SET revoked_at = ? WHERE ..`, and the number of rows that it changes.
unfoldable pub revoke_where : (TokenRow → Bool) → ℕ → List TokenRow → List TokenRow
revoke_where p now [] = []
revoke_where p now (row ∷ rows) =
    (if p row && is_unrevoked row then record row { revoked_at = some now } else row)
    ∷ revoke_where p now rows

unfoldable pub count_where : (TokenRow → Bool) → List TokenRow → ℕ
count_where p [] = 0
count_where p (row ∷ rows) =
    if p row && is_unrevoked row then suc (count_where p rows) else count_where p rows

-- The refresh token that is presented, with everything that the statement asks of it.
unfoldable pub is_presented : ℕ → String → String → String → Bytes → AuthDb → TokenRow → Bool
is_presented now id tenant device key s row =
    let binding = binding_for tenant s in
    str_eq row.token_id id
    && is_refresh row.kind
    && ltb now row.expires_at
    && str_eq row.auth_tenant_id tenant
    && str_eq row.device_id device
    && same_blob row.ed25519_pub key
    && same_content row.content_account_id (bound_content binding)
    && (row.binding_version == bound_version binding)

unfoldable pub rotate_refresh :
    ℕ
    → NewToken
    → NewToken
    → String
    → String
    → String
    → Bytes
    → TokenConfig
    → AuthDb
    → Result AuthStoreError (AuthDb × RotatedTokens)
unfolding is_presented revoke_where count_where insert_pair
rotate_refresh now a r id tenant device key config s =
    let presented = is_presented now id tenant device key s in
    if count_where presented s.tokens == 1
    then insert_pair now now a r tenant device key config
        (record s { tokens = revoke_where presented now s.tokens })
    else err invalid_token

pub record ValidatedToken : Type 0 where
  pub token_id : String
  pub auth_tenant_id : String
  pub device_id : String
  pub ed25519_pub : Bytes
  pub content_account_id : Option String
  pub binding_version : ℕ
  pub scope : TokenScope

unfoldable pub find_token : String → List TokenRow → Option TokenRow
find_token id [] = none
find_token id (row ∷ rows) = if str_eq row.token_id id then some row else find_token id rows

-- The scope that the row names, where its content column fits.
unfoldable pub check_scope : TokenScope → Option String → Result AuthStoreError TokenScope
check_scope control none = ok control
check_scope content (some _) = ok content
check_scope _ _ = err db

unfoldable pub validated : TokenRow → TokenScope → Option ValidatedToken
validated row scope =
    if length row.ed25519_pub == 32
    then some (record {
      token_id = row.token_id;
      auth_tenant_id = row.auth_tenant_id;
      device_id = row.device_id;
      ed25519_pub = row.ed25519_pub;
      content_account_id = row.content_account_id;
      binding_version = row.binding_version;
      scope = scope;
    })
    else none

module _ (p : Primitives) where
  -- What a row must be for a secret and a kind.
  unfoldable pub admits : ℕ → Bytes → TokenKind → AuthDb → TokenRow → Bool
  admits now secret kind s row =
      let binding = binding_for row.auth_tenant_id s in
      same_kind row.kind kind
      && is_unrevoked row
      && ltb now row.expires_at
      && constant_time_eq (p.hash secret) row.token_hash
      && same_content (bound_content binding) row.content_account_id
      && (bound_version binding == row.binding_version)

  unfoldable pub load_row :
      ℕ
      → Bytes
      → TokenKind
      → AuthDb
      → Option TokenRow
      → Result AuthStoreError (Option ValidatedToken)
  unfolding admits check_scope validated
  load_row now secret kind s none = ok none
  load_row now secret kind s (some row) =
      if admits now secret kind s row
      then (check_scope row.scope row.content_account_id >>= λ scope. ok (validated row scope))
      else ok none

  unfoldable pub load_valid_token :
      ℕ → String → TokenKind → AuthDb → Result AuthStoreError (Option ValidatedToken)
  unfolding load_row
  load_valid_token now bearer kind s = elim (parse_bearer p bearer) [
    | none ↦ ok none
    | some (token_id, secret) ↦ load_row now secret kind s (find_token token_id s.tokens)
  ]

  unfoldable pub principal_of : Option ValidatedToken → Option AuthAccount
  principal_of none = none
  principal_of (some t) = elim t.content_account_id [
    | none ↦ none
    | some account ↦ some (record {
      account_id = account;
      device_id = t.device_id;
      auth_tenant_id = t.auth_tenant_id;
      binding_version = t.binding_version;
      token_id = t.token_id;
    })
  ]

  unfoldable pub validate_token : ℕ → String → AuthDb → Result AuthStoreError (Option AuthAccount)
  unfolding load_valid_token principal_of
  validate_token now bearer s = load_valid_token now bearer access s >>= λ t. ok (principal_of t)

abbrev pub is_of_device : String → String → TokenRow → Bool
is_of_device tenant device row = str_eq row.auth_tenant_id tenant && str_eq row.device_id device

unfoldable pub revoke_device : ℕ → String → String → AuthDb → AuthDb × ℕ
unfolding revoke_where count_where
revoke_device now tenant device s = (
  record s { tokens = revoke_where (is_of_device tenant device) now s.tokens },
  count_where (is_of_device tenant device) s.tokens,
)

abbrev pub is_token : String → TokenRow → Bool
is_token id row = str_eq row.token_id id

unfoldable pub revoke_token : ℕ → String → AuthDb → AuthDb × ℕ
unfolding revoke_where count_where
revoke_token now id s = (
  record s { tokens = revoke_where (is_token id) now s.tokens },
  count_where (is_token id) s.tokens,
)

abbrev pub is_content : TokenScope → Bool
is_content content = true
is_content control = false

-- The row and the live binding that the query of `principal_is_current` joins.
abbrev joins_principal : ℕ → AuthAccount → AuthDb → TokenRow → Bool
joins_principal now who s row =
    let binding = binding_for row.auth_tenant_id s in
    str_eq row.token_id who.token_id
    && str_eq row.auth_tenant_id who.auth_tenant_id
    && same_content row.content_account_id (some who.account_id)
    && (row.binding_version == who.binding_version)
    && same_content (bound_content binding) row.content_account_id
    && (bound_version binding == row.binding_version)
    && is_unrevoked row
    && ltb now row.expires_at
    && same_kind row.kind access
    && is_content row.scope

pub principal_is_current : ℕ → AuthAccount → AuthDb → Bool
principal_is_current now who s = any (joins_principal now who s) s.tokens
