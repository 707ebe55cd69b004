-- ===== src/Auth/Minting.antt =====
-- A pair of fresh tokens is accepted, `mint_pair` and `validate_token` of
-- crates/pergamon-sync-server/src/auth/store.rs.
use pergamon.Common.{
  ℕ, ◌<◌, String, true, false, Option, none, some, ◌∷◌, ◌≡◌, refl, sym, ap, ◌∙◌, subst, Result, ok,
  ◌>>=◌, ok-injective, >>=-eq-ok, unless-eq-ok, str_eq, eq_iff, length, arith,
}
use pergamon.Common.Texts.{Lacks}
use pergamon.Relay.{Bytes}
use pergamon.Auth.{
  Primitives, AuthDb, TokenConfig, TokenRow, TokenKind, access, refresh, ContentBinding,
  AuthStoreError, saturating_add_i64,
}
use pergamon.Auth.Accounts.{binding_for}
use pergamon.Auth.Bearer.{NewToken, new_token, parse_bearer-new_token, constant_time_eq_iff}
use pergamon.Auth.Tokens.{
  RotatedTokens, mint_pair, insert_pair, insert_token_row, token_row, has_token, find_token, admits,
  load_row, load_valid_token, ValidatedToken, bound_content, bound_version, bound_scope,
  check_scope, validated, same_content, same_kind,
}

-- What a row that was made with this secret is read back as.
abbrev pub grant : String → String → String → Bytes → Option ContentBinding → ValidatedToken
grant id tenant device key binding = record {
  token_id = id;
  auth_tenant_id = tenant;
  device_id = device;
  ed25519_pub = key;
  content_account_id = bound_content binding;
  binding_version = bound_version binding;
  scope = bound_scope binding;
}

same_content_refl : (o : Option String) → same_content o o ≡ true
same_content_refl none = refl
same_content_refl (some a) = (eq_iff a a).1 refl

same_kind_refl : (k : TokenKind) → same_kind k k ≡ true
same_kind_refl access = refl
same_kind_refl refresh = refl

check_scope-bound :
    (b : Option ContentBinding) → check_scope (bound_scope b) (bound_content b) ≡ ok (bound_scope b)
unfolding check_scope
check_scope-bound none = refl
check_scope-bound (some b) = refl

module _ (p : Primitives) (now : ℕ) (id tenant device : String) (key secret : Bytes) where
  load_row-fresh :
      (kind : TokenKind) (expires_at : ℕ) (s s' : AuthDb)
      → binding_for tenant s' ≡ binding_for tenant s
      → now < expires_at
      → length key ≡ 32
      → load_row p now secret kind s'
          (some (token_row tenant device key (new_token p id secret) kind expires_at s))
        ≡ ok (some (grant id tenant device key (binding_for tenant s)))
  unfolding load_row token_row new_token admits validated
  load_row-fresh kind expires_at s s' same early sized =
      let admitted : admits p now secret kind s'
            (token_row tenant device key (new_token p id secret) kind expires_at s)
          ≡ true =
        rw (admits, same)
          (ground (
            arith,
            early,
            same_kind_refl kind,
            (constant_time_eq_iff (p.hash secret) (p.hash secret)).1 refl,
            same_content_refl (bound_content (binding_for tenant s)),
          )) in
      rw (load_row, admitted)
        (rw (check_scope-bound (binding_for tenant s)) (rw (validated, sized) refl))

-- The text can be the id of a token, and the secret is one that base64 gives back.
pub record IsMintable (p : Primitives) (id : String) (secret : Bytes) : Type 0 where
  pub dotless : Lacks 46 id
  pub named : str_eq id "" ≡ false
  pub sized : length secret ≡ 32
  pub decoded : p.decode (p.encode secret) ≡ some secret

module _ (p : Primitives) (now refresh_now : ℕ) (tenant device : String) (key : Bytes)
    (config : TokenConfig) where
  access_row : NewToken → AuthDb → TokenRow
  access_row a s =
      token_row tenant device key a access (saturating_add_i64 now config.access_ttl_ms) s

  refresh_row : NewToken → AuthDb → TokenRow
  refresh_row r s =
      token_row tenant device key r refresh (saturating_add_i64 refresh_now config.refresh_ttl_ms) s

  abbrev pair_of : NewToken → NewToken → RotatedTokens
  pair_of a r = record {
    access_token = a.bearer;
    access_expires_at = saturating_add_i64 now config.access_ttl_ms;
    refresh_token = r.bearer;
    refresh_expires_at = saturating_add_i64 refresh_now config.refresh_ttl_ms;
  }

  abbrev answered : NewToken → NewToken → AuthDb → Result AuthStoreError (AuthDb × RotatedTokens)
  answered a r s = ok (s, pair_of a r)

  abbrev then_refresh :
      NewToken → NewToken → AuthDb → Result AuthStoreError (AuthDb × RotatedTokens)
  then_refresh a r s =
      insert_token_row tenant device key r refresh
        (saturating_add_i64 refresh_now config.refresh_ttl_ms) s
      >>= answered a r

  insert_pair-rows :
      (a r : NewToken) (s s' : AuthDb) (t : RotatedTokens)
      → insert_pair now refresh_now a r tenant device key config s ≡ ok (s', t)
      → (has_token r.token_id (access_row a s ∷ s.tokens) ≡ false)
        × (record s { tokens = refresh_row r s ∷ access_row a s ∷ s.tokens } ≡ s')
        × (pair_of a r ≡ t)
  unfolding insert_pair insert_token_row access_row refresh_row binding_for
  insert_pair-rows a r s s' t h =
      let (s1, first, k) =
        >>=-eq-ok
          (insert_token_row tenant device key a access (saturating_add_i64 now config.access_ttl_ms)
            s)
          (then_refresh a r) h in
      let with_access : AuthDb = record s { tokens = access_row a s ∷ s.tokens } in
      let made =
        ok-injective
          (unless-eq-ok (has_token a.token_id s.tokens) AuthStoreError.db (ok with_access)
            first).1 in
      let (s2, second, done) =
        >>=-eq-ok
          (insert_token_row tenant device key r refresh
            (saturating_add_i64 refresh_now config.refresh_ttl_ms) with_access)
          (λ x. answered a r x) (subst (λ x. then_refresh a r x ≡ ok (s', t)) (sym made) k) in
      let (fresh, whole) =
        unless-eq-ok (has_token r.token_id with_access.tokens) AuthStoreError.db
          (ok (record s { tokens = refresh_row r s ∷ access_row a s ∷ s.tokens })) second in
      let both = ok-injective done in
      (
        fresh,
        ok-injective whole ∙ ap (λ (x : AuthDb × RotatedTokens). x.0) both,
        ap (λ (x : AuthDb × RotatedTokens). x.1) both,
      )

  -- What the store answers for the two bearer strings of a minted pair.
  pub record IsAccepted (ida idr : String) (s s' : AuthDb) (t : RotatedTokens) (later : ℕ)
      : Type 0 where
    pub as_access :
        later < t.access_expires_at
        → load_valid_token p later t.access_token access s'
          ≡ ok (some (grant ida tenant device key (binding_for tenant s)))
    pub as_refresh :
        later < t.refresh_expires_at
        → load_valid_token p later t.refresh_token refresh s'
          ≡ ok (some (grant idr tenant device key (binding_for tenant s)))
    pub access_only : load_valid_token p later t.access_token refresh s' ≡ ok none
    pub refresh_only : load_valid_token p later t.refresh_token access s' ≡ ok none

  read_back :
      (id : String) (secret : Bytes) (kind : TokenKind) (later : ℕ) (s : AuthDb)
      → IsMintable p id secret
      → load_valid_token p later (new_token p id secret).bearer kind s
        ≡ load_row p later secret kind s (find_token id s.tokens)
  unfolding load_valid_token
  read_back id secret kind later s m =
      rw (load_valid_token, parse_bearer-new_token p id secret m.dotless m.named m.sized m.decoded)
        refl

  pair-IsAccepted :
      (ida idr : String) (access_secret refresh_secret : Bytes) (s : AuthDb) (later : ℕ)
      → IsMintable p ida access_secret
      → IsMintable p idr refresh_secret
      → length key ≡ 32
      → has_token idr (access_row (new_token p ida access_secret) s ∷ s.tokens) ≡ false
      → IsAccepted ida idr s
          (record s {
            tokens =
                refresh_row (new_token p idr refresh_secret) s
                ∷ access_row (new_token p ida access_secret) s
                ∷ s.tokens;
          })
          (pair_of (new_token p ida access_secret) (new_token p idr refresh_secret))
          later
  unfolding access_row refresh_row new_token token_row find_token binding_for load_row admits
  pair-IsAccepted ida idr access_secret refresh_secret s later ma mr sized fresh =
      let other : str_eq idr ida ≡ false = ground (arith, fresh, eq_iff idr ida, eq_iff ida idr) in
      let a = new_token p ida access_secret in
      let r = new_token p idr refresh_secret in
      let s' : AuthDb = record s { tokens = refresh_row r s ∷ access_row a s ∷ s.tokens } in
      record {
        as_access = λ early.
            read_back ida access_secret access later s' ma
            ∙ rw (other, (eq_iff ida ida).1 refl)
                (load_row-fresh p later ida tenant device key access_secret access _ s s' refl early
                  sized);
        as_refresh = λ early.
            read_back idr refresh_secret refresh later s' mr
            ∙ rw ((eq_iff idr idr).1 refl) (
                load_row-fresh p later idr tenant device key refresh_secret refresh _ s s' refl
                  early sized);
        access_only =
            read_back ida access_secret refresh later s' ma
            ∙ rw (other, (eq_iff ida ida).1 refl) refl;
        refresh_only =
            read_back idr refresh_secret access later s' mr ∙ rw ((eq_iff idr idr).1 refl) refl;
      }

  -- A pair of tokens was minted with a 32-byte device key, ids that hold no dot and secrets that
  -- base64 gives back. In the store that the minting leaves, with nothing revoked or bound anew
  -- since, a clock that stands before the expiry of a token finds it accepted: its bearer string
  -- resolves to the tenant, the device and key, and the binding that the tenant had. At no time is
  -- either accepted in the place of the other.
  pub mint_pair-IsAccepted :
      (ida idr : String) (access_secret refresh_secret : Bytes) (s s' : AuthDb) (t : RotatedTokens)
      (later : ℕ)
      → IsMintable p ida access_secret
      → IsMintable p idr refresh_secret
      → length key ≡ 32
      → mint_pair now refresh_now
          (new_token p ida access_secret)
          (new_token p idr refresh_secret)
          tenant
          device
          key
          config
          s
        ≡ ok (s', t)
      → IsAccepted ida idr s s' t later
  unfolding mint_pair new_token
  mint_pair-IsAccepted ida idr access_secret refresh_secret s s' t later ma mr sized h =
      let a = new_token p ida access_secret in
      let r = new_token p idr refresh_secret in
      let (fresh, state, pair) = insert_pair-rows a r s s' t h in
      subst (λ x. IsAccepted ida idr s x t later) state
        (subst
          (λ x.
            IsAccepted ida idr s (record s { tokens = refresh_row r s ∷ access_row a s ∷ s.tokens })
              x later)
          pair (pair-IsAccepted ida idr access_secret refresh_secret s later ma mr sized fresh))
